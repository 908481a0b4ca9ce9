-- ===== src/Muse/Alloc/First.antt =====
-- The first MALLOC of a process in muse/src/muse.c: where the block lies, and what is written into it.
use threaders.Base.{ℕ, ◌+◌, ◌*◌, ◌≡◌, true, some, [], arith, ap, ◌∙◌, length, get_elem?}
use threaders.Commons.{Commons, Documented, reference, for_documented}
use threaders.Wire.Bytes.{slice}
use threaders.Wire.Protocol.{malloc_ok, t_malloc_ok}
use threaders.Wire.Message.{utils_serialize_and_send}
use threaders.Muse.{Muse, reserva_of, procesar_id}
use threaders.Muse.Users.{procesar_id-only}
use threaders.Muse.Frames.{count}
use threaders.Muse.Frames.Isolated.{Isolated}
use threaders.Muse.Alloc.{Recorrer, allocated, add_segmento, add_asignado, malloc_in, handle_malloc}
use threaders.Muse.Alloc.Headers.{pages_of}
use threaders.Muse.Alloc.Block.{
  KeepsLength, Fits, inner_header, asignar_dir_memoria-Block, Fits-processes,
}

-- What the first MALLOC of a process does.
pub record FirstBlock (c : Commons) (recorer : Recorrer) (page_size : ℕ) (m : Muse) (tam id : ℕ)
    : Type 0 where
  pub after : Muse
  pub frame : ℕ
  pub run :
      handle_malloc c recorer page_size m tam id
      ≡ allocated after (utils_serialize_and_send malloc_ok (t_malloc_ok (frame * page_size + 5)))
  pub free : get_elem? m.frames frame ≡ some true
  pub taken : count after.frames + pages_of page_size tam ≡ count m.frames
  pub isolated : Isolated (reserva_of after [])
  pub size : length after.memoria ≡ length m.memoria
  pub inside : slice (frame * page_size + 10) 5 after.memoria ≡ some (inner_header page_size tam)

first-FirstBlock :
    (recorer : Recorrer) (page_size tam : ℕ) (m : Muse) (id : ℕ)
    → KeepsLength recorer
    → Fits page_size tam m
    → (procesar_id reference m id).1.list_segmento ≡ []
    → FirstBlock reference recorer page_size m tam id
unfolding handle_malloc
first-FirstBlock recorer page_size tam m id keeps f none_yet =
    let (l, e) = procesar_id-only reference m id in
    let known = record m { lista_procesos = l } in
    let nodo = (procesar_id reference m id).1 in
    let b =
      asignar_dir_memoria-Block recorer page_size tam known keeps
        (Fits-processes page_size tam m l f) in
    let procesos = add_segmento reference b.after.lista_procesos id b.segmento in
    record {
      after = record b.after { lista_procesos = procesos };
      frame = b.frame;
      run =
          ap (λ x. malloc_in reference recorer page_size tam id (x, nodo)) e
          ∙ ap
              (λ segs.
                malloc_in reference recorer page_size tam id
                  (known, record nodo { list_segmento = segs }))
              none_yet
          ∙ ap (add_asignado reference recorer page_size id) b.run;
      free = b.free;
      taken = b.taken;
      isolated = record {
        equal = b.isolated.equal;
        backed = b.isolated.backed;
        apart = b.isolated.apart;
      };
      size = b.size;
      inside = ap (λ i. slice i 5 b.after.memoria) (omega arith) ∙ b.inside;
    }

-- With the list operations as documented, for a process without a segment, where the pages that
-- the block needs are free, the frames all lie in the memory, pages have at least 16 bytes, at
-- least five bytes are left behind the block in its last page, sizes are positive as `int`, no
-- two pages share a frame, and recorer_segmento_espacio_libre comes back and keeps the memory's
-- size: MALLOC answers with an address five bytes into a frame that was free, takes the pages
-- that it needs, and again no two pages share a frame; but five bytes behind that address, in the
-- block if it has ten bytes, it has written a header of a free block.
pub handle_malloc-FirstBlock :
    {c : Commons}
    → Documented c
    → (recorer : Recorrer) (page_size : ℕ) (m : Muse) (tam id : ℕ) → KeepsLength recorer
    → Fits page_size tam m
    → (procesar_id c m id).1.list_segmento ≡ []
    → FirstBlock c recorer page_size m tam id
handle_malloc-FirstBlock d recorer page_size m tam id keeps f =
    for_documented
      (λ c. (procesar_id c m id).1.list_segmento ≡ [] → FirstBlock c recorer page_size m tam id) d
      (first-FirstBlock recorer page_size tam m id keeps f)
