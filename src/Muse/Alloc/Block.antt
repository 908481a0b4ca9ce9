-- ===== src/Muse/Alloc/Block.antt =====
-- The block that asignar_dir_memoria of muse/src/muse.c makes in a new segment.
use threaders.Base.{
  ℕ, ◌+◌, ◌-◌, ◌*◌, ◌/◌, ◌%◌, ◌≤◌, ◌<◌, ◌≡◌, refl, true, some, List, [], arith, ap, ◌∙◌, length,
  get_elem?, pos, if◌then◌else◌,
}
use native.Mathlib.Nat.{div-mul-le_self, suc-mul}
use threaders.Commons.{reference}
use threaders.Wire.Bytes.{Bytes, slice}
use threaders.Wire.Bytes.Splice.{spliced, slice-spliced}
use threaders.Muse.{
  Muse, Proceso, Segmento, reserva_of, existe_memoria_parar_paginas, asignar_paginas,
}
use threaders.Muse.Frames.{count, existe_memoria_parar_paginas-leb}
use threaders.Muse.Frames.Isolated.{Isolated}
use threaders.Muse.Free.{uint32_mod, int_limit}
use threaders.Muse.Alloc.{
  Recorrer, crear_nodo_segmento, heap_metadata, asignado, minus_one, finish_asignar, after_recorer,
  run_recorer, with_frames, with_pages, asignar_necesarias, asignar_dir_memoria,
}
use threaders.Muse.Alloc.Ends.{frame_fits, asignar_paginas-Ends, get-lt}
use threaders.Muse.Alloc.Headers.{
  pages_of, paginas_necesarias-pages_of, overwrite-five, headers_stored-some,
}

-- recorer_segmento_espacio_libre comes back and leaves as many bytes of memory as there were.
abbrev pub KeepsLength : Recorrer → Type 0
KeepsLength recorer =
    (m : Muse) (s : Segmento) (size : ℕ)
    → (memoria : Bytes) × (respuesta : ℕ) × (recorer m s size ≡ some (memoria, respuesta))
      × (length memoria ≡ length m.memoria)

-- What is known of a memory whose frames all lie in it, and of a block of `tam` bytes.
pub record Fits (page_size tam : ℕ) (m : Muse) : Type 0 where
  pub page : 16 ≤ page_size
  pub positive : tam + 5 < int_limit
  pub total : pages_of page_size tam * page_size < int_limit
  pub rest : tam + 10 ≤ pages_of page_size tam * page_size
  pub free : pages_of page_size tam ≤ count m.frames
  pub inside : length m.frames * page_size ≤ length m.memoria
  pub small : length m.memoria < int_limit
  pub isolated : Isolated (reserva_of m [])

-- The header that MALLOC writes five bytes behind the start of the block.
abbrev pub inner_header : ℕ → ℕ → Bytes
inner_header page_size tam =
    heap_metadata ((pages_of page_size tam * page_size + uint32_mod - 16) % uint32_mod) 1

-- A new segment gets its pages, and the block its address.
pub record Block (recorer : Recorrer) (page_size tam : ℕ) (m : Muse) : Type 0 where
  pub after : Muse
  pub segmento : Segmento
  pub frame : ℕ
  pub run :
      asignar_dir_memoria reference recorer page_size m (crear_nodo_segmento reference) tam
      ≡ asignado after segmento (frame * page_size + 5)
  pub free : get_elem? m.frames frame ≡ some true
  pub taken : count after.frames + pages_of page_size tam ≡ count m.frames
  pub isolated : Isolated (reserva_of after [])
  pub same_processes : after.lista_procesos ≡ m.lista_procesos
  pub size : length after.memoria ≡ length m.memoria
  pub inside : slice (5 + frame * page_size + 5) 5 after.memoria ≡ some (inner_header page_size tam)

module _ (recorer : Recorrer) (page_size tam : ℕ) (m : Muse) (keeps : KeepsLength recorer)
    (f : Fits page_size tam m) where
  abbrev pages : ℕ
  pages = pages_of page_size tam

  asignar-with_pages :
      asignar_dir_memoria reference recorer page_size m (crear_nodo_segmento reference) tam
      ≡ with_pages recorer page_size pages tam m
          (crear_nodo_segmento reference)
          (asignar_paginas reference pages (reserva_of m []))
  unfolding asignar_dir_memoria crear_nodo_segmento
  asignar-with_pages =
      let enough : existe_memoria_parar_paginas m.frames pages ≡ true =
        existe_memoria_parar_paginas-leb m.frames pages (omega arith) ∙ ground (arith, f.free) in
      ap (asignar_necesarias reference recorer page_size tam m (crear_nodo_segmento reference))
        (paginas_necesarias-pages_of page_size tam f.positive)
      ∙ ap
          (λ b.
            if b
            then with_pages recorer page_size pages tam m (crear_nodo_segmento reference)
                (asignar_paginas reference pages (reserva_of m []))
            else asignado m (crear_nodo_segmento reference) minus_one)
          enough

  pub asignar_dir_memoria-Block : Block recorer page_size tam m
  unfolding crear_nodo_segmento
  asignar_dir_memoria-Block =
      let e = asignar_paginas-Ends ((tam + 5) / page_size) (reserva_of m []) f.isolated f.free in
      let k = e.first in
      let l = e.final in
      let len = length m.memoria in
      let fits_k : k * page_size + page_size ≤ len =
        frame_fits k (length m.frames) page_size len (get-lt m.frames k true e.free) f.inside in
      let fits_l : l * page_size + page_size ≤ len =
        frame_fits l (length m.frames) page_size len e.below f.inside in
      let over : pages * page_size ≤ tam + 5 + page_size =
        omega
          (arith, suc-mul ((tam + 5) / page_size) page_size, div-mul-le_self (tam + 5) page_size) in
      let s : Segmento = record {
        base = 0;
        tamanio = pages * page_size - 1;
        list_paginas = e.after.list_paginas;
      } in
      let m1 = record m { frames = e.after.frames; paginas = e.after.paginas } in
      let (mem, hrun, hlen) =
        headers_stored-some page_size pages tam k l m.memoria f.rest (omega (arith, f.total)) over
          (omega (arith, fits_k, f.page)) fits_l in
      let stored = record m1 { memoria = mem } in
      let (mem2, resp, rrun, rlen) = keeps stored s 5 in
      let v = inner_header page_size tam in
      let o =
        overwrite-five (5 + k * page_size + 5) v mem2 refl
          (omega (arith, fits_k, f.page, rlen, hlen)) in
      let mem3 = spliced (5 + k * page_size + 5) v mem2 in
      let ptr : (k * page_size + 5) % uint32_mod ≡ k * page_size + 5 =
        omega (arith, fits_k, f.small, f.page) in
      record {
        after = record stored { memoria = mem3 };
        segmento = s;
        frame = k;
        run =
            asignar-with_pages
            ∙ ap (with_pages recorer page_size pages tam m (crear_nodo_segmento reference)) e.run
            ∙ ap (λ p. with_frames recorer page_size pages tam m1 s p e.after.frame_libre) e.primer
            ∙ ap (with_frames recorer page_size pages tam m1 s (some (pos k))) e.last
            ∙ ap (run_recorer recorer page_size pages k m1 s) hrun
            ∙ ap (after_recorer page_size pages k stored s) rrun
            ∙ ap (finish_asignar page_size k stored s) o.0
            ∙ ap (asignado (record stored { memoria = mem3 }) s) ptr;
        free = e.free;
        taken = e.taken;
        isolated = record {
          equal = e.isolated.equal;
          backed = e.isolated.backed;
          apart = e.isolated.apart;
        };
        same_processes = refl;
        size = o.1 ∙ rlen ∙ hlen;
        inside =
            slice-spliced (5 + k * page_size + 5) 5 v mem2
              (omega (arith, fits_k, f.page, rlen, hlen)) (omega arith);
      }

pub Fits-processes :
    (page_size tam : ℕ) (m : Muse) (l : List Proceso)
    → Fits page_size tam m
    → Fits page_size tam (record m { lista_procesos = l })
Fits-processes page_size tam m l f = record {
  page = f.page;
  positive = f.positive;
  total = f.total;
  rest = f.rest;
  free = f.free;
  inside = f.inside;
  small = f.small;
  isolated = record {
    equal = f.isolated.equal;
    backed = f.isolated.backed;
    apart = f.isolated.apart;
  };
}
