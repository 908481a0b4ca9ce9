-- ===== src/Muse/Alloc/Full.antt =====
-- A first MALLOC in muse/src/muse.c for which no memory is left, and what follows for its process.
use threaders.Base.{
  ℕ, suc, ◌+◌, ◌<◌, ◌≡◌, Bool, false, some, List, [], ◌∷◌, ◌++◌, arith, sym, ap, ◌∙◌, ◌==◌,
  if◌then◌else◌, inl, inr, Bool-cases,
}
use threaders.Commons.{
  Commons, Documented, reference, reference-Documented, for_documented, find_first,
}
use threaders.Wire.Bytes.{Bytes}
use threaders.Wire.Protocol.{malloc_ok, t_malloc_ok}
use threaders.Wire.Message.{utils_serialize_and_send}
use threaders.Muse.{
  Muse, Proceso, Segmento, Pagina, existe_memoria_parar_paginas, existe_proceso_en_lista,
  procesar_id, asignar_paginas, reserva_of,
}
use threaders.Muse.Users.{procesar_id-Known, procesar_id-only, procesar_id-some}
use threaders.Muse.Frames.{count, existe_memoria_parar_paginas-leb}
use threaders.Muse.Free.{int_limit}
use threaders.Muse.Alloc.{
  Recorrer, crear_nodo_segmento, asignado, allocated, minus_one, with_pages, asignar_necesarias,
  asignar_dir_memoria, add_segmento, add_asignado, send_recorrido, malloc_in, handle_malloc,
}
use threaders.Muse.Alloc.Headers.{pages_of, paginas_necesarias-pages_of}

-- The process is found with its new segment.
find-add_segmento :
    (l : List Proceso) (id : ℕ) (s : Segmento) (p : Proceso)
    → find_first l (λ q. q.id == id) ≡ some p
    → p.list_segmento ≡ []
    → find_first (add_segmento reference l id s) (λ q. q.id == id)
      ≡ some (record p { list_segmento = s ∷ [] })
unfolding add_segmento
find-add_segmento [] id s p h e = absurd (cc h)
find-add_segmento (q ∷ l) id s p h e =
    let test : Proceso → Bool = λ x. x.id == id in
    let new = record q { list_segmento = q.list_segmento ++ s ∷ [] } in
    let rest = add_segmento reference l id s in
    elim (Bool-cases (q.id == id)) [
      | inl t ↦
          let run : find_first (q ∷ l) test ≡ some q = ground arith in
          let both : some q ≡ some p = sym run ∙ h in
          let qp : q ≡ p = cc both in
          let hit : find_first (new ∷ l) test ≡ some new = ground arith in
          ap (λ b. find_first (if b then new ∷ l else q ∷ rest) test) t
          ∙ hit
          ∙ ap (λ (x : Proceso). some (record x { list_segmento = x.list_segmento ++ s ∷ [] })) qp
          ∙ ap (λ (segs : List Segmento). some (record p { list_segmento = segs ++ s ∷ [] })) e
      | inr f ↦
          let run : find_first (q ∷ l) test ≡ find_first l test = ground arith in
          let pass : find_first (q ∷ rest) test ≡ find_first rest test = ground arith in
          ap (λ b. find_first (if b then new ∷ l else q ∷ rest) test) f
          ∙ pass
          ∙ find-add_segmento l id s p (sym run ∙ h) e
    ]

-- A MALLOC that finds no memory, and any later one of the process, for any memory and frames.
pub record Refused (c : Commons) (recorer : Recorrer) (page_size : ℕ) (m : Muse) (tam id later : ℕ)
    (memoria : Bytes) (frames : List Bool) (paginas : List Pagina) : Type 0 where
  pub procesos : List Proceso
  pub run :
      handle_malloc c recorer page_size m tam id
      ≡ allocated
          (record m { lista_procesos = procesos })
          (utils_serialize_and_send malloc_ok (t_malloc_ok minus_one))
  pub again :
      let x : Muse = record {
        memoria = memoria;
        frames = frames;
        paginas = paginas;
        lista_procesos = procesos;
      } in
      handle_malloc c recorer page_size x later id
      ≡ send_recorrido c recorer page_size x (recorer x (crear_nodo_segmento c) later)

Refused-known :
    (recorer : Recorrer) (page_size : ℕ) (m : Muse) (tam id later : ℕ) (memoria : Bytes)
    (frames : List Bool) (paginas : List Pagina)
    → tam + 5 < int_limit
    → count m.frames < pages_of page_size tam
    → (procesar_id reference m id).1.list_segmento ≡ []
    → Refused reference recorer page_size m tam id later memoria frames paginas
unfolding handle_malloc asignar_dir_memoria crear_nodo_segmento existe_proceso_en_lista
Refused-known recorer page_size m tam id later memoria frames paginas small full none_yet =
    let (l, e) = procesar_id-only reference m id in
    let known = record m { lista_procesos = l } in
    let nodo = (procesar_id reference m id).1 in
    let seg = crear_nodo_segmento reference in
    let n = pages_of page_size tam in
    let no : existe_memoria_parar_paginas m.frames n ≡ false =
      existe_memoria_parar_paginas-leb m.frames n (omega arith) ∙ ground arith in
    let made : asignar_dir_memoria reference recorer page_size known seg tam
        ≡ asignado known seg minus_one =
      ap (asignar_necesarias reference recorer page_size tam known seg)
        (paginas_necesarias-pages_of page_size tam small)
      ∙ ap
          (λ b.
            if b
            then with_pages recorer page_size n tam known seg
                (asignar_paginas reference n (reserva_of known []))
            else asignado known seg minus_one)
          no in
    let procesos = add_segmento reference l id seg in
    let x : Muse = record {
      memoria = memoria;
      frames = frames;
      paginas = paginas;
      lista_procesos = procesos;
    } in
    let there : find_first l (λ q. q.id == id) ≡ some nodo =
      ap (λ y. find_first y.lista_procesos (λ q. q.id == id)) (sym e)
      ∙ (procesar_id-Known (reference-Documented) m id (suc id) (λ z. omega arith)).1 in
    let with_seg : Proceso = record nodo { list_segmento = seg ∷ [] } in
    let found : procesar_id reference x id ≡ (x, with_seg) =
      procesar_id-some reference x id with_seg (find-add_segmento l id seg nodo there none_yet) in
    record {
      procesos = procesos;
      run =
          ap (λ y. malloc_in reference recorer page_size tam id (y, nodo)) e
          ∙ ap
              (λ segs.
                malloc_in reference recorer page_size tam id
                  (known, record nodo { list_segmento = segs }))
              none_yet
          ∙ ap (add_asignado reference recorer page_size id) made;
      again = ap (malloc_in reference recorer page_size later id) found;
    }

-- With the list operations as documented, where a process without a segment asks for more pages than are free,
-- MALLOC answers MALLOC_OK with the address 2^32 - 1 and leaves memory, frames and pages as they are. But the
-- process has got a segment without pages, so that every later MALLOC of it, whatever memory is free then, is
-- left to recorer_segmento_espacio_libre on that segment.
pub handle_malloc-Refused :
    {c : Commons}
    → Documented c
    → (recorer : Recorrer) (page_size : ℕ) (m : Muse) (tam id later : ℕ) (memoria : Bytes)
      (frames : List Bool) (paginas : List Pagina)
    → tam + 5 < int_limit
    → count m.frames < pages_of page_size tam
    → (procesar_id c m id).1.list_segmento ≡ []
    → Refused c recorer page_size m tam id later memoria frames paginas
handle_malloc-Refused d recorer page_size m tam id later memoria frames paginas small full =
    for_documented
      (λ c.
        (procesar_id c m id).1.list_segmento ≡ []
        → Refused c recorer page_size m tam id later memoria frames paginas)
      d (Refused-known recorer page_size m tam id later memoria frames paginas small full)
