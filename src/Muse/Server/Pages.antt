-- ===== src/Muse/Server/Pages.antt =====
-- The invariant of frames and pages through the handler of MALLOC of muse/src/muse.c.
use threaders.Base.{
  ◌+◌, ◌*◌, ◌%◌, ◌-◌, ◌∙◌, ℕ, zero, suc, ◌≡◌, refl, Bool, true, Option, none, some, [], ℤ, pos,
  negsuc, arith, sym, ◌==◌, if◌then◌else◌, subst, inl, inr, Bool-cases,
}
use threaders.Commons.{Commons, Documented}
use threaders.Wire.Bytes.{Bytes}
use threaders.Muse.{
  Muse, Segmento, Reserva, reserva_of, procesar_id, existe_memoria_parar_paginas, asignar_paginas,
}
use threaders.Muse.Frames.Isolated.{Isolated, asignar_paginas-Taken}
use threaders.Muse.Frames.{some_injective}
use threaders.Muse.Free.{uint32_mod}
use threaders.Muse.Alloc.{
  minus_one, Recorrer, Asignado, asignado, asignar_fault, Allocated, allocated, alloc_fault,
  paginas_necesarias, finish_asignar, after_recorer, run_recorer, with_frames, with_pages,
  asignar_necesarias, asignar_dir_memoria, add_asignado, send_recorrido, recorrer_ultimo,
  handle_malloc, crear_nodo_segmento,
}
use threaders.Muse.Server.Sound.{Sound, either_way, vectors-Isolated, known-Sound}

abbrev SoundAsignado : Asignado → Type 0
SoundAsignado (asignado m s ptr) = Sound m
SoundAsignado asignar_fault = Unit {0}

abbrev pub SoundAllocated : Allocated → Type 0
SoundAllocated (allocated m o) = Sound m
SoundAllocated alloc_fault = Unit {0}

module _ (recorer : Recorrer) (page_size : ℕ) where
  finish_asignar-Sound :
      (primer : ℕ) (m : Muse) (s : Segmento) (o : Option Bytes)
      → Sound m
      → SoundAsignado (finish_asignar page_size primer m s o)
  finish_asignar-Sound primer m s none v = tt
  finish_asignar-Sound primer m s (some memoria) v = v

  after_recorer-Sound :
      (n primer : ℕ) (m : Muse) (s : Segmento) (o : Option (Bytes × ℕ))
      → Sound m
      → SoundAsignado (after_recorer page_size n primer m s o)
  after_recorer-Sound n primer m s none v = tt
  after_recorer-Sound n primer m s (some (memoria, respuesta)) v =
      finish_asignar-Sound primer m s _ v

  run_recorer-Sound :
      (n primer : ℕ) (m : Muse) (s : Segmento) (o : Option Bytes)
      → Sound m
      → SoundAsignado (run_recorer recorer page_size n primer m s o)
  run_recorer-Sound n primer m s none v = tt
  run_recorer-Sound n primer m s (some memoria) v =
      let stored = record m { memoria = memoria } in
      after_recorer-Sound n primer stored s (recorer stored s 5) v

  with_frames-Sound :
      (n reservar : ℕ) (m : Muse) (s : Segmento) (a b : Option ℤ)
      → Sound m
      → SoundAsignado (with_frames recorer page_size n reservar m s a b)
  with_frames-Sound n reservar m s none b v = tt
  with_frames-Sound n reservar m s (some (negsuc k)) b v = tt
  with_frames-Sound n reservar m s (some (pos k)) none v = tt
  with_frames-Sound n reservar m s (some (pos k)) (some (negsuc j)) v = tt
  with_frames-Sound n reservar m s (some (pos k)) (some (pos j)) v = run_recorer-Sound n k m s _ v

  module _ {c : Commons} (d : Documented c) where
    with_pages-Sound :
        (n reservar : ℕ) (m : Muse) (s : Segmento) (o : Option Reserva)
        → ((r : Reserva) → o ≡ some r → Isolated r)
        → SoundAsignado (with_pages recorer page_size n reservar m s o)
    with_pages-Sound n reservar m s none h = tt
    with_pages-Sound n reservar m s (some r) h =
        with_frames-Sound n reservar (record m { frames = r.frames; paginas = r.paginas })
          (record s { list_paginas = r.list_paginas; tamanio = n * page_size - 1 })
          r.primer_frame_libre r.frame_libre (vectors-Isolated r m [] (h r refl))

    taken_pages :
        (n : ℕ) (r r' : Reserva)
        → Isolated r
        → existe_memoria_parar_paginas r.frames n ≡ true
        → asignar_paginas c n r ≡ some r'
        → Isolated r'
    unfolding asignar_paginas
    taken_pages zero r r' v e h = subst Isolated (some_injective r r' h) v
    taken_pages (suc n) r r' v e h =
        let t = asignar_paginas-Taken d (suc n) r v (omega arith) e in
        subst Isolated (some_injective t.after r' (sym t.run ∙ h)) t.isolated

    asignar_necesarias-Sound :
        (reservar : ℕ) (m : Muse) (s : Segmento) (n : ℤ)
        → Sound m
        → SoundAsignado (asignar_necesarias c recorer page_size reservar m s n)
    asignar_necesarias-Sound reservar m s (negsuc n) v = v
    asignar_necesarias-Sound reservar m s (pos n) v =
        let r = reserva_of m s.list_paginas in
        let paged = with_pages recorer page_size n reservar m s (asignar_paginas c n r) in
        let branches : Bool → Asignado = λ b. if b then paged else asignado m s minus_one in
        let whole : Isolated r = vectors-Isolated (reserva_of m []) m s.list_paginas v in
        elim (Bool-cases (existe_memoria_parar_paginas m.frames n)) [
          | inr f ↦ subst (λ b. SoundAsignado (branches b)) (sym f) v
          | inl t ↦
              subst (λ b. SoundAsignado (branches b)) (sym t)
                (with_pages-Sound n reservar m s (asignar_paginas c n r)
                  (λ r' h. taken_pages n r r' whole t h))
        ]

    asignar_dir_memoria-Sound :
        (m : Muse) (s : Segmento) (reservar : ℕ)
        → Sound m
        → SoundAsignado (asignar_dir_memoria c recorer page_size m s reservar)
    unfolding asignar_dir_memoria
    asignar_dir_memoria-Sound m s reservar v =
        either_way SoundAsignado (c.list_size ℤ s.list_paginas == 0)
          (asignar_necesarias c recorer page_size reservar m s
            (paginas_necesarias page_size reservar))
          (asignado m s ((uint32_mod + 5 - page_size % uint32_mod) % uint32_mod))
          (asignar_necesarias-Sound reservar m s (paginas_necesarias page_size reservar) v) v

    add_asignado-Sound :
        (id : ℕ) (a : Asignado)
        → SoundAsignado a
        → SoundAllocated (add_asignado c recorer page_size id a)
    add_asignado-Sound id asignar_fault v = tt
    add_asignado-Sound id (asignado m s ptr) v = v

    send_recorrido-Sound :
        (m : Muse) (o : Option (Bytes × ℕ))
        → Sound m
        → SoundAllocated (send_recorrido c recorer page_size m o)
    send_recorrido-Sound m none v = tt
    send_recorrido-Sound m (some (memoria, ptr)) v = v

    recorrer_ultimo-Sound :
        (m : Muse) (tam : ℕ) (o : Option Segmento)
        → Sound m
        → SoundAllocated (recorrer_ultimo c recorer page_size m tam o)
    recorrer_ultimo-Sound m tam none v = tt
    recorrer_ultimo-Sound m tam (some s) v = send_recorrido-Sound m (recorer m s tam) v

    pub handle_malloc-Sound :
        (m : Muse) (tam id : ℕ)
        → Sound m
        → SoundAllocated (handle_malloc c recorer page_size m tam id)
    unfolding handle_malloc
    handle_malloc-Sound m tam id v =
        let (known, nodo) = procesar_id c m id in
        let cantidad = c.list_size Segmento nodo.list_segmento in
        let a = asignar_dir_memoria c recorer page_size known (crear_nodo_segmento c) tam in
        let ultimo = c.list_get Segmento nodo.list_segmento (cantidad - 1) in
        let k = known-Sound c m id v in
        either_way SoundAllocated (cantidad == 0) (add_asignado c recorer page_size id a)
          (recorrer_ultimo c recorer page_size known tam ultimo)
          (add_asignado-Sound id a (asignar_dir_memoria-Sound known (crear_nodo_segmento c) tam k))
          (recorrer_ultimo-Sound known tam ultimo k)
