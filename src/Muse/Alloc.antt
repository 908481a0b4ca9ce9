-- ===== src/Muse/Alloc.antt =====
-- asignar_dir_memoria and the handler of MALLOC of muse/src/muse.c. The text of
-- recorer_segmento_espacio_libre does not compile, so it is an argument here, of any behaviour: for
-- the state, a segment and a size, the memory that it leaves and the address that it returns, as 32
-- bits; `none` if it faults or does not return.
pub mod Ends
pub mod Headers
pub mod Block
pub mod First
pub mod Full
use threaders.Base.{
  ℕ, zero, suc, ◌+◌, ◌-◌, ◌*◌, ◌/◌, ◌%◌, Bool, true, false, Option, none, some, List, [], ◌∷◌, ◌++◌,
  ℤ, pos, negsuc, sub_ℕ, length, leb, ltb, ◌==◌, if◌then◌else◌,
}
use threaders.Commons.{Commons}
use threaders.Wire.Bytes.{Bytes, le, overwrite}
use threaders.Wire.Protocol.{malloc_ok, t_malloc_ok}
use threaders.Wire.Message.{utils_serialize_and_send}
use threaders.Muse.{
  Muse, Proceso, Segmento, Reserva, reserva_of, existe_memoria_parar_paginas, asignar_paginas,
  procesar_id,
}
use threaders.Muse.Free.{uint32_mod, int_limit}

abbrev pub Recorrer : Type 0
Recorrer = Muse → Segmento → ℕ → Option (Bytes × ℕ)

unfoldable pub crear_nodo_segmento : Commons → Segmento
crear_nodo_segmento c = record { base = 0; tamanio = 0; list_paginas = c.list_create ℤ }

-- The `int` of memoria_reservar + 5, divided by the page size, and one more.
unfoldable pub paginas_necesarias : ℕ → ℕ → ℤ
paginas_necesarias page_size reservar =
    let reservar2 = (reservar + 5) % uint32_mod in
    if ltb reservar2 int_limit
    then pos (reservar2 / page_size + 1)
    else sub_ℕ 1 ((uint32_mod - reservar2) / page_size)

-- The bytes of a t_heapMetadata, with a size of 32 bits.
abbrev pub heap_metadata : ℕ → ℕ → Bytes
heap_metadata size libre = le 4 size ++ libre ∷ []

-- What asignar_dir_memoria leaves and returns: the state, the segment, the address as 32 bits.
pub data Asignado : Type 0 where
  asignado : Muse → Segmento → ℕ → Asignado
  asignar_fault : Asignado

-- How a MALLOC ends: the state, and the bytes that are sent.
pub data Allocated : Type 0 where
  allocated : Muse → Option Bytes → Allocated
  alloc_fault : Allocated

abbrev pub minus_one : ℕ
minus_one = 4294967295

abbrev pub and_store_at : Option Bytes → Option ℕ → Bytes → Option Bytes
and_store_at none i v = none
and_store_at (some m) none v = none
and_store_at (some m) (some i) v = overwrite i v m

-- cantidad_paginas_necesarias * muse_page_size() - memoria_reservar - 5, as 32 bits.
abbrev pub bytes_sobran : ℕ → ℕ → ℕ → ℕ
bytes_sobran page_size n reservar =
    (n * page_size + uint32_mod - (reservar + 5) % uint32_mod) % uint32_mod

-- frameLibre * muse_page_size() + (muse_page_size() - bytes_sobran); `none` before the memory.
abbrev pub dir_proxima : ℕ → ℕ → ℕ → Option ℕ
dir_proxima page_size frame sobran =
    if leb sobran (frame * page_size + page_size)
    then some (frame * page_size + page_size - sobran)
    else none

-- The two headers that stand before the call of recorer_segmento_espacio_libre: the block, in use, and the
-- bytes that it leaves of its last page, free.
abbrev pub headers_stored : ℕ → ℕ → ℕ → ℕ → ℕ → Bytes → Option Bytes
headers_stored page_size n reservar primer frame memoria =
    let sobran = bytes_sobran page_size n reservar in
    and_store_at (overwrite (primer * page_size) (heap_metadata reservar 0) memoria)
      (dir_proxima page_size frame sobran)
      (heap_metadata ((sobran + uint32_mod - 6) % uint32_mod) 1)

abbrev pub finish_asignar : ℕ → ℕ → Muse → Segmento → Option Bytes → Asignado
finish_asignar page_size primer m s none = asignar_fault
finish_asignar page_size primer m s (some memoria) =
    asignado (record m { memoria = memoria }) s ((primer * page_size + 5) % uint32_mod)

-- After the call, memoria_reservar is 5: a third header, free, goes five bytes behind the first.
abbrev pub after_recorer : ℕ → ℕ → ℕ → Muse → Segmento → Option (Bytes × ℕ) → Asignado
after_recorer page_size n primer m s none = asignar_fault
after_recorer page_size n primer m s (some (memoria, respuesta)) =
    finish_asignar page_size primer m s (
      overwrite (5 + primer * page_size + 5)
        (heap_metadata ((n * page_size + uint32_mod - 16) % uint32_mod) 1) memoria)

abbrev pub run_recorer : Recorrer → ℕ → ℕ → ℕ → Muse → Segmento → Option Bytes → Asignado
run_recorer recorer page_size n primer m s none = asignar_fault
run_recorer recorer page_size n primer m s (some memoria) =
    let stored = record m { memoria = memoria } in
    after_recorer page_size n primer stored s (recorer stored s 5)

-- With no page taken `primerFrameLibre` and `frameLibre` were never set.
abbrev pub with_frames : Recorrer → ℕ → ℕ → ℕ → Muse → Segmento → Option ℤ → Option ℤ → Asignado
with_frames recorer page_size n reservar m s (some (pos primer)) (some (pos frame)) =
    run_recorer recorer page_size n primer m s
      (headers_stored page_size n reservar primer frame m.memoria)
with_frames recorer page_size n reservar m s _ _ = asignar_fault

abbrev pub with_pages : Recorrer → ℕ → ℕ → ℕ → Muse → Segmento → Option Reserva → Asignado
with_pages recorer page_size n reservar m s none = asignar_fault
with_pages recorer page_size n reservar m s (some r) =
    with_frames recorer page_size n reservar (record m { frames = r.frames; paginas = r.paginas })
      (record s { list_paginas = r.list_paginas; tamanio = n * page_size - 1 }) r.primer_frame_libre
      r.frame_libre

-- The first process of the list with this id is the node that procesar_id returned.
unfoldable pub add_segmento : Commons → List Proceso → ℕ → Segmento → List Proceso
add_segmento c [] id s = []
add_segmento c (p ∷ ps) id s =
    if p.id == id
    then record p { list_segmento = c.list_add Segmento p.list_segmento s } ∷ ps
    else p ∷ add_segmento c ps id s

module _ (c : Commons) (recorer : Recorrer) (page_size : ℕ) where
  -- The test counts up to the number and finds no negative one.
  abbrev pub asignar_necesarias : ℕ → Muse → Segmento → ℤ → Asignado
  asignar_necesarias reservar m s (negsuc n) = asignado m s minus_one
  asignar_necesarias reservar m s (pos n) =
      if existe_memoria_parar_paginas m.frames n
      then with_pages recorer page_size n reservar m s
          (asignar_paginas c n (reserva_of m s.list_paginas))
      else asignado m s minus_one

  -- For a segment with pages `pagina` stays -1.
  unfoldable pub asignar_dir_memoria : Muse → Segmento → ℕ → Asignado
  asignar_dir_memoria m s reservar =
      if c.list_size ℤ s.list_paginas == 0
      then asignar_necesarias reservar m s (paginas_necesarias page_size reservar)
      else asignado m s ((uint32_mod + 5 - page_size % uint32_mod) % uint32_mod)

  abbrev pub send_allocated : Muse → ℕ → Allocated
  send_allocated m ptr = allocated m (utils_serialize_and_send malloc_ok (t_malloc_ok ptr))

  -- A segment is added whatever the address is, -1 included.
  abbrev pub add_asignado : ℕ → Asignado → Allocated
  add_asignado id asignar_fault = alloc_fault
  add_asignado id (asignado m s ptr) =
      send_allocated (record m { lista_procesos = add_segmento c m.lista_procesos id s }) ptr

  abbrev pub send_recorrido : Muse → Option (Bytes × ℕ) → Allocated
  send_recorrido m none = alloc_fault
  send_recorrido m (some (memoria, ptr)) = send_allocated (record m { memoria = memoria }) ptr

  abbrev pub recorrer_ultimo : Muse → ℕ → Option Segmento → Allocated
  recorrer_ultimo m tam none = alloc_fault
  recorrer_ultimo m tam (some s) = send_recorrido m (recorer m s tam)

  abbrev pub malloc_in : ℕ → ℕ → Muse × Proceso → Allocated
  malloc_in tam id (m, nodo) =
      let cantidad = c.list_size Segmento nodo.list_segmento in
      if cantidad == 0
      then add_asignado id (asignar_dir_memoria m (crear_nodo_segmento c) tam)
      else recorrer_ultimo m tam (c.list_get Segmento nodo.list_segmento (cantidad - 1))

  unfoldable pub handle_malloc : Muse → ℕ → ℕ → Allocated
  handle_malloc m tam id_libmuse = malloc_in tam id_libmuse (procesar_id c m id_libmuse)
