-- ===== src/Muse.antt =====
-- muse/src/muse.c: the memory server. Frames and pages, the processes that it knows, and below the
-- handlers of MALLOC, MEMFREE, GET and COPY. The memory is a list of bytes, and an access outside it is a fault. Log
-- lines are left out. The list operations are those of `Commons`.
pub mod Frames
pub mod Users
pub mod Access
pub mod Free
pub mod Alloc
pub mod Server
pub mod Main
pub mod Estado
mod Examples
use threaders.Base.{
  ℕ, zero, suc, ◌+◌, ◌-◌, ◌*◌, ◌/◌, Bool, true, false, Option, none, some, List, [], ◌∷◌, ◌++◌,
  length, ℤ, pos, negsuc, ltb, ◌==◌, if◌then◌else◌,
}
use threaders.Commons.{Commons}
use threaders.Wire.Bytes.{Bytes}

-- t_vector_atributo_paginas
pub record Pagina : Type 0 where
  pub libre : Bool
  pub frame : ℤ
  pub presencia : Bool
  pub uso : ℕ
  pub modificado : ℕ

-- t_nodo_segmento; a page is its index into `paginas`. A process owns its segments.
pub record Segmento : Type 0 where
  pub base : ℕ
  pub tamanio : ℕ
  pub list_paginas : List ℤ

-- t_nodo_proceso
pub record Proceso : Type 0 where
  pub id : ℕ
  pub list_segmento : List Segmento

-- The global variables; the two vectors have cantidad_paginas_totales entries, of which `frames`
-- keeps the field `libre`.
pub record Muse : Type 0 where
  pub memoria : Bytes
  pub frames : List Bool
  pub paginas : List Pagina
  pub lista_procesos : List Proceso

abbrev pub free_page : Pagina
free_page = record { libre = true; frame = negsuc 0; presencia = true; uso = 0; modificado = 0 }

abbrev pub filled {ℓ} : {A : Type ℓ} → ℕ → A → List A
filled zero a = []
filled (suc n) a = a ∷ filled n a

-- The configured sizes; the page size is not 0. `alloc n` is what malloc(n) returns.
module _ (c : Commons) where
  unfoldable pub muse_init : (ℕ → Bytes) → ℕ → ℕ → ℕ → Muse
  muse_init alloc memory_size page_size swap_size =
      let total = memory_size / page_size + swap_size / page_size in
      record {
        memoria = alloc memory_size;
        frames = filled total true;
        paginas = filled total free_page;
        lista_procesos = c.list_create Proceso;
      }

  unfoldable pub crear_nodo : ℕ → Proceso
  crear_nodo id = record { id = id; list_segmento = c.list_create Segmento }

  unfoldable pub existe_proceso_en_lista : Muse → ℕ → Option Proceso
  existe_proceso_en_lista m id = c.list_find Proceso m.lista_procesos (λ p. p.id == id)

  abbrev pub found_or_new : Muse → ℕ → Option Proceso → Muse × Proceso
  found_or_new m id (some p) = (m, p)
  found_or_new m id none = (
    record m { lista_procesos = c.list_add Proceso m.lista_procesos (crear_nodo id) },
    crear_nodo id,
  )

  unfoldable pub procesar_id : Muse → ℕ → Muse × Proceso
  procesar_id m id = found_or_new m id (existe_proceso_en_lista m id)

-- The first index from `i` on whose entry is free, or -1.
unfoldable pub first_libre : ℕ → List Bool → ℤ
first_libre i [] = negsuc 0
first_libre i (l ∷ ls) = if l then pos i else first_libre (i + 1) ls

unfoldable pub asignar_frame_libre : List Bool → ℤ
asignar_frame_libre frames = first_libre 0 frames

unfoldable pub first_pagina : ℕ → List Pagina → ℤ
first_pagina i [] = negsuc 0
first_pagina i (p ∷ ps) = if p.libre then pos i else first_pagina (i + 1) ps

unfoldable pub asignar_indice_vector_libre : List Pagina → ℤ
asignar_indice_vector_libre paginas = first_pagina 0 paginas

-- The loop of existe_memoria_parar_paginas, with its counter.
unfoldable pub contar : List Bool → ℕ → ℕ → ℕ
contar [] n contador = contador
contar (l ∷ ls) n contador =
    let next = if l then contador + 1 else contador in
    let rest = contar ls n next in if next == n then next else rest

unfoldable pub existe_memoria_parar_paginas : List Bool → ℕ → Bool
existe_memoria_parar_paginas frames n = contar frames n 0 == n

-- A store into an entry; `none` outside the vector.
abbrev pub with_rest {ℓ} : {A : Type ℓ} → A → Option (List A) → Option (List A)
with_rest x none = none
with_rest x (some xs) = some (x ∷ xs)

abbrev pub set_at {ℓ} : {A : Type ℓ} → List A → ℕ → (A → A) → Option (List A)
set_at [] i f = none
set_at (x ∷ xs) zero f = some (f x ∷ xs)
set_at (x ∷ xs) (suc i) f = with_rest x (set_at xs i f)

abbrev pub set_at_int {ℓ} : {A : Type ℓ} → List A → ℤ → (A → A) → Option (List A)
set_at_int xs (negsuc i) f = none
set_at_int xs (pos i) f = set_at xs i f

unfoldable pub cambiar_estado_pagina : List Bool → ℤ → Bool → Option (List Bool)
cambiar_estado_pagina frames frame estado = set_at_int frames frame (λ l. estado)

-- What the loop of asignar_dir_memoria changes: the vectors, the pages of the segment, and the
-- variables `primerFrameLibre` and `frameLibre`, `none` before they are set.
pub record Reserva : Type 0 where
  pub frames : List Bool
  pub paginas : List Pagina
  pub list_paginas : List ℤ
  pub primer_frame_libre : Option ℤ
  pub frame_libre : Option ℤ

-- Before the loop.
abbrev pub reserva_of : Muse → List ℤ → Reserva
reserva_of m list = record {
  frames = m.frames;
  paginas = m.paginas;
  list_paginas = list;
  primer_frame_libre = none;
  frame_libre = none;
}

abbrev pub or_first : Option ℤ → ℤ → ℤ
or_first none frame = frame
or_first (some primer) frame = primer

abbrev pub both : List ℤ → ℤ → ℤ → Option (List Bool) → Option (List Pagina) → Option Reserva
both pages primer frame none ps = none
both pages primer frame (some fs) none = none
both pages primer frame (some fs) (some ps) = some (record {
  frames = fs;
  paginas = ps;
  list_paginas = pages;
  primer_frame_libre = some primer;
  frame_libre = some frame;
})

module _ (c : Commons) where
  -- One pass of the loop; the first pass sets `primerFrameLibre`.
  unfoldable pub asignar_pagina : Reserva → Option Reserva
  asignar_pagina r =
      let frame_libre = asignar_frame_libre r.frames in
      let indice_libre = asignar_indice_vector_libre r.paginas in
      both (c.list_add ℤ r.list_paginas indice_libre) (or_first r.primer_frame_libre frame_libre)
        frame_libre (cambiar_estado_pagina r.frames frame_libre false)
        (set_at_int r.paginas indice_libre (λ p. record p { frame = frame_libre; libre = false }))

  abbrev pub and_then : Option Reserva → (Reserva → Option Reserva) → Option Reserva
  and_then none f = none
  and_then (some r) f = f r

  unfoldable pub asignar_paginas : ℕ → Reserva → Option Reserva
  asignar_paginas zero r = some r
  asignar_paginas (suc n) r = and_then (asignar_pagina r) (asignar_paginas n)
