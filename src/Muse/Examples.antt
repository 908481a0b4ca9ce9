-- ===== src/Muse/Examples.antt =====
-- The memory server at concrete values, and its theorems applied there: three pages of 16 bytes, and
-- a memory with a block of eleven bytes in use.
use threaders.Base.{ℕ, ap, ◌≡◌, refl, true, none, some, [], ◌∷◌, arith, inr}
use threaders.Commons.{reference, reference-Documented}
use threaders.Wire.Bytes.{Bytes}
use threaders.Muse.{
  Muse, crear_nodo, existe_proceso_en_lista, muse_init, reserva_of, filled,
  existe_memoria_parar_paginas, contar, procesar_id,
}
use threaders.Muse.Frames.{count}
use threaders.Muse.Frames.Isolated.{Taken, asignar_paginas-Taken, muse_init-Isolated}
use threaders.Muse.Free.Walk.{last}
use threaders.Muse.Free.Twice.{FreedTwice, handle_memfree-FreedTwice}
use threaders.Muse.Alloc.{Recorrer}
use threaders.Muse.Alloc.Block.{KeepsLength, Fits}
use threaders.Muse.Alloc.First.{FirstBlock, handle_malloc-FirstBlock}
use threaders.Muse.Alloc.Full.{Refused, handle_malloc-Refused}
use threaders.Muse.Access.ReadBack.{CopiedBack, handle_copy-handle_get}

abbrev zeros : ℕ → Bytes
zeros n = filled n 0

-- 32 bytes of memory and 16 of swap.
abbrev start : Muse
start = muse_init reference zeros 32 16 16

start_frames : start.frames ≡ true ∷ true ∷ true ∷ []
unfolding muse_init
start_frames = refl

enough : existe_memoria_parar_paginas start.frames 2 ≡ true
unfolding existe_memoria_parar_paginas contar muse_init
enough = refl

asignar_paginas-Taken_example : Taken reference 2 (reserva_of start [])
asignar_paginas-Taken_example =
    asignar_paginas-Taken reference-Documented 2 (reserva_of start [])
      (muse_init-Isolated reference zeros 32 16 16 []) (omega arith) enough

abbrev used : Muse
used = record start { memoria = 9 ∷ zeros 31 }

abbrev eight : Bytes
eight = 1 ∷ 2 ∷ 3 ∷ 4 ∷ 5 ∷ 6 ∷ 7 ∷ 8 ∷ []

handle_copy-handle_get_example : CopiedBack reference none used 5 7 8 0 eight 20
handle_copy-handle_get_example =
    handle_copy-handle_get reference-Documented none used 5 7 8 0 eight (9 ∷ 0 ∷ 0 ∷ 0 ∷ 0 ∷ []) 20
      refl refl (omega arith) (omega arith) refl (omega arith) (omega arith) (inr (omega arith))

abbrev stays : Recorrer
stays m s size = some (m.memoria, 5)

stays-KeepsLength : KeepsLength stays
stays-KeepsLength m s size = (m.memoria, 5, refl, refl)

-- 48 bytes of memory and no swap.
abbrev in_memory : Muse
in_memory = muse_init reference zeros 48 16 0

five_fit : Fits 16 5 in_memory
unfolding muse_init
five_fit = record {
  page = omega arith;
  positive = omega arith;
  total = omega arith;
  rest = omega arith;
  free = omega arith;
  inside = omega arith;
  small = omega arith;
  isolated = muse_init-Isolated reference zeros 48 16 0 [];
}

no_segment : (m : Muse) → m.lista_procesos ≡ [] → (procesar_id reference m 7).1.list_segmento ≡ []
unfolding procesar_id existe_proceso_en_lista crear_nodo
no_segment m h =
    ap (λ l. (procesar_id reference (record m { lista_procesos = l }) 7).1.list_segmento) h

no_processes : (memory swap : ℕ) → (muse_init reference zeros memory 16 swap).lista_procesos ≡ []
unfolding muse_init
no_processes memory swap = refl

handle_malloc-FirstBlock_example : FirstBlock reference stays 16 in_memory 5 7
handle_malloc-FirstBlock_example =
    handle_malloc-FirstBlock reference-Documented stays 16 in_memory 5 7 stays-KeepsLength five_fit
      (no_segment in_memory (no_processes 48 0))

three_free : count start.frames ≡ 3
unfolding muse_init
three_free = refl

handle_malloc-Refused_example : Refused reference stays 16 start 100 7 8 (zeros 64) (true ∷ []) []
handle_malloc-Refused_example =
    handle_malloc-Refused reference-Documented stays 16 start 100 7 8 (zeros 64) (true ∷ []) []
      (omega arith) (omega (arith, three_free)) (no_segment start (no_processes 32 16))

-- A process 7, and a block of nine bytes in use at the start of the memory.
abbrev owned : Muse
owned = record used { lista_procesos = crear_nodo reference 7 ∷ [] }

owner : existe_proceso_en_lista reference owned 7 ≡ some (crear_nodo reference 7)
unfolding existe_proceso_en_lista crear_nodo
owner = refl

handle_memfree-FreedTwice_example : FreedTwice reference (λ n. 24) 5 4096 owned 5 7 9
handle_memfree-FreedTwice_example =
    handle_memfree-FreedTwice reference (λ n. 24) 5 4096 owned 5 7 (crear_nodo reference 7)
      (9 ∷ zeros 7) owner (omega arith) refl refl (omega arith) (omega arith) (omega arith)
      (omega arith) (omega arith) (omega arith) (omega arith)
      (last (9 ∷ zeros 7) refl (omega arith) (omega arith))
