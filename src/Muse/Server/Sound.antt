-- ===== src/Muse/Server/Sound.antt =====
-- The invariant of frames and pages through the handlers of GET, COPY and MEMFREE of muse/src/muse.c.
use threaders.Base.{
  ◌-◌, ◌++◌, drop, ℕ, Bool, true, false, Option, none, some, List, [], ℤ, sym, ◌==◌, if◌then◌else◌,
  subst, ltb, ◌||◌,
}
use threaders.Commons.{Commons}
use threaders.Wire.Bytes.{Bytes, le, slice, overwrite}
use threaders.Muse.{Muse, Proceso, Reserva, reserva_of, procesar_id}
use threaders.Muse.Users.{procesar_id-only}
use threaders.Muse.Frames.Isolated.{Isolated}
use threaders.Muse.Access.{
  Handled, handled, fault, libre_of, and_store, bytes_of, copy_failed, send_got, get_from, Behind,
  copy_done, copy_over, copy_to, header_at,
}
use threaders.Muse.Free.{
  size_of, clear_block, send_seg_fault, Freed, freed, free_fault, freeing, Walked, walked,
  walk_fault, walking, answer_freed, free_header, free_block,
}

-- No two taken pages share a frame, and so on for the vectors of a state.
abbrev pub Sound : Muse → Type 0
Sound m = Isolated (reserva_of m [])

abbrev pub SoundHandled : Handled → Type 0
SoundHandled (handled m o) = Sound m
SoundHandled fault = Unit {0}

abbrev pub SoundFreed : Freed → Type 0
SoundFreed (freed m o) = Sound m
SoundFreed free_fault = Unit {0}
SoundFreed freeing = Unit {0}

-- What holds on both branches.
pub either_way :
    {A : Type 0} (P : A → Type 0) (b : Bool) (x y : A) → P x → P y → P (if b then x else y)
either_way P true x y h k = h
either_way P false x y h k = k

-- The invariant is one of the frames and the pages.
pub vectors-Isolated :
    (r : Reserva) (m : Muse) (list : List ℤ)
    → Isolated r
    → Isolated (reserva_of (record m { frames = r.frames; paginas = r.paginas }) list)
vectors-Isolated r m list v = record { equal = v.equal; backed = v.backed; apart = v.apart }

pub known-Sound : (c : Commons) (m : Muse) (id : ℕ) → Sound m → Sound (procesar_id c m id).0
known-Sound c m id v = let (l, e) = procesar_id-only c m id in subst Sound (sym e) v

send_got-Sound :
    (m : Muse) (padding : ℕ) (o : Option Bytes) → Sound m → SoundHandled (send_got m padding o)
send_got-Sound m padding none v = tt
send_got-Sound m padding (some bytes) v = v

pub get_from-Sound :
    (m : Muse) (padding src : ℕ) (o : Option Proceso)
    → Sound m
    → SoundHandled (get_from m padding src o)
get_from-Sound m padding src none v = v
get_from-Sound m padding src (some p) v = send_got-Sound m padding (slice src 8 m.memoria) v

copy_done-Sound :
    (behind : Behind) (m : Muse) (o : Option Bytes) → Sound m → SoundHandled (copy_done behind m o)
copy_done-Sound behind m none v = tt
copy_done-Sound behind m (some memoria) v = v

copy_over-Sound :
    (behind : Behind) (m : Muse) (dst size : ℕ) (content : Bytes) (o : Option Bytes)
    → Sound m
    → SoundHandled (copy_over behind m dst size content o)
copy_over-Sound behind m dst size content none v = tt
copy_over-Sound behind m dst size content (some heap) v =
    let header = overwrite (dst - 5) (le 4 size ++ drop 4 heap) m.memoria in
    let stored = and_store header dst (bytes_of content size) in
    either_way SoundHandled (libre_of heap == 0) (copy_done behind m stored) (copy_failed m)
      (copy_done-Sound behind m stored v) v

pub copy_to-Sound :
    (behind : Behind) (m : Muse) (dst size : ℕ) (content : Bytes) (o : Option Proceso)
    → Sound m
    → SoundHandled (copy_to behind m dst size content o)
copy_to-Sound behind m dst size content none v = v
copy_to-Sound behind m dst size content (some p) v =
    copy_over-Sound behind m dst size content (header_at dst m.memoria) v

answer_freed-Sound : (m : Muse) (w : Walked) → Sound m → SoundFreed (answer_freed m w)
answer_freed-Sound m (walked memoria) v = v
answer_freed-Sound m walk_fault v = tt
answer_freed-Sound m walking v = tt

free_header-Sound :
    (fuel base dir : ℕ) (m : Muse) (o : Option Bytes)
    → Sound m
    → SoundFreed (free_header fuel base dir m o)
free_header-Sound fuel base dir m none v = tt
free_header-Sound fuel base dir m (some header) v =
    let w = clear_block fuel base dir (size_of header) m.memoria in
    either_way SoundFreed (libre_of header == 0) (answer_freed m w) (send_seg_fault m)
      (answer_freed-Sound m w v) v

pub free_block-Sound :
    (usable : ℕ → ℕ) (fuel base dir : ℕ) (m : Muse) (o : Option Proceso)
    → Sound m
    → SoundFreed (free_block usable fuel base dir m o)
free_block-Sound usable fuel base dir m none v = v
free_block-Sound usable fuel base dir m (some p) v =
    free_header-Sound fuel base dir m
      (if ltb (usable 5) 8 || ltb dir 5 then none else slice (dir - 5) 8 m.memoria) v
