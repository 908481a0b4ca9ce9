-- ===== src/Muse/Alloc/Ends.antt =====
-- The first and the last frame that the loop of asignar_dir_memoria, muse/src/muse.c, takes.
use threaders.Base.{
  ℕ, zero, suc, ◌+◌, ◌*◌, ◌≤◌, ◌<◌, ◌≡◌, true, some, [], ◌∷◌, List, arith, ap, ◌∙◌, length,
  get_elem?, pos,
}
use native.Mathlib.Nat.{mul-le-mul_right, suc-mul}
use threaders.Commons.{reference}
use threaders.Muse.{Reserva, or_first, asignar_paginas, and_then}
use threaders.Muse.Frames.{count}
use threaders.Muse.Frames.Isolated.{Isolated, asignar_pagina-Step}

pub get-lt : {A : Type 0} (xs : List A) (k : ℕ) (a : A) → get_elem? xs k ≡ some a → k < length xs
get-lt [] k a h = absurd (cc h)
get-lt (x ∷ xs) zero a h = omega arith
get-lt (x ∷ xs) (suc k) a h = omega (arith, get-lt xs k a h)

-- A frame of a vector of `total` frames lies in a memory that has room for all of them.
pub frame_fits :
    (k total page_size size : ℕ)
    → k < total
    → total * page_size ≤ size
    → k * page_size + page_size ≤ size
frame_fits k total page_size size h l =
    let all : suc k * page_size ≤ total * page_size = mul-le-mul_right page_size h in
    omega (arith, all, suc-mul k page_size)

pub record Ends (n : ℕ) (r : Reserva) : Type 0 where
  pub after : Reserva
  pub run : asignar_paginas reference n r ≡ some after
  pub isolated : Isolated after
  pub taken : count after.frames + n ≡ count r.frames
  pub size : length after.frames ≡ length r.frames
  pub first : ℕ
  pub free : get_elem? r.frames first ≡ some true
  pub primer : after.primer_frame_libre ≡ some (or_first r.primer_frame_libre (pos first))
  pub final : ℕ
  pub last : after.frame_libre ≡ some (pos final)
  pub below : final < length r.frames

pub asignar_paginas-Ends :
    (n : ℕ) (r : Reserva) → Isolated r → suc n ≤ count r.frames → Ends (suc n) r
unfolding asignar_paginas
asignar_paginas-Ends zero r v h =
    let s = asignar_pagina-Step r v (omega arith) in
    record {
      after = s.after;
      run = ap (λ o. and_then reference o (asignar_paginas reference zero)) s.run;
      isolated = s.isolated;
      taken = s.frames;
      size = s.size;
      first = s.frame;
      free = s.free;
      primer = s.primer;
      final = s.frame;
      last = s.last;
      below = get-lt r.frames s.frame true s.free;
    }
asignar_paginas-Ends (suc n) r v h =
    let s = asignar_pagina-Step r v (omega arith) in
    let e = asignar_paginas-Ends n s.after s.isolated (omega (arith, s.frames)) in
    record {
      after = e.after;
      run = ap (λ o. and_then reference o (asignar_paginas reference (suc n))) s.run ∙ e.run;
      isolated = e.isolated;
      taken = omega (arith, e.taken, s.frames);
      size = e.size ∙ s.size;
      first = s.frame;
      free = s.free;
      primer = e.primer ∙ ap (λ o. some (or_first o (pos e.first))) s.primer;
      final = e.final;
      last = e.last;
      below = omega (arith, e.below, s.size);
    }
