-- ===== src/Hilolay/Fair.antt =====
-- Round robin: repeated calls of th_yield of hilolay/hilolay.c serve the ready queue in order.
use threaders.Base.{ℕ, suc, ◌≡◌, List, [], ◌∷◌, ◌++◌, arith, ℤ, length}
use mathlib.Core.List.{append_assoc}
use threaders.Hilolay.{Lib, th_yield}
use threaders.Hilolay.Valid.{IsValid, th_yield-cons}

-- One th_yield for each pair of clock readings.
pub yields : List (ℤ × ℤ) → Lib → Lib
yields [] s = s
yields ((now, later) ∷ times) s = yields times (th_yield now later s).1

-- A thread with `n` threads before it in the ready queue runs after `n + 1` yields.
pub yields_reach :
    (times : List (ℤ × ℤ)) (before after : List ℕ) (x : ℕ) (s : Lib)
    → IsValid s (before ++ x ∷ after)
    → length times ≡ suc (length before)
    → (yields times s).current ≡ x
unfolding yields
yields_reach [] before after x s v h = absurd (omega arith)
yields_reach ((now, later) ∷ []) [] after x s v h = (th_yield-cons now later x s after v).1
yields_reach ((now, later) ∷ []) (y ∷ before) after x s v h = absurd (omega arith)
yields_reach ((now, later) ∷ t ∷ times) [] after x s v h = absurd (omega arith)
yields_reach ((now, later) ∷ t ∷ times) (y ∷ before) after x s v h =
    let r = th_yield-cons now later y s (before ++ x ∷ after) v in
    yields_reach (t ∷ times) before (after ++ s.current ∷ []) x (th_yield now later s).1
      (rw append_assoc at r.2) (omega arith)
