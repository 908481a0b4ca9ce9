-- ===== src/ClientTests/Turns.antt =====
-- How often the threads of client-tests/src/client-tests.c yield.
use threaders.Base.{
  ℕ, zero, suc, ◌+◌, ◌*◌, ◌%◌, ◌≡◌, refl, List, [], ◌∷◌, arith, ap, ◌∙◌, ◌==◌, if◌then◌else◌,
}
use threaders.ClientTests.{Effect, usleep, th_yield, test1}

abbrev pub yields : List Effect → ℕ
yields [] = 0
yields (usleep micros ∷ effects) = yields effects
yields (th_yield ∷ effects) = suc (yields effects)

-- Whether the `i`th iteration yields.
abbrev turn : ℕ → ℕ → ℕ
turn tid i = if (i + tid) % 5 == 0 then 1 else 0

turns_in_five :
    (tid i : ℕ)
    → turn tid i
        + (turn tid (suc i)
            + (turn tid (suc (suc i))
                + (turn tid (suc (suc (suc i))) + turn tid (suc (suc (suc (suc i)))))))
      ≡ 1
turns_in_five tid i = grind arith

next_turn : (tid i n : ℕ) → yields (test1 tid i (suc n)) ≡ turn tid i + yields (test1 tid (suc i) n)
unfolding test1
next_turn tid i n = ground arith

five_turns :
    (tid i n : ℕ)
    → yields (test1 tid i (suc (suc (suc (suc (suc n))))))
      ≡ suc (yields (test1 tid (suc (suc (suc (suc (suc i))))) n))
five_turns tid i n = omega (
  arith,
  next_turn tid i (suc (suc (suc (suc n)))),
  next_turn tid (suc i) (suc (suc (suc n))),
  next_turn tid (suc (suc i)) (suc (suc n)),
  next_turn tid (suc (suc (suc i))) (suc n),
  next_turn tid (suc (suc (suc (suc i)))) n,
  turns_in_five tid i,
)

-- Whatever its id and the iteration that it starts with, a thread of test1 yields once in every five iterations.
pub test1-yields : (tid i n : ℕ) → yields (test1 tid i (5 * n)) ≡ n
unfolding test1
test1-yields tid i zero = refl
test1-yields tid i (suc n) =
    let count : 5 * suc n ≡ suc (suc (suc (suc (suc ((5 * n)))))) = omega arith in
    ap (λ k. yields (test1 tid i k)) count
    ∙ five_turns tid i (5 * n)
    ∙ ap suc (test1-yields tid (suc (suc (suc (suc (suc i))))) n)
