-- ===== src/Suse/LongTerm/Admission.antt =====
-- What one run of scheduler_run_long_term_scheduler (suse/src/scheduler/suse_scheduler.c) does.
use threaders.Base.{
  true, ℕ, ◌+◌, ◌-◌, ◌≤◌, ◌<◌, ◌≡◌, refl, Option, List, [], ◌∷◌, arith, ap, ◌∙◌, ℤ, pos, ◌-ℤ◌,
  leb_ℤ, length, inl, inr, Bool-cases, subst,
}
use threaders.Commons.{Commons, Documented, reference, for_documented}
use threaders.Suse.{Scheduler, scheduler_run_long_term_scheduler}
use threaders.Suse.LongTerm.{pass, Passed, loop-Passed}

-- The third list is made of the first two, each in its order.
pub data Interleaved : List ℕ → List ℕ → List ℕ → Type 0 where
  no_more : Interleaved [] [] []
  next_kept : (x : ℕ) {k a l : List ℕ} → Interleaved k a l → Interleaved (x ∷ k) a (x ∷ l)
  next_admitted : (x : ℕ) {k a l : List ℕ} → Interleaved k a l → Interleaved k (x ∷ a) (x ∷ l)

-- With `n` threads in READY and the degree `m`, there is room for each of the admitted ones in turn.
abbrev pub Room : ℕ → ℤ → List ℕ → Type 0
Room n m [] = Unit {0}
Room n m (x ∷ admitted) = (leb_ℤ (pos n) m ≡ true) × Room (n + 1) (m -ℤ pos 1) admitted

abbrev Shared : ℕ → ℤ → List ℕ → Type 0
Shared n m l = Interleaved (pass n m l).0 (pass n m l).1 l × Room n m (pass n m l).1

pass-Shared : (n : ℕ) (m : ℤ) (l : List ℕ) → Shared n m l
unfolding pass
pass-Shared n m [] = (no_more, tt)
pass-Shared n m (x ∷ []) = elim (Bool-cases (leb_ℤ (pos n) m)) [
  | inl h ↦ rw h (next_admitted x no_more, (h, tt))
  | inr h ↦ rw h (next_kept x no_more, tt)
]
pass-Shared n m (x ∷ y ∷ l) = elim (Bool-cases (leb_ℤ (pos n) m)) [
  | inl h ↦
      let r = pass-Shared (n + 1) (m -ℤ pos 1) l in
      rw h (next_admitted x (next_kept y r.0), (h, r.1))
  | inr h ↦ let r = pass-Shared n m (y ∷ l) in rw h (next_kept x r.0, r.1)
]

-- What a run comes to: every thread of NEW is kept there or admitted, in the order of NEW, in a state where READY
-- has the admitted ones behind its own and the degree has fallen by their number; for each there was room.
pub record Admission (s : Scheduler) (o : Option Scheduler) : Type 0 where
  pub kept : List ℕ
  pub admitted : List ℕ
  pub passed : Passed s [] kept admitted o
  pub shared : Interleaved kept admitted s.queue_new
  pub room : Room (length s.queue_ready) s.max_multiprog admitted

-- With the list operations as documented, a run of the long-term scheduler ends, and loses or
-- repeats no thread: those of NEW are kept there or moved behind READY, both in the order of NEW. Each is
-- moved while READY has at most as many threads as the degree of multiprogramming, which falls by one
-- for each that is moved.
pub scheduler_run_long_term_scheduler-Admission :
    {c : Commons} (s : Scheduler)
    → Documented c
    → Admission s (scheduler_run_long_term_scheduler c s)
unfolding scheduler_run_long_term_scheduler
scheduler_run_long_term_scheduler-Admission s d =
    let shared = pass-Shared (length s.queue_ready) s.max_multiprog s.queue_new in
    for_documented (λ c. Admission s (scheduler_run_long_term_scheduler c s)) d
      (record {
        kept = (pass (length s.queue_ready) s.max_multiprog s.queue_new).0;
        admitted = (pass (length s.queue_ready) s.max_multiprog s.queue_new).1;
        passed =
            loop-Passed (length s.queue_new) 0 (length s.queue_ready) [] s.queue_new s refl refl
              refl (omega arith);
        shared = shared.0;
        room = shared.1;
      })

abbrev pub evens : List ℕ → List ℕ
evens [] = []
evens (x ∷ []) = x ∷ []
evens (x ∷ y ∷ l) = x ∷ evens l

abbrev pub odds : List ℕ → List ℕ
odds [] = []
odds (x ∷ []) = []
odds (x ∷ y ∷ l) = y ∷ odds l

pos-sub-one : (m : ℕ) → 0 < m → pos m -ℤ pos 1 ≡ pos (m - 1)
unfolding ◌-ℤ◌
pos-sub-one m h = ground arith

pass-ample : (n m : ℕ) (l : List ℕ) → n + length l ≤ m + 1 → pass n (pos m) l ≡ (odds l, evens l)
unfolding pass
pass-ample n m [] h = refl
pass-ample n m (x ∷ []) h = ground arith
pass-ample n m (x ∷ y ∷ l) h =
    ground (arith, pos-sub-one m, pass-ample (n + 1) (m - 1) l (omega arith))

-- Even when the degree of multiprogramming has room for all of NEW, a run admits only every second
-- thread: those at the even positions go behind READY, those at the odd positions stay in NEW.
pub scheduler_run_long_term_scheduler_skips :
    {c : Commons} (s : Scheduler) (m : ℕ)
    → Documented c
    → s.max_multiprog ≡ pos m
    → length s.queue_ready + length s.queue_new ≤ m
    → Passed s [] (odds s.queue_new) (evens s.queue_new) (scheduler_run_long_term_scheduler c s)
unfolding scheduler_run_long_term_scheduler
scheduler_run_long_term_scheduler_skips s m d e h =
    for_documented
      (λ c.
        Passed s [] (odds s.queue_new) (evens s.queue_new) (scheduler_run_long_term_scheduler c s))
      d
      (subst (λ p. Passed s [] p.0 p.1 (scheduler_run_long_term_scheduler reference s))
        (ap (λ k. pass (length s.queue_ready) k s.queue_new) e
          ∙ pass-ample (length s.queue_ready) m s.queue_new (omega arith))
        (loop-Passed (length s.queue_new) 0 (length s.queue_ready) [] s.queue_new s refl refl refl
          (omega arith)))
