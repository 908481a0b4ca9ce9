-- ===== src/Suse/ShortTerm.antt =====
-- scheduler_run_short_term_scheduler of suse/src/scheduler/suse_scheduler.c: which thread of READY
-- one run executes.
use threaders.Base.{
  ℕ, zero, suc, ◌+◌, ◌<◌, ◌≡◌, refl, Bool, true, false, none, some, List, [], ◌∷◌, arith, sym, ap,
  ◌∙◌, pos, ◌+ℤ◌, length, get_elem?, inl, inr, ◌⊎◌, Bool-cases, ◌==◌, Option-cases,
}
use threaders.Commons.{Commons, Documented, reference, remove_at, for_documented}
use threaders.Suse.{
  Scheduler, Floats, Thread, EState, scheduler_calculate_exponential_mean, scheduler_get_sjf,
  is_shortest, run_at, short_term_loop, scheduler_run_short_term_scheduler,
  scheduler_execute_thread, suse_increase_multiprog,
}
use threaders.Suse.Fold.{least, least-elem, least_trans, fold_test, least_exists}

-- The mean burst of the thread at address `a` is at most that of the one at `b`.
unfoldable pub shorter_burst : (c : Commons) (f : Floats) → f.Double → (ℕ → Thread) → ℕ → ℕ → Bool
shorter_burst c f alpha at a b =
    f.le_float (scheduler_calculate_exponential_mean c f alpha (at a).cpu_time)
      (scheduler_calculate_exponential_mean c f alpha (at b).cpu_time)

-- The `<=` of C on the mean bursts of the threads in the store, none of which is a NaN: any two are
-- comparable, and it is transitive. Other floats may be NaN.
pub record IsOrder (c : Commons) (f : Floats) (alpha : f.Double) (at : ℕ → Thread) : Type 0 where
  pub total :
      (a b : ℕ) → (shorter_burst c f alpha at a b ≡ true) ⊎ (shorter_burst c f alpha at b a ≡ true)
  pub trans :
      (a b d : ℕ)
      → shorter_burst c f alpha at a b ≡ true
      → shorter_burst c f alpha at b d ≡ true
      → shorter_burst c f alpha at a d ≡ true

-- What a run on a queue that is not empty comes to.
pub record Picked (c : Commons) (f : Floats) (alpha : f.Double) (s s' : Scheduler) : Type 0 where
  pub index : ℕ
  pub thread : ℕ
  pub found : get_elem? s.queue_ready index ≡ some thread
  pub shortest :
      (j u : ℕ)
      → get_elem? s.queue_ready j ≡ some u
      → shorter_burst c f alpha s.thread_at thread u ≡ true
  pub first :
      (j u : ℕ)
      → j < index
      → get_elem? s.queue_ready j ≡ some u
      → shorter_burst c f alpha s.thread_at u thread ≡ false
  pub removed : s'.queue_ready ≡ remove_at s.queue_ready index
  pub running : s'.thread_exec ≡ some thread
  pub marked : (s'.thread_at thread).state ≡ EState.exec
  pub degree : s'.max_multiprog ≡ s.max_multiprog +ℤ pos 1

module _ (f : Floats) (alpha : f.Double) (s : Scheduler)
    (o : IsOrder reference f alpha s.thread_at) where
  abbrev leq : ℕ → ℕ → Bool
  leq = shorter_burst reference f alpha s.thread_at

  leq_total : (a b : ℕ) → (leq a b ≡ true) ⊎ (leq b a ≡ true)
  leq_total a b = o.total a b

  leq_trans : (a b d : ℕ) → leq a b ≡ true → leq b d ≡ true → leq a d ≡ true
  leq_trans a b d h k = o.trans a b d h k

  is_shortest-least : (t : ℕ) → is_shortest reference f alpha (some t) s ≡ least leq t s.queue_ready
  unfolding is_shortest scheduler_get_sjf shorter_burst
  is_shortest-least t = fold_test leq leq_total leq_trans s.queue_ready t

  run_at-Picked :
      (i t : ℕ)
      → get_elem? s.queue_ready i ≡ some t
      → least leq t s.queue_ready ≡ true
      → ((j u : ℕ) → j < i → get_elem? s.queue_ready j ≡ some u → least leq u s.queue_ready ≡ false)
      → Picked reference f alpha s (run_at reference f alpha i (some t) s)
  unfolding run_at scheduler_execute_thread suse_increase_multiprog
  run_at-Picked i t e h before = record {
    index = i;
    thread = t;
    found = e;
    shortest = λ j u g. least-elem leq leq_total leq_trans t s.queue_ready j {u = u} h g;
    first = λ j u lt g. elim (Bool-cases (leq u t)) [
      | inl le ↦
          absurd (
            cc (sym (before j u lt g) ∙ least_trans leq leq_total leq_trans u t s.queue_ready le h))
      | inr gt ↦ gt
    ];
    removed = refl;
    running = refl;
    marked = ground arith;
    degree = refl;
  }

  abbrev NotLeast : ℕ → Type 0
  NotLeast i =
      (j u : ℕ) → j < i → get_elem? s.queue_ready j ≡ some u → least leq u s.queue_ready ≡ false

  NotLeast-suc :
      (i x : ℕ)
      → get_elem? s.queue_ready i ≡ some x
      → least leq x s.queue_ready ≡ false
      → NotLeast i
      → NotLeast (i + 1)
  NotLeast-suc i x e h before j u lt g = elim (Bool-cases (j == i)) [
    | inl same ↦
        let ji : j ≡ i = ground arith in
        let ux : u ≡ x = ground (arith, ap (get_elem? s.queue_ready) ji) in
        ap (λ t. least leq t s.queue_ready) ux ∙ h
    | inr ne ↦ before j u (ground arith) g
  ]

  NotLeast-none : (i : ℕ) → get_elem? s.queue_ready i ≡ none → NotLeast i → NotLeast (i + 1)
  NotLeast-none i e before j u lt g = elim (Bool-cases (j == i)) [
    | inl same ↦
        let ji : j ≡ i = ground arith in absurd (cc (sym g ∙ ap (get_elem? s.queue_ready) ji ∙ e))
    | inr ne ↦ before j u (ground arith) g
  ]

  step-pick :
      (n i x : ℕ)
      → get_elem? s.queue_ready i ≡ some x
      → least leq x s.queue_ready ≡ true
      → short_term_loop reference f alpha (suc n) i s ≡ run_at reference f alpha i (some x) s
  unfolding short_term_loop
  step-pick n i x e h = rw (e, is_shortest-least x, h)

  step-skip :
      (n i x : ℕ)
      → get_elem? s.queue_ready i ≡ some x
      → least leq x s.queue_ready ≡ false
      → short_term_loop reference f alpha (suc n) i s
        ≡ short_term_loop reference f alpha n (i + 1) s
  unfolding short_term_loop
  step-skip n i x e h = rw (e, is_shortest-least x, h)

  step-none :
      (n i : ℕ)
      → get_elem? s.queue_ready i ≡ none
      → short_term_loop reference f alpha (suc n) i s
        ≡ short_term_loop reference f alpha n (i + 1) s
  unfolding short_term_loop is_shortest
  step-none n i e = rw e

  -- The loop finds the first least thread, if one lies among the rounds that are left.
  loop-Picked :
      (n i k t : ℕ)
      → get_elem? s.queue_ready (i + k) ≡ some t
      → least leq t s.queue_ready ≡ true
      → NotLeast i
      → k < n
      → Picked reference f alpha s (short_term_loop reference f alpha n i s)
  loop-Picked zero i k t e h before lt = absurd (omega arith)
  loop-Picked (suc n) i zero t e h before lt =
      let e' : get_elem? s.queue_ready i ≡ some t =
        ap (get_elem? s.queue_ready) (omega arith) ∙ e in
      rw (step-pick n i t e' h) (run_at-Picked i t e' h before)
  loop-Picked (suc n) i (suc k) t e h before lt =
      let e' : get_elem? s.queue_ready (i + 1 + k) ≡ some t =
        ap (get_elem? s.queue_ready) (omega arith) ∙ e in
      elim (Option-cases (get_elem? s.queue_ready i)) [
        | inl out ↦
            rw (step-none n i out)
              (loop-Picked n (i + 1) k t e' h (NotLeast-none i out before) (omega arith))
        | inr (x, got) ↦ elim (Bool-cases (least leq x s.queue_ready)) [
          | inl is_least ↦ rw (step-pick n i x got is_least) (run_at-Picked i x got is_least before)
          | inr not_least ↦
              rw (step-skip n i x got not_least) (
                loop-Picked n (i + 1) k t e' h (NotLeast-suc i x got not_least before)
                  (omega arith))
        ]
      ]

  length-elem : (l : List ℕ) (k : ℕ) {t : ℕ} → get_elem? l k ≡ some t → k < length l
  length-elem [] k e = absurd (cc e)
  length-elem (x ∷ l) zero e = omega arith
  length-elem (x ∷ l) (suc k) e = omega (arith, length-elem l k e)

  run-Picked :
      (x : ℕ) (r : List ℕ)
      → s.queue_ready ≡ x ∷ r
      → Picked reference f alpha s (scheduler_run_short_term_scheduler reference f alpha s)
  unfolding scheduler_run_short_term_scheduler
  run-Picked x r e =
      let (k, t, found, is_least) = least_exists leq leq_total leq_trans x r in
      let got : get_elem? s.queue_ready k ≡ some t = ap (λ l. get_elem? l k) e ∙ found in
      loop-Picked (length s.queue_ready) 0 k t (ap (get_elem? s.queue_ready) (omega arith) ∙ got)
        (ap (least leq t) e ∙ is_least) (λ j u lt g. absurd (omega arith))
        (length-elem s.queue_ready k got)

-- With the list operations as documented and no NaN among the mean bursts of the threads in
-- the store, a run of the short-term
-- scheduler on a queue READY that is not empty takes the first of the threads with the least mean
-- burst out of it, executes that thread, and raises the degree of multiprogramming by one.
pub scheduler_run_short_term_scheduler-Picked :
    {c : Commons} (f : Floats) (alpha : f.Double) (s : Scheduler) (x : ℕ) (r : List ℕ)
    → Documented c
    → IsOrder c f alpha s.thread_at
    → s.queue_ready ≡ x ∷ r
    → Picked c f alpha s (scheduler_run_short_term_scheduler c f alpha s)
scheduler_run_short_term_scheduler-Picked f alpha s x r d =
    for_documented
      (λ c.
        IsOrder c f alpha s.thread_at
        → s.queue_ready ≡ x ∷ r
        → Picked c f alpha s (scheduler_run_short_term_scheduler c f alpha s))
      d (λ o e. run-Picked f alpha s o x r e)
