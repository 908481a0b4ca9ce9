-- ===== src/Suse/Finish.antt =====
-- How suse/src/scheduler/suse_scheduler.c ends a thread, and how it loads its semaphores.
use threaders.Base.{
  ℕ, zero, suc, ◌≡◌, ◌≢◌, refl, Bool, true, false, Option, none, some, List, [], ◌∷◌, ◌++◌, arith,
  sym, ap, ◌∙◌, get_elem?, inl, inr, ◌⊎◌, Bool-cases, ◌==◌, Option-cases,
}
use threaders.Commons.{Commons, Documented, reference, find_first, for_documented}
use threaders.Suse.{
  Scheduler, EState, set_thread, scheduler_finish_thread, scheduler_finish_program,
  scheduler_find_program_by_id, finish_found,
}

-- What ending thread `t` comes to when a program has its pid.
pub record Finished (s : Scheduler) (t : ℕ) (o : Option Scheduler) : Type 0 where
  pub program : ℕ
  pub after : Scheduler
  pub index : ℕ
  pub found : get_elem? s.programs index ≡ some program
  pub owner : (s.program_at program).pid ≡ (s.thread_at t).pid
  pub result : o ≡ some after
  pub thread_state : (after.thread_at t).state ≡ EState.exit
  pub program_state : (after.program_at program).state ≡ EState.exit
  pub exits : after.queue_exit ≡ s.queue_exit ++ program ∷ []
  pub same_programs : after.programs ≡ s.programs
  pub same_degree : after.max_multiprog ≡ s.max_multiprog
  pub same_ready : after.queue_ready ≡ s.queue_ready
  pub same_blocked : after.queue_blocked ≡ s.queue_blocked

-- No program has the pid, and the null result of the search is written through.
abbrev pub NoOwner : Scheduler → ℕ → Option Scheduler → Type 0
NoOwner s t o =
    (o ≡ none)
    × ((k p : ℕ) → get_elem? s.programs k ≡ some p → (s.program_at p).pid ≢ (s.thread_at t).pid)

find_first-some :
    (l : List ℕ) (p : ℕ → Bool) {a : ℕ}
    → find_first l p ≡ some a
    → (k : ℕ) × (get_elem? l k ≡ some a) × (p a ≡ true)
find_first-some [] p e = absurd (cc e)
find_first-some (x ∷ l) p {a} e = elim (Bool-cases (p x)) [
  | inl h ↦ let same : x ≡ a = ground arith in (zero, ap some same, ap p (sym same) ∙ h)
  | inr h ↦ let r = find_first-some l p {a = a} (ground arith) in (suc r.0, r.1, r.2)
]

find_first-none :
    (l : List ℕ) (p : ℕ → Bool) (k : ℕ) {a : ℕ}
    → find_first l p ≡ none
    → get_elem? l k ≡ some a
    → p a ≡ false
find_first-none [] p k e g = absurd (cc g)
find_first-none (x ∷ l) p zero e g = ground arith
find_first-none (x ∷ l) p (suc k) e g = find_first-none l p k (ground arith) g

abbrev owned_by : Scheduler → ℕ → ℕ → Bool
owned_by s t p = (s.thread_at t).pid == (s.program_at p).pid

finish_lem :
    (s : Scheduler) (t : ℕ)
    → scheduler_finish_thread reference t s
      ≡ finish_found reference (find_first s.programs (owned_by s t)) (record s {
        thread_at = set_thread s.thread_at t (record (s.thread_at t) { state = EState.exit });
      })
unfolding scheduler_finish_thread scheduler_find_program_by_id
finish_lem s t =
    ap
      (λ i.
        finish_found reference (find_first s.programs (λ p. i == (s.program_at p).pid)) (record s {
          thread_at = set_thread s.thread_at t (record (s.thread_at t) { state = EState.exit });
        }))
      (ground arith)

finish_thread-cases :
    (s : Scheduler) (t : ℕ)
    → Finished s t (scheduler_finish_thread reference t s)
      ⊎ NoOwner s t (scheduler_finish_thread reference t s)
unfolding finish_found scheduler_finish_program
finish_thread-cases s t = elim (Option-cases (find_first s.programs (owned_by s t))) [
  | inl e ↦ inr (
    finish_lem s t ∙ rw e,
    λ k p g same. let h = find_first-none s.programs (owned_by s t) k e g in ground arith,
  )
  | inr (p, e) ↦
      let r = find_first-some s.programs (owned_by s t) e in
      inl (
        rw (finish_lem s t, e)
          (record {
            program = p;
            after = _;
            index = r.0;
            found = r.1;
            owner = ground (arith, r.2);
            result = refl;
            thread_state = ground arith;
            program_state = ground arith;
            exits = refl;
            same_programs = refl;
            same_degree = refl;
            same_ready = refl;
            same_blocked = refl;
          }))
]

-- Ending a thread marks it, and the first program with its pid, as EXIT and puts that program
-- behind the exit queue, while the programs, READY and BLOCKED stay as they are; only when no program has the pid
-- does it write through a null pointer.
pub scheduler_finish_thread_cases :
    {c : Commons} (s : Scheduler) (t : ℕ)
    → Documented c
    → Finished s t (scheduler_finish_thread c t s) ⊎ NoOwner s t (scheduler_finish_thread c t s)
scheduler_finish_thread_cases s t d =
    for_documented
      (λ c.
        Finished s t (scheduler_finish_thread c t s) ⊎ NoOwner s t (scheduler_finish_thread c t s))
      d (finish_thread-cases s t)
