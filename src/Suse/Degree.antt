-- ===== src/Suse/Degree.antt =====
-- The degree of multiprogramming of suse/src while the functions of scheduler/suse_scheduler.c run in any order.
use threaders.Base.{
  ℕ, zero, suc, ◌+◌, ◌≡◌, refl, Bool, true, false, Option, none, some, List, [], ◌∷◌, arith, sym,
  ap, ◌∙◌, ℤ, pos, negsuc, ◌+ℤ◌, ◌-ℤ◌, length, get_elem?, length-append, if◌then◌else◌, inl, inr,
}
use threaders.Commons.{Commons, Documented, reference, remove_at, for_documented}
use threaders.Suse.{
  Scheduler, Floats, scheduler_set_ready_thread, scheduler_block_thread, scheduler_execute_program,
  scheduler_execute_thread, suse_increase_multiprog, scheduler_finish_thread, is_shortest, run_at,
  short_term_loop, scheduler_run_short_term_scheduler, scheduler_run_long_term_scheduler,
}
use threaders.Suse.LongTerm.Admission.{Admission, scheduler_run_long_term_scheduler-Admission}
use threaders.Suse.Finish.{scheduler_finish_thread_cases}

-- The states that come after `s` by calls of the scheduler, with the number of threads that were made ready by
-- scheduler_set_ready_thread.
pub data Calls (c : Commons) (f : Floats) (alpha : f.Double) (s : Scheduler)
    : ℕ → Scheduler → Type 0 where
  started : Calls c f alpha s 0 s
  long_term :
      {n : ℕ} {t t' : Scheduler}
      → Calls c f alpha s n t
      → scheduler_run_long_term_scheduler c t ≡ some t'
      → Calls c f alpha s n t'
  short_term :
      {n : ℕ} {t : Scheduler}
      → Calls c f alpha s n t
      → Calls c f alpha s n (scheduler_run_short_term_scheduler c f alpha t)
  set_ready :
      {n : ℕ} {t : Scheduler} (thread : ℕ)
      → Calls c f alpha s n t
      → Calls c f alpha s (suc n) (scheduler_set_ready_thread c thread t)
  block :
      {n : ℕ} {t : Scheduler} (thread : ℕ)
      → Calls c f alpha s n t
      → Calls c f alpha s n (scheduler_block_thread c thread t)
  finished :
      {n : ℕ} {t t' : Scheduler} (thread : ℕ)
      → Calls c f alpha s n t
      → scheduler_finish_thread c thread t ≡ some t'
      → Calls c f alpha s n t'
  execute :
      {n : ℕ} {t : Scheduler} (program : ℕ)
      → Calls c f alpha s n t
      → Calls c f alpha s n (scheduler_execute_program program t)

-- The degree and the threads in READY together.
abbrev pub room_and_ready : Scheduler → ℤ
room_and_ready s = s.max_multiprog +ℤ pos (length s.queue_ready)

admitted-eq : (m : ℤ) (n k : ℕ) → (m -ℤ pos k) +ℤ pos (n + k) ≡ m +ℤ pos n
unfolding ◌+ℤ◌ ◌-ℤ◌
admitted-eq (pos m) n k = ground arith
admitted-eq (negsuc m) n k = ground arith

picked-eq : (m : ℤ) (n : ℕ) → (m +ℤ pos 1) +ℤ pos n ≡ m +ℤ pos (suc n)
unfolding ◌+ℤ◌
picked-eq (pos m) n = ground arith
picked-eq (negsuc m) n = ground arith

next-eq : (m : ℤ) (n : ℕ) → m +ℤ pos (suc n) ≡ (m +ℤ pos n) +ℤ pos 1
unfolding ◌+ℤ◌
next-eq (pos m) n = ground arith
next-eq (negsuc m) n = ground arith

more-eq : (m : ℤ) (a b : ℕ) → a ≡ b → m +ℤ pos a ≡ m +ℤ pos b
more-eq m a b e = ap (λ k. m +ℤ pos k) e

length-remove_at :
    (l : List ℕ) (i : ℕ) {a : ℕ} → get_elem? l i ≡ some a → suc (length (remove_at l i)) ≡ length l
length-remove_at [] i e = absurd (cc e)
length-remove_at (x ∷ l) zero e = refl
length-remove_at (x ∷ l) (suc i) e = ap suc (length-remove_at l i e)

module _ (f : Floats) (alpha : f.Double) where
  run_at-eq :
      (s : Scheduler) (i t : ℕ)
      → get_elem? s.queue_ready i ≡ some t
      → room_and_ready (run_at reference f alpha i (some t) s) ≡ room_and_ready s
  unfolding run_at suse_increase_multiprog scheduler_execute_thread
  run_at-eq s i t e =
      picked-eq s.max_multiprog (length (remove_at s.queue_ready i))
      ∙ more-eq s.max_multiprog (suc (length (remove_at s.queue_ready i))) (length s.queue_ready)
          (length-remove_at s.queue_ready i e)

  run_or_rest-eq :
      (s : Scheduler) (i : ℕ) (o : Option ℕ) (b : Bool) (rest : Scheduler)
      → get_elem? s.queue_ready i ≡ o
      → room_and_ready rest ≡ room_and_ready s
      → room_and_ready (if b then run_at reference f alpha i o s else rest) ≡ room_and_ready s
  unfolding run_at
  run_or_rest-eq s i none true rest e h = refl
  run_or_rest-eq s i (some t) true rest e h = run_at-eq s i t e
  run_or_rest-eq s i o false rest e h = h

  loop-eq :
      (s : Scheduler) (n i : ℕ)
      → room_and_ready (short_term_loop reference f alpha n i s) ≡ room_and_ready s
  unfolding short_term_loop
  loop-eq s zero i = refl
  loop-eq s (suc n) i =
      let thread = get_elem? s.queue_ready i in
      run_or_rest-eq s i thread (is_shortest reference f alpha thread s)
        (short_term_loop reference f alpha n (i + 1) s) refl (loop-eq s n (i + 1))

  short_term-eq :
      {c : Commons} (d : Documented c) (s : Scheduler)
      → room_and_ready (scheduler_run_short_term_scheduler c f alpha s) ≡ room_and_ready s
  unfolding scheduler_run_short_term_scheduler
  short_term-eq d s =
      for_documented
        (λ c. room_and_ready (scheduler_run_short_term_scheduler c f alpha s) ≡ room_and_ready s) d
        (loop-eq s (length s.queue_ready) 0)

some-eq : {s t : Scheduler} (o : Option Scheduler) → o ≡ some s → o ≡ some t → s ≡ t
some-eq {s} {t} o e h = ap (from_some s) (sym e ∙ h)
  where
    from_some : Scheduler → Option Scheduler → Scheduler
    from_some u none = u
    from_some u (some v) = v

long_term_eq :
    (s t : Scheduler) (o : Option Scheduler)
    → Admission s o
    → o ≡ some t
    → room_and_ready t ≡ room_and_ready s
long_term_eq s t o a e =
    let k = length a.admitted in
    let n = length s.queue_ready in
    let whole : length a.passed.after.queue_ready ≡ n + k =
      ap length a.passed.ready ∙ length-append s.queue_ready a.admitted in
    ap room_and_ready (some-eq o e a.passed.result)
    ∙ ap (λ m. m +ℤ pos (length a.passed.after.queue_ready)) a.passed.degree
    ∙ more-eq (s.max_multiprog -ℤ pos k) (length a.passed.after.queue_ready) (n + k) whole
    ∙ admitted-eq s.max_multiprog n k

finish_thread_eq :
    {c : Commons} (d : Documented c) (s t : Scheduler) (thread : ℕ)
    → scheduler_finish_thread c thread s ≡ some t
    → room_and_ready t ≡ room_and_ready s
finish_thread_eq {c} d s t thread e = elim (scheduler_finish_thread_cases s thread d) [
  | inl f ↦
      ap room_and_ready (some-eq (scheduler_finish_thread c thread s) e f.result)
      ∙ ap (λ m. m +ℤ pos (length f.after.queue_ready)) f.same_degree
      ∙ ap (λ l. s.max_multiprog +ℤ pos (length l)) f.same_ready
  | inr f ↦ absurd (cc (sym f.0 ∙ e))
]

set_ready-eq :
    {c : Commons} (d : Documented c) (s : Scheduler) (thread : ℕ)
    → room_and_ready (scheduler_set_ready_thread c thread s) ≡ room_and_ready s +ℤ pos 1
unfolding scheduler_set_ready_thread
set_ready-eq {c} d s thread =
    let grown : length (c.list_add ℕ s.queue_ready thread) ≡ suc (length s.queue_ready) = omega (
      arith,
      ap length (d.add_law ℕ s.queue_ready thread),
      length-append s.queue_ready (thread ∷ []),
    ) in
    more-eq s.max_multiprog (length (c.list_add ℕ s.queue_ready thread))
      (suc (length s.queue_ready)) grown
    ∙ next-eq s.max_multiprog (length s.queue_ready)

-- With the list operations as documented, while the schedulers run and threads are made ready, blocked and ended in
-- any order, and programs executed, for any float operations: the degree of multiprogramming and the number of threads
-- in READY together are what they were at first, and one more for each call of scheduler_set_ready_thread, which
-- takes no room from the degree.
pub Calls-room_and_ready :
    {c : Commons} (f : Floats) (alpha : f.Double) (s : Scheduler) (n : ℕ) (t : Scheduler)
    → Documented c
    → Calls c f alpha s n t
    → room_and_ready t ≡ s.max_multiprog +ℤ pos (length s.queue_ready + n)
unfolding scheduler_block_thread scheduler_execute_program
Calls-room_and_ready f alpha s n t d started =
    more-eq s.max_multiprog (length s.queue_ready) (length s.queue_ready + 0) (omega arith)
Calls-room_and_ready {c} f alpha s _ _ d (long_term {n} {t} {t'} h e) =
    long_term_eq t t' (scheduler_run_long_term_scheduler c t)
      (scheduler_run_long_term_scheduler-Admission t d) e
    ∙ Calls-room_and_ready f alpha s n t d h
Calls-room_and_ready f alpha s _ _ d (short_term {n} {t} h) =
    short_term-eq f alpha d t ∙ Calls-room_and_ready f alpha s n t d h
Calls-room_and_ready f alpha s _ _ d (set_ready {n} {t} thread h) =
    let total : length s.queue_ready + suc n ≡ suc (length s.queue_ready + n) = omega arith in
    set_ready-eq d t thread
    ∙ ap (λ z. z +ℤ pos 1) (Calls-room_and_ready f alpha s n t d h)
    ∙ sym (next-eq s.max_multiprog (length s.queue_ready + n))
    ∙ more-eq s.max_multiprog (suc (length s.queue_ready + n)) (length s.queue_ready + suc n)
        (sym total)
Calls-room_and_ready f alpha s _ _ d (block {n} {t} thread h) =
    Calls-room_and_ready f alpha s n t d h
Calls-room_and_ready f alpha s _ _ d (finished {n} {t} {t'} thread h e) =
    finish_thread_eq d t t' thread e ∙ Calls-room_and_ready f alpha s n t d h
Calls-room_and_ready f alpha s _ _ d (execute {n} {t} program h) =
    Calls-room_and_ready f alpha s n t d h
