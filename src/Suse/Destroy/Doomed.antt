-- ===== src/Suse/Destroy/Doomed.antt =====
-- When scheduler_destroy of suse/src/scheduler/suse_scheduler.c does not come to its end.
use threaders.Base.{
  ℕ, ◌≡◌, refl, Option, none, some, List, [], ◌∷◌, ◌++◌, sym, ap, ◌∙◌, get_elem?, length, subst,
  inl, inr, ◌⊎◌,
}
use threaders.Commons.{Commons, Documented}
use threaders.Suse.{Scheduler, scheduler_finish_thread}
use threaders.Suse.Finish.{Finished, scheduler_finish_thread_cases}
use threaders.Suse.Destroy.{
  a_thread, Heap, program_destroy_thread, Destroyer, program_destroy, and_destroyed,
  scheduler_destroy, SemaphoreBlocks, semaphore_destroy,
}
use threaders.Suse.Destroy.Each.{each, Off, Keeps, program_destroy_thread-Keeps}
use threaders.Suse.Destroy.Twice.{
  is_program, program_test, live_test, program_destroy-Keeps, program_destroy_own,
  program_destroy_threads, program_destroy-fault, program_destroy_thread-fault, and_destroyed-Off,
  semaphore_destroy-Keeps, and_destroyed_own, and_destroyed-fault,
}

-- A thread waits in NEW, READY or BLOCKED, a program of the list of programs has exited, or a thread of one of these
-- programs is in the list of threads too.
pub data Doomed (s : Scheduler) (h : Heap) : Type 0 where
  in_new : (i t : ℕ) → get_elem? s.queue_new i ≡ some t → h t ≡ some a_thread → Doomed s h
  in_ready : (i t : ℕ) → get_elem? s.queue_ready i ≡ some t → h t ≡ some a_thread → Doomed s h
  in_blocked : (i t : ℕ) → get_elem? s.queue_blocked i ≡ some t → h t ≡ some a_thread → Doomed s h
  exited :
      (i j p : ℕ) → get_elem? s.queue_exit i ≡ some p → get_elem? s.programs j ≡ some p → Doomed s h
  listed :
      (i j k p t : ℕ)
      → get_elem? s.programs i ≡ some p
      → get_elem? (s.program_at p).threads j ≡ some t
      → get_elem? s.threads k ≡ some t
      → Doomed s h

module _ (semaphore_at : ℕ → SemaphoreBlocks) (semphores : List ℕ) (s : Scheduler) (h : Heap) where
  abbrev destroy : ℕ → Heap → Option Heap
  destroy = program_destroy each s.program_at

  keeps : (b : ℕ) → Keeps (destroy b)
  keeps = program_destroy-Keeps s.program_at

  abbrev after_new : Option Heap
  after_new = and_destroyed each destroy s.queue_new (some h)

  abbrev after_ready : Option Heap → Option Heap
  after_ready o = and_destroyed each destroy s.queue_ready o

  abbrev after_blocked : Option Heap → Option Heap
  after_blocked o = and_destroyed each destroy s.queue_blocked o

  abbrev after_exit : Option Heap → Option Heap
  after_exit o = and_destroyed each destroy s.queue_exit o

  abbrev after_semaphores : Option Heap → Option Heap
  after_semaphores o = and_destroyed each (semaphore_destroy semaphore_at) semphores o

  abbrev after_programs : Option Heap → Option Heap
  after_programs o = and_destroyed each destroy s.programs o

  abbrev after_threads : Option Heap → Option Heap
  after_threads o = and_destroyed each program_destroy_thread s.threads o

  -- A thread that a queue has is not a program where it is its turn.
  queued-fault :
      (l : List ℕ) (i t : ℕ) (o : Option Heap)
      → get_elem? l i ≡ some t
      → Off program_test t o
      → and_destroyed each destroy l o ≡ none
  queued-fault l i t o e off =
      and_destroyed-fault destroy l i t program_test t o keeps e
        (program_destroy-fault s.program_at t) off

  kept :
      (l : List ℕ) (t : ℕ) (o : Option Heap)
      → Off program_test t o
      → Off program_test t (and_destroyed each destroy l o)
  kept l t o off = and_destroyed-Off destroy l program_test t o keeps off

  each-Doomed : Doomed s h → scheduler_destroy each semaphore_at semphores s h ≡ none
  unfolding scheduler_destroy
  each-Doomed (in_new i t e k) =
      ap
        (λ o.
          after_threads
            (after_programs (after_semaphores (after_exit (after_blocked (after_ready o))))))
        (queued-fault s.queue_new i t (some h) e (ap is_program k))
  each-Doomed (in_ready i t e k) =
      ap (λ o. after_threads (after_programs (after_semaphores (after_exit (after_blocked o)))))
        (queued-fault s.queue_ready i t after_new e (kept s.queue_new t (some h) (ap is_program k)))
  each-Doomed (in_blocked i t e k) =
      ap (λ o. after_threads (after_programs (after_semaphores (after_exit o))))
        (queued-fault s.queue_blocked i t (after_ready after_new) e
          (kept s.queue_ready t after_new (kept s.queue_new t (some h) (ap is_program k))))
  each-Doomed (exited i j p e k) =
      let before = after_blocked (after_ready after_new) in
      ap after_threads (
        queued-fault s.programs j p (after_semaphores (after_exit before)) k (
          and_destroyed-Off (semaphore_destroy semaphore_at) semphores program_test p
            (after_exit before) (semaphore_destroy-Keeps semaphore_at)
            (and_destroyed_own destroy s.queue_exit i p program_test p before keeps e
              (program_destroy_own s.program_at program_test p))))
  each-Doomed (listed i j k p t e own out) =
      let before = after_semaphores (after_exit (after_blocked (after_ready after_new))) in
      and_destroyed-fault program_destroy_thread s.threads k t live_test t (after_programs before)
        program_destroy_thread-Keeps out (program_destroy_thread-fault t)
        (and_destroyed_own destroy s.programs i p live_test t before keeps e
          (λ after. program_destroy_threads s.program_at live_test p j t after own))

-- Where list_destroy_and_destroy_elements calls its function for each element in order: when a thread waits in NEW,
-- READY or BLOCKED, when a program of the list of programs has exited, or when a thread of one of these programs is in
-- the list of threads, scheduler_destroy reads a thread as a program, or frees or reads a block that it has freed.
pub scheduler_destroy-Doomed :
    (destroy_all : Destroyer) (semaphore_at : ℕ → SemaphoreBlocks) (semphores : List ℕ)
    (s : Scheduler) (h : Heap)
    → ((f : ℕ → Heap → Option Heap) (l : List ℕ) (h : Heap) → destroy_all f l h ≡ each f l h)
    → Doomed s h
    → scheduler_destroy destroy_all semaphore_at semphores s h ≡ none
scheduler_destroy-Doomed destroy_all semaphore_at semphores s h law d =
    let same : each ≡ destroy_all = λ i f l h. sym (law f l h) i in
    subst (λ x. scheduler_destroy x semaphore_at semphores s h ≡ none) same
      (each-Doomed semaphore_at semphores s h d)

get_elem-last : (l : List ℕ) (a : ℕ) → get_elem? (l ++ a ∷ []) (length l) ≡ some a
get_elem-last [] a = refl
get_elem-last (b ∷ l) a = get_elem-last l a

Finished-Doomed :
    (s : Scheduler) (t : ℕ) (o : Option Scheduler) (h : Heap)
    → Finished s t o
    → (after : Scheduler) × (o ≡ some after) × Doomed after h
Finished-Doomed s t o h f = (
  f.after,
  f.result,
  exited (length s.queue_exit) f.index f.program
      (ap (λ q. get_elem? q (length s.queue_exit)) f.exits ∙ get_elem-last s.queue_exit f.program)
      (ap (λ l. get_elem? l f.index) f.same_programs ∙ f.found),
)

-- With the list operations as documented, in any state, the end of a thread either writes through a null pointer, or
-- leaves a state in which scheduler_destroy, whatever blocks there are, frees or reads a block that it has freed, or
-- reads a thread as a program.
pub scheduler_finish_thread-scheduler_destroy :
    {c : Commons} (destroy_all : Destroyer) (semaphore_at : ℕ → SemaphoreBlocks)
    (semphores : List ℕ) (s : Scheduler) (t : ℕ) (h : Heap)
    → Documented c
    → ((f : ℕ → Heap → Option Heap) (l : List ℕ) (h : Heap) → destroy_all f l h ≡ each f l h)
    → (scheduler_finish_thread c t s ≡ none)
      ⊎ (after : Scheduler) × (scheduler_finish_thread c t s ≡ some after)
        × (scheduler_destroy destroy_all semaphore_at semphores after h ≡ none)
scheduler_finish_thread-scheduler_destroy {c} destroy_all semaphore_at semphores s t h d law =
    elim (scheduler_finish_thread_cases s t d) [
      | inl f ↦
          let r = Finished-Doomed s t (scheduler_finish_thread c t s) h f in
          inr (r.0, r.1, scheduler_destroy-Doomed destroy_all semaphore_at semphores r.0 h law r.2)
      | inr n ↦ inl n.0
    ]
