-- ===== src/Suse/Destroy/Released.antt =====
-- The states that scheduler_destroy of suse/src/scheduler/suse_scheduler.c frees as a whole.
use threaders.Base.{
  ℕ, ◌≡◌, true, false, Option, none, some, List, [], ◌++◌, arith, sym, ap, ◌∙◌, subst,
}
use threaders.Suse.{Scheduler}
use threaders.Suse.Destroy.{
  SemaphoreBlocks, semaphore_destroy, Heap, program_destroy_thread, Destroyer, program_destroy,
  and_destroyed, scheduler_destroy,
}
use threaders.Suse.Destroy.Blocks.{
  blocks_of, semaphore_blocks, has-blocks_of, each_program-without, each_semaphore-without,
}
use threaders.Suse.Destroy.Each.{each}
use threaders.Suse.Destroy.Without.{
  has, Distinct, Live, Programs, without, has-append, without-append, without-other, without-own,
  each-without, Distinct-left, Distinct-right, Live-left, behind, Live-right,
}

has-right : (a : ℕ) (l m : List ℕ) → has a m ≡ true → has a (l ++ m) ≡ true
has-right a l m k = has-append a l m ∙ ground arith

has-left : (a : ℕ) (l m : List ℕ) → has a l ≡ true → has a (l ++ m) ≡ true
has-left a l m k = has-append a l m ∙ ground arith

module _ (semaphore_at : ℕ → SemaphoreBlocks) (semphores : List ℕ) (s : Scheduler) where
  -- The blocks in the order in which they are freed.
  abbrev pub behind_semaphores : List ℕ
  behind_semaphores = blocks_of s.program_at s.programs ++ s.threads

  abbrev pub behind_exited : List ℕ
  behind_exited = semaphore_blocks semaphore_at semphores ++ behind_semaphores

  abbrev pub all_blocks : List ℕ
  all_blocks = blocks_of s.program_at s.queue_exit ++ behind_exited

-- No thread waits, and the programs, exited ones included, their threads, the blocks of the semaphores and the
-- other threads are distinct blocks that are live, the programs as programs.
pub record Releasable (semaphore_at : ℕ → SemaphoreBlocks) (semphores : List ℕ) (s : Scheduler)
    (h : Heap) : Type 0 where
  pub no_new : s.queue_new ≡ []
  pub no_ready : s.queue_ready ≡ []
  pub no_blocked : s.queue_blocked ≡ []
  pub exited_programs : Programs s.queue_exit h
  pub other_programs : Programs s.programs h
  pub distinct : Distinct (all_blocks semaphore_at semphores s)
  pub live : Live (all_blocks semaphore_at semphores s) h

module _ (semaphore_at : ℕ → SemaphoreBlocks) (semphores : List ℕ) (s : Scheduler) (h : Heap) where
  each-Releasable :
      Releasable semaphore_at semphores s h
      → scheduler_destroy each semaphore_at semphores s h
        ≡ some (without (all_blocks semaphore_at semphores s) h)
  unfolding scheduler_destroy
  each-Releasable r =
      let destroy = program_destroy each s.program_at in
      let destroy_semaphore = semaphore_destroy semaphore_at in
      let exits = blocks_of s.program_at s.queue_exit in
      let sems = semaphore_blocks semaphore_at semphores in
      let programs = blocks_of s.program_at s.programs in
      let late = behind_semaphores semaphore_at semphores s in
      let later = behind_exited semaphore_at semphores s in
      let h1 = without exits h in
      let h2 = without sems h1 in
      let h3 = without programs h2 in
      let d1 = Distinct-right exits later r.distinct in
      let d2 = Distinct-right sems late d1 in
      let v1 = Live-right exits later h r.distinct r.live in
      let v2 = Live-right sems late h1 d1 v1 in
      let still : Programs s.programs h2 = λ p k.
        let here = has-left p programs s.threads (has-blocks_of s.program_at p s.programs k) in
        behind sems late h1 d1 p here
        ∙ behind exits later h r.distinct p (has-right p sems late here)
        ∙ r.other_programs p k in
      let after_programs = λ (o : Option Heap). and_destroyed each destroy s.programs o in
      let after_threads =
        λ (o : Option Heap). and_destroyed each program_destroy_thread s.threads o in
      let after_semaphores =
        λ (o : Option Heap). and_destroyed each destroy_semaphore semphores o in
      let run = λ (new ready blocked : List ℕ). after_threads (
        after_programs (
          after_semaphores (
            and_destroyed each destroy s.queue_exit (
              and_destroyed each destroy blocked
                (and_destroyed each destroy ready (and_destroyed each destroy new (some h))))))) in
      (λ i. run (r.no_new i) (r.no_ready i) (r.no_blocked i))
      ∙ ap (λ o. after_threads (after_programs (after_semaphores o)))
          (each_program-without s.program_at s.queue_exit h r.exited_programs
            (Distinct-left exits later r.distinct) (Live-left exits later h r.live))
      ∙ ap (λ o. after_threads (after_programs o))
          (each_semaphore-without semaphore_at semphores h1 (Distinct-left sems late d1)
            (Live-left sems late h1 v1))
      ∙ ap after_threads (
          each_program-without s.program_at s.programs h2 still
            (Distinct-left programs s.threads d2) (Live-left programs s.threads h2 v2))
      ∙ each-without s.threads h3 (Distinct-right programs s.threads d2)
          (Live-right programs s.threads h2 d2 v2)
      ∙ ap some (
          sym (
            without-append exits later h
            ∙ without-append sems late h1
            ∙ without-append programs s.threads h2))

-- The blocks in a list are gone, and all others stay as they are.
pub record Released (blocks : List ℕ) (h : Heap) (o : Option Heap) : Type 0 where
  pub after : Heap
  pub result : o ≡ some after
  pub gone : (a : ℕ) → has a blocks ≡ true → after a ≡ none
  pub same : (a : ℕ) → has a blocks ≡ false → after a ≡ h a

-- Where list_destroy_and_destroy_elements calls its function for each element in order, and no thread waits, and the
-- programs, exited ones included, their threads, the blocks of the semaphores and the other threads are live and
-- distinct: scheduler_destroy frees each of these blocks, without a fault, and no other.
pub scheduler_destroy-Released :
    (destroy_all : Destroyer) (semaphore_at : ℕ → SemaphoreBlocks) (semphores : List ℕ)
    (s : Scheduler) (h : Heap)
    → ((f : ℕ → Heap → Option Heap) (l : List ℕ) (h : Heap) → destroy_all f l h ≡ each f l h)
    → Releasable semaphore_at semphores s h
    → Released
        (all_blocks semaphore_at semphores s)
        h
        (scheduler_destroy destroy_all semaphore_at semphores s h)
scheduler_destroy-Released destroy_all semaphore_at semphores s h law r =
    let same : each ≡ destroy_all = λ i f l h. sym (law f l h) i in
    let blocks = all_blocks semaphore_at semphores s in
    subst (λ x. Released blocks h (scheduler_destroy x semaphore_at semphores s h)) same
      (record {
        after = without blocks h;
        result = each-Releasable semaphore_at semphores s h r;
        gone = λ a k. without-own blocks h a k;
        same = λ a k. without-other blocks h a k;
      })
