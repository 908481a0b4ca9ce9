-- ===== src/Suse/Destroy.antt =====
-- scheduler_destroy of suse/src/scheduler/suse_scheduler.c and the functions of suse/src/program/suse_program.c that it
-- frees with. `none` is a block that is freed twice or read after it was freed, or another block that is read as a program.
-- The blocks of the lists of threads are left out. Scheduler has the semaphores by value: their blocks are an argument.
pub mod Each
pub mod Twice
pub mod Doomed
pub mod Without
pub mod Blocks
pub mod Released
mod Examples
use threaders.Base.{ℕ, Option, none, some, List, ◌==◌, if◌then◌else◌}
use threaders.Suse.{Program, Scheduler}

pub data Block : Type 0 where
  a_thread a_program other : Block

-- The blocks that are not freed, by their addresses.
abbrev pub Heap : Type 0
Heap = ℕ → Option Block

abbrev pub freed : ℕ → Heap → Option Block → Option Heap
freed a h none = none
freed a h (some block) = some (λ b. if b == a then none else h b)

abbrev pub program_destroy_thread : ℕ → Heap → Option Heap
program_destroy_thread thread h = freed thread h (h thread)

abbrev pub and_free : ℕ → Option Heap → Option Heap
and_free a none = none
and_free a (some h) = freed a h (h a)

-- Where the id and the queue of a semaphore are.
pub record SemaphoreBlocks : Type 0 where
  pub id : ℕ
  pub queue : ℕ

-- `sem->id` is read first; queue_destroy of so-commons-library frees the queue.
abbrev pub semaphore_freed : SemaphoreBlocks → ℕ → Heap → Option Block → Option Heap
semaphore_freed blocks sem h none = none
semaphore_freed blocks sem h (some block) =
    and_free sem (and_free blocks.queue (and_free blocks.id (some h)))

unfoldable pub semaphore_destroy : (ℕ → SemaphoreBlocks) → ℕ → Heap → Option Heap
semaphore_destroy semaphore_at sem h = semaphore_freed (semaphore_at sem) sem h (h sem)

-- What list_destroy_and_destroy_elements of so-commons-library does with a function that frees an element.
abbrev pub Destroyer : Type 0
Destroyer = (ℕ → Heap → Option Heap) → List ℕ → Heap → Option Heap

module _ (list_destroy_and_destroy_elements : Destroyer) where
  -- The field `threads` of a thread would be a pointer made of its state and its time.
  abbrev pub destroyed_as : Program → ℕ → Heap → Option Block → Option Heap
  destroyed_as program p h (some a_program) =
      and_free p (list_destroy_and_destroy_elements program_destroy_thread program.threads h)
  destroyed_as program p h (some a_thread) = none
  destroyed_as program p h (some other) = none
  destroyed_as program p h none = none

  unfoldable pub program_destroy : (ℕ → Program) → ℕ → Heap → Option Heap
  program_destroy program_at p h = destroyed_as (program_at p) p h (h p)

  abbrev pub and_destroyed : (ℕ → Heap → Option Heap) → List ℕ → Option Heap → Option Heap
  and_destroyed destroy l none = none
  and_destroyed destroy l (some h) = list_destroy_and_destroy_elements destroy l h

  -- The queues first, then the semaphores, the programs and the threads.
  unfoldable pub scheduler_destroy : (ℕ → SemaphoreBlocks) → List ℕ → Scheduler → Heap → Option Heap
  scheduler_destroy semaphore_at semphores s h =
      let destroy = program_destroy s.program_at in
      let queues = and_destroyed destroy s.queue_exit (
        and_destroyed destroy s.queue_blocked
          (and_destroyed destroy s.queue_ready (and_destroyed destroy s.queue_new (some h)))) in
      and_destroyed program_destroy_thread s.threads (
        and_destroyed destroy s.programs
          (and_destroyed (semaphore_destroy semaphore_at) semphores queues))
