-- ===== src/Suse/Destroy/Examples.antt =====
-- scheduler_destroy of suse/src at concrete states.
use threaders.Base.{ℕ, arith, ◌≡◌, refl, ◌==◌, ltb, if◌then◌else◌, none, some, [], ◌∷◌, pos, ◌⊎◌}
use threaders.Commons.{reference, reference-Documented}
use threaders.Suse.{Scheduler, EState, scheduler_finish_thread}
use threaders.Suse.Destroy.{Heap, a_thread, a_program, other, SemaphoreBlocks, scheduler_destroy}
use threaders.Suse.Destroy.Each.{each}
use threaders.Suse.Destroy.Released.{all_blocks, Releasable, Released, scheduler_destroy-Released}
use threaders.Suse.Destroy.Doomed.{scheduler_finish_thread-scheduler_destroy}

-- A program at 7 with two threads, at 11 and 12.
abbrev single : Scheduler
single = record {
  queue_new = [];
  queue_ready = [];
  queue_blocked = [];
  queue_exit = [];
  semphores = [];
  programs = 7 ∷ [];
  threads = [];
  thread_at = λ a. record {
    pid = 1;
    tid = a;
    state = EState.ready;
    exec_time = pos 0;
    wait_time = pos 0;
    cpu_time = pos 0;
    exec_time_percent = pos 0;
  };
  program_at = λ a. record { pid = 1; state = EState.new; threads = 11 ∷ 12 ∷ [] };
  thread_exec = none;
  program_exec = none;
  pid = 2;
  tid = 3;
  max_multiprog = pos 10;
}

abbrev blocks : Heap
blocks a =
    if a == 7
    then some a_program
    else if ltb a 13
    then some a_thread
    else if ltb a 23
    then some other
    else none

-- A semaphore at 20.
abbrev parts_of : ℕ → SemaphoreBlocks
parts_of a = record { id = 21; queue = 22 }

scheduler_finish_thread-scheduler_destroy_example :
    (scheduler_finish_thread reference 11 single ≡ none)
    ⊎ (after : Scheduler) × (scheduler_finish_thread reference 11 single ≡ some after)
      × (scheduler_destroy each parts_of (20 ∷ []) after blocks ≡ none)
scheduler_finish_thread-scheduler_destroy_example =
    scheduler_finish_thread-scheduler_destroy each parts_of (20 ∷ []) single 11 blocks
      reference-Documented (λ f l h. refl)

single_whole : Releasable parts_of (20 ∷ []) single blocks
single_whole = record {
  no_new = refl;
  no_ready = refl;
  no_blocked = refl;
  exited_programs = λ p k. absurd (cc k);
  other_programs = λ p k. ground arith;
  distinct = (refl, (refl, (refl, (refl, (refl, (refl, tt))))));
  live = λ a k. ground arith;
}

-- Before the end of a thread all is freed.
scheduler_destroy-Released_example :
    Released
      (all_blocks parts_of (20 ∷ []) single)
      blocks
      (scheduler_destroy each parts_of (20 ∷ []) single blocks)
scheduler_destroy-Released_example =
    scheduler_destroy-Released each parts_of (20 ∷ []) single blocks (λ f l h. refl) single_whole
