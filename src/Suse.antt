-- ===== src/Suse.antt =====
-- suse/src: the scheduler (scheduler/suse_scheduler.c), with its programs, threads and semaphores
-- and the degree of multiprogramming that config/suse_config.c keeps. A pointer to a thread or a
-- program is an address, and `thread_at` and `program_at` are the blocks there. Log lines are left
-- out. The list operations are those of `Commons`, the float operations those of `Floats`.
pub mod LongTerm
mod Fold
pub mod ShortTerm
pub mod Finish
pub mod Config
pub mod Destroy
pub mod Degree
pub mod Metrics
pub mod Main
mod Examples
use mathlib.Core.Option
use threaders.Base.{
  [], ◌∷◌, length, ℕ, zero, suc, ◌+◌, Bool, false, Option, none, some, List, ℤ, pos, ◌+ℤ◌, ◌-ℤ◌,
  ltb, leb_ℤ, ◌==◌, if◌then◌else◌,
}
use threaders.Commons.{Commons}

pub data EState : Type 0 where
  new ready exec blocked exit : EState

pub record Thread : Type 0 where
  pub pid : ℕ
  pub tid : ℕ
  pub state : EState
  pub exec_time : ℤ
  pub wait_time : ℤ
  pub cpu_time : ℤ
  pub exec_time_percent : ℤ

pub record Program : Type 0 where
  pub pid : ℕ
  pub state : EState
  pub threads : List ℕ

pub record Semaphore : Type 0 where
  pub id : List ℕ
  pub value : ℤ
  pub max_value : ℤ
  pub queue : List ℕ

pub record Scheduler : Type 0 where
  pub queue_new : List ℕ
  pub queue_ready : List ℕ
  pub queue_blocked : List ℕ
  pub queue_exit : List ℕ
  pub semphores : List Semaphore
  pub programs : List ℕ
  pub threads : List ℕ
  pub thread_at : ℕ → Thread
  pub program_at : ℕ → Program
  pub thread_exec : Option ℕ
  pub program_exec : Option ℕ
  pub pid : ℕ
  pub tid : ℕ
  pub max_multiprog : ℤ

-- The C `float` and `double` operations that the scheduler uses.
pub record Floats : Type 1 where
  pub Float : Type 0
  pub Double : Type 0
  pub of_int : ℤ → Float
  pub widen : Float → Double
  pub narrow : Double → Float
  pub mul_float : Float → Float → Float
  pub zero_float : Float
  pub one_double : Double
  pub add_double : Double → Double → Double
  pub sub_double : Double → Double → Double
  pub mul_double : Double → Double → Double
  pub le_float : Float → Float → Bool

abbrev pub set_thread : (ℕ → Thread) → ℕ → Thread → ℕ → Thread
set_thread f k t a = if a == k then t else f a

abbrev pub set_program : (ℕ → Program) → ℕ → Program → ℕ → Program
set_program f k t a = if a == k then t else f a

pub suse_decrease_multiprog : Scheduler → Scheduler
suse_decrease_multiprog s = record s { max_multiprog = s.max_multiprog -ℤ pos 1 }

pub suse_increase_multiprog : Scheduler → Scheduler
suse_increase_multiprog s = record s { max_multiprog = s.max_multiprog +ℤ pos 1 }

-- The new value is the one that is returned, then the counter is raised.
pub scheduler_get_next_pid : Scheduler → ℕ × Scheduler
scheduler_get_next_pid s = (s.pid, record s { pid = s.pid + 1 })

pub scheduler_get_next_tid : Scheduler → ℕ × Scheduler
scheduler_get_next_tid s = (s.tid, record s { tid = s.tid + 1 })

pub scheduler_execute_thread : ℕ → Scheduler → Scheduler
scheduler_execute_thread t s = record s {
  thread_at = set_thread s.thread_at t (record (s.thread_at t) { state = EState.exec });
  thread_exec = some t;
}

pub scheduler_execute_program : ℕ → Scheduler → Scheduler
scheduler_execute_program p s = record s {
  program_at = set_program s.program_at p (record (s.program_at p) { state = EState.exec });
  program_exec = some p;
}

-- The rest of the semaphores, unless the last one was a fault.
abbrev pub load_next :
    Option (List Semaphore) → (List Semaphore → Option (List Semaphore)) → Option (List Semaphore)
load_next none rest = none
load_next (some l) rest = rest l

module _ (c : Commons) where
  pub program_create : ℕ → Program
  program_create pid = record { pid = pid; state = EState.new; threads = c.list_create ℕ }

  -- The id is copied into `sizeof(id)`, 8, bytes with its final zero; `none` is the write behind them.
  pub semaphore_create : List ℕ → ℤ → ℤ → Option Semaphore
  semaphore_create id value max_value =
      if ltb (length id) 8
      then some (record { id = id; value = value; max_value = max_value; queue = [] })
      else none

  pub add_semaphore : Option Semaphore → List Semaphore → Option (List Semaphore)
  add_semaphore none l = none
  add_semaphore (some m) l = some (c.list_add Semaphore l m)

  -- The memory that malloc returns is `old`; only three of its fields are written.
  pub program_create_thread : Thread → ℕ → ℕ → Thread
  program_create_thread old pid tid = record old { pid = pid; tid = tid; state = EState.ready }

  pub scheduler_init : Scheduler → Scheduler
  scheduler_init s = record s {
    programs = c.list_create ℕ;
    threads = c.list_create ℕ;
    queue_new = c.list_create ℕ;
    queue_ready = c.list_create ℕ;
    queue_blocked = c.list_create ℕ;
    queue_exit = c.list_create ℕ;
  }

  pub scheduler_set_ready_thread : ℕ → Scheduler → Scheduler
  scheduler_set_ready_thread t s = record s {
    thread_at = set_thread s.thread_at t (record (s.thread_at t) { state = EState.ready });
    queue_ready = c.list_add ℕ s.queue_ready t;
  }

  pub scheduler_block_thread : ℕ → Scheduler → Scheduler
  scheduler_block_thread t s = record s {
    thread_at = set_thread s.thread_at t (record (s.thread_at t) { state = EState.blocked });
    queue_blocked = c.list_add ℕ s.queue_blocked t;
  }

  pub scheduler_find_program_by_id : ℕ → Scheduler → Option ℕ
  scheduler_find_program_by_id id s = c.list_find ℕ s.programs (λ p. id == (s.program_at p).pid)

  pub scheduler_finish_program : ℕ → Scheduler → Scheduler
  scheduler_finish_program p s = record s {
    program_at = set_program s.program_at p (record (s.program_at p) { state = EState.exit });
    queue_exit = c.list_add ℕ s.queue_exit p;
  }

  -- `none` is the write through a null pointer that follows when no program has the thread's pid.
  pub finish_found : Option ℕ → Scheduler → Option Scheduler
  finish_found none s = none
  finish_found (some p) s = some (scheduler_finish_program p s)

  pub scheduler_finish_thread : ℕ → Scheduler → Option Scheduler
  scheduler_finish_thread t s =
      let marked = record s {
        thread_at = set_thread s.thread_at t (record (s.thread_at t) { state = EState.exit });
      } in
      finish_found (scheduler_find_program_by_id (marked.thread_at t).pid marked) marked

  -- The body of the loop at index `i`, for the thread that list_get finds there.
  pub admit : ℕ → Option ℕ → Scheduler → Scheduler
  admit i none s = s
  admit i (some t) s =
      if leb_ℤ (pos (c.list_size ℕ s.queue_ready)) s.max_multiprog
      then suse_decrease_multiprog (record s {
        queue_new = c.list_remove ℕ s.queue_new i;
        queue_ready = c.list_add ℕ s.queue_ready t;
      })
      else s

  -- `for (i = 0; i < list_size(queue_new); i++)` on fuel; `none` means that it ran out.
  pub long_term_loop : ℕ → ℕ → Scheduler → Option Scheduler
  long_term_loop zero i s = if ltb i (c.list_size ℕ s.queue_new) then none else some s
  long_term_loop (suc n) i s =
      let rest = long_term_loop n (i + 1) (admit i (c.list_get ℕ s.queue_new i) s) in
      if ltb i (c.list_size ℕ s.queue_new) then rest else some s

  pub scheduler_run_long_term_scheduler : Scheduler → Option Scheduler
  scheduler_run_long_term_scheduler s = long_term_loop (c.list_size ℕ s.queue_new) 0 s

  module _ (f : Floats) (alpha_sjf : f.Double) where
    open f use {
      Float, of_int, widen, narrow, mul_float, zero_float, one_double, add_double, sub_double,
      mul_double, le_float,
    }

    -- `tn` is the constant 0 of the source.
    pub scheduler_calculate_exponential_mean : ℤ → Float
    scheduler_calculate_exponential_mean burst_time =
        let tn = zero_float in
        let alpha = narrow alpha_sjf in
        narrow (
          add_double (widen (mul_float alpha (of_int burst_time)))
            (mul_double (sub_double one_double (widen alpha)) (widen tn)))

    pub scheduler_get_sjf : (ℕ → Thread) → ℕ → ℕ → ℕ
    scheduler_get_sjf at th1 th2 =
        if le_float (scheduler_calculate_exponential_mean (at th1).cpu_time)
          (scheduler_calculate_exponential_mean (at th2).cpu_time)
        then th1
        else th2

    -- The test at index `i`: is the thread there the one that the fold over the queue returns?
    pub is_shortest : Option ℕ → Scheduler → Bool
    is_shortest none s = false
    is_shortest (some t) s = t == c.list_fold ℕ s.queue_ready t (scheduler_get_sjf s.thread_at)

    pub run_at : ℕ → Option ℕ → Scheduler → Scheduler
    run_at i none s = s
    run_at i (some t) s =
        suse_increase_multiprog
          (scheduler_execute_thread t (record s { queue_ready = c.list_remove ℕ s.queue_ready i }))

    -- `n` rounds are left.
    pub short_term_loop : ℕ → ℕ → Scheduler → Scheduler
    short_term_loop zero i s = s
    short_term_loop (suc n) i s =
        let rest = short_term_loop n (i + 1) s in
        let thread = c.list_get ℕ s.queue_ready i in
        if is_shortest thread s then run_at i thread s else rest

    pub scheduler_run_short_term_scheduler : Scheduler → Scheduler
    scheduler_run_short_term_scheduler s = short_term_loop (c.list_size ℕ s.queue_ready) 0 s
