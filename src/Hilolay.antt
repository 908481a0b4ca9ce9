-- ===== src/Hilolay.antt =====
-- hilolay/hilolay.c and hilolay.h: user-level threads in a table of control blocks, with a ready
-- queue linked through the blocks. A pointer into `ults` is its index, a null pointer is `none`.
-- A call of `lib_get_time` takes its reading as an argument (`now`, `later`).
-- `swapcontext` shows as the new value of `current`.
pub mod Queue
pub mod Valid
pub mod Exit
pub mod Create
pub mod Fair
pub mod Reach
pub mod Interrupted
mod Examples
use threaders.Base.{
  ℕ, zero, suc, ◌+◌, Bool, true, false, not, Option, none, some, ℤ, pos, ◌+ℤ◌, ◌-ℤ◌, ◌==◌,
  if◌then◌else◌,
}

pub data State : Type 0 where
  free running ready : State

-- `context`, the saved machine state, belongs to the C library and is left out.
pub record Tcb : Type 0 where
  pub id : ℕ
  pub state : State
  pub next : Option ℕ
  pub burst_start : ℤ
  pub last_burst : ℤ
  pub execution_time : ℤ

pub record Lib : Type 0 where
  pub ults : ℕ → Tcb
  pub current : ℕ
  pub head : Option ℕ
  pub tail : Option ℕ
  pub next_id : ℕ
  pub alarm : ℕ

abbrev pub max_ults : ℕ
max_ults = 5000

abbrev pub quantum : ℕ
quantum = 2

abbrev pub main_thread_id : ℕ
main_thread_id = 0

abbrev pub is_free : State → Bool
is_free State.free = true
is_free State.running = false
is_free State.ready = false

-- One block of the table replaced.
abbrev pub put : (ℕ → Tcb) → ℕ → Tcb → ℕ → Tcb
put f k t a = if a == k then t else f a

unfoldable pub lib_write_tcb : Tcb → ℕ → State → Tcb
lib_write_tcb t id s = record t {
  state = s;
  id = id;
  next = none;
  burst_start = pos 0;
  last_burst = pos 0;
  execution_time = pos 0;
}

abbrev pub link_from : Option ℕ → ℕ → (ℕ → Tcb) → ℕ → Tcb
link_from none u f = f
link_from (some t) u f = put f t (record (f t) { next = some u })

abbrev pub head_or : Option ℕ → ℕ → Option ℕ
head_or none u = some u
head_or (some h) u = some h

pub lib_enqueue : ℕ → Lib → Lib
lib_enqueue u s =
    let marked = put s.ults u (record (s.ults u) { state = State.ready }) in
    let linked = link_from s.tail u marked in
    record s {
      head = head_or s.head u;
      tail = some u;
      ults = put linked u (record (linked u) { next = none });
    }

abbrev pub successor : (ℕ → Tcb) → Option ℕ → Option ℕ
successor f none = none
successor f (some h) = (f h).next

pub lib_get_next_ult : Lib → Option ℕ × Lib
lib_get_next_ult s = (s.head, record s { head = successor s.ults s.head })

pub lib_summarize_burst : ℤ → Lib → Lib
lib_summarize_burst now s =
    let t = s.ults s.current in
    let last = now -ℤ t.burst_start in
    record s {
      ults =
          put s.ults s.current
            (record t { execution_time = t.execution_time +ℤ last; last_burst = last });
    }

pub dispatch : ℤ → ℕ → Lib → Lib
dispatch later u s = record s {
  ults = put s.ults u (record (s.ults u) { state = State.running; burst_start = later });
  current = u;
}

pub requeue : Lib → Lib
requeue s = if is_free (s.ults s.current).state then s else lib_enqueue s.current s

-- What th_yield does with the selected thread, or with the lack of one.
pub resume : ℤ → ℤ → Option ℕ → Lib → Bool × Lib
resume now later none s = (false, s)
resume now later (some u) s = (true, dispatch later u (lib_summarize_burst now (requeue s)))

pub th_yield : ℤ → ℤ → Lib → Bool × Lib
th_yield now later s = let (selected, s1) = lib_get_next_ult s in resume now later selected s1

pub lib_is_main_thread : ℕ → Bool
lib_is_main_thread u = u == 0

pub th_get_tid : Lib → ℕ
th_get_tid s = (s.ults s.current).id

-- What a call of `th_return` comes to: another thread runs, the failed assertion, or `exit(ret)`.
pub data Returned : Type 0 where
  switched : Lib → Returned
  assert_failed : Lib → Returned
  exited : ℤ → Returned

abbrev pub after_main : ℤ → Bool × Lib → Returned
after_main ret (true, s) = switched s
after_main ret (false, s) = exited ret

abbrev pub after_other : Bool × Lib → Returned
after_other (true, s) = switched s
after_other (false, s) = assert_failed s

pub release : Lib → Lib
release s = record s {
  ults = put s.ults s.current (record (s.ults s.current) { state = State.free });
}

-- For the main thread this is one round of its loop: it goes on when the thread runs again.
pub th_return : ℤ → ℤ → ℤ → Lib → Returned
th_return ret now later s =
    if lib_is_main_thread s.current
    then after_main ret (th_yield now later s)
    else after_other (th_yield now later (release s))

-- The clock is read once more, before `th_return` does.
pub th_stop : ℤ → ℤ → ℤ → Lib → Returned
th_stop first now later s = th_return (pos 0) now later (lib_summarize_burst first s)

-- The first free slot among `n` from index `i` on.
pub find_free : ℕ → ℕ → (ℕ → Tcb) → Option ℕ
find_free zero i f = none
find_free (suc n) i f = elim (is_free (f i).state) [ true ↦ some i | false ↦ find_free n (i + 1) f ]

pub start : ℕ → Lib → Lib
start u s = lib_enqueue u (record s {
  ults = put s.ults u (lib_write_tcb (s.ults u) s.next_id State.ready);
  next_id = s.next_id + 1;
})

-- `true` for the result 0, `false` for ERROR_TOO_MANY_ULTS. SCHEDULE_IMMEDIATELY is true.
pub th_create : ℤ → ℤ → Lib → Bool × Lib
th_create now later s = elim (find_free max_ults 0 s.ults) [
  | none ↦ (false, s)
  | some u ↦ (true, (th_yield now later (start u s)).1)
]

pub lib_round_robin_init : Lib → Lib
lib_round_robin_init s = if quantum == 0 then s else record s { alarm = quantum }

pub lib_init : ℤ → Lib → Lib
lib_init now s = lib_round_robin_init (record s {
  current = 0;
  ults =
      put s.ults 0
        (record (lib_write_tcb (s.ults 0) main_thread_id State.running) { burst_start = now });
})

pub lib_end_of_quantum_handler : ℤ → ℤ → Lib → Lib
lib_end_of_quantum_handler now later s = (th_yield now later (record s { alarm = quantum })).1

-- th_return of a thread other than main, up to the point in its th_yield where the next thread is off the queue, and an
-- alarm there. The state is that of the thread to which the handler switches.
unfoldable pub interrupted_return : ℤ → ℤ → Lib → Lib
interrupted_return now later s =
    lib_end_of_quantum_handler now later (lib_get_next_ult (release s)).1
