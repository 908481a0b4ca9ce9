-- ===== src/Hilolay/Valid.antt =====
-- The invariant of the thread table of hilolay/hilolay.c, and th_yield and th_return under it.
use threaders.Base.{
  ℕ, ◌<◌, ◌≡◌, refl, true, false, ◌||◌, some, List, [], ◌∷◌, ◌++◌, arith, ap, ◌∙◌, ◌==◌,
  if◌then◌else◌, ℤ,
}
use threaders.Hilolay.{
  State, Lib, max_ults, lib_enqueue, lib_get_next_ult, lib_summarize_burst, dispatch, requeue,
  th_yield, resume,
}
use threaders.Hilolay.Queue.{
  has, IsQueue, Chain-frame, has-snoc, lib_enqueue-IsQueue, lib_get_next_ult-cons,
}

-- The slots of the queue are ready, the current one is in state `st` and not queued, every other
-- slot is free, and the main thread is current or queued.
pub record IsValidAs (st : State) (s : Lib) (q : List ℕ) : Type 0 where
  pub queue : IsQueue s q
  pub now : (s.ults s.current).state ≡ st
  pub apart : has s.current q ≡ false
  pub waiting : (a : ℕ) → has a q ≡ true → (s.ults a).state ≡ State.ready
  pub others : (a : ℕ) → has a q ≡ false → (a == s.current) ≡ false → (s.ults a).state ≡ State.free
  pub room : (a : ℕ) → has a q ≡ true → a < max_ults
  pub slot : s.current < max_ults
  pub main : (0 == s.current || has 0 q) ≡ true

abbrev pub IsValid : Lib → List ℕ → Type 0
IsValid = IsValidAs State.running

pub state-enqueue :
    (u a : ℕ) (s : Lib)
    → ((lib_enqueue u s).ults a).state ≡ (if a == u then State.ready else (s.ults a).state)
unfolding lib_enqueue
state-enqueue u a s = ground arith

pub IsQueue-frame :
    (s t : Lib) (q : List ℕ)
    → t.head ≡ s.head
    → t.tail ≡ s.tail
    → ((a : ℕ) → (t.ults a).next ≡ (s.ults a).next)
    → IsQueue s q
    → IsQueue t q
IsQueue-frame s t q h e same is = record {
  chain = rw h (Chain-frame s.ults t.ults s.head q (λ a _. same a) is.chain);
  ends = rw e is.ends;
  distinct = is.distinct;
}

-- The burst is booked on the current thread, and slot `u` runs.
abbrev pub switch : ℤ → ℤ → ℕ → Lib → Lib
switch now later u s = dispatch later u (lib_summarize_burst now s)

next-switch :
    (now later : ℤ) (u a : ℕ) (s : Lib) → ((switch now later u s).ults a).next ≡ (s.ults a).next
unfolding dispatch lib_summarize_burst
next-switch now later u a s = ground arith

pub state-switch :
    (now later : ℤ) (u a : ℕ) (s : Lib)
    → ((switch now later u s).ults a).state ≡ (if a == u then State.running else (s.ults a).state)
unfolding dispatch lib_summarize_burst
state-switch now later u a s = ground arith

pub switch-IsQueue :
    (now later : ℤ) (u : ℕ) (s : Lib) (q : List ℕ) → IsQueue s q → IsQueue (switch now later u s) q
unfolding dispatch lib_summarize_burst
switch-IsQueue now later u s q is =
    IsQueue-frame s (switch now later u s) q refl refl (λ a. next-switch now later u a s) is

current-switch : (now later : ℤ) (u : ℕ) (s : Lib) → (switch now later u s).current ≡ u
unfolding dispatch
current-switch now later u s = refl

lib_get_next_ult-head : (x : ℕ) (s : Lib) → s.head ≡ some x → (lib_get_next_ult s).0 ≡ some x
unfolding lib_get_next_ult
lib_get_next_ult-head x s e = e

pub th_yield-switch :
    (now later : ℤ) (x : ℕ) (s : Lib)
    → s.head ≡ some x
    → th_yield now later s ≡ (true, switch now later x (requeue (lib_get_next_ult s).1))
unfolding th_yield resume
th_yield-switch now later x s e =
    ap (λ o. resume now later o (lib_get_next_ult s).1) (lib_get_next_ult-head x s e)

requeue-running :
    (s : Lib) → (s.ults s.current).state ≡ State.running → requeue s ≡ lib_enqueue s.current s
unfolding requeue
requeue-running s e = rw (e, requeue)

pub requeue-free : (s : Lib) → (s.ults s.current).state ≡ State.free → requeue s ≡ s
unfolding requeue
requeue-free s e = rw (e, requeue)

-- The state that th_yield leaves when slot `x` is the first of the queue.
abbrev pub yielded : ℤ → ℤ → ℕ → Lib → Lib
yielded now later x s = switch now later x (lib_enqueue s.current (lib_get_next_ult s).1)

state-yielded :
    (now later : ℤ) (x a : ℕ) (s : Lib)
    → ((yielded now later x s).ults a).state
      ≡ (if a == x then State.running else if a == s.current then State.ready else (s.ults a).state)
unfolding lib_get_next_ult
state-yielded now later x a s = ground (
  arith,
  state-switch now later x a (lib_enqueue s.current (lib_get_next_ult s).1),
  state-enqueue s.current a (lib_get_next_ult s).1,
)

yielded-IsValid :
    (now later : ℤ) (x : ℕ) (s : Lib) (q : List ℕ)
    → IsValid s (x ∷ q)
    → IsValid (yielded now later x s) (q ++ s.current ∷ [])
unfolding lib_get_next_ult dispatch
yielded-IsValid now later x s q v = record {
  queue = switch-IsQueue now later x _ _ (
      lib_enqueue-IsQueue s.current (lib_get_next_ult s).1 q (lib_get_next_ult-cons x s q v.queue).1
        (ground (arith, v.apart)));
  now = ground (arith, state-yielded now later x x s);
  apart = ground (arith, v.apart, v.queue.distinct, has-snoc x s.current q);
  waiting = λ a h. ground (
    arith,
    v.waiting a,
    v.queue.distinct,
    v.apart,
    has-snoc a s.current q,
    state-yielded now later x a s,
  );
  others =
      λ a h ne. ground (arith, v.others a, has-snoc a s.current q, state-yielded now later x a s);
  room = λ a h. ground (arith, v.room a, v.slot, has-snoc a s.current q);
  slot = v.room x (ground arith);
  main = ground (arith, v.main, has-snoc 0 s.current q);
}

th_yield-yielded :
    (now later : ℤ) (x : ℕ) (s : Lib) (q : List ℕ)
    → IsValid s (x ∷ q)
    → th_yield now later s ≡ (true, yielded now later x s)
unfolding lib_get_next_ult
th_yield-yielded now later x s q v =
    th_yield-switch now later x s v.queue.chain.0
    ∙ ap (λ t. (true, switch now later x t)) (requeue-running (lib_get_next_ult s).1 v.now)

-- With a thread `x` first in the queue, th_yield returns true, runs `x` and puts the thread that
-- called it at the end of the queue; the invariant holds again.
pub th_yield-cons :
    (now later : ℤ) (x : ℕ) (s : Lib) (q : List ℕ)
    → IsValid s (x ∷ q)
    → ((th_yield now later s).0 ≡ true)
      × ((th_yield now later s).1.current ≡ x)
      × IsValid (th_yield now later s).1 (q ++ s.current ∷ [])
unfolding dispatch
th_yield-cons now later x s q v =
    rw (th_yield-yielded now later x s q v) (refl, refl, yielded-IsValid now later x s q v)

-- With an empty queue th_yield returns false and changes nothing.
pub th_yield-nil : (now later : ℤ) (s : Lib) → IsQueue s [] → th_yield now later s ≡ (false, s)
unfolding th_yield resume lib_get_next_ult
th_yield-nil now later s is = ground (arith, is.chain)
