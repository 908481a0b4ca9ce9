-- ===== src/Hilolay/Create.antt =====
-- th_create and lib_init of hilolay/hilolay.c under the invariant.
use threaders.Base.{
  subst, ℕ, zero, suc, ◌+◌, ◌≤◌, ◌<◌, ◌≡◌, refl, Bool, true, false, none, some, List, [], ◌∷◌, ◌++◌,
  arith, ◌∙◌, ◌==◌, if◌then◌else◌, inl, inr, Bool-cases, Option-cases, ◌⊎◌, ℤ, pos,
}
use threaders.Hilolay.{
  State, Tcb, Lib, max_ults, put, is_free, find_free, start, th_create, th_yield, lib_enqueue,
  lib_write_tcb, lib_init, lib_round_robin_init,
}
use threaders.Hilolay.Queue.{has, has-ne, IsQueue, lib_enqueue-IsQueue, has-snoc, Chain-frame}
use threaders.Hilolay.Valid.{IsValid, th_yield-cons, state-enqueue}

abbrev pub Taken : (ℕ → Tcb) → ℕ → ℕ → Type 0
Taken f i j = (a : ℕ) → i ≤ a → a < j → is_free (f a).state ≡ false

pub find_free-some :
    (n i : ℕ) (f : ℕ → Tcb) {u : ℕ}
    → find_free n i f ≡ some u
    → ((f u).state ≡ State.free) × (u < i + n) × (i ≤ u) × Taken f i u
unfolding find_free
find_free-some zero i f e = absurd (cc e)
find_free-some (suc n) i f {u} e = elim (Bool-cases (is_free (f i).state)) [
  | inl h ↦
      let same : i ≡ u = ground arith in
      (ground arith, omega arith, omega arith, λ a l m. absurd (omega arith))
  | inr h ↦
      let r = find_free-some n (i + 1) f {u = u} (rw (h, find_free) at e) in
      (r.0, omega (arith, r.1), omega (arith, r.2), λ a l m. ground (arith, r.3 a))
]

pub find_free-none : (n i : ℕ) (f : ℕ → Tcb) → find_free n i f ≡ none → Taken f i (i + n)
unfolding find_free
find_free-none zero i f e a l m = absurd (omega arith)
find_free-none (suc n) i f e a l m = elim (Bool-cases (is_free (f i).state)) [
  | inl h ↦ absurd (ground arith)
  | inr h ↦ ground (arith, find_free-none n (i + 1) f (rw (h, find_free) at e) a)
]

next-written : (t : Tcb) (i : ℕ) (st : State) → (lib_write_tcb t i st).state ≡ st
unfolding lib_write_tcb
next-written t i st = refl

-- The table with a fresh control block in slot `u`, before it is queued.
abbrev written : ℕ → Lib → Lib
written u s = record s {
  ults = put s.ults u (lib_write_tcb (s.ults u) s.next_id State.ready);
  next_id = s.next_id + 1;
}

written-IsQueue :
    (u : ℕ) (s : Lib) (q : List ℕ) → has u q ≡ false → IsQueue s q → IsQueue (written u s) q
written-IsQueue u s q out is = record {
  chain =
      Chain-frame s.ults (written u s).ults s.head q (λ a h. ground (arith, has-ne a u q h out))
        is.chain;
  ends = is.ends;
  distinct = is.distinct;
}

current-start : (u : ℕ) (s : Lib) → (start u s).current ≡ s.current
unfolding start lib_enqueue
current-start u s = refl

state-start :
    (u a : ℕ) (s : Lib)
    → ((start u s).ults a).state ≡ (if a == u then State.ready else (s.ults a).state)
unfolding start
state-start u a s = ground (arith, state-enqueue u a (written u s))

pub start-IsValid :
    (u : ℕ) (s : Lib) (q : List ℕ)
    → IsValid s q
    → (s.ults u).state ≡ State.free
    → u < max_ults
    → IsValid (start u s) (q ++ u ∷ [])
unfolding start
start-IsValid u s q v fr lt =
    let out : has u q ≡ false = ground (arith, v.waiting u) in
    let ne : (s.current == u) ≡ false = ground (arith, v.now) in
    let cur = current-start u s in
    record {
      queue = lib_enqueue-IsQueue u (written u s) q (written-IsQueue u s q out v.queue) out;
      now = rw cur (state-start u s.current s ∙ rw ne v.now);
      apart = rw cur (ground (arith, v.apart, has-snoc s.current u q));
      waiting = λ a h. ground (arith, v.waiting a, has-snoc a u q, state-start u a s);
      others = λ a h n.
          let n' = rw cur at n in ground (arith, v.others a, has-snoc a u q, state-start u a s, n');
      room = λ a h. ground (arith, v.room a, has-snoc a u q);
      slot = rw cur v.slot;
      main = rw cur (ground (arith, v.main, has-snoc 0 u q));
    }

-- What a th_create that succeeds comes to.
pub record Created (s : Lib) (q : List ℕ) (r : Bool × Lib) : Type 0 where
  pub slot : ℕ
  pub next : ℕ
  pub rest : List ℕ
  pub was_free : (s.ults slot).state ≡ State.free
  pub in_table : slot < max_ults
  pub lowest : Taken s.ults 0 slot
  pub queued : q ++ slot ∷ [] ≡ next ∷ rest
  pub done : r.0 ≡ true
  pub runs : r.1.current ≡ next
  pub valid : IsValid r.1 (rest ++ s.current ∷ [])

-- What a th_create comes to: a thread in the lowest free slot, or no change when all are taken.
abbrev pub CreateResult : Lib → List ℕ → Bool × Lib → Type 0
CreateResult s q r = Created s q r ⊎ ((r ≡ (false, s)) × Taken s.ults 0 max_ults)

snoc-cons : (u : ℕ) (q : List ℕ) → (x : ℕ) × (r : List ℕ) × (q ++ u ∷ [] ≡ x ∷ r)
snoc-cons u [] = (u, [], refl)
snoc-cons u (x ∷ q) = (x, q ++ u ∷ [], refl)

th_create-some :
    (now later : ℤ) (u : ℕ) (s : Lib)
    → find_free max_ults 0 s.ults ≡ some u
    → th_create now later s ≡ (true, (th_yield now later (start u s)).1)
unfolding th_create
th_create-some now later u s e = rw (e, th_create)

th_create-none :
    (now later : ℤ) (s : Lib)
    → find_free max_ults 0 s.ults ≡ none
    → th_create now later s ≡ (false, s)
unfolding th_create
th_create-none now later s e = rw (e, th_create)

th_create-started :
    (now later : ℤ) (u : ℕ) (s : Lib) (q : List ℕ)
    → IsValid s q
    → find_free max_ults 0 s.ults ≡ some u
    → Created s q (th_create now later s)
th_create-started now later u s q v e =
    let found = find_free-some max_ults 0 s.ults {u = u} e in
    let c = snoc-cons u q in
    let w = start-IsValid u s q v found.0 found.1 in
    let y = th_yield-cons now later c.0 (start u s) c.1 (rw c.2 at w) in
    rw (th_create-some now later u s e) (record {
      slot = u;
      next = c.0;
      rest = c.1;
      was_free = found.0;
      in_table = found.1;
      lowest = found.3;
      queued = c.2;
      done = refl;
      runs = y.1;
      valid =
          subst (λ k. IsValid (th_yield now later (start u s)).1 (c.1 ++ k ∷ []))
            (current-start u s) y.2;
    })

-- th_create puts a thread into the lowest free slot and at the end of the queue, then yields to the
-- first of the queue; it fails, and changes nothing, exactly when no slot of the table is free.
pub th_create_lem :
    (now later : ℤ) (s : Lib) (q : List ℕ) → IsValid s q → CreateResult s q (th_create now later s)
th_create_lem now later s q v = elim (Option-cases (find_free max_ults 0 s.ults)) [
  | inl e ↦ inr (th_create-none now later s e, find_free-none max_ults 0 s.ults e)
  | inr (u, e) ↦ inl (th_create-started now later u s q v e)
]

-- The static data of the program at its start: every block zero, both queue pointers null.
abbrev pub blank_tcb : Tcb
blank_tcb = record {
  id = 0;
  state = State.free;
  next = none;
  burst_start = pos 0;
  last_burst = pos 0;
  execution_time = pos 0;
}

abbrev pub blank : Lib
blank = record {
  ults = λ _. blank_tcb;
  current = 0;
  head = none;
  tail = none;
  next_id = 1;
  alarm = 0;
}

pub lib_init-IsValid : (now : ℤ) → IsValid (lib_init now blank) []
unfolding lib_init lib_round_robin_init lib_write_tcb
lib_init-IsValid now = record {
  queue = record { chain = refl; ends = tt; distinct = tt };
  now = refl;
  apart = refl;
  waiting = λ a h. absurd (cc h);
  others = λ a h n. ground arith;
  room = λ a h. absurd (cc h);
  slot = omega arith;
  main = refl;
}
