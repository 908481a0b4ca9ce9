-- ===== src/Hilolay/Exit.antt =====
-- th_return and th_stop of hilolay/hilolay.c: how a thread ends.
use threaders.Base.{
  ℕ, ◌≡◌, ◌≢◌, refl, true, List, [], ◌∷◌, ◌++◌, arith, ap, ◌∙◌, ◌==◌, if◌then◌else◌, ℤ,
}
use threaders.Hilolay.{
  State, Lib, release, th_return, th_yield, lib_get_next_ult, dispatch, lib_is_main_thread,
  Returned, switched, exited, after_main, after_other,
}
use threaders.Hilolay.Queue.{lib_get_next_ult-cons}
use threaders.Hilolay.Valid.{
  IsValid, IsValidAs, IsQueue-frame, switch, switch-IsQueue, state-switch, requeue-free,
  th_yield-switch, th_yield-cons, th_yield-nil,
}

pub release-IsValidAs : (s : Lib) (q : List ℕ) → IsValid s q → IsValidAs State.free (release s) q
unfolding release
release-IsValidAs s q v = record {
  queue = IsQueue-frame s (release s) q refl refl (λ a. ground arith) v.queue;
  now = ground arith;
  apart = v.apart;
  waiting = λ a h. ground (arith, v.waiting a, v.apart);
  others = λ a h ne. ground (arith, v.others a);
  room = v.room;
  slot = v.slot;
  main = v.main;
}

-- The state after the switch from a freed slot to the slot `x`.
abbrev left : ℤ → ℤ → ℕ → Lib → Lib
left now later x s = switch now later x (lib_get_next_ult s).1

state-left :
    (now later : ℤ) (x a : ℕ) (s : Lib)
    → ((left now later x s).ults a).state ≡ (if a == x then State.running else (s.ults a).state)
unfolding lib_get_next_ult
state-left now later x a s = state-switch now later x a (lib_get_next_ult s).1

left-IsValid :
    (now later : ℤ) (x : ℕ) (s : Lib) (q : List ℕ)
    → IsValidAs State.free s (x ∷ q)
    → s.current ≢ 0
    → IsValid (left now later x s) q
unfolding lib_get_next_ult dispatch
left-IsValid now later x s q v ne = record {
  queue = switch-IsQueue now later x _ _ (lib_get_next_ult-cons x s q v.queue).1;
  now = ground (arith, state-left now later x x s);
  apart = v.queue.distinct.0;
  waiting = λ a h. ground (arith, v.waiting a, v.queue.distinct, state-left now later x a s);
  others = λ a h n. ground (arith, v.others a, v.now, state-left now later x a s);
  room = λ a h. v.room a (ground arith);
  slot = v.room x (ground arith);
  main = ground (arith, v.main);
}

th_yield-left :
    (now later : ℤ) (x : ℕ) (s : Lib) (q : List ℕ)
    → IsValidAs State.free s (x ∷ q)
    → th_yield now later s ≡ (true, left now later x s)
unfolding lib_get_next_ult
th_yield-left now later x s q v =
    th_yield-switch now later x s v.queue.chain.0
    ∙ ap (λ t. (true, switch now later x t)) (requeue-free (lib_get_next_ult s).1 v.now)

-- What a return of a thread other than the main one comes to.
pub record Left (s : Lib) (q : List ℕ) (r : Returned) : Type 0 where
  pub next : ℕ
  pub rest : List ℕ
  pub after : Lib
  pub first : q ≡ next ∷ rest
  pub result : r ≡ switched after
  pub runs : after.current ≡ next
  pub valid : IsValid after rest
  pub freed : (after.ults s.current).state ≡ State.free

pub th_return-left :
    (ret now later : ℤ) (s : Lib)
    → s.current ≢ 0
    → th_return ret now later s ≡ after_other (th_yield now later (release s))
unfolding th_return lib_is_main_thread
th_return-left ret now later s ne = ground arith

-- Outside the main thread th_return never comes to its assertion: some thread is ready, the main
-- one at least. The first ready thread runs, the slot of the old one is free, and the rest of the
-- queue and the invariant are kept.
pub th_return_other :
    (ret now later : ℤ) (s : Lib) (q : List ℕ)
    → IsValid s q
    → s.current ≢ 0
    → Left s q (th_return ret now later s)
unfolding release lib_get_next_ult dispatch
th_return_other ret now later s [] v ne = absurd (ground (arith, v.main))
th_return_other ret now later s (x ∷ q) v ne =
    let w = release-IsValidAs s (x ∷ q) v in
    record {
      next = x;
      rest = q;
      after = left now later x (release s);
      first = refl;
      result =
          th_return-left ret now later s ne
          ∙ ap after_other (th_yield-left now later x (release s) q w);
      runs = refl;
      valid = left-IsValid now later x (release s) q w ne;
      freed = ground (arith, v.apart, state-left now later x s.current (release s), w.now);
    }

-- What a round of the main thread's loop comes to, by the queue that it finds.
abbrev pub MainRound : ℤ → List ℕ → Returned → Type 0
MainRound ret [] r = r ≡ exited ret
MainRound ret (x ∷ q) r = (s : Lib) × (r ≡ switched s) × (s.current ≡ x) × IsValid s (q ++ 0 ∷ [])

th_return-main_round :
    (ret now later : ℤ) (s : Lib)
    → s.current ≡ 0
    → th_return ret now later s ≡ after_main ret (th_yield now later s)
unfolding th_return lib_is_main_thread
th_return-main_round ret now later s e = ground arith

-- A round of the main thread's th_return exits with its argument when no thread is ready, and else
-- runs the first ready thread and puts the main one at the end of the queue.
pub th_return_main :
    (ret now later : ℤ) (s : Lib) (q : List ℕ)
    → IsValid s q
    → s.current ≡ 0
    → MainRound ret q (th_return ret now later s)
th_return_main ret now later s [] v e =
    th_return-main_round ret now later s e ∙ ap (after_main ret) (th_yield-nil now later s v.queue)
th_return_main ret now later s (x ∷ q) v e =
    let y = th_yield-cons now later x s q v in
    (
      (th_yield now later s).1,
      th_return-main_round ret now later s e
          ∙ ap (λ b. after_main ret (b, (th_yield now later s).1)) y.0,
      y.1,
      rw (← e) y.2,
    )
