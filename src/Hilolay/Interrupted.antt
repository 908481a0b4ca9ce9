-- ===== src/Hilolay/Interrupted.antt =====
-- An alarm within th_return of hilolay/hilolay.c: its handler is installed with SA_NODEFER and nothing blocks it.
use threaders.Base.{ℕ, ◌≡◌, ◌≢◌, refl, false, List, [], ◌∷◌, arith, ap, ◌∙◌, ℤ}
use threaders.Hilolay.{
  State, Lib, quantum, release, lib_get_next_ult, th_return, assert_failed, after_other,
  lib_end_of_quantum_handler, interrupted_return, dispatch,
}
use threaders.Hilolay.Queue.{has, IsQueue, lib_get_next_ult-cons}
use threaders.Hilolay.Valid.{
  IsValid, IsQueue-frame, switch, switch-IsQueue, requeue-free, th_yield-switch, th_yield-nil,
}
use threaders.Hilolay.Exit.{release-IsValidAs, th_return-left}

-- The thread `x` runs, the queue is `q`, and main is neither.
pub record MainLost (t : Lib) (x : ℕ) (q : List ℕ) : Type 0 where
  pub runs : t.current ≡ x
  pub queue : IsQueue t q
  pub away : has 0 (x ∷ q) ≡ false

module _ (now later : ℤ) (s : Lib) (x : ℕ) (q : List ℕ) (v : IsValid s (0 ∷ x ∷ q)) where
  abbrev taken : Lib
  taken = record (lib_get_next_ult (release s)).1 { alarm = quantum }

  taken-IsQueue : IsQueue taken (x ∷ q)
  taken-IsQueue =
      let w = release-IsValidAs s (0 ∷ x ∷ q) v in
      let g = (lib_get_next_ult (release s)).1 in
      IsQueue-frame g (record g { alarm = quantum }) (x ∷ q) refl refl (λ a. refl)
        (lib_get_next_ult-cons 0 (release s) (x ∷ q) w.queue).1

  taken_free :
      ((lib_get_next_ult taken).1.ults (lib_get_next_ult taken).1.current).state ≡ State.free
  unfolding lib_get_next_ult
  taken_free = (release-IsValidAs s (0 ∷ x ∷ q) v).now

  interrupted_switch :
      interrupted_return now later s ≡ switch now later x (lib_get_next_ult taken).1
  unfolding interrupted_return lib_end_of_quantum_handler
  interrupted_switch =
      ap (λ r. r.1) (th_yield-switch now later x taken taken-IsQueue.chain.0)
      ∙ ap (switch now later x) (requeue-free (lib_get_next_ult taken).1 taken_free)

  interrupted_return-MainLost : MainLost (interrupted_return now later s) x q
  unfolding dispatch
  interrupted_return-MainLost = record {
    runs = ap (λ t. t.current) interrupted_switch;
    queue = rw interrupted_switch (
        switch-IsQueue now later x (lib_get_next_ult taken).1 q
          (lib_get_next_ult-cons x taken q taken-IsQueue).1);
    away = v.queue.distinct.0;
  }

-- When a thread other than main ends while main is first in the queue and one further thread second, and an alarm comes
-- in its th_return once main is off the queue, the other thread runs with main in no queue, and its own th_return comes
-- to the failed assertion.
pub interrupted_return-assert_failed :
    (ret now later n l : ℤ) (s : Lib) (x : ℕ)
    → IsValid s (0 ∷ x ∷ [])
    → s.current ≢ 0
    → MainLost (interrupted_return now later s) x []
      × (th_return ret n l (interrupted_return now later s)
          ≡ assert_failed (release (interrupted_return now later s)))
unfolding release
interrupted_return-assert_failed ret now later n l s x v ne =
    let lost = interrupted_return-MainLost now later s x [] v in
    let t = interrupted_return now later s in
    let other : t.current ≢ 0 = ground (arith, lost.runs, lost.away) in
    let queue : IsQueue (release t) [] =
      IsQueue-frame t (release t) [] refl refl (λ a. ground arith) lost.queue in
    (lost, th_return-left ret n l t other ∙ ap after_other (th_yield-nil n l (release t) queue))
