-- ===== src/Hilolay/Examples.antt =====
-- The thread table of hilolay/hilolay.c on concrete states, and the theorems applied there.
use threaders.Base.{◌≡◌, ◌≢◌, refl, true, none, some, [], ◌∷◌, arith, pos, ◌-ℤ◌, ◌+ℤ◌}
use threaders.Hilolay.{
  State, Lib, put, lib_init, lib_round_robin_init, lib_write_tcb, th_yield, resume, requeue,
  lib_enqueue, lib_get_next_ult, lib_summarize_burst, dispatch, th_create, start, find_free,
  th_return, exited, assert_failed, interrupted_return, release,
}
use threaders.Hilolay.Queue.{IsQueue, lib_enqueue-IsQueue}
use threaders.Hilolay.Valid.{IsValid, th_yield-cons}
use threaders.Hilolay.Exit.{Left, th_return_other, th_return_main}
use threaders.Hilolay.Create.{CreateResult, blank, blank_tcb, th_create_lem}
use threaders.Hilolay.Fair.{yields, yields_reach}
use threaders.Hilolay.Interrupted.{MainLost, interrupted_return-assert_failed}
use threaders.Hilolay.Reach.{
  here, next, yield_step, HasQueue, Reach-HasQueue, th_return-ne-assert_failed,
}

-- Slot 2 runs, slots 0 and 1 are ready.
abbrev three : Lib
three = record {
  ults =
      put
        (put (put (λ _. blank_tcb) 0 (record blank_tcb { state = State.ready; next = some 1 })) 1
          (record blank_tcb { id = 1; state = State.ready }))
        2 (record blank_tcb { id = 2; state = State.running; burst_start = pos 5 });
  current = 2;
  head = some 0;
  tail = some 1;
  next_id = 3;
  alarm = 2;
}

abbrev main_only : Lib
main_only = record three {
  ults = put (λ _. blank_tcb) 0 (record blank_tcb { state = State.running });
  current = 0;
  head = none;
}

three-IsQueue : IsQueue three (0 ∷ 1 ∷ [])
three-IsQueue = record { chain = ground arith; ends = refl; distinct = (refl, (refl, tt)) }

three-IsValid : IsValid three (0 ∷ 1 ∷ [])
three-IsValid = record {
  queue = three-IsQueue;
  now = refl;
  apart = refl;
  waiting = λ a h. ground arith;
  others = λ a h n. ground arith;
  room = λ a h. ground arith;
  slot = omega arith;
  main = refl;
}

main_only-IsValid : IsValid main_only []
main_only-IsValid = record {
  queue = record { chain = refl; ends = tt; distinct = tt };
  now = refl;
  apart = refl;
  waiting = λ a h. absurd (cc h);
  others = λ a h n. ground arith;
  room = λ a h. absurd (cc h);
  slot = omega arith;
  main = refl;
}

-- Two threads are created, the second by the first; main runs again, and both wait.
created_twice : Lib
unfolding lib_init lib_round_robin_init lib_write_tcb th_create find_free start lib_enqueue th_yield
    resume lib_get_next_ult requeue lib_summarize_burst dispatch ◌-ℤ◌ ◌+ℤ◌
created_twice = (th_create (pos 4) (pos 4) (th_create (pos 3) (pos 3) (lib_init (pos 1) blank)).1).1

created_twice_test :
    (created_twice.current ≡ 0) × (created_twice.head ≡ some 2) × (created_twice.next_id ≡ 3)
unfolding created_twice
created_twice_test = (refl, refl, refl)

lib_enqueue-IsQueue_example : IsQueue (lib_enqueue 2 three) (0 ∷ 1 ∷ 2 ∷ [])
lib_enqueue-IsQueue_example = lib_enqueue-IsQueue 2 three (0 ∷ 1 ∷ []) three-IsQueue refl

th_yield-cons_example :
    ((th_yield (pos 7) (pos 8) three).0 ≡ true)
    × ((th_yield (pos 7) (pos 8) three).1.current ≡ 0)
    × IsValid (th_yield (pos 7) (pos 8) three).1 (1 ∷ 2 ∷ [])
th_yield-cons_example = th_yield-cons (pos 7) (pos 8) 0 three (1 ∷ []) three-IsValid

th_return_other_example : Left three (0 ∷ 1 ∷ []) (th_return (pos 0) (pos 7) (pos 8) three)
th_return_other_example =
    th_return_other (pos 0) (pos 7) (pos 8) three (0 ∷ 1 ∷ []) three-IsValid (omega arith)

th_return_main_example : th_return (pos 3) (pos 7) (pos 8) main_only ≡ exited (pos 3)
th_return_main_example = th_return_main (pos 3) (pos 7) (pos 8) main_only [] main_only-IsValid refl

th_create_lem_example : CreateResult three (0 ∷ 1 ∷ []) (th_create (pos 7) (pos 8) three)
th_create_lem_example = th_create_lem (pos 7) (pos 8) three (0 ∷ 1 ∷ []) three-IsValid

yields_reach_example : (yields ((pos 6, pos 6) ∷ (pos 7, pos 7) ∷ []) three).current ≡ 1
yields_reach_example =
    yields_reach ((pos 6, pos 6) ∷ (pos 7, pos 7) ∷ []) (0 ∷ []) [] 1 three three-IsValid
      (omega arith)

Reach-HasQueue_example : HasQueue (th_yield (pos 2) (pos 2) (lib_init (pos 1) blank)).1
Reach-HasQueue_example = Reach-HasQueue (pos 1) (next here (yield_step (pos 2) (pos 2) refl))

th_return-ne-assert_failed_example :
    th_return (pos 0) (pos 5) (pos 5) (lib_init (pos 1) blank) ≢ assert_failed three
th_return-ne-assert_failed_example =
    th_return-ne-assert_failed (pos 1) (pos 0) (pos 5) (pos 5) three here

-- The thread in slot 2 ends, and an alarm comes in its th_return.
interrupted_return-assert_failed_example :
    MainLost (interrupted_return (pos 6) (pos 6) three) 1 []
    × (th_return (pos 0) (pos 7) (pos 7) (interrupted_return (pos 6) (pos 6) three)
        ≡ assert_failed (release (interrupted_return (pos 6) (pos 6) three)))
interrupted_return-assert_failed_example =
    interrupted_return-assert_failed (pos 0) (pos 6) (pos 6) (pos 7) (pos 7) three 1 three-IsValid
      (omega arith)
