-- ===== src/Hilolay/Reach.antt =====
-- The threads of hilolay/hilolay.c as a transition system: the running one yields, creates, ends,
-- or is interrupted by the alarm, in any order. The alarm is a step of its own: it comes while the running
-- thread is in its own code. hilolay.c does not keep it out of its functions (SA_NODEFER, and no signal is
-- blocked); Interrupted follows an alarm within th_return, and others are not followed.
use threaders.Base.{
  pos, subst, ℕ, ◌≡◌, ◌≢◌, refl, List, [], ◌∷◌, ◌++◌, arith, sym, ap, ◌∙◌, ℤ, inl, inr, ◌==◌,
  Bool-cases,
}
use threaders.Hilolay.{
  Lib, th_yield, th_create, th_return, th_stop, lib_init, lib_end_of_quantum_handler,
  lib_summarize_burst, Returned, switched, assert_failed, exited, quantum,
}
use threaders.Hilolay.Valid.{IsValid, IsQueue-frame, th_yield-cons, th_yield-nil}
use threaders.Hilolay.Create.{blank, lib_init-IsValid, th_create_lem}
use threaders.Hilolay.Exit.{th_return_other, th_return_main, MainRound}

pub data Step (s : Lib) (t : Lib) : Type 0 where
  yield_step : (now later : ℤ) → t ≡ (th_yield now later s).1 → Step s t
  create_step : (now later : ℤ) → t ≡ (th_create now later s).1 → Step s t
  alarm_step : (now later : ℤ) → t ≡ lib_end_of_quantum_handler now later s → Step s t
  return_step : (ret now later : ℤ) → th_return ret now later s ≡ switched t → Step s t
  stop_step : (first now later : ℤ) → th_stop first now later s ≡ switched t → Step s t

pub data Reach (s : Lib) : Lib → Type 0 where
  here : Reach s s
  next : {t u : Lib} → Reach s t → Step t u → Reach s u

abbrev pub HasQueue : Lib → Type 0
HasQueue s = (q : List ℕ) × IsValid s q

th_yield-HasQueue :
    (now later : ℤ) (s : Lib) (q : List ℕ) → IsValid s q → HasQueue (th_yield now later s).1
th_yield-HasQueue now later s [] v = ([], rw (th_yield-nil now later s v.queue) v)
th_yield-HasQueue now later s (x ∷ q) v = (q ++ s.current ∷ [], (th_yield-cons now later x s q v).2)

th_create-HasQueue :
    (now later : ℤ) (s : Lib) (q : List ℕ) → IsValid s q → HasQueue (th_create now later s).1
th_create-HasQueue now later s q v = elim (th_create_lem now later s q v) [
  | inl c ↦ (c.rest ++ s.current ∷ [], c.valid)
  | inr (e, full) ↦ (q, rw e v)
]

-- The alarm and the burst times are no part of the invariant.
alarm-IsValid : (n : ℕ) (s : Lib) (q : List ℕ) → IsValid s q → IsValid (record s { alarm = n }) q
alarm-IsValid n s q v = record {
  queue = IsQueue-frame s (record s { alarm = n }) q refl refl (λ a. refl) v.queue;
  now = v.now;
  apart = v.apart;
  waiting = v.waiting;
  others = v.others;
  room = v.room;
  slot = v.slot;
  main = v.main;
}

summarize-IsValid :
    (now : ℤ) (s : Lib) (q : List ℕ) → IsValid s q → IsValid (lib_summarize_burst now s) q
unfolding lib_summarize_burst
summarize-IsValid now s q v = record {
  queue = IsQueue-frame s (lib_summarize_burst now s) q refl refl (λ a. ground arith) v.queue;
  now = ground (arith, v.now);
  apart = v.apart;
  waiting = λ a h. ground (arith, v.waiting a);
  others = λ a h n. ground (arith, v.others a);
  room = v.room;
  slot = v.slot;
  main = v.main;
}

switched-injective : {s t : Lib} → switched s ≡ switched t → s ≡ t
switched-injective {s} e = ap (elim [ switched u ↦ u | assert_failed u ↦ s | exited r ↦ s ]) e

th_return-HasQueue :
    (ret now later : ℤ) (s t : Lib) (q : List ℕ)
    → IsValid s q
    → th_return ret now later s ≡ switched t
    → HasQueue t
th_return-HasQueue ret now later s t q v e = elim (Bool-cases (s.current == 0)) [
  | inl is_main ↦ main_case q v (th_return_main ret now later s q v (ground arith))
  | inr other ↦
      let l = th_return_other ret now later s q v (ground arith) in
      (l.rest, subst (λ u. IsValid u l.rest) (switched-injective (sym l.result ∙ e)) l.valid)
]
  where
    main_case :
        (p : List ℕ) → IsValid s p → MainRound ret p (th_return ret now later s) → HasQueue t
    main_case [] w m = absurd (cc (sym m ∙ e))
    main_case (x ∷ p) w m =
        (p ++ 0 ∷ [], subst (λ u. IsValid u (p ++ 0 ∷ [])) (switched-injective (sym m.1 ∙ e)) m.3)

pub Step-HasQueue : {s t : Lib} → Step s t → HasQueue s → HasQueue t
unfolding lib_end_of_quantum_handler th_stop
Step-HasQueue {s} (yield_step now later e) (q, v) = rw e (th_yield-HasQueue now later s q v)
Step-HasQueue {s} (create_step now later e) (q, v) = rw e (th_create-HasQueue now later s q v)
Step-HasQueue {s} (alarm_step now later e) (q, v) =
    rw e
      (th_yield-HasQueue now later (record s { alarm = quantum }) q (alarm-IsValid quantum s q v))
Step-HasQueue {s} {t} (return_step ret now later e) (q, v) =
    th_return-HasQueue ret now later s t q v e
Step-HasQueue {s} {t} (stop_step first now later e) (q, v) =
    th_return-HasQueue (pos 0) now later (lib_summarize_burst first s) t q
      (summarize-IsValid first s q v) e

-- Every state that the library reaches from lib_init, by calls and by alarms none of which comes within a function of
-- the library, satisfies the invariant for some queue.
pub Reach-HasQueue : (now : ℤ) {s : Lib} → Reach (lib_init now blank) s → HasQueue s
Reach-HasQueue now here = ([], lib_init-IsValid now)
Reach-HasQueue now (next r st) = Step-HasQueue st (Reach-HasQueue now r)

main-ne-assert_failed :
    (ret : ℤ) (q : List ℕ) (r : Returned) (t : Lib) → MainRound ret q r → r ≢ assert_failed t
main-ne-assert_failed ret [] r t m e = cc (sym m ∙ e)
main-ne-assert_failed ret (x ∷ q) r t m e = cc (sym m.1 ∙ e)

-- As long as no alarm comes within a function of the library, th_return does not come to its failed assertion in any
-- state reached from lib_init.
pub th_return-ne-assert_failed :
    (now : ℤ) {s : Lib} (ret n l : ℤ) (t : Lib)
    → Reach (lib_init now blank) s
    → th_return ret n l s ≢ assert_failed t
th_return-ne-assert_failed now {s} ret n l t r e =
    let v = Reach-HasQueue now r in
    elim (Bool-cases (s.current == 0)) [
      | inl is_main ↦
          main-ne-assert_failed ret v.0 (th_return ret n l s) t
            (th_return_main ret n l s v.0 v.1 (ground arith)) e
      | inr other ↦ cc (sym (th_return_other ret n l s v.0 v.1 (ground arith)).result ∙ e)
    ]
