-- ===== src/Suse/Examples.antt =====
-- The scheduler of suse/src on concrete queues, and the theorems applied there. The float
-- operations are those of the integers, with a NaN.
use threaders.Base.{
  Bool, false, ◌++◌, length, ℕ, ◌+◌, ◌*◌, ◌≡◌, refl, true, Option, none, some, List, [], ◌∷◌, arith,
  ℤ, pos, ◌+ℤ◌, ◌-ℤ◌, leb_ℤ, sub_ℕ, pos_part, neg_part, ◌⊎◌, ◌==◌, if◌then◌else◌,
}
use threaders.Commons.{reference, reference-Documented}
use threaders.Suse.{
  scheduler_set_ready_thread, Scheduler, Floats, EState, scheduler_run_long_term_scheduler,
  scheduler_run_short_term_scheduler, scheduler_calculate_exponential_mean, admit, long_term_loop,
  suse_decrease_multiprog, add_semaphore, semaphore_create,
}
use threaders.Suse.LongTerm.{Passed}
use threaders.Suse.LongTerm.Admission.{
  Admission, scheduler_run_long_term_scheduler-Admission, scheduler_run_long_term_scheduler_skips,
}
use threaders.Suse.ShortTerm.{
  IsOrder, shorter_burst, Picked, scheduler_run_short_term_scheduler-Picked,
}
use threaders.Wire.Strings.{Text, CommonsString, DocumentedString}
use threaders.Suse.Config.{
  SuseConfig, load_stored, Key, key_sem_ids, key_sem_init, key_sem_max, ConfigFile, read_config,
  suse_run_scheduler,
}
use threaders.Suse.Config.Started.{ReadIn}
use threaders.Suse.Degree.{room_and_ready, started, set_ready, short_term, Calls-room_and_ready}
use threaders.Suse.Main.{main, fault}
use threaders.Suse.Main.Fault.{main-fault}

abbrev times : ℤ → ℤ → ℤ
times a b =
    sub_ℕ (pos_part a * pos_part b + neg_part a * neg_part b)
      (pos_part a * neg_part b + neg_part a * pos_part b)

-- A number, or NaN, which is not comparable.
abbrev leb_float : Option ℤ → Option ℤ → Bool
leb_float (some a) (some b) = leb_ℤ a b
leb_float a b = false

abbrev times_float : Option ℤ → Option ℤ → Option ℤ
times_float (some a) (some b) = some (times a b)
times_float a b = none

abbrev number : Option ℤ → ℤ
number none = pos 0
number (some a) = a

abbrev whole : Floats
whole = record {
  Float = Option ℤ;
  Double = ℤ;
  of_int = some;
  widen = number;
  narrow = some;
  mul_float = times_float;
  zero_float = some (pos 0);
  one_double = pos 1;
  add_double = ◌+ℤ◌;
  sub_double = ◌-ℤ◌;
  mul_double = times;
  le_float = leb_float;
}

-- Three threads wait in NEW; READY holds two, the second with the shorter burst.
abbrev busy : Scheduler
busy = record {
  queue_new = 11 ∷ 12 ∷ 13 ∷ [];
  queue_ready = 21 ∷ 22 ∷ [];
  queue_blocked = [];
  queue_exit = [];
  semphores = [];
  programs = 7 ∷ [];
  threads = [];
  thread_at = λ a. record {
    pid = 1;
    tid = a;
    state = EState.ready;
    exec_time = pos 0;
    wait_time = pos 0;
    cpu_time = pos (if a == 21 then 9 else 4);
    exec_time_percent = pos 0;
  };
  program_at = λ a. record { pid = 1; state = EState.new; threads = [] };
  thread_exec = none;
  program_exec = none;
  pid = 2;
  tid = 3;
  max_multiprog = pos 10;
}

abbrev queues : Option Scheduler → List ℕ × List ℕ
queues none = ([], [])
queues (some s) = (s.queue_new, s.queue_ready)

-- Thread 12 stays in NEW, although the degree is 10.
long_term_test :
    queues (scheduler_run_long_term_scheduler reference busy) ≡ (12 ∷ [], 21 ∷ 22 ∷ 11 ∷ 13 ∷ [])
unfolding scheduler_run_long_term_scheduler long_term_loop admit suse_decrease_multiprog ◌-ℤ◌
long_term_test = refl

scheduler_run_long_term_scheduler-Admission_example :
    Admission busy (scheduler_run_long_term_scheduler reference busy)
scheduler_run_long_term_scheduler-Admission_example =
    scheduler_run_long_term_scheduler-Admission busy reference-Documented

scheduler_run_long_term_scheduler_skips_example :
    Passed busy [] (12 ∷ []) (11 ∷ 13 ∷ []) (scheduler_run_long_term_scheduler reference busy)
scheduler_run_long_term_scheduler_skips_example =
    scheduler_run_long_term_scheduler_skips busy 10 reference-Documented refl (omega arith)

leb_total : (a b : ℤ) → (leb_ℤ a b ≡ true) ⊎ (leb_ℤ b a ≡ true)
leb_total a b = ground arith

leb_trans : (a b d : ℤ) → leb_ℤ a b ≡ true → leb_ℤ b d ≡ true → leb_ℤ a d ≡ true
leb_trans a b d h k = ground arith

abbrev mean : ℕ → ℤ
mean a =
    number
      (scheduler_calculate_exponential_mean reference whole (pos 1) (busy.thread_at a).cpu_time)

busy-IsOrder : IsOrder reference whole (pos 1) busy.thread_at
unfolding shorter_burst scheduler_calculate_exponential_mean
busy-IsOrder = record {
  total = λ a b. leb_total (mean a) (mean b);
  trans = λ a b d. leb_trans (mean a) (mean b) (mean d);
}

scheduler_run_short_term_scheduler-Picked_example :
    Picked reference whole
      (pos 1)
      busy
      (scheduler_run_short_term_scheduler reference whole (pos 1) busy)
scheduler_run_short_term_scheduler-Picked_example =
    scheduler_run_short_term_scheduler-Picked whole (pos 1) busy 21 (22 ∷ []) reference-Documented
      busy-IsOrder refl

-- A configuration with the semaphore "a", at first of value 1 and at most 2; `atoi` takes the first digit.
abbrev digit : Text → ℤ
digit [] = pos 0
digit (b ∷ t) = sub_ℕ b 48

abbrev text_of : ℕ → Option Text
text_of a =
    if a == 1
    then some (97 ∷ [])
    else if a == 2
    then some (49 ∷ [])
    else if a == 3
    then some (50 ∷ [])
    else none

abbrev array_of : Key → List ℕ
array_of key_sem_ids = 1 ∷ []
array_of key_sem_init = 2 ∷ []
array_of key_sem_max = 3 ∷ []
array_of k = []

abbrev file : ConfigFile ℤ
file = record {
  config_get_int_value = λ k. pos 5;
  config_get_array_value = λ k st. (text_of, array_of k);
  config_get_double_value = λ k. pos 1;
}

abbrev strings : CommonsString
strings = record { string_new = []; string_append = ◌++◌; string_is_empty = λ s. length s == 0 }

strings-DocumentedString : DocumentedString strings
strings-DocumentedString = record {
  new_law = refl;
  append_law = λ s t. refl;
  empty_law = λ s. refl;
}

abbrev config : SuseConfig ℤ
config = (read_config file text_of).1

read_in : ReadIn text_of config ((97 ∷ []) ∷ []) ((49 ∷ []) ∷ []) ((50 ∷ []) ∷ [])
read_in = record {
  held_ids = (refl, tt);
  held_init = (refl, tt);
  held_max = (refl, tt);
  distinct_ids = (tt, tt);
  distinct_init = (tt, tt);
  distinct_max = (tt, tt);
  ids_init = ((refl, tt), tt);
  ids_max = ((refl, tt), tt);
  init_max = ((refl, tt), tt);
}

main-fault_example :
    main reference strings (λ A f l. []) digit (pos 0) (some file) text_of busy 2 (5 ∷ 6 ∷ [])
    ≡ fault
main-fault_example =
    main-fault reference (λ A f l. []) strings-DocumentedString digit 0 file text_of busy 2
      (5 ∷ 6 ∷ []) (97 ∷ []) (49 ∷ []) (50 ∷ []) [] [] [] read_in

-- Had the printing not freed its strings, the semaphore would be there.
abbrev loaded : Option Scheduler → ℕ
loaded none = 0
loaded (some s) = length s.semphores

loaded_test : loaded (suse_run_scheduler reference digit config text_of busy) ≡ 1
unfolding suse_run_scheduler load_stored add_semaphore semaphore_create
loaded_test = refl

-- A third thread is made ready, and one of them runs.
Calls-room_and_ready_example :
    room_and_ready (
      scheduler_run_short_term_scheduler reference whole
        (pos 1)
        (scheduler_set_ready_thread reference 30 busy))
    ≡ pos 10 +ℤ pos (2 + 1)
Calls-room_and_ready_example =
    Calls-room_and_ready whole (pos 1) busy 1
      (scheduler_run_short_term_scheduler reference whole (pos 1)
        (scheduler_set_ready_thread reference 30 busy))
      reference-Documented (short_term (set_ready 30 started))
