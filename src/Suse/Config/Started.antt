-- ===== src/Suse/Config/Started.antt =====
-- What the scheduler of suse/src finds of its configuration when it starts.
use threaders.Base.{ℕ, ◌≡◌, Option, none, some, List, [], ◌∷◌, ℤ, pos, ap, ◌∙◌}
use threaders.Commons.{Commons}
use threaders.Wire.Strings.{
  Text, CommonsString, DocumentedString, Store, with_text, utils_array_to_string,
}
use threaders.Wire.Strings.Joined.{
  Holds, Apart, Distinct, freed_all, bracketed, freed_all-Holds, freed_all-none, freed_all-head,
  utils_array_to_string-bracketed,
}
use threaders.Suse.{
  Semaphore, Scheduler, load_next, add_semaphore, semaphore_create, scheduler_init,
}
use threaders.Suse.Config.{
  SuseConfig, ConfigFile, read_config, then_printed, print_config, loaded_with, suse_config_load,
  load_stored, with_semaphores, suse_run_scheduler,
}

-- The strings of the three arrays are live, in blocks of their own.
pub record ReadIn {D : Type 0} (st : Store) (config : SuseConfig D) (ids inits maxs : List Text)
    : Type 0 where
  pub held_ids : Holds st config.sem_ids ids
  pub held_init : Holds st config.sem_init inits
  pub held_max : Holds st config.sem_max maxs
  pub distinct_ids : Distinct config.sem_ids
  pub distinct_init : Distinct config.sem_init
  pub distinct_max : Distinct config.sem_max
  pub ids_init : Apart config.sem_ids config.sem_init
  pub ids_max : Apart config.sem_ids config.sem_max
  pub init_max : Apart config.sem_init config.sem_max

abbrev pub behind_print : {D : Type 0} → SuseConfig D → Store → Store
behind_print config st =
    freed_all config.sem_max (freed_all config.sem_init (freed_all config.sem_ids st))

module _ {D : Type 0} {cs : CommonsString} (d : DocumentedString cs) where
  print_config-bracketed :
      (config : SuseConfig D) (st : Store) (ids inits maxs : List Text)
      → ReadIn st config ids inits maxs
      → print_config cs config st
        ≡ some (behind_print config st, bracketed ids ∷ bracketed inits ∷ bracketed maxs ∷ [])
  unfolding print_config
  print_config-bracketed config st ids inits maxs r =
      let st1 = freed_all config.sem_ids st in
      let st2 = freed_all config.sem_init st1 in
      let print_max : Text → Text → Store → Text → Option (Store × List Text) =
        λ x y st3 z. some (st3, x ∷ y ∷ z ∷ []) in
      let print_init : Text → Store → Text → Option (Store × List Text) =
        λ x st2 y. then_printed (utils_array_to_string cs st2 config.sem_max) (print_max x y) in
      let print_ids : Store → Text → Option (Store × List Text) =
        λ st1 x. then_printed (utils_array_to_string cs st1 config.sem_init) (print_init x) in
      ap (λ o. then_printed o print_ids)
        (utils_array_to_string-bracketed d st config.sem_ids ids r.held_ids r.distinct_ids)
      ∙ ap (λ o. then_printed o (print_init (bracketed ids)))
          (utils_array_to_string-bracketed d st1 config.sem_init inits
            (freed_all-Holds config.sem_ids st config.sem_init inits r.held_init r.ids_init)
            r.distinct_init)
      ∙ ap (λ o. then_printed o (print_max (bracketed ids) (bracketed inits)))
          (utils_array_to_string-bracketed d st2 config.sem_max maxs
            (freed_all-Holds config.sem_init st1 config.sem_max maxs
              (freed_all-Holds config.sem_ids st config.sem_max maxs r.held_max r.ids_max)
              r.init_max)
            r.distinct_max)

-- The first semaphore of three arrays that are not empty has its initial value in a freed block.
load_stored-none :
    (c : Commons) (atoi : Text → ℤ) (st st' : Store) (ids inits maxs : List ℕ) (id init max : Text)
    (tids tinits tmaxs : List Text) (l : List Semaphore)
    → Holds st ids (id ∷ tids)
    → Holds st inits (init ∷ tinits)
    → Holds st maxs (max ∷ tmaxs)
    → load_stored c atoi (freed_all maxs (freed_all inits st')) ids inits maxs l ≡ none
unfolding load_stored add_semaphore
load_stored-none c atoi st st' [] inits maxs id init max tids tinits tmaxs l h i m = absurd h
load_stored-none c atoi st st' (a ∷ ids) [] maxs id init max tids tinits tmaxs l h i m = absurd i
load_stored-none c atoi st st' (a ∷ ids) (b ∷ inits) [] id init max tids tinits tmaxs l h i m =
    absurd m
load_stored-none c atoi st st' (a ∷ ids) (b ∷ inits) (e ∷ maxs) id init max tids tinits tmaxs l h i
      m =
    let after = freed_all (e ∷ maxs) (freed_all (b ∷ inits) st') in
    let gone : after b ≡ none =
      freed_all-none (e ∷ maxs) (freed_all (b ∷ inits) st') b (freed_all-head b inits st') in
    ap
      (λ o.
        load_next
          (add_semaphore c
            (with_text o λ i.
              with_text (after e)
                λ m. with_text (after a) λ t. semaphore_create c t (atoi i) (atoi m))
            l)
          (load_stored c atoi after ids inits maxs))
      gone

-- The start of the scheduler: what is printed, and the fault that follows.
pub record Started {D : Type 0} (c : Commons) (cs : CommonsString) (atoi : Text → ℤ)
    (f : ConfigFile D) (st : Store) (s : Scheduler) (ids inits maxs : List Text) : Type 0 where
  pub left : Store
  pub loads :
      suse_config_load cs (some f) st
      ≡ some (
        left,
        some (read_config f st).1,
        bracketed ids ∷ bracketed inits ∷ bracketed maxs ∷ [],
        pos 0,
      )
  pub faults : suse_run_scheduler c atoi (read_config f st).1 left s ≡ none

-- With string functions as documented and a configuration file with at least one semaphore, whose arrays come as live
-- strings in blocks of their own: suse_config_load prints the three arrays in brackets, with commas, and returns 0.
-- But the printing has freed the strings, and the scheduler's start reads a freed one.
pub suse_config_load-Started :
    {D : Type 0} (c : Commons) {cs : CommonsString}
    → DocumentedString cs
    → (atoi : Text → ℤ) (f : ConfigFile D) (st : Store) (s : Scheduler) (id init max : Text)
      (ids inits maxs : List Text)
    → ReadIn (read_config f st).0 (read_config f st).1 (id ∷ ids) (init ∷ inits) (max ∷ maxs)
    → Started c cs atoi f st s (id ∷ ids) (init ∷ inits) (max ∷ maxs)
unfolding suse_config_load
suse_config_load-Started c d atoi f st s id init max ids inits maxs r =
    let read = read_config f st in
    record {
      left = behind_print read.1 read.0;
      loads =
          ap (loaded_with read.1)
            (print_config-bracketed d read.1 read.0 (id ∷ ids) (init ∷ inits) (max ∷ maxs) r);
      faults =
          ap
            (with_semaphores c
              (record (scheduler_init c s) { max_multiprog = read.1.max_multiprog }))
            (load_stored-none c atoi read.0 (freed_all read.1.sem_ids read.0) read.1.sem_ids
              read.1.sem_init read.1.sem_max id init max ids inits maxs (c.list_create Semaphore)
              r.held_ids r.held_init r.held_max);
    }
