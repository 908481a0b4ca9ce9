-- ===== src/Suse/Config.antt =====
-- suse/src/config/suse_config.c and the start of the scheduler with it, as suse/src/suse.c does it: the
-- configuration file is read and printed, then scheduler_init_semaphores reads what it said.
pub mod Started
use threaders.Base.{ℕ, Option, none, some, List, [], ◌∷◌, ℤ, pos, negsuc}
use threaders.Commons.{Commons}
use threaders.Wire.Strings.{Text, CommonsString, Store, with_text, utils_array_to_string}
use threaders.Suse.{
  Semaphore, Scheduler, load_next, add_semaphore, semaphore_create, scheduler_init,
}

-- `alpha_sjf` is a C double.
pub record SuseConfig (D : Type 0) : Type 0 where
  pub listen_port : ℤ
  pub metrics_timer : ℤ
  pub max_multiprog : ℤ
  pub sem_ids : List ℕ
  pub sem_init : List ℕ
  pub sem_max : List ℕ
  pub alpha_sjf : D

-- The keys of the file.
pub data Key : Type 0 where
  key_listen_port key_metrics_timer key_max_multiprog key_sem_ids key_sem_init key_sem_max : Key
  key_alpha_sjf : Key

-- A configuration file as so-commons-library gives it out; an array comes as new blocks of the store.
pub record ConfigFile (D : Type 0) : Type 0 where
  pub config_get_int_value : Key → ℤ
  pub config_get_array_value : Key → Store → Store × List ℕ
  pub config_get_double_value : Key → D

-- The store behind a string that is printed, and the lines printed so far.
abbrev pub then_printed :
    Option (Store × Text) → (Store → Text → Option (Store × List Text)) → Option (Store × List Text)
then_printed none k = none
then_printed (some (st, line)) k = k st line

module _ {D : Type 0} where
  abbrev pub read_config : ConfigFile D → Store → Store × SuseConfig D
  read_config f st =
      let (st1, ids) = f.config_get_array_value key_sem_ids st in
      let (st2, inits) = f.config_get_array_value key_sem_init st1 in
      let (st3, maxs) = f.config_get_array_value key_sem_max st2 in
      (
        st3,
        record {
          listen_port = f.config_get_int_value key_listen_port;
          metrics_timer = f.config_get_int_value key_metrics_timer;
          max_multiprog = f.config_get_int_value key_max_multiprog;
          sem_ids = ids;
          sem_init = inits;
          sem_max = maxs;
          alpha_sjf = f.config_get_double_value key_alpha_sjf;
        },
      )

  -- The lines of the three arrays; those of the numbers read no block.
  unfoldable pub print_config : CommonsString → SuseConfig D → Store → Option (Store × List Text)
  print_config c config st = then_printed (utils_array_to_string c st config.sem_ids) λ st1 ids.
      then_printed (utils_array_to_string c st1 config.sem_init) λ st2 inits.
        then_printed (utils_array_to_string c st2 config.sem_max)
          λ st3 maxs. some (st3, ids ∷ inits ∷ maxs ∷ [])

  -- The configuration with the store, the printed lines and the result.
  abbrev pub loaded_with :
      SuseConfig D
      → Option (Store × List Text)
      → Option (Store × Option (SuseConfig D) × List Text × ℤ)
  loaded_with config none = none
  loaded_with config (some (st, lines)) = some (st, some config, lines, pos 0)

  -- `none` for a file that is not there: config_load of shared-common/common/config.c returns -1.
  unfoldable pub suse_config_load :
      CommonsString
      → Option (ConfigFile D)
      → Store
      → Option (Store × Option (SuseConfig D) × List Text × ℤ)
  suse_config_load c none st = some (st, none, [], negsuc 0)
  suse_config_load c (some f) st =
      let (read, config) = read_config f st in loaded_with config (print_config c config read)

module _ (c : Commons) where
  abbrev pub semaphore_at : (Text → ℤ) → Store → ℕ → ℕ → ℕ → Option Semaphore
  semaphore_at atoi st id init max =
      with_text (st init)
        λ i. with_text (st max) λ m. with_text (st id) λ t. semaphore_create c t (atoi i) (atoi m)

  -- The loop of scheduler_init_semaphores over the arrays of the configuration, up to the end of the shortest of the
  -- three. `atoi` is the C library's.
  unfoldable pub load_stored :
      (Text → ℤ) → Store → List ℕ → List ℕ → List ℕ → List Semaphore → Option (List Semaphore)
  load_stored atoi st (id ∷ ids) (init ∷ inits) (max ∷ maxs) l =
      load_next (add_semaphore c (semaphore_at atoi st id init max) l)
        (load_stored atoi st ids inits maxs)
  load_stored atoi st ids inits maxs l = some l

  abbrev pub with_semaphores : Scheduler → Option (List Semaphore) → Option Scheduler
  with_semaphores s none = none
  with_semaphores s (some l) = some (record s { semphores = l })

  -- suse_run_scheduler, up to the metrics.
  abbrev pub suse_run_scheduler :
      {D : Type 0} → (Text → ℤ) → SuseConfig D → Store → Scheduler → Option Scheduler
  suse_run_scheduler atoi config st s =
      with_semaphores (record (scheduler_init c s) { max_multiprog = config.max_multiprog })
        (load_stored atoi st config.sem_ids config.sem_init config.sem_max
          (c.list_create Semaphore))
