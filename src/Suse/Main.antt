-- ===== src/Suse/Main.antt =====
-- main of suse/src/suse.c with the thread that runs the scheduler. The thread of suse_init, which only listens, is
-- Sockets/Select; suse_exit_gracefully stands behind the scheduler's endless loop.
pub mod Fault
use threaders.Base.{ℕ, Option, none, some, List, ℤ, pos, negsuc}
use threaders.Commons.{Commons}
use threaders.Wire.Strings.{Text, CommonsString, Store}
use threaders.Suse.{Scheduler}
use threaders.Suse.Config.{SuseConfig, ConfigFile, suse_config_load, suse_run_scheduler}
use threaders.Suse.Metrics.{Line, Iterate, scheduler_execute_metrics}

-- The end of main before its threads, a read of a block that was freed or a null pointer, or the scheduler with what it
-- has logged in so many rounds.
pub data Run : Type 0 where
  returned : ℤ → Run
  fault : Run
  scheduling : Scheduler → List Line → Run

module _ (c : Commons) (cs : CommonsString) (list_iterate : Iterate) (atoi : Text → ℤ)
    {D : Type 0} where
  abbrev pub with_scheduler : SuseConfig D → ℕ → List ℕ → Option Scheduler → Run
  with_scheduler config n readings none = fault
  with_scheduler config n readings (some s) =
      scheduling s (scheduler_execute_metrics c list_iterate s config.metrics_timer n readings)

  -- A result that is not negative comes with a configuration.
  abbrev pub with_config : ℕ → List ℕ → Scheduler → Store → Option (SuseConfig D) → ℤ → Run
  with_config n readings s st config (negsuc k) = returned (negsuc k)
  with_config n readings s st none (pos k) = fault
  with_config n readings s st (some config) (pos k) =
      with_scheduler config n readings (suse_run_scheduler c atoi config st s)

  abbrev pub after_load :
      ℕ → List ℕ → Scheduler → Option (Store × Option (SuseConfig D) × List Text × ℤ) → Run
  after_load n readings s none = fault
  after_load n readings s (some (st, config, lines, response)) =
      with_config n readings s st config response

  -- `logger` is what suse_logger_create returns; `n` rounds of the metrics, with the clock's readings.
  unfoldable pub main : ℤ → Option (ConfigFile D) → Store → Scheduler → ℕ → List ℕ → Run
  main (negsuc k) file st s n readings = returned (negsuc k)
  main (pos k) file st s n readings = after_load n readings s (suse_config_load cs file st)
