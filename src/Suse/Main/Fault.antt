-- ===== src/Suse/Main/Fault.antt =====
-- How main of suse/src/suse.c ends with a configuration that has semaphores.
use threaders.Base.{ℕ, ◌≡◌, some, List, ◌∷◌, ℤ, pos, ap, ◌∙◌}
use threaders.Commons.{Commons}
use threaders.Wire.Strings.{Text, CommonsString, DocumentedString, Store}
use threaders.Suse.{Scheduler}
use threaders.Suse.Config.{ConfigFile, read_config}
use threaders.Suse.Config.Started.{ReadIn, suse_config_load-Started}
use threaders.Suse.Metrics.{Iterate}
use threaders.Suse.Main.{fault, with_scheduler, after_load, main}

-- With string functions as documented, a log, and a configuration file with at least one semaphore, whose arrays come as
-- live strings in blocks of their own: before the scheduler logs a single line of its metrics, main of suse.c reads a
-- string that its own printing of the configuration has freed.
pub main-fault :
    {D : Type 0} (c : Commons) {cs : CommonsString} (list_iterate : Iterate)
    → DocumentedString cs
    → (atoi : Text → ℤ) (logger : ℕ) (f : ConfigFile D) (st : Store) (s : Scheduler) (n : ℕ)
      (readings : List ℕ) (id init max : Text) (ids inits maxs : List Text)
    → ReadIn (read_config f st).0 (read_config f st).1 (id ∷ ids) (init ∷ inits) (max ∷ maxs)
    → main c cs list_iterate atoi (pos logger) (some f) st s n readings ≡ fault
unfolding main
main-fault c {cs} list_iterate d atoi logger f st s n readings id init max ids inits maxs r =
    let h = suse_config_load-Started c d atoi f st s id init max ids inits maxs r in
    ap (after_load c cs list_iterate atoi n readings s) h.loads
    ∙ ap (with_scheduler c cs list_iterate atoi (read_config f st).1 n readings) h.faults
