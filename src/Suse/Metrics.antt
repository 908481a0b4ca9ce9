-- ===== src/Suse/Metrics.antt =====
-- The metrics of suse/src/scheduler/suse_scheduler.c, as the lines that go to the log, and utils_delay of
-- shared-common/common/utils.c between them.
pub mod Running
use threaders.Base.{
  ℕ, zero, suc, ◌+◌, ◌*◌, ◌-◌, pos, negsuc, Option, none, some, List, [], ◌∷◌, ◌++◌, ℤ, pos, negsuc,
  ltb, if◌then◌else◌,
}
use threaders.Commons.{Commons}
use threaders.Suse.{Thread, Semaphore, Scheduler}

-- A line with the numbers in it.
pub data Line : Type 0 where
  metricas por_hilos por_programa del_sistema fin_de_metricas : Line
  tiempo_de_ejecucion tiempo_de_espera tiempo_de_cpu porcentaje : ℤ → Line
  grado_de_multiprogramacion : ℤ → Line
  cantidad_de_hilos : (new_size ready_size run_size blocked_size : ℕ) → Line
  valor_actual : (id : List ℕ) → (value : ℤ) → Line

-- What list_iterate of so-commons-library does with a function that logs an element.
abbrev pub Iterate : Type 1
Iterate = (A : Type 0) → (A → List Line) → List A → List Line

abbrev pub scheduler_list_threads : Thread → List Line
scheduler_list_threads t =
    tiempo_de_ejecucion t.exec_time
    ∷ tiempo_de_espera t.wait_time
    ∷ tiempo_de_cpu t.cpu_time
    ∷ porcentaje t.exec_time_percent
    ∷ []

abbrev pub scheduler_list_semaphores : Semaphore → List Line
scheduler_list_semaphores m = valor_actual m.id m.value ∷ []

module _ (c : Commons) (list_iterate : Iterate) where
  -- The lines are the same for every program.
  abbrev pub scheduler_list_programs : Scheduler → ℕ → List Line
  scheduler_list_programs s p =
      let run_size = c.list_size ℕ s.queue_ready in
      grado_de_multiprogramacion s.max_multiprog
      ∷ cantidad_de_hilos (c.list_size ℕ s.queue_new) (c.list_size ℕ s.queue_ready) run_size
          (c.list_size ℕ s.queue_blocked)
      ∷ []

  unfoldable pub scheduler_print_metrics : Scheduler → List Line
  scheduler_print_metrics s =
      metricas ∷ por_hilos ∷ list_iterate ℕ (λ t. scheduler_list_threads (s.thread_at t)) s.threads
      ++ (por_programa ∷ list_iterate ℕ (scheduler_list_programs s) s.programs
          ++ (del_sistema ∷ list_iterate Semaphore scheduler_list_semaphores s.semphores
              ++ (fin_de_metricas ∷ [])))

-- The readings of clock() that are left when one has come that is not before the end; `none` while none has.
unfoldable pub wait_until : ℕ → List ℕ → Option (List ℕ)
wait_until end [] = none
wait_until end (now ∷ readings) =
    let later = wait_until end readings in if ltb now end then later else some readings

-- `start + 1000 * seconds`, or 0 where that is negative, which every reading passes as well.
abbrev pub end_of : ℕ → ℤ → ℕ
end_of start (pos seconds) = start + 1000 * seconds
end_of start (negsuc n) = start - 1000 * suc n

-- The first reading is `start`; `1000 * seconds` fits an `int`.
abbrev pub utils_delay : ℤ → List ℕ → Option (List ℕ)
utils_delay seconds [] = none
utils_delay seconds (start ∷ readings) = wait_until (end_of start seconds) readings

abbrev pub and_printed : Option (List ℕ) → (List ℕ → List Line) → List Line
and_printed none k = []
and_printed (some readings) k = k readings

-- The first `n` rounds of the endless loop, with the clock's readings.
unfoldable pub scheduler_execute_metrics :
    Commons → Iterate → Scheduler → ℤ → ℕ → List ℕ → List Line
scheduler_execute_metrics c list_iterate s metrics_timer zero readings = []
scheduler_execute_metrics c list_iterate s metrics_timer (suc n) readings =
    and_printed (utils_delay metrics_timer readings) λ rest.
      scheduler_print_metrics c list_iterate s
      ++ scheduler_execute_metrics c list_iterate s metrics_timer n rest
