-- ===== src/Suse/Metrics/Running.antt =====
-- What the metrics of suse/src/scheduler/suse_scheduler.c say of the thread that runs.
use threaders.Base.{arith, ℕ, ◌≡◌, [], ◌∷◌, ◌++◌}
use threaders.Commons.{Commons}
use threaders.Suse.{Scheduler, Semaphore, EState, set_thread, scheduler_execute_thread}
use threaders.Suse.Metrics.{
  Iterate, metricas, por_hilos, por_programa, del_sistema, fin_de_metricas, scheduler_list_threads,
  scheduler_print_metrics, scheduler_list_programs, scheduler_list_semaphores,
}

same_lines :
    (s : Scheduler) (t a : ℕ)
    → scheduler_list_threads
        (set_thread s.thread_at t (record (s.thread_at t) { state = EState.exec }) a)
      ≡ scheduler_list_threads (s.thread_at a)
same_lines s t a = ground arith

-- No line of the metrics changes when a thread is put to run.
pub scheduler_print_metrics-scheduler_execute_thread :
    (c : Commons) (list_iterate : Iterate) (t : ℕ) (s : Scheduler)
    → scheduler_print_metrics c list_iterate (scheduler_execute_thread t s)
      ≡ scheduler_print_metrics c list_iterate s
unfolding scheduler_print_metrics scheduler_execute_thread
scheduler_print_metrics-scheduler_execute_thread c list_iterate t s = λ i.
    metricas ∷ por_hilos ∷ list_iterate ℕ (λ a. same_lines s t a i) s.threads
    ++ (por_programa ∷ list_iterate ℕ (scheduler_list_programs c list_iterate s) s.programs
        ++ (del_sistema ∷ list_iterate Semaphore scheduler_list_semaphores s.semphores
            ++ (fin_de_metricas ∷ [])))
