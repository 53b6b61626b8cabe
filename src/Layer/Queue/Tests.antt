-- ===== src/Layer/Queue/Tests.antt =====
-- A history of the queue: two jobs of one query and one of another, which is deleted.
use claosi.Prelude.{ℕ, ◌≡◌, refl, List, [], ◌∷◌, ◌++◌, map, some, if◌then◌else◌, ◌==◌}
use claosi.Layer.Queue.{
  Job, Kernel, Event, enqueued, dropped, kernel_run, kernel_runs, kernel_step, kernel_start, ran,
  idle, bogus, others, tuples_of, enqueue_query, del_pending_query,
}
use claosi.Layer.Queue.Counter.{pending, lost, drain, kernel_runs-drain}

abbrev job : ℕ → ℕ → Job
job q t = record { query = q; tuple = t; step = 0 }

abbrev history : List Event
history = enqueued (job 7 100) ∷ enqueued (job 8 101) ∷ enqueued (job 7 102) ∷ dropped 8 ∷ []

abbrev after : Kernel
after = record { jobs = job 7 100 ∷ job 7 102 ∷ []; waiting = 3; max_waiting = 0; freed = 101 ∷ [] }

history_runs : kernel_run kernel_start history ≡ some after
unfolding kernel_run kernel_step enqueue_query del_pending_query others tuples_of
history_runs = refl

kernel_runs-drain_example :
    kernel_runs after (drain (pending [] history))
    ≡ map ran (pending [] history) ++ ((if lost [] history == 0 then idle else bogus) ∷ [])
kernel_runs-drain_example = kernel_runs-drain history after history_runs
