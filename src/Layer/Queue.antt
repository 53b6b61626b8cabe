-- ===== src/Layer/Queue.antt =====
-- The queue of queries that wait for the execution thread of the kernel: `enqueueQuery`,
-- `delPendingQuery` and `queryExecutorWork` (lib/kernel/libkernel.c). A job and the counter
-- are changed under `listLock`, so that each function is a step; the thread reads the counter before,
-- but no one else makes it smaller. Memory for a job is taken to be there.
pub mod Counter
mod Tests
use claosi.Prelude.{
  ℕ, zero, suc, ◌+◌, ◌-◌, Bool, true, false, List, [], ◌∷◌, ◌++◌, Option, none, some, length, ◌==◌,
  ltb, if◌then◌else◌,
}

-- `QueryJob_t`: the query, the tuple and the operators to skip. Pointers are numbers.
pub record Job : Type 0 where
  pub query : ℕ
  pub tuple : ℕ
  pub step : ℕ

-- The jobs of other queries, and the tuples of the removed jobs.
pub others : ℕ → List Job → List Job
others q [] = []
others q (j ∷ js) = if j.query == q then others q js else j ∷ others q js

pub tuples_of : ℕ → List Job → List ℕ
tuples_of q [] = []
tuples_of q (j ∷ js) = if j.query == q then j.tuple ∷ tuples_of q js else tuples_of q js

-- The kernel: `queriesToExecList`, `waitingQueries`, `maxWaitingQueries`, and the tuples handed to
-- `freeTupel`.
pub record Kernel : Type 0 where
  pub jobs : List Job
  pub waiting : ℕ
  pub max_waiting : ℕ
  pub freed : List ℕ

pub enqueue_query : Job → Kernel → Kernel
enqueue_query j k = record k { jobs = k.jobs ++ (j ∷ []); waiting = suc k.waiting }

pub del_pending_query : ℕ → Kernel → Kernel
del_pending_query q k = record k { jobs = others q k.jobs; freed = k.freed ++ tuples_of q k.jobs }

-- What a round of the thread does: it runs a job, it has nothing to do, or it takes
-- `list_first_entry` of an empty list, which is no job.
pub data Ran : Type 0 where
  ran : Job → Ran
  idle : Ran
  bogus : Ran

-- `none`: `list_del` of the list's own head, and `executeQuery` on what is no job, after which no state
-- is defined.
pub take_first : List Job → Kernel → Option Kernel × Ran
take_first [] k = (none, bogus)
take_first (j ∷ js) k = (some (record k { jobs = js; waiting = k.waiting - 1 }), ran j)

-- A round of the inner loop of `queryExecutorWork`, or its condition where that is false.
pub execute_next : Kernel → Option Kernel × Ran
execute_next k =
    if ltb 0 k.waiting
    then take_first k.jobs (record k {
      max_waiting = if ltb k.max_waiting k.waiting then k.waiting else k.max_waiting;
    })
    else (some k, idle)

pub data Event : Type 0 where
  enqueued : Job → Event
  dropped : ℕ → Event
  executed : Event

pub kernel_step : Kernel → Event → Option Kernel
kernel_step k (enqueued j) = some (enqueue_query j k)
kernel_step k (dropped q) = some (del_pending_query q k)
kernel_step k executed = (execute_next k).0

-- What the thread does along a history, up to a round that leaves no state.
pub kernel_runs : Kernel → List Event → List Ran
kernel_runs k [] = []
kernel_runs k (executed ∷ es) =
    (execute_next k).1 ∷ elim (execute_next k).0 [ none ↦ [] | some k' ↦ kernel_runs k' es ]
kernel_runs k (enqueued j ∷ es) = kernel_runs (enqueue_query j k) es
kernel_runs k (dropped q ∷ es) = kernel_runs (del_pending_query q k) es

pub kernel_run : Kernel → List Event → Option Kernel
kernel_run k [] = some k
kernel_run k (e ∷ es) = elim (kernel_step k e) [ none ↦ none | some k' ↦ kernel_run k' es ]

abbrev pub kernel_start : Kernel
kernel_start = record { jobs = []; waiting = 0; max_waiting = 0; freed = [] }
