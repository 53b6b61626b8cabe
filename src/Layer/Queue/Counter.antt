-- ===== src/Layer/Queue/Counter.antt =====
-- The kernel's counter of waiting queries against the jobs in its list.
use claosi.Prelude.{
  ℕ, zero, suc, ◌+◌, ◌-◌, ◌<◌, ◌≡◌, ◌⊎◌, refl, sym, ap, ◌∙◌, true, false, List, [], ◌∷◌, ◌++◌, map,
  length, length-append, arith, ◌==◌, ltb, if◌then◌else◌, inl, inr, Option-cases, none, some,
  some_eq,
}
use claosi.Layer.Queue.{
  Job, others, tuples_of, Kernel, enqueue_query, del_pending_query, ran, idle, bogus, take_first,
  execute_next, Event, enqueued, dropped, executed, kernel_step, kernel_runs, kernel_run,
  kernel_start,
}

-- The queue without a counter.
unfoldable pub jobs_after : List Job → Event → List Job
jobs_after js (enqueued j) = js ++ (j ∷ [])
jobs_after js (dropped q) = others q js
jobs_after [] executed = []
jobs_after (j ∷ js) executed = js

unfoldable pub pending : List Job → List Event → List Job
unfolding jobs_after
pending js [] = js
pending js (e ∷ es) = pending (jobs_after js e) es

-- How many jobs were deleted while they waited.
unfoldable pub lost_by : List Job → Event → ℕ
lost_by js (dropped q) = length (tuples_of q js)
lost_by js e = 0

unfoldable pub lost : List Job → List Event → ℕ
unfolding jobs_after lost_by
lost js [] = 0
lost js (e ∷ es) = lost_by js e + lost (jobs_after js e) es

pub length-others :
    (q : ℕ) (js : List Job) → length (others q js) + length (tuples_of q js) ≡ length js
unfolding others tuples_of
length-others q [] = refl
length-others q (j ∷ js) = ground (arith, length-others q js)

zero_or_more : (n : ℕ) → (n ≡ 0) ⊎ (0 < n)
zero_or_more zero = inl refl
zero_or_more (suc n) = inr (omega arith)

-- The counter is ahead of the list by `d`.
record Ahead (d : ℕ) (js : List Job) (k : Kernel) : Type 0 where
  same : k.jobs ≡ js
  counted : k.waiting ≡ length js + d

-- A round with a job in the list, counted or ahead.
execute_next-ran :
    (j : Job) (js : List Job) (k : Kernel)
    → k.jobs ≡ j ∷ js
    → 0 < k.waiting
    → (k' : Kernel) × (execute_next k ≡ (some k', ran j))
      × (k'.jobs ≡ js)
      × (k'.waiting ≡ k.waiting - 1)
unfolding execute_next take_first
execute_next-ran j js k e h =
    let more : ltb 0 k.waiting ≡ true = ground arith in
    (
      record k {
        jobs = js;
        waiting = k.waiting - 1;
        max_waiting = if ltb k.max_waiting k.waiting then k.waiting else k.max_waiting;
      },
      rw (execute_next, more, e, take_first) refl,
      refl,
      refl,
    )

execute_next-idle : (k : Kernel) → k.waiting ≡ 0 → execute_next k ≡ (some k, idle)
unfolding execute_next
execute_next-idle k z =
    let less : ltb 0 k.waiting ≡ false = ground arith in rw (execute_next, less) refl

-- A round ahead of an empty list.
execute_next-bogus : (k : Kernel) → k.jobs ≡ [] → 0 < k.waiting → execute_next k ≡ (none, bogus)
unfolding execute_next take_first
execute_next-bogus k e h =
    let more : ltb 0 k.waiting ≡ true = ground arith in rw (execute_next, more, e, take_first) refl

step-Ahead :
    (d : ℕ) (js : List Job) (k k' : Kernel) (e : Event)
    → Ahead d js k
    → kernel_step k e ≡ some k'
    → Ahead (d + lost_by js e) (jobs_after js e) k'
unfolding kernel_step enqueue_query del_pending_query jobs_after lost_by
step-Ahead d js k k' (enqueued j) a s =
    let same : enqueue_query j k ≡ k' = some_eq s in
    record {
      same = ap (λ x. x.jobs) (sym same) ∙ ap (λ l. l ++ (j ∷ [])) a.same;
      counted = omega (arith, length-append js (j ∷ []), a.counted, ap (λ x. x.waiting) same);
    }
step-Ahead d js k k' (dropped q) a s =
    let same : del_pending_query q k ≡ k' = some_eq s in
    record {
      same = ap (λ x. x.jobs) (sym same) ∙ ap (others q) a.same;
      counted = omega (arith, length-others q js, a.counted, ap (λ x. x.waiting) same);
    }
step-Ahead d [] k k' executed a s = elim (zero_or_more k.waiting) [
  | inl z ↦
      let same : k ≡ k' = some_eq (ap (λ o. o.0) (sym (execute_next-idle k z)) ∙ s) in
      record {
        same = ap (λ x. x.jobs) (sym same) ∙ a.same;
        counted = omega (arith, a.counted, ap (λ x. x.waiting) same);
      }
  | inr m ↦ cc (ap (λ o. o.0) (sym (execute_next-bogus k a.same m)) ∙ s)
]
step-Ahead d (j ∷ js) k k' executed a s =
    let (after, runs, jobs, waiting) = execute_next-ran j js k a.same (omega (arith, a.counted)) in
    let same : after ≡ k' = some_eq (ap (λ o. o.0) (sym runs) ∙ s) in
    record {
      same = ap (λ x. x.jobs) (sym same) ∙ jobs;
      counted = omega (arith, waiting, a.counted, ap (λ x. x.waiting) same);
    }

run-Ahead :
    (d : ℕ) (js : List Job) (k k' : Kernel) (es : List Event)
    → Ahead d js k
    → kernel_run k es ≡ some k'
    → Ahead (d + lost js es) (pending js es) k'
unfolding kernel_run lost pending
run-Ahead d js k k' [] a s =
    let same : k ≡ k' = some_eq s in
    record {
      same = ap (λ x. x.jobs) (sym same) ∙ a.same;
      counted = omega (arith, a.counted, ap (λ x. x.waiting) same);
    }
run-Ahead d js k k' (e ∷ es) a s = elim (Option-cases (kernel_step k e)) [
  | inl z ↦ cc (rw (kernel_run, z) at s)
  | inr (k1, one) ↦
      let r =
        run-Ahead (d + lost_by js e) (jobs_after js e) k1 k' es (step-Ahead d js k k1 e a one)
          (rw (kernel_run, one) at s) in
      record { same = r.same; counted = omega (arith, r.counted) }
]

start-Ahead :
    (es : List Event) (k : Kernel)
    → kernel_run kernel_start es ≡ some k
    → Ahead (lost [] es) (pending [] es) k
start-Ahead es k s =
    let a = run-Ahead 0 [] kernel_start k es (record { same = refl; counted = refl }) s in
    record { same = a.same; counted = omega (arith, a.counted) }

-- As many rounds as there are jobs, and one more.
pub drain : List Job → List Event
drain [] = executed ∷ []
drain (j ∷ js) = executed ∷ drain js

drain-Ahead :
    (d : ℕ) (js : List Job) (k : Kernel)
    → Ahead d js k
    → kernel_runs k (drain js) ≡ map ran js ++ ((if d == 0 then idle else bogus) ∷ [])
unfolding kernel_runs drain
drain-Ahead d [] k a = elim (zero_or_more k.waiting) [
  | inl z ↦
      let none_lost : (d == 0) ≡ true = ground (arith, a.counted, z) in
      rw (kernel_runs, execute_next-idle k z, none_lost) refl
  | inr m ↦
      let some_lost : (d == 0) ≡ false = ground (arith, a.counted, m) in
      rw (kernel_runs, execute_next-bogus k a.same m, some_lost) refl
]
drain-Ahead d (j ∷ js) k a =
    let (after, runs, jobs, waiting) = execute_next-ran j js k a.same (omega (arith, a.counted)) in
    rw (kernel_runs, runs)
      (ap (λ l. ran j ∷ l)
        (drain-Ahead d js after
          (record { same = jobs; counted = omega (arith, waiting, a.counted) })))

-- After every history that has left a state, the thread runs the jobs of the list in their order. If no
-- job was deleted while it waited, it then has nothing to do; otherwise it goes on with the head of
-- the empty list.
pub kernel_runs-drain :
    (es : List Event) (k : Kernel)
    → kernel_run kernel_start es ≡ some k
    → kernel_runs k (drain (pending [] es))
      ≡ map ran (pending [] es) ++ ((if lost [] es == 0 then idle else bogus) ∷ [])
kernel_runs-drain es k s = drain-Ahead (lost [] es) (pending [] es) k (start-Ahead es k s)
