-- ===== src/Api/Register.antt =====
-- lib/api.c, `registerProvider`, `registerQuery` and `unregisterQuery`: they take the lock, check
-- what the caller hands in, and call the data model and the queries.
pub mod Locks
pub mod Models
mod Tests
use claosi.Prelude.{ℕ, zero, suc, ◌-◌, Bool, true, false, List, [], ◌∷◌, map, Option, none, some}
use claosi.Errors.{Error, eparam}
use claosi.Model.{Node}
use claosi.Model.Syntax.{Verdict, check_data_model_syntax}
use claosi.Model.Merge.{check_merge}
use claosi.Model.Insert.{merge_data_model}
use claosi.Model.Compact.{Sizes}
use claosi.Model.Send.{Link, Waited, finished, waiting, hung, busy_wait}
use claosi.Query.{Query}
use claosi.Query.Syntax.{check_queries}
use claosi.Query.Registry.{Layer, Outcome, add_queries, del_queries}
use claosi.Ring.{msg_dm_add}

-- The layer with SLC_DATA_MODEL, its connection to the other one, and how often the function holds
-- `slcLock`.
pub record System : Type 0 where
  pub layer : Layer
  pub link : Link
  pub held : ℕ

-- `returned none` is 0. `endless` is a loop that does not end with the fuel given, `crash` a read
-- through NULL.
pub data Result : Type 0 where
  returned : Option Error → System → Result
  endless : Result
  crash : Result

abbrev pub lock : System → System
lock s = record s { held = suc s.held }

abbrev pub unlock : System → System
unlock s = record s { held = s.held - 1 }

abbrev pub with_root : Node → System → System
with_root n s = record s { layer = record (s.layer) { root = n } }

-- What the functions need of the layer: its code, whether a message about a query gets through,
-- which allocations of a merge succeed, the sizes of the structures, ENDPOINT_CONNECTED, `slcmalloc`,
-- and how many messages the other layer takes out in each sleep.
pub record Platform : Type 0 where
  pub layer_code : ℕ
  pub sends : ℕ → Bool
  pub room : ℕ → Bool
  pub sizes : Sizes
  pub connected : Bool
  pub slcmalloc : ℕ → ℕ → Option ℕ
  pub taken : ℕ → ℕ

module _ (p : Platform) where
  -- The part for the queries, which ends the function.
  pub added : System → Outcome → Result
  added s (Outcome.done l) = returned none (unlock (record s { layer = l }))
  added s (Outcome.failed e l) = returned (some e) (unlock (record s { layer = l }))
  added s Outcome.fault = crash

  pub checked : System → List ℕ → Option Error → Result
  checked s ps (some e) = returned (some e) (unlock s)
  checked s ps none = added s (add_queries p.layer_code p.sends s.layer ps)

  abbrev pub verdict_of : System → List ℕ → Option Error
  verdict_of s ps = check_queries s.layer.root false (map s.layer.heap ps)

  pub register_queries : Option (List ℕ) → System → Result
  register_queries none s = returned none s
  register_queries (some ps) s = checked (lock s) ps (verdict_of s ps)

  module _ (fuel : ℕ) where
    -- sendDatamodel until it is not busy; its other errors are not looked at.
    pub announced : Option (List ℕ) → System → Waited → Result
    announced qs s (finished l) = register_queries qs (record s { link = l })
    announced qs s (waiting l) = endless
    announced qs s hung = endless

    pub announce : Node → Option (List ℕ) → System → Result
    announce dm qs s =
        announced qs s (busy_wait p.sizes p.connected p.slcmalloc p.taken fuel dm msg_dm_add s.link)

    pub merged_in : Node → Option (List ℕ) → System → Option claosi.Model.Insert.Merged → Result
    merged_in dm qs s none = endless
    merged_in dm qs s (some (claosi.Model.Insert.merged root)) =
        announce dm qs (unlock (with_root root s))
    merged_in dm qs s (some (claosi.Model.Insert.stopped e root)) =
        returned (some e) (unlock (with_root root s))
    merged_in dm qs s (some claosi.Model.Insert.null_read) = crash

    pub tested : Node → Option (List ℕ) → System → Option claosi.Model.Merge.Merged → Result
    tested dm qs s none = endless
    tested dm qs s (some claosi.Model.Merge.done) =
        merged_in dm qs s (merge_data_model p.room fuel s.layer.root dm 0)
    tested dm qs s (some (claosi.Model.Merge.error e)) = returned (some e) (unlock s)
    tested dm qs s (some claosi.Model.Merge.crash) = crash

    pub syntax_checked : Node → Option (List ℕ) → System → Verdict → Result
    syntax_checked dm qs s Verdict.success =
        tested dm qs (lock s) (check_merge fuel s.layer.root dm)
    syntax_checked dm qs s (Verdict.failure e n) = returned (some e) s
    syntax_checked dm qs s Verdict.fault = crash
    syntax_checked dm qs s Verdict.hang = endless

    -- A query list is that of the pointers along `next`.
    pub register_provider : Option Node → Option (List ℕ) → System → Result
    register_provider none none s = returned (some eparam) s
    register_provider none (some ps) s = register_queries (some ps) s
    register_provider (some dm) qs s =
        syntax_checked dm qs s (check_data_model_syntax (some s.layer.root) dm)

  -- Both functions check before they take the lock.
  pub register_query : Option (List ℕ) → System → Result
  register_query none s = returned (some eparam) s
  register_query (some ps) s = elim (verdict_of s ps) [
    | some e ↦ returned (some e) s
    | none ↦ added (lock s) (add_queries p.layer_code p.sends s.layer ps)
  ]

  pub unregister_query : Option (List ℕ) → System → Result
  unregister_query none s = returned (some eparam) s
  unregister_query (some ps) s = elim (verdict_of s ps) [
    | some e ↦ returned (some e) s
    | none ↦ added (lock s) (del_queries p.layer_code p.sends s.layer ps)
  ]
