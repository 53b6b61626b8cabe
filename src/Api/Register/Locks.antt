-- ===== src/Api/Register/Locks.antt =====
-- The lock around the calls.
use claosi.Prelude.{ℕ, suc, ◌-◌, ◌≡◌, refl, List, Option, none, some, inl, inr, Option-cases, arith}
use claosi.Errors.{Error}
use claosi.Model.{Node}
use claosi.Model.Syntax.{Verdict}
use claosi.Model.Send.{Waited, finished, waiting, hung}
use claosi.Query.Registry.{Outcome, Effect}
use claosi.Query.Registry.Locking.{
  IsKept, same-IsKept, Leaves, add_queries-Leaves, del_queries-Leaves,
}
use claosi.Api.Register.{
  System, Result, returned, endless, crash, lock, Platform, added, checked, verdict_of,
  register_queries, announced, announce, merged_in, tested, syntax_checked, register_provider,
  register_query, unregister_query,
}

-- If the function returns, it has itself acquired the lock as often as `h` says, and addQueries and
-- delQueries, in what they have caused after `es`, have begun and ended with the lock held.
unfoldable pub IsReleased : ℕ → List Effect → Result → Type 0
IsReleased h es (returned e s) = (s.held ≡ h) × IsKept es s.layer.effects
IsReleased h es endless = Unit {0}
IsReleased h es crash = Unit {0}

module _ (p : Platform) where
  added-IsReleased :
      (s : System) (o : Outcome)
      → Leaves s.layer.effects o
      → IsReleased (s.held - 1) s.layer.effects (added p s o)
  unfolding added IsReleased
  added-IsReleased s (Outcome.done l) k = (refl, k)
  added-IsReleased s (Outcome.failed e l) k = (refl, k)
  added-IsReleased s Outcome.fault k = tt

  released :
      (s : System) (r : Result)
      → IsReleased (suc s.held - 1) s.layer.effects r
      → IsReleased s.held s.layer.effects r
  unfolding IsReleased
  released s (returned e s') h = (omega (arith, h.0), h.1)
  released s endless h = tt
  released s crash h = tt

  checked-IsReleased :
      (s : System) (ps : List ℕ) (v : Option Error)
      → IsReleased (s.held - 1) s.layer.effects (checked p s ps v)
  unfolding checked IsReleased
  checked-IsReleased s ps (some e) = (refl, same-IsKept s.layer.effects)
  checked-IsReleased s ps none =
      added-IsReleased s _ (add_queries-Leaves p.layer_code p.sends s.layer ps)

  register_queries-IsReleased :
      (qs : Option (List ℕ)) (s : System)
      → IsReleased s.held s.layer.effects (register_queries p qs s)
  unfolding register_queries IsReleased
  register_queries-IsReleased none s = (refl, same-IsKept s.layer.effects)
  register_queries-IsReleased (some ps) s =
      released s _ (checked-IsReleased (lock s) ps (verdict_of p s ps))

  module _ (fuel : ℕ) where
    announced-IsReleased :
        (qs : Option (List ℕ)) (s : System) (w : Waited)
        → IsReleased s.held s.layer.effects (announced p fuel qs s w)
    unfolding announced IsReleased
    announced-IsReleased qs s (finished l) = register_queries-IsReleased qs (record s { link = l })
    announced-IsReleased qs s (waiting l) = tt
    announced-IsReleased qs s hung = tt

    merged_in-IsReleased :
        (dm : Node) (qs : Option (List ℕ)) (s : System) (m : Option claosi.Model.Insert.Merged)
        → IsReleased (s.held - 1) s.layer.effects (merged_in p fuel dm qs s m)
    unfolding merged_in announce IsReleased
    merged_in-IsReleased dm qs s none = tt
    merged_in-IsReleased dm qs s (some (claosi.Model.Insert.merged root)) =
        announced-IsReleased qs _ _
    merged_in-IsReleased dm qs s (some (claosi.Model.Insert.stopped e root)) =
        (refl, same-IsKept s.layer.effects)
    merged_in-IsReleased dm qs s (some claosi.Model.Insert.null_read) = tt

    tested-IsReleased :
        (dm : Node) (qs : Option (List ℕ)) (s : System) (m : Option claosi.Model.Merge.Merged)
        → IsReleased (s.held - 1) s.layer.effects (tested p fuel dm qs s m)
    unfolding tested IsReleased
    tested-IsReleased dm qs s none = tt
    tested-IsReleased dm qs s (some claosi.Model.Merge.done) = merged_in-IsReleased dm qs s _
    tested-IsReleased dm qs s (some (claosi.Model.Merge.error e)) =
        (refl, same-IsKept s.layer.effects)
    tested-IsReleased dm qs s (some claosi.Model.Merge.crash) = tt

    syntax_checked-IsReleased :
        (dm : Node) (qs : Option (List ℕ)) (s : System) (v : Verdict)
        → IsReleased s.held s.layer.effects (syntax_checked p fuel dm qs s v)
    unfolding syntax_checked IsReleased
    syntax_checked-IsReleased dm qs s Verdict.success =
        released s _ (tested-IsReleased dm qs (lock s) _)
    syntax_checked-IsReleased dm qs s (Verdict.failure e n) = (refl, same-IsKept s.layer.effects)
    syntax_checked-IsReleased dm qs s Verdict.fault = tt
    syntax_checked-IsReleased dm qs s Verdict.hang = tt

    register_provider-IsReleased :
        (dm : Option Node) (qs : Option (List ℕ)) (s : System)
        → IsReleased s.held s.layer.effects (register_provider p fuel dm qs s)
    unfolding register_provider IsReleased
    register_provider-IsReleased none none s = (refl, same-IsKept s.layer.effects)
    register_provider-IsReleased none (some ps) s = register_queries-IsReleased (some ps) s
    register_provider-IsReleased (some dm) qs s = syntax_checked-IsReleased dm qs s _

  register_query-IsReleased :
      (qs : Option (List ℕ)) (s : System)
      → IsReleased s.held s.layer.effects (register_query p qs s)
  unfolding register_query IsReleased
  register_query-IsReleased none s = (refl, same-IsKept s.layer.effects)
  register_query-IsReleased (some ps) s = elim (Option-cases (verdict_of p s ps)) [
    | inl e ↦
        rw (register_query, e)
          (released s _
            (added-IsReleased (lock s) _ (add_queries-Leaves p.layer_code p.sends s.layer ps)))
    | inr (x, e) ↦ rw (register_query, e) (refl, same-IsKept s.layer.effects)
  ]

  unregister_query-IsReleased :
      (qs : Option (List ℕ)) (s : System)
      → IsReleased s.held s.layer.effects (unregister_query p qs s)
  unfolding unregister_query IsReleased
  unregister_query-IsReleased none s = (refl, same-IsKept s.layer.effects)
  unregister_query-IsReleased (some ps) s = elim (Option-cases (verdict_of p s ps)) [
    | inl e ↦
        rw (unregister_query, e)
          (released s _
            (added-IsReleased (lock s) _ (del_queries-Leaves p.layer_code p.sends s.layer ps)))
    | inr (x, e) ↦ rw (unregister_query, e) (refl, same-IsKept s.layer.effects)
  ]

-- Whenever registerProvider, registerQuery or unregisterQuery returns, with 0 or with an error, it has released the lock as
-- often as it has acquired it. What addQueries and delQueries have caused in it begins and ends with the
-- lock held: they release it only while they hold it, call `activate` without it, start and stop
-- timers, send messages and empty the queue with it, and acquire it again after each release.
pub register-IsReleased :
    (p : Platform) (fuel : ℕ) (dm : Option Node) (qs : Option (List ℕ)) (s : System)
    → IsReleased s.held s.layer.effects (register_provider p fuel dm qs s)
      × IsReleased s.held s.layer.effects (register_query p qs s)
      × IsReleased s.held s.layer.effects (unregister_query p qs s)
register-IsReleased p fuel dm qs s = (
  register_provider-IsReleased p fuel dm qs s,
  register_query-IsReleased p qs s,
  unregister_query-IsReleased p qs s,
)
