-- ===== src/Api/Unregister.antt =====
-- lib/api.c, `unregisterProvider`, `eventOccuredUnicast` and `objectChangedUnicast`.
pub mod Released
pub mod Prunes
mod Tests
use claosi.Prelude.{ℕ, List, [], ◌∷◌, ◌++◌, Option, none, some}
use claosi.Errors.{Error, eparam}
use claosi.Model.{Node, Forest, node, Header}
use claosi.Model.Syntax.{Verdict, check_data_model_syntax}
use claosi.Model.Delete.{Holed, holed, whole, Stop, Round, delete_subtree}
use claosi.Model.Send.{Link, Waited, finished, waiting, hung, busy_wait}
use claosi.Query.Registry.{Layer, Effect, Outcome, del_queries}
use claosi.Ring.{msg_dm_del}
use claosi.Layer.Queue.{Job}
use claosi.Layer.Dispatch.{closed, stop_effects}
use claosi.Api.Register.{System, lock, unlock, Platform, verdict_of}

-- `returned none` is 0. `torn` leaves a data model with NULL pointers among its children, or none.
pub data Ended : Type 0 where
  returned : Option Error → System → Ended
  torn : System → Ended
  endless : Ended
  crash : Ended

abbrev pub with_model : Node → List Effect → System → System
with_model n es s = record s {
  layer = record (s.layer) { root = n; effects = s.layer.effects ++ es };
}

abbrev pub with_layer : Layer → System → System
with_layer l s = record s { layer = l }

-- The fuel of the deletion and of the sending; `new_model` is what initSLCDatamodel gives.
module _ (p : Platform) (delete_fuel send_fuel : ℕ) (new_model : Option Node) where
  -- sendDatamodel until it is not busy; its other errors are not looked at.
  unfoldable pub announced : System → Waited → Ended
  announced s (finished l) = returned none (record s { link = l })
  announced s (waiting l) = endless
  announced s hung = endless

  unfoldable pub announce : Node → System → Ended
  announce dm s =
      announced s (busy_wait p.sizes p.connected p.slcmalloc p.taken send_fuel dm msg_dm_del s.link)

  unfoldable pub with_children : Node → System → List Effect → Header → Option Forest → Ended
  with_children dm s es h none = torn (unlock s)
  with_children dm s es h (some f) = announce dm (unlock (with_model (node h f) es s))

  unfoldable pub with_new : Node → System → List Effect → Option Node → Ended
  with_new dm s es none = torn (unlock s)
  with_new dm s es (some n) = announce dm (unlock (with_model n es s))

  -- An error leaves what was deleted so far deleted.
  unfoldable pub after_error : System → Error → List Effect → Header → Option Forest → Ended
  after_error s e es h none = torn (unlock s)
  after_error s e es h (some f) = returned (some e) (unlock (with_model (node h f) es s))

  unfoldable pub deleted : Node → System → Option Round → Ended
  deleted dm s none = endless
  deleted dm s (some (Round.next d)) = endless
  deleted dm s (some Round.crash) = crash
  deleted dm s (some (Round.over none (some (holed h cs)) fr)) =
      with_children dm s (stop_effects fr) h (closed cs)
  deleted dm s (some (Round.over (some e) (some (holed h cs)) fr)) =
      after_error s e (stop_effects fr) h (closed cs)
  deleted dm s (some (Round.over e none fr)) = with_new dm s (stop_effects fr) new_model

  unfoldable pub syntax_checked : Node → System → Verdict → Ended
  syntax_checked dm s Verdict.success =
      deleted dm (lock s) (delete_subtree p.layer_code p.room delete_fuel (whole s.layer.root) dm)
  syntax_checked dm s (Verdict.failure e n) = returned (some e) s
  syntax_checked dm s Verdict.fault = crash
  syntax_checked dm s Verdict.hang = endless

  unfoldable pub unregister_model : Option Node → System → Ended
  unregister_model none s = returned none s
  unregister_model (some dm) s =
      syntax_checked dm s (check_data_model_syntax (some s.layer.root) dm)

  -- The part for the queries, which goes on with the data model.
  unfoldable pub queries_deleted : Option Node → System → Outcome → Ended
  queries_deleted dm s (Outcome.done l) = unregister_model dm (unlock (with_layer l s))
  queries_deleted dm s (Outcome.failed e l) = returned (some e) (unlock (with_layer l s))
  queries_deleted dm s Outcome.fault = crash

  unfoldable pub queries_checked : Option Node → System → List ℕ → Option Error → Ended
  queries_checked dm s ps (some e) = returned (some e) s
  queries_checked dm s ps none =
      queries_deleted dm (lock s) (del_queries p.layer_code p.sends s.layer ps)

  unfoldable pub unregister_provider : Option Node → Option (List ℕ) → System → Ended
  unregister_provider none none s = returned (some eparam) s
  unregister_provider (some dm) none s = unregister_model (some dm) s
  unregister_provider dm (some ps) s = queries_checked dm s ps (verdict_of p s ps)

-- Both functions: enqueueQuery(query,tuple,0), unless a pointer is NULL.
unfoldable pub event_occured_unicast : {Q : Type 0} → (Job → Q → Q) → Option ℕ → Option ℕ → Q → Q
event_occured_unicast enqueue (some q) (some t) queue =
    enqueue (record { query = q; tuple = t; step = 0 }) queue
event_occured_unicast enqueue q t queue = queue

unfoldable pub object_changed_unicast : {Q : Type 0} → (Job → Q → Q) → Option ℕ → Option ℕ → Q → Q
object_changed_unicast enqueue (some q) (some t) queue =
    enqueue (record { query = q; tuple = t; step = 0 }) queue
object_changed_unicast enqueue q t queue = queue
