-- ===== src/Api/Unregister/Released.antt =====
-- The lock around unregisterProvider.
use claosi.Prelude.{ℕ, suc, ◌-◌, ◌≡◌, refl, true, List, ◌++◌, Option, none, some, arith}
use claosi.Errors.{Error}
use claosi.Model.{Node, Forest, Header}
use claosi.Model.Syntax.{Verdict}
use claosi.Model.Delete.{holed, Round}
use claosi.Model.Send.{Waited, finished, waiting, hung}
use claosi.Query.Registry.{Layer, Outcome, Effect}
use claosi.Query.Registry.Locking.{
  lock_run, IsKept, same-IsKept, more-IsKept, then-IsKept, Leaves, del_queries-Leaves,
}
use claosi.Layer.Dispatch.Balance.{stop_effects-locked}
use claosi.Api.Register.{System, lock, unlock, Platform, verdict_of}
use claosi.Api.Unregister.{
  Ended, with_layer, returned, torn, endless, crash, announced, announce, with_children, with_new,
  after_error, deleted, syntax_checked, unregister_model, queries_deleted, queries_checked,
  unregister_provider,
}

-- If the function returns, it has itself acquired the lock as often as `h` says, and delQueries and
-- deleteSubtree, in what they have caused after `es`, have begun and ended with the lock held. For a
-- torn model only the first is said.
abbrev pub IsReleased : ℕ → List Effect → Ended → Type 0
IsReleased h es (returned e s) = (s.held ≡ h) × IsKept es s.layer.effects
IsReleased h es (torn s) = s.held ≡ h
IsReleased h es endless = Unit {0}
IsReleased h es crash = Unit {0}

module _ (p : Platform) (f g : ℕ) (new : Option Node) where
  once :
      (s : System) (r : Ended)
      → IsReleased (suc s.held - 1) s.layer.effects r
      → IsReleased s.held s.layer.effects r
  once s (returned e s') h = (omega (arith, h.0), h.1)
  once s (torn s') h = omega (arith, h)
  once s endless h = tt
  once s crash h = tt

  announced-IsReleased :
      (s : System) (w : Waited) → IsReleased s.held s.layer.effects (announced p f g new s w)
  unfolding announced
  announced-IsReleased s (finished l) = (refl, same-IsKept s.layer.effects)
  announced-IsReleased s (waiting l) = tt
  announced-IsReleased s hung = tt

  -- After the effects of a deletion.
  later :
      (s : System) (es : List Effect)
      → lock_run true es ≡ some true
      → (r : Ended) → IsReleased (s.held - 1) (s.layer.effects ++ es) r
      → IsReleased (s.held - 1) s.layer.effects r
  later s es k (returned e s') h = (h.0, then-IsKept (more-IsKept s.layer.effects es k) h.1)
  later s es k (torn s') h = h
  later s es k endless h = tt
  later s es k crash h = tt

  with_children-IsReleased :
      (dm : Node) (s : System) (es : List Effect) (h : Header) (fs : Option Forest)
      → lock_run true es ≡ some true
      → IsReleased (s.held - 1) s.layer.effects (with_children p f g new dm s es h fs)
  unfolding with_children announce
  with_children-IsReleased dm s es h none k = refl
  with_children-IsReleased dm s es h (some fs) k = later s es k _ (announced-IsReleased _ _)

  with_new-IsReleased :
      (dm : Node) (s : System) (es : List Effect) (n : Option Node)
      → lock_run true es ≡ some true
      → IsReleased (s.held - 1) s.layer.effects (with_new p f g new dm s es n)
  unfolding with_new announce
  with_new-IsReleased dm s es none k = refl
  with_new-IsReleased dm s es (some n) k = later s es k _ (announced-IsReleased _ _)

  after_error-IsReleased :
      (s : System) (e : Error) (es : List Effect) (h : Header) (fs : Option Forest)
      → lock_run true es ≡ some true
      → IsReleased (s.held - 1) s.layer.effects (after_error p f g new s e es h fs)
  unfolding after_error
  after_error-IsReleased s e es h none k = refl
  after_error-IsReleased s e es h (some fs) k = (refl, more-IsKept s.layer.effects es k)

  deleted-IsReleased :
      (dm : Node) (s : System) (r : Option Round)
      → IsReleased (s.held - 1) s.layer.effects (deleted p f g new dm s r)
  unfolding deleted
  deleted-IsReleased dm s none = tt
  deleted-IsReleased dm s (some (Round.next d)) = tt
  deleted-IsReleased dm s (some Round.crash) = tt
  deleted-IsReleased dm s (some (Round.over none (some (holed h cs)) fr)) =
      with_children-IsReleased dm s _ h _ (stop_effects-locked fr)
  deleted-IsReleased dm s (some (Round.over (some e) (some (holed h cs)) fr)) =
      after_error-IsReleased s e _ h _ (stop_effects-locked fr)
  deleted-IsReleased dm s (some (Round.over none none fr)) =
      with_new-IsReleased dm s _ new (stop_effects-locked fr)
  deleted-IsReleased dm s (some (Round.over (some e) none fr)) =
      with_new-IsReleased dm s _ new (stop_effects-locked fr)

  syntax_checked-IsReleased :
      (dm : Node) (s : System) (v : Verdict)
      → IsReleased s.held s.layer.effects (syntax_checked p f g new dm s v)
  unfolding syntax_checked
  syntax_checked-IsReleased dm s Verdict.success = once s _ (deleted-IsReleased dm (lock s) _)
  syntax_checked-IsReleased dm s (Verdict.failure e n) = (refl, same-IsKept s.layer.effects)
  syntax_checked-IsReleased dm s Verdict.fault = tt
  syntax_checked-IsReleased dm s Verdict.hang = tt

  unregister_model-IsReleased :
      (dm : Option Node) (s : System)
      → IsReleased s.held s.layer.effects (unregister_model p f g new dm s)
  unfolding unregister_model
  unregister_model-IsReleased none s = (refl, same-IsKept s.layer.effects)
  unregister_model-IsReleased (some dm) s = syntax_checked-IsReleased dm s _

  goes_on :
      (s : System) (l : Layer)
      → IsKept s.layer.effects l.effects
      → (r : Ended) → IsReleased (s.held - 1) l.effects r
      → IsReleased (s.held - 1) s.layer.effects r
  goes_on s l k (returned e s') h = (h.0, then-IsKept k h.1)
  goes_on s l k (torn s') h = h
  goes_on s l k endless h = tt
  goes_on s l k crash h = tt

  queries_deleted-IsReleased :
      (dm : Option Node) (s : System) (o : Outcome)
      → Leaves s.layer.effects o
      → IsReleased (s.held - 1) s.layer.effects (queries_deleted p f g new dm s o)
  unfolding queries_deleted
  queries_deleted-IsReleased dm s (Outcome.done l) k =
      goes_on s l k _ (unregister_model-IsReleased dm (unlock (with_layer l s)))
  queries_deleted-IsReleased dm s (Outcome.failed e l) k = (refl, k)
  queries_deleted-IsReleased dm s Outcome.fault k = tt

  queries_checked-IsReleased :
      (dm : Option Node) (s : System) (ps : List ℕ) (v : Option Error)
      → IsReleased s.held s.layer.effects (queries_checked p f g new dm s ps v)
  unfolding queries_checked
  queries_checked-IsReleased dm s ps (some e) = (refl, same-IsKept s.layer.effects)
  queries_checked-IsReleased dm s ps none = once s _ (
      queries_deleted-IsReleased dm (lock s) _ (del_queries-Leaves p.layer_code p.sends s.layer ps))

  -- Whenever unregisterProvider returns, with 0 or with an error, it has released the lock as often as it has
  -- acquired it. Unless it leaves a torn model, what delQueries and deleteSubtree have caused in it
  -- begins and ends with the lock held: delQueries releases it only while it holds it, and acquires it
  -- again after each release, and timers are stopped, messages are sent and the queue is emptied under
  -- the lock.
  pub unregister_provider-IsReleased :
      (dm : Option Node) (qs : Option (List ℕ)) (s : System)
      → IsReleased s.held s.layer.effects (unregister_provider p f g new dm qs s)
  unfolding unregister_provider
  unregister_provider-IsReleased none none s = (refl, same-IsKept s.layer.effects)
  unregister_provider-IsReleased (some dm) none s = unregister_model-IsReleased (some dm) s
  unregister_provider-IsReleased none (some ps) s =
      queries_checked-IsReleased none s ps (verdict_of p s ps)
  unregister_provider-IsReleased (some dm) (some ps) s =
      queries_checked-IsReleased (some dm) s ps (verdict_of p s ps)
