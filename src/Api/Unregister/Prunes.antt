-- ===== src/Api/Unregister/Prunes.antt =====
-- The data model after a provider was unregistered.
use claosi.Prelude.{ℕ, suc, ◌≡◌, refl, ap, ◌∙◌, true, false, Option, none, some, arith}
use claosi.Model.{Node, Forest, node, cons, Header}
use claosi.Model.Syntax.{Verdict, check_data_model_syntax}
use claosi.Model.Delete.{
  Slots, holed, empty, child, gap, slots, whole, left_over, over, delete_subtree,
}
use claosi.Model.Delete.Ends.{prune, kept_node, rounds, result, delete_subtree-prune}
use claosi.Model.Send.{Link, finished, busy_wait, send_datamodel}
use claosi.Ring.{msg_dm_del}
use claosi.Layer.Dispatch.{closed, stop_effects}
use claosi.Api.Register.{System, lock, unlock, Platform}
use claosi.Api.Unregister.{
  with_model, returned, announced, announce, with_children, deleted, syntax_checked,
  unregister_model, unregister_provider,
}

closed-kept :
    (layer_code : ℕ) (h : Header) (t : Slots) (m : Node) (ms : Forest)
    → closed t ≡ some (cons m ms)
    → (kept_node layer_code h t ≡ some (child (holed h t))) × (result h t ≡ some (holed h t))
unfolding closed kept_node
closed-kept layer_code h empty m ms e = cc e
closed-kept layer_code h (gap t) m ms e = cc e
closed-kept layer_code h (child c t) m ms e = (refl, refl)

-- Without a connection nothing is sent.
not_sent :
    (p : Platform) (fuel : ℕ) (dm : Node) (l : Link)
    → p.connected ≡ false
    → busy_wait p.sizes p.connected p.slcmalloc p.taken (suc fuel) dm msg_dm_del l ≡ finished l
unfolding busy_wait send_datamodel
not_sent p fuel dm l e = rw (busy_wait, send_datamodel, e) refl

-- Every allocation succeeds and there is no connection. If the data model passes the syntax check, each
-- of its nodes is in the present one, every node that goes can be freed, and a child of the root is
-- left, then 0 is returned, and the data model is the present one without those nodes and without each
-- node that they leave without children; the lock is as it was.
pub unregister_provider_prunes :
    (p : Platform) (fuel : ℕ) (new : Option Node) (s : System) (h g : Header) (rs : Forest)
    (k : Node) (ks : Forest) (t : Slots) (m : Node) (ms : Forest)
    → ((i : ℕ) → p.room i ≡ true)
    → p.connected ≡ false
    → s.layer.root ≡ node h rs
    → check_data_model_syntax (some s.layer.root) (node g (cons k ks)) ≡ Verdict.success
    → prune p.layer_code (slots rs) (cons k ks) ≡ some t
    → closed (left_over t) ≡ some (cons m ms)
    → (s' : System) × (unregister_provider p
          (rounds (cons k ks) 1)
          (suc fuel)
          new
          (some (node g (cons k ks)))
          none
          s
        ≡ returned none s')
      × (s'.layer.root ≡ node h (cons m ms))
      × (s'.held ≡ s.held)
unfolding unregister_provider unregister_model syntax_checked deleted with_children announce
    announced
unregister_provider_prunes p fuel new s h g rs k ks t m ms all off root ok pruned left =
    let (kept, ends) = closed-kept p.layer_code h (left_over t) m ms left in
    let (fr, runs) =
      delete_subtree-prune p.layer_code p.room all h g (slots rs) t k ks
        (child (holed h (left_over t))) pruned kept in
    let dm : Node = node g (cons k ks) in
    let f = rounds (cons k ks) 1 in
    let s' : System = unlock (with_model (node h (cons m ms)) (stop_effects fr) (lock s)) in
    (
      record s' { link = s'.link },
      ap (syntax_checked p f (suc fuel) new dm s) ok
          ∙ ap
              (λ r.
                deleted p f (suc fuel) new dm (lock s)
                  (delete_subtree p.layer_code p.room f (whole r) dm))
              root
          ∙ ap (deleted p f (suc fuel) new dm (lock s))
              (runs ∙ ap (λ x. some (over none x fr)) ends)
          ∙ ap (with_children p f (suc fuel) new dm (lock s) (stop_effects fr) h) left
          ∙ ap (announced p f (suc fuel) new s') (not_sent p fuel dm s.link off),
      refl,
      omega arith,
    )
