-- ===== src/Layer/Dispatch/Balance.antt =====
-- The lock around the handling of a message.
use claosi.Prelude.{
  ℕ, zero, suc, sym, ap, ◌∙◌, append-nil, ◌≡◌, refl, Bool, true, false, if◌then◌else◌, List, [],
  ◌∷◌, Option, none, some, is_none,
}
use claosi.Prelude.Int.{ℤ, incr, decr, decr-incr}
use claosi.Model.{Node, Forest, Header}
use claosi.Model.Delete.{holed, Round, Stop, deactivate, stop_timer}
use claosi.Model.Send.{Link, Sent, sent, ebadf, enomem, ebusy, no_end, slept}
use claosi.Query.Registry.{Outcome, Effect, resolve_query, assign}
use claosi.Query.Registry.Locking.{
  lock_step, lock_run, IsKept, same-IsKept, more-IsKept, Leaves, add_queries-Leaves,
  del_queries-Leaves,
}
use claosi.Ring.{
  MessageType, msg_empty, msg_dm_add, msg_dm_del, msg_dm_snapshot, msg_query_add, msg_query_del,
  msg_query_continue,
}
use claosi.Layer.Dispatch.{
  Content, data_model, whole_query, query_name, continue, Comm, Dispatched, handled, torn, endless,
  crash, Side, in_kernel, in_user, Platform, Copies, copied, given_up, read_lock, write_lock,
  after_merge, add_model, with_holes, with_new, after_delete, del_model, after_add, add_copy,
  after_del, del_named, enqueued, continue_query, send_snapshot, with_link, with_layer, stop_effect,
  stop_effects, read_unlock, write_unlock, snapshot, dispatch,
}

stop_effect-locked : (stop : Stop) → lock_step true (stop_effect stop) ≡ some true
unfolding lock_step
stop_effect-locked (deactivate q) = refl
stop_effect-locked (stop_timer q) = refl

-- The deletion of nodes never releases the lock.
pub stop_effects-locked :
    (fs : List (Header × List Stop)) → lock_run true (stop_effects fs) ≡ some true
unfolding lock_run
stop_effects-locked [] = refl
stop_effects-locked ((h, []) ∷ fs) = stop_effects-locked fs
stop_effects-locked ((h, stop ∷ stops) ∷ fs) =
    rw (lock_run, stop_effect-locked stop) (stop_effects-locked ((h, stops) ∷ fs))

nothing-locked : lock_run true [] ≡ some true
unfolding lock_run
nothing-locked = refl

-- Only in the kernel the release for reading is another one.
unfoldable pub released_wrongly : Side → Option ℕ → Bool
released_wrongly in_kernel q = is_none q
released_wrongly in_user q = false

module _ {Q : Type 0} where
  -- The thread holds the lock so often for reading and for writing, and addQueries, delQueries and
  -- deleteSubtree, in what they have caused after `es`, have begun and ended with the lock held. For a
  -- torn model only the first is said.
  abbrev pub IsHeld : ℤ → ℤ → List Effect → Dispatched Q → Type 0
  IsHeld r w es (handled c) = (c.reading ≡ r) × (c.writing ≡ w) × IsKept es c.layer.effects
  IsHeld r w es (torn c) = (c.reading ≡ r) × (c.writing ≡ w)
  IsHeld r w es endless = Unit
  IsHeld r w es crash = Unit

  -- A message to the kernel that deletes a query which is not there.
  unfoldable pub dels_unknown : Side → Comm Q → MessageType → Option Content → Bool
  dels_unknown side c msg_query_del (some (query_name name id)) =
      released_wrongly side (resolve_query c.layer name id)
  dels_unknown side c t content = false

  read_unlock-IsHeld :
      (side : Side) (c x : Comm Q)
      → x.reading ≡ (read_lock side c).reading
      → x.writing ≡ (read_lock side c).writing
      → x.layer ≡ c.layer
      → IsHeld c.reading c.writing c.layer.effects (handled (read_unlock side x))
  read_unlock-IsHeld in_kernel c x r w l = (
    ap decr r ∙ decr-incr c.reading,
    w,
    record {
      caused = [];
      behind = ap (λ y. y.effects) l ∙ sym (append-nil c.layer.effects);
      locked = nothing-locked;
    },
  )
  read_unlock-IsHeld in_user c x r w l = (
    r,
    ap decr w ∙ decr-incr c.writing,
    record {
      caused = [];
      behind = ap (λ y. y.effects) l ∙ sym (append-nil c.layer.effects);
      locked = nothing-locked;
    },
  )

  module _ (p : Platform Q) (fuel : ℕ) where
    abbrev Writing : Comm Q → Dispatched Q → Type 0
    Writing c out = IsHeld c.reading c.writing c.layer.effects out

    after_merge-IsHeld :
        (c : Comm Q) (m : Option claosi.Model.Insert.Merged)
        → Writing c (after_merge p fuel (write_lock c) m)
    unfolding after_merge
    after_merge-IsHeld c none = tt
    after_merge-IsHeld c (some (claosi.Model.Insert.merged root)) =
        (refl, decr-incr c.writing, more-IsKept c.layer.effects [] nothing-locked)
    after_merge-IsHeld c (some (claosi.Model.Insert.stopped e root)) =
        (refl, decr-incr c.writing, more-IsKept c.layer.effects [] nothing-locked)
    after_merge-IsHeld c (some claosi.Model.Insert.null_read) = tt

    with_holes-IsHeld :
        (c : Comm Q) (es : List Effect) (h : Header) (f : Option Forest)
        → lock_run true es ≡ some true
        → Writing c (with_holes p fuel (write_lock c) es h f)
    unfolding with_holes
    with_holes-IsHeld c es h none k = (refl, decr-incr c.writing)
    with_holes-IsHeld c es h (some f) k =
        (refl, decr-incr c.writing, more-IsKept c.layer.effects es k)

    with_new-IsHeld :
        (c : Comm Q) (es : List Effect) (n : Option Node)
        → lock_run true es ≡ some true
        → Writing c (with_new p fuel (write_lock c) es n)
    unfolding with_new
    with_new-IsHeld c es none k = (refl, decr-incr c.writing)
    with_new-IsHeld c es (some n) k = (refl, decr-incr c.writing, more-IsKept c.layer.effects es k)

    after_delete-IsHeld :
        (c : Comm Q) (r : Option Round) → Writing c (after_delete p fuel (write_lock c) r)
    unfolding after_delete
    after_delete-IsHeld c none = tt
    after_delete-IsHeld c (some (Round.next d)) = tt
    after_delete-IsHeld c (some Round.crash) = tt
    after_delete-IsHeld c (some (Round.over e (some (holed h s)) fr)) =
        with_holes-IsHeld c _ h _ (stop_effects-locked fr)
    after_delete-IsHeld c (some (Round.over e none fr)) =
        with_new-IsHeld c _ p.new_model (stop_effects-locked fr)

    after_add-IsHeld :
        (c : Comm Q) (q : ℕ) (o : Outcome)
        → Leaves c.layer.effects o
        → Writing c (after_add p fuel (write_lock c) q o)
    unfolding after_add
    after_add-IsHeld c q (Outcome.done l) k = (refl, decr-incr c.writing, k)
    after_add-IsHeld c q (Outcome.failed e l) k = (refl, decr-incr c.writing, k)
    after_add-IsHeld c q Outcome.fault k = tt

    after_del-IsHeld :
        (c : Comm Q) (q : ℕ) (o : Outcome)
        → Leaves c.layer.effects o
        → Writing c (after_del p fuel (write_lock c) q o)
    unfolding after_del
    after_del-IsHeld c q (Outcome.done l) k = (refl, decr-incr c.writing, k)
    after_del-IsHeld c q (Outcome.failed e l) k = (refl, decr-incr c.writing, k)
    after_del-IsHeld c q Outcome.fault k = tt

    read_lock_layer : (side : Side) (c : Comm Q) → (read_lock side c).layer ≡ c.layer
    read_lock_layer in_kernel c = refl
    read_lock_layer in_user c = refl

    enqueued-IsHeld :
        (c : Comm Q) (q steps : ℕ) (o : Copies)
        → Writing c (enqueued p fuel (read_lock p.side c) q steps o)
    unfolding enqueued
    enqueued-IsHeld c q steps (copied []) =
        read_unlock-IsHeld p.side c _ refl refl (read_lock_layer p.side c)
    enqueued-IsHeld c q steps (copied (t ∷ ts)) =
        read_unlock-IsHeld p.side c _ refl refl (read_lock_layer p.side c)
    enqueued-IsHeld c q steps (given_up ts) =
        read_unlock-IsHeld p.side c _ refl refl (read_lock_layer p.side c)

    send_snapshot-IsHeld :
        (taken : ℕ → ℕ) (rounds : ℕ) (c d : Comm Q)
        → d.reading ≡ c.reading
        → d.writing ≡ c.writing
        → d.layer ≡ c.layer
        → Writing c (send_snapshot p fuel taken rounds d)
    unfolding send_snapshot
    send_snapshot-IsHeld taken zero c d r w l = tt
    send_snapshot-IsHeld taken (suc rounds) c d r w l = pick _ (λ k.
        send_snapshot-IsHeld (λ i. taken (suc i)) rounds c
          (with_link (slept (taken 0) k) (write_unlock (write_lock d))) r (decr-incr d.writing ∙ w)
          l)
      where
        done : (k : Link) → Writing c (handled (write_unlock (with_link k (write_lock d))))
        done k = (
          r,
          decr-incr d.writing ∙ w,
          record {
            caused = [];
            behind = ap (λ y. y.effects) l ∙ sym (append-nil c.layer.effects);
            locked = nothing-locked;
          },
        )

        pick :
            (o : Sent)
            → ((k : Link)
                → Writing c (
                    send_snapshot p fuel
                      (λ i. taken (suc i))
                      rounds
                      (with_link (slept (taken 0) k) (write_unlock (write_lock d)))))
            → Writing c (elim o [
              | sent k ↦ handled (write_unlock (with_link k (write_lock d)))
              | ebadf k ↦ handled (write_unlock (with_link k (write_lock d)))
              | enomem k ↦ handled (write_unlock (with_link k (write_lock d)))
              | ebusy k ↦
                  send_snapshot p fuel
                    (λ i. taken (suc i))
                    rounds
                    (with_link (slept (taken 0) k) (write_unlock (write_lock d)))
              | no_end ↦ endless
            ])
        pick (sent k) again = done k
        pick (ebadf k) again = done k
        pick (enomem k) again = done k
        pick (ebusy k) again = again k
        pick no_end again = tt

    add_copy-IsHeld :
        (c : Comm Q) (q : claosi.Query.Query) (a : Option ℕ) → Writing c (add_copy p fuel c q a)
    unfolding add_copy
    add_copy-IsHeld c q none = (refl, refl, same-IsKept c.layer.effects)
    add_copy-IsHeld c q (some a) =
        let l = record (c.layer) { heap = assign c.layer.heap a q } in
        after_add-IsHeld (with_layer l c) a _ (add_queries-Leaves p.layer_code p.sends l (a ∷ []))

    continue_query-IsHeld :
        (c : Comm Q) (q : Option ℕ) (steps t : ℕ) (ts : List ℕ)
        → Writing c (continue_query p fuel (read_lock p.side c) q steps t ts)
    unfolding continue_query
    continue_query-IsHeld c none steps t ts =
        read_unlock-IsHeld p.side c _ refl refl (read_lock_layer p.side c)
    continue_query-IsHeld c (some q) steps t ts = enqueued-IsHeld c q steps _

    del_some-IsHeld : (c : Comm Q) (q : ℕ) → Writing c (del_named p fuel (write_lock c) (some q))
    unfolding del_named
    del_some-IsHeld c q =
        after_del-IsHeld c q _ (del_queries-Leaves p.layer_code p.sends c.layer (q ∷ []))

    -- The release of the wrong kind is the right one in user space.
    deleted-IsHeld :
        (c : Comm Q) (q : Option ℕ) (side : Side)
        → p.side ≡ side
        → let unknown = released_wrongly side q in
          IsHeld
            (if unknown then decr c.reading else c.reading)
            (if unknown then incr c.writing else c.writing)
            c.layer.effects
            (del_named p fuel (write_lock c) q)
    unfolding del_named released_wrongly
    deleted-IsHeld c (some q) in_kernel s = del_some-IsHeld c q
    deleted-IsHeld c (some q) in_user s = del_some-IsHeld c q
    deleted-IsHeld c none in_kernel s = rw (del_named, s) (refl, refl, same-IsKept c.layer.effects)
    deleted-IsHeld c none in_user s =
        rw (del_named, s) (refl, decr-incr c.writing, same-IsKept c.layer.effects)

    snapshot-IsHeld :
        (c : Comm Q) (s : Side) (content : Option Content) → Writing c (snapshot p fuel s c content)
    unfolding snapshot add_model
    snapshot-IsHeld c in_kernel content = send_snapshot-IsHeld p.taken fuel c c refl refl refl
    snapshot-IsHeld c in_user (some (data_model dm)) = after_merge-IsHeld c _
    snapshot-IsHeld c in_user (some (whole_query q)) = tt
    snapshot-IsHeld c in_user (some (query_name n i)) = tt
    snapshot-IsHeld c in_user (some (continue n i s t ts)) = tt
    snapshot-IsHeld c in_user none = tt

    -- When a message was handled, the thread holds the lock as often for reading and for writing as
    -- before, in user space as often in all; but if a message to the kernel was to delete a query that is
    -- not there, it holds the lock once more for writing and was released once too often for reading.
    -- Unless the model was torn, what addQueries, delQueries and deleteSubtree have caused begins and
    -- ends with the lock held, and each release in it is followed by an acquisition.
    pub dispatch-IsHeld :
        (c : Comm Q) (t : MessageType) (content : Option Content)
        → let unknown = dels_unknown p.side c t content in
          IsHeld
            (if unknown then decr c.reading else c.reading)
            (if unknown then incr c.writing else c.writing)
            c.layer.effects
            (dispatch p fuel c t content)
    unfolding dels_unknown dispatch add_model del_model
    dispatch-IsHeld c msg_empty content = (refl, refl, same-IsKept c.layer.effects)
    dispatch-IsHeld c msg_query_del (some (query_name n i)) =
        deleted-IsHeld c (resolve_query c.layer n i) p.side refl
    dispatch-IsHeld c msg_query_del (some (data_model dm)) = tt
    dispatch-IsHeld c msg_query_del (some (whole_query q)) = tt
    dispatch-IsHeld c msg_query_del (some (continue n i s t ts)) = tt
    dispatch-IsHeld c msg_query_del none = tt
    dispatch-IsHeld c msg_dm_snapshot content = snapshot-IsHeld c p.side content
    dispatch-IsHeld c msg_dm_add (some (data_model dm)) = after_merge-IsHeld c _
    dispatch-IsHeld c msg_dm_add (some (whole_query q)) = tt
    dispatch-IsHeld c msg_dm_add (some (query_name n i)) = tt
    dispatch-IsHeld c msg_dm_add (some (continue n i s t ts)) = tt
    dispatch-IsHeld c msg_dm_add none = tt
    dispatch-IsHeld c msg_dm_del (some (data_model dm)) = after_delete-IsHeld c _
    dispatch-IsHeld c msg_dm_del (some (whole_query q)) = tt
    dispatch-IsHeld c msg_dm_del (some (query_name n i)) = tt
    dispatch-IsHeld c msg_dm_del (some (continue n i s t ts)) = tt
    dispatch-IsHeld c msg_dm_del none = tt
    dispatch-IsHeld c msg_query_add (some (data_model dm)) = tt
    dispatch-IsHeld c msg_query_add (some (whole_query q)) = add_copy-IsHeld c q (p.alloc q)
    dispatch-IsHeld c msg_query_add (some (query_name n i)) = tt
    dispatch-IsHeld c msg_query_add (some (continue n i s t ts)) = tt
    dispatch-IsHeld c msg_query_add none = tt
    dispatch-IsHeld c msg_query_continue (some (data_model dm)) = tt
    dispatch-IsHeld c msg_query_continue (some (whole_query q)) = tt
    dispatch-IsHeld c msg_query_continue (some (query_name n i)) = tt
    dispatch-IsHeld c msg_query_continue (some (continue n i s t ts)) =
        continue_query-IsHeld c (resolve_query c.layer n i) s t ts
    dispatch-IsHeld c msg_query_continue none = tt
