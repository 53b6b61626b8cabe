-- ===== src/Layer/Dispatch.antt =====
-- `commThreadWork`, the thread that reads the messages of the other layer: in the kernel
-- (lib/kernel/libkernel.c) and in user space (lib/userspace/libuserspace-layer.c). What lies at the
-- address of a message, with its pointers rewritten, is an argument.
pub mod Balance
pub mod Flush
mod Tests
use claosi.Prelude.{
  ℕ, zero, suc, ◌+◌, Bool, true, false, List, [], ◌∷◌, ◌++◌, map, Option, none, some,
}
use claosi.Prelude.Names.{Name}
use claosi.Prelude.Int.{ℤ, incr, decr}
use claosi.Errors.{Error}
use claosi.Model.{Node, Forest, node, nil, cons, Header}
use claosi.Model.Compact.{Sizes}
use claosi.Model.Delete.{
  Holed, Slots, holed, empty, child, gap, whole, Stop, deactivate, stop_timer, Round,
  delete_subtree,
}
use claosi.Model.Insert.{merge_data_model}
use claosi.Model.Send.{Link, sent, ebadf, enomem, ebusy, no_end, send_datamodel, slept}
use claosi.Query.{Query}
use claosi.Query.Registry.{
  Layer, Effect, deactivated, timer_stopped, Outcome, assign, add_queries, del_queries,
  resolve_query,
}
use claosi.Layer.Queue.{Job}
use claosi.Ring.{
  MessageType, msg_empty, msg_dm_add, msg_dm_del, msg_dm_snapshot, msg_query_add, msg_query_del,
  msg_query_continue, LayerMessage, Ringbuffer, ring_buffer_read_begin, ring_buffer_read_end,
}

-- A data model, a query with its size, a `QueryID_t`, or a `QueryContinue_t` with the tuples behind
-- it, of which there is at least one.
pub data Content : Type 0 where
  data_model : Node → Content
  whole_query : Query → Content
  query_name : Name → ℕ → Content
  continue : Name → ℕ → ℕ → ℕ → List ℕ → Content

-- The layer, its connection for messages of its own, how often the thread has acquired `slcLock` for
-- reading and for writing without releasing it so, the queue of jobs, and what was handed to `freeQuery` and to `freeTupel`.
pub record Comm (Q : Type 0) : Type 0 where
  pub layer : Layer
  pub link : Link
  pub reading : ℤ
  pub writing : ℤ
  pub queue : Q
  pub freed_queries : List ℕ
  pub freed_tuples : List ℕ

-- `torn` is a data model with NULL pointers among its children, `endless` a loop that does not end with
-- the fuel given, `crash` a read through NULL.
pub data Dispatched (Q : Type 0) : Type 0 where
  handled : Comm Q → Dispatched Q
  torn : Comm Q → Dispatched Q
  endless : Dispatched Q
  crash : Dispatched Q

pub data Side : Type 0 where
  in_kernel in_user : Side

-- What the functions need of the layer. `copy_tuple` is copyTupel of a tuple in shared memory, `alloc`
-- gives the address of a query's copy, and `new_model` says whether initSLCDatamodel has memory.
pub record Platform (Q : Type 0) : Type 0 where
  pub side : Side
  pub layer_code : ℕ
  pub sends : ℕ → Bool
  pub room : ℕ → Bool
  pub sizes : Sizes
  pub connected : Bool
  pub slcmalloc : ℕ → ℕ → Option ℕ
  pub taken : ℕ → ℕ
  pub alloc : Query → Option ℕ
  pub copy_tuple : ℕ → Option ℕ
  pub enqueue : Job → Q → Q
  pub new_model : Option Node
  pub shared : Option ℕ → Option Content

-- The children of a model without NULL pointers.
unfoldable pub closed : Slots → Option Forest
closed empty = some nil
closed (gap s) = none
closed (child (holed h cs) s) = elim (closed cs) [
  | none ↦ none
  | some f ↦ elim (closed s) [ none ↦ none | some fs ↦ some (cons (node h f) fs) ]
]

abbrev pub stop_effect : Stop → Effect
stop_effect (deactivate q) = deactivated q
stop_effect (stop_timer q) = timer_stopped q

abbrev pub stop_effects : List (Header × List Stop) → List Effect
stop_effects [] = []
stop_effects ((h, stops) ∷ fs) = map stop_effect stops ++ stop_effects fs

-- do { … } while (curTupleShm != NULL): the copies, or those made before a copy failed.
pub data Copies : Type 0 where
  copied : List ℕ → Copies
  given_up : List ℕ → Copies

unfoldable pub copy_tuples : (ℕ → Option ℕ) → List ℕ → List ℕ → Copies
copy_tuples copy done [] = copied done
copy_tuples copy done (t ∷ ts) = elim (copy t) [
  | none ↦ given_up done
  | some c ↦ copy_tuples copy (done ++ (c ∷ [])) ts
]

module _ {Q : Type 0} where
  -- In user space both releases are pthread_rwlock_unlock; `writing` then counts both kinds.
  abbrev pub read_lock : Side → Comm Q → Comm Q
  read_lock in_kernel c = record c { reading = incr c.reading }
  read_lock in_user c = record c { writing = incr c.writing }

  abbrev pub read_unlock : Side → Comm Q → Comm Q
  read_unlock in_kernel c = record c { reading = decr c.reading }
  read_unlock in_user c = record c { writing = decr c.writing }

  abbrev pub write_lock : Comm Q → Comm Q
  write_lock c = record c { writing = incr c.writing }

  abbrev pub write_unlock : Comm Q → Comm Q
  write_unlock c = record c { writing = decr c.writing }

  abbrev pub with_layer : Layer → Comm Q → Comm Q
  with_layer l c = record c { layer = l }

  abbrev pub with_link : Link → Comm Q → Comm Q
  with_link l c = record c { link = l }

  abbrev pub with_model : Node → List Effect → Comm Q → Comm Q
  with_model n es c = record c {
    layer = record (c.layer) { root = n; effects = c.layer.effects ++ es };
  }

  module _ (p : Platform Q) (fuel : ℕ) where
    -- The error is only reported.
    unfoldable pub after_merge : Comm Q → Option claosi.Model.Insert.Merged → Dispatched Q
    after_merge c none = endless
    after_merge c (some (claosi.Model.Insert.merged root)) =
        handled (write_unlock (with_model root [] c))
    after_merge c (some (claosi.Model.Insert.stopped e root)) =
        handled (write_unlock (with_model root [] c))
    after_merge c (some claosi.Model.Insert.null_read) = crash

    unfoldable pub add_model : Comm Q → Node → Dispatched Q
    add_model c dm =
        let c' = write_lock c in after_merge c' (merge_data_model p.room fuel c'.layer.root dm 0)

    unfoldable pub with_holes : Comm Q → List Effect → Header → Option Forest → Dispatched Q
    with_holes c es h none = torn (write_unlock c)
    with_holes c es h (some f) = handled (write_unlock (with_model (node h f) es c))

    -- if (SLC_DATA_MODEL == NULL) initSLCDatamodel(); whose failure leaves it NULL.
    unfoldable pub with_new : Comm Q → List Effect → Option Node → Dispatched Q
    with_new c es none = torn (write_unlock c)
    with_new c es (some n) = handled (write_unlock (with_model n es c))

    unfoldable pub after_delete : Comm Q → Option Round → Dispatched Q
    after_delete c none = endless
    after_delete c (some (Round.next d)) = endless
    after_delete c (some Round.crash) = crash
    after_delete c (some (Round.over e (some (holed h s)) fr)) =
        with_holes c (stop_effects fr) h (closed s)
    after_delete c (some (Round.over e none fr)) = with_new c (stop_effects fr) p.new_model

    unfoldable pub del_model : Comm Q → Node → Dispatched Q
    del_model c dm =
        let c' = write_lock c in
        after_delete c' (delete_subtree p.layer_code p.room fuel (whole c'.layer.root) dm)

    -- if (addQueries(…) != 0) freeQuery(queryCopy);
    unfoldable pub after_add : Comm Q → ℕ → Outcome → Dispatched Q
    after_add c q (Outcome.done l) = handled (write_unlock (with_layer l c))
    after_add c q (Outcome.failed e l) =
        handled
          (write_unlock (record (with_layer l c) { freed_queries = c.freed_queries ++ (q ∷ []) }))
    after_add c q Outcome.fault = crash

    unfoldable pub add_copy : Comm Q → Query → Option ℕ → Dispatched Q
    add_copy c query none = handled c
    add_copy c query (some q) =
        let l = record (c.layer) { heap = assign c.layer.heap q query } in
        after_add (write_lock (with_layer l c)) q (add_queries p.layer_code p.sends l (q ∷ []))

    unfoldable pub after_del : Comm Q → ℕ → Outcome → Dispatched Q
    after_del c q (Outcome.done l) =
        handled
          (write_unlock (record (with_layer l c) { freed_queries = c.freed_queries ++ (q ∷ []) }))
    after_del c q (Outcome.failed e l) =
        handled
          (write_unlock (record (with_layer l c) { freed_queries = c.freed_queries ++ (q ∷ []) }))
    after_del c q Outcome.fault = crash

    -- An unknown query makes the thread release the lock for reading.
    unfoldable pub del_named : Comm Q → Option ℕ → Dispatched Q
    del_named c none = handled (read_unlock p.side c)
    del_named c (some q) = after_del c q (del_queries p.layer_code p.sends c.layer (q ∷ []))

    unfoldable pub enqueued : Comm Q → ℕ → ℕ → Copies → Dispatched Q
    enqueued c q steps (copied []) = handled (read_unlock p.side c)
    enqueued c q steps (copied (t ∷ ts)) = handled (
        read_unlock p.side
          (record c { queue = p.enqueue (record { query = q; tuple = t; step = steps }) c.queue }))
    enqueued c q steps (given_up ts) =
        handled (read_unlock p.side (record c { freed_tuples = c.freed_tuples ++ ts }))

    unfoldable pub continue_query : Comm Q → Option ℕ → ℕ → ℕ → List ℕ → Dispatched Q
    continue_query c none steps t ts = handled (read_unlock p.side c)
    continue_query c (some q) steps t ts = enqueued c q steps (copy_tuples p.copy_tuple [] (t ∷ ts))

    -- do { … } while (ret == -EBUSY), with the sending of each round under the lock; `taken` says how many
    -- messages the other layer takes out in each sleep.
    unfoldable pub send_snapshot : (ℕ → ℕ) → ℕ → Comm Q → Dispatched Q
    send_snapshot taken zero c = endless
    send_snapshot taken (suc rounds) c =
        elim (send_datamodel p.sizes p.connected p.slcmalloc (write_lock c).layer.root
          msg_dm_snapshot (some none) c.link) [
            | sent l ↦ handled (write_unlock (with_link l (write_lock c)))
            | ebadf l ↦ handled (write_unlock (with_link l (write_lock c)))
            | enomem l ↦ handled (write_unlock (with_link l (write_lock c)))
            | ebusy l ↦
                send_snapshot (λ i. taken (suc i)) rounds
                  (with_link (slept (taken 0) l) (write_unlock (write_lock c)))
            | no_end ↦ endless
          ]

    unfoldable pub snapshot : Side → Comm Q → Option Content → Dispatched Q
    snapshot in_kernel c content = send_snapshot p.taken fuel c
    snapshot in_user c (some (data_model dm)) = add_model c dm
    snapshot in_user c content = crash

    -- switch (msg->type). The messages of one type are taken to carry the content that it stands for.
    unfoldable pub dispatch : Comm Q → MessageType → Option Content → Dispatched Q
    dispatch c msg_dm_snapshot content = snapshot p.side c content
    dispatch c msg_dm_add (some (data_model dm)) = add_model c dm
    dispatch c msg_dm_del (some (data_model dm)) = del_model c dm
    dispatch c msg_query_add (some (whole_query q)) = add_copy c q (p.alloc q)
    dispatch c msg_query_del (some (query_name name id)) =
        del_named (write_lock c) (resolve_query c.layer name id)
    dispatch c msg_query_continue (some (continue name id steps t ts)) =
        continue_query (read_lock p.side c) (resolve_query c.layer name id) steps t ts
    dispatch c msg_empty content = handled c
    dispatch c t content = crash

    -- One round of the thread: what it has done, and the buffer.
    unfoldable pub comm_round :
        Comm Q → Ringbuffer → Option LayerMessage → Dispatched Q × Ringbuffer
    comm_round c r none = (handled c, r)
    comm_round c r (some m) = (dispatch c m.type (p.shared m.addr), ring_buffer_read_end r)

    unfoldable pub comm_step : Comm Q → Ringbuffer → Dispatched Q × Ringbuffer
    comm_step c r = comm_round c r (ring_buffer_read_begin r)

-- User space, at the end: do { msg = ringBufferReadBegin(rxBuffer); ringBufferReadEnd(rxBuffer); ret++;
-- } while (msg != NULL); on fuel, with the number of messages.
unfoldable pub flush : ℕ → ℕ → Ringbuffer → Option (ℕ × Ringbuffer)
flush zero n r = none
flush (suc fuel) n r = elim (ring_buffer_read_begin r) [
  | none ↦ some (n, ring_buffer_read_end r)
  | some m ↦ flush fuel (suc n) (ring_buffer_read_end r)
]
