-- ===== src/Query/Registry.antt =====
-- lib/query.c, `shouldTransferQuery`, `addQueries`, `delQueries` and `resolveQuery`: the queries that
-- are registered at the nodes of the data model. A pointer to a query is a number, and `heap` holds
-- the query behind it. While the lock is released for `activate`, `deactivate` and the start of a
-- status thread, the data model is taken to stay as it is.
pub mod Locking
pub mod Paths
mod Tests
pub mod Undo
pub mod Resolve
use claosi.Prelude.{
  ℕ, zero, suc, ◌+◌, ◌%◌, ◌^◌, Bool, true, false, not, ◌&&◌, ◌||◌, List, [], ◌∷◌, ◌++◌, Option,
  none, some, bit_and, ◌==◌, leb, if◌then◌else◌, set, get_or,
}
use claosi.Prelude.Names.{Name, name_eq, tokens}
use claosi.Prelude.Int.{ℤ, incr, decr}
use claosi.Errors.{Error, emaxqueries}
use claosi.Model.{
  Node, Forest, node, nil, cons, Header, header, children, Kind, source, event, object, Source,
  Event, Object, max_queries_per_dm,
}
use claosi.Model.Lookup.{get_description}
use claosi.Query.{Operator, gen_source, gen_object, gen_event, Query, GenStream}

abbrev pub object_status : ℕ
object_status = 4

abbrev pub kernel_code : ℕ
kernel_code = 1

-- What the functions cause outside the data model, with their own releases and acquisitions of
-- `slcLock`.
pub data Effect : Type 0 where
  lock_released lock_acquired : Effect
  sent_add : ℕ → Effect
  sent_del : Name → ℕ → Effect
  activated deactivated : ℕ → Effect
  timer_started timer_stopped : ℕ → Effect
  status_thread_started : ℕ → Effect
  pending_dropped : Option ℕ → Effect

pub record Layer : Type 0 where
  pub root : Node
  pub heap : ℕ → Query
  pub global_query_id : ℕ
  pub effects : List Effect

-- `fault` is a read through NULL, or through a pointer that the round of the query did not set: the
-- stream or the node is of none of the types that `checkQueries` lets pass.
pub data Outcome : Type 0 where
  done : Layer → Outcome
  failed : Error → Layer → Outcome
  fault : Outcome

-- `regQueries`, by the type of the node.
pub reg_queries : Kind → Option (List (Option ℕ))
reg_queries (source (some s)) = some s.queries
reg_queries (event (some e)) = some e.queries
reg_queries (object (some o)) = some o.queries
reg_queries k = none

-- Writes the array and counts the node's queries.
pub with_queries : List (Option ℕ) → (ℤ → ℤ) → Kind → Kind
with_queries qs count (source (some s)) =
    source (some (record s { queries = qs; num_queries = count s.num_queries }))
with_queries qs count (event (some e)) =
    event (some (record e { queries = qs; num_queries = count e.num_queries }))
with_queries qs count (object (some o)) =
    object (some (record o { queries = qs; num_queries = count o.num_queries }))
with_queries qs count k = k

-- for (i = 0; i < MAX_QUERIES_PER_DM; i++) if (regQueries[i] == NULL) break;
pub free_slot : List (Option ℕ) → Option ℕ
free_slot [] = none
free_slot (none ∷ qs) = some 0
free_slot (some p ∷ qs) = elim (free_slot qs) [ none ↦ none | some i ↦ some (suc i) ]

-- A write through the pointer that `getDescription` gives.
pub replace_child : Name → (Node → Node) → Forest → Forest
replace_child t f nil = nil
replace_child t f (cons n fs) =
    if name_eq t (header n).name then cons (f n) fs else cons n (replace_child t f fs)

pub write_at : (Kind → Kind) → Node → List Name → Node
write_at f (node h cs) [] = node (record h { kind = f h.kind }) cs
write_at f (node h cs) (t ∷ ts) = node h (replace_child t (λ c. write_at f c ts) cs)

pub stream_of : List Operator → Option GenStream
stream_of (gen_source s period ∷ ops) = some s
stream_of (gen_object s events ∷ ops) = some s
stream_of (gen_event s ∷ ops) = some s
stream_of ops = none

-- `statusQuery`
pub wants_status : List Operator → Bool
wants_status (gen_object s events ∷ ops) = not (bit_and events object_status == 0)
wants_status ops = false

abbrev pub assign : (ℕ → Query) → ℕ → Query → ℕ → Query
assign heap p q k = if k == p then q else heap k

abbrev pub when : Bool → Effect → List Effect
when b e = if b then e ∷ [] else []

-- RELEASE_WRITE_LOCK(slcLock); …; ACQUIRE_WRITE_LOCK(slcLock);
abbrev pub unlocked : Effect → List Effect
unlocked e = lock_released ∷ e ∷ lock_acquired ∷ []

pub started : Kind → ℕ → List Effect
started (source s) p = timer_started p ∷ []
started k p = unlocked (activated p)

pub stopped : Kind → ℕ → List Effect
stopped (source s) p = timer_stopped p ∷ []
stopped k p = unlocked (deactivated p)

-- startObjStatusThread, whose allocation and thread are taken to succeed. Only that of the kernel
-- releases the lock.
pub status_started : ℕ → ℕ → List Effect
status_started layer_code p =
    if layer_code == kernel_code
    then unlocked (status_thread_started p)
    else status_thread_started p ∷ []

-- The number of a query in a `QueryID_t`, an unsigned short.
pub sent_id : ℕ → ℕ
sent_id id = id % 2 ^ 16

-- LAYER_CODE, and whether a message about a query gets through: an endpoint is connected and
-- `slcmalloc` has room for it.
module _ (layer_code : ℕ) (sends : ℕ → Bool) where
  pub should_transfer_query : Node → Query → Bool
  should_transfer_query dm q =
      if not (q.layer_code == layer_code)
      then false
      else if not ((header dm).layer_code == layer_code)
      then true
      else true

  abbrev pub is_local : Node → Bool
  is_local dm = (header dm).layer_code == layer_code

  -- The query at `p` after it was registered in slot `i`.
  pub numbered : Layer → ℕ → Node → ℕ → Query
  numbered l p dm i =
      let q = l.heap p in
      record q {
        query_id = if q.layer_code == layer_code then l.global_query_id else q.query_id;
        idx = i;
        transfered = q.transfered || (should_transfer_query dm q && sends p);
      }

  -- The round of `addQueries` for the query at `p`, with the node found and slot `i` free.
  pub register : Layer → ℕ → Name → Node → List (Option ℕ) → ℕ → Layer
  register l p name dm qs i =
      let q = l.heap p in
      let own = q.layer_code == layer_code in
      let sent = should_transfer_query dm q && sends p in
      let status = wants_status q.root in
      let count : ℤ → ℤ = λ x. if is_local dm && not status then incr x else x in
      record {
        root = write_at (with_queries (set qs i (some p)) count) l.root (tokens name);
        heap = assign l.heap p (numbered l p dm i);
        global_query_id = if own then (l.global_query_id + 1) % 2 ^ 32 else l.global_query_id;
        effects =
            l.effects
            ++ when sent (sent_add p)
            ++ (if is_local dm
                then if status then status_started layer_code p else started (header dm).kind p
                else []);
      }

  pub add_slot : Layer → ℕ → Name → Node → Option (List (Option ℕ)) → Outcome
  add_slot l p name dm none = fault
  add_slot l p name dm (some qs) = elim (free_slot qs) [
    | none ↦ failed emaxqueries l
    | some i ↦ done (register l p name dm qs i)
  ]

  pub add_at : Layer → ℕ → Name → Option Node → Outcome
  add_at l p name none = fault
  add_at l p name (some dm) = add_slot l p name dm (reg_queries (header dm).kind)

  pub add_stream : Layer → ℕ → Option GenStream → Outcome
  add_stream l p none = fault
  add_stream l p (some s) = add_at l p s.name (get_description (some l.root) s.name)

  pub add_query : Layer → ℕ → Outcome
  add_query l p = add_stream l p (stream_of (l.heap p).root)

  -- `addQueries`, over the list of the queries' pointers.
  pub add_queries : Layer → List ℕ → Outcome
  add_queries l [] = done l
  add_queries l (p ∷ ps) = elim (add_query l p) [
    | done l' ↦ add_queries l' ps
    | failed e l' ↦ failed e l'
    | fault ↦ fault
  ]

  -- The round of `delQueries`, with the node found.
  pub unregister : Layer → ℕ → Name → Node → List (Option ℕ) → Layer
  unregister l p name dm qs =
      let q = l.heap p in
      let told = (q.layer_code == layer_code) && q.transfered && sends p in
      let count : ℤ → ℤ = λ x. if is_local dm then decr x else x in
      record l {
        root = write_at (with_queries (set qs q.idx none) count) l.root (tokens name);
        effects =
            l.effects
            ++ (if is_local dm then stopped (header dm).kind p else [])
            ++ pending_dropped (get_or qs q.idx none)
              ∷ when told (sent_del name (sent_id q.query_id));
      }

  pub del_slot : Layer → ℕ → Name → Node → Option (List (Option ℕ)) → Outcome
  del_slot l p name dm none = fault
  del_slot l p name dm (some qs) = done (unregister l p name dm qs)

  pub del_at : Layer → ℕ → Name → Option Node → Outcome
  del_at l p name none = fault
  del_at l p name (some dm) = del_slot l p name dm (reg_queries (header dm).kind)

  pub del_stream : Layer → ℕ → Option GenStream → Outcome
  del_stream l p none = fault
  del_stream l p (some s) = del_at l p s.name (get_description (some l.root) s.name)

  pub del_query : Layer → ℕ → Outcome
  del_query l p =
      if ((l.heap p).query_id == 0) || leb max_queries_per_dm (l.heap p).idx
      then done l
      else del_stream l p (stream_of (l.heap p).root)

  pub del_queries : Layer → List ℕ → Outcome
  del_queries l [] = done l
  del_queries l (p ∷ ps) = elim (del_query l p) [
    | done l' ↦ del_queries l' ps
    | failed e l' ↦ failed e l'
    | fault ↦ fault
  ]

pub has_name : Name → Option GenStream → Bool
has_name name none = false
has_name name (some s) = name_eq name s.name

-- for (i = 0; i < MAX_QUERIES_PER_DM; i++) …
pub resolve_slot : (ℕ → Query) → Name → ℕ → List (Option ℕ) → Option ℕ
resolve_slot heap name id [] = none
resolve_slot heap name id (none ∷ qs) = resolve_slot heap name id qs
resolve_slot heap name id (some p ∷ qs) =
    let rest = resolve_slot heap name id qs in
    if ((heap p).query_id == id) && has_name name (stream_of (heap p).root) then some p else rest

-- The query that the name and the number of a `QueryID_t` stand for.
unfoldable pub resolve_query : Layer → Name → ℕ → Option ℕ
resolve_query l name id = elim (get_description (some l.root) name) [
  | none ↦ none
  | some dm ↦ elim (reg_queries (header dm).kind) [
    | none ↦ none
    | some qs ↦ resolve_slot l.heap name id qs
  ]
]
