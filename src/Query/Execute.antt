-- ===== src/Query/Execute.antt =====
-- lib/query.c, `applySelect`, `sendQueryContinue` and `executeQuery`: a list of tuples runs through the
-- operators of a query. `doJoin` is an argument. Loops over the tuples are on fuel.
pub mod Reads
pub mod Pipeline
pub mod Owners
mod Tests
use claosi.Prelude.{
  ℕ, zero, suc, ◌+◌, ◌%◌, ◌^◌, Bool, true, false, List, [], ◌∷◌, ◌++◌, map, Option, none, some,
  ◌==◌, if◌then◌else◌,
}
use claosi.Prelude.Names.{Name, name_eq}
use claosi.Prelude.Int.{ℤ, pos, negsuc, count}
use claosi.Tuple.Bytes.{to_bits}
use claosi.Tuple.Member.{Item}
use claosi.Query.{
  Operator, gen_source, gen_object, gen_event, select, filter, sort, group, join, aggregate,
  unknown_op, GenStream, Predicate, Query,
}
use claosi.Query.Filter.{Reader, Tuples, apply_filter}

-- The list of tuples with what a tuple holds, and the items that were freed.
pub record Stream : Type 0 where
  pub tuples : Tuples
  pub items : ℕ → List (Option Item)
  pub compact : ℕ → Bool
  pub deleted : List Item

-- A `QueryContinue_t`: the name of the stream, the number in a `QueryID_t`, the operators to skip,
-- of which an unsigned short is sent, and the tuples that are copied behind it, with its size.
pub record QueryContinue : Type 0 where
  pub name : Name
  pub id : ℕ
  pub steps : ℕ
  pub tuples : List ℕ
  pub bytes : ℕ

-- Is the name one of the elements?
pub is_selected : List Name → Item → Bool
is_selected [] i = false
is_selected (e ∷ es) i = let rest = is_selected es i in if name_eq e i.0 then true else rest

-- The items of a tuple with NULL for those that were deleted, and the deleted ones.
pub select_items : List Name → List (Option Item) → List (Option Item)
select_items es [] = []
select_items es (none ∷ is) = none ∷ select_items es is
select_items es (some i ∷ is) = (if is_selected es i then some i else none) ∷ select_items es is

pub rejected_items : List Name → List (Option Item) → List Item
rejected_items es [] = []
rejected_items es (none ∷ is) = rejected_items es is
rejected_items es (some i ∷ is) =
    let rest = rejected_items es is in if is_selected es i then rest else i ∷ rest

abbrev pub put_items : (ℕ → List (Option Item)) → ℕ → List (Option Item) → ℕ → List (Option Item)
put_items items t new u = if u == t then new else items u

-- The items of one tuple; `deleteItem` frees nothing of a compact tuple.
unfoldable pub select_tuple : List Name → ℕ → Stream → Stream
select_tuple es t s = record s {
  items = put_items s.items t (select_items es (s.items t));
  deleted = if s.compact t then s.deleted else s.deleted ++ rejected_items es (s.items t);
}

-- while (curTuple != NULL)
unfoldable pub select_loop : ℕ → List Name → Stream → Option ℕ → Option Stream
select_loop zero es s cur = none
select_loop (suc fuel) es s none = some s
select_loop (suc fuel) es s (some t) = select_loop fuel es (select_tuple es t s) (s.tuples.next t)

abbrev pub elements_of : {A : Type 0} → Option (List A) → List A
elements_of none = []
elements_of (some es) = es

unfoldable pub apply_select : ℕ → List Name → Stream → Option Stream
apply_select fuel es s = select_loop fuel es s s.tuples.head

-- The tuples that the loops over `next` come to.
unfoldable pub walk_chain : ℕ → (ℕ → Option ℕ) → Option ℕ → Option (List ℕ)
walk_chain zero next cur = none
walk_chain (suc fuel) next none = some []
walk_chain (suc fuel) next (some t) = elim (walk_chain fuel next (next t)) [
  | none ↦ none
  | some ts ↦ some (t ∷ ts)
]

-- What a query has done: the tuples as they are, those handed to `onQueryCompleted`, and the messages
-- to the other layer.
pub record Done : Type 0 where
  pub stream : Stream
  pub completed : List ℕ
  pub sent : List QueryContinue

-- `fault` is a read through NULL, `endless` running out of fuel.
pub data Executed : Type 0 where
  executed : Done → Executed
  fault : Executed
  endless : Executed

-- The size of a tuple: a number, -1, or a read through NULL.
pub data TupleSize : Type 0 where
  tuple_bytes : ℕ → TupleSize
  unknown : TupleSize
  crashed : TupleSize

abbrev pub free_all : List ℕ → Stream → Stream
free_all ts s = record s { tuples = record s.tuples { freed = s.tuples.freed ++ ts } }

-- getTupelSize, the size of a QueryContinue_t, whether an endpoint is connected, whether slcmalloc has
-- room for so many bytes, and whether ringBufferWrite accepts the message.
pub record Link : Type 0 where
  pub tuple_size : List (Option Item) → TupleSize
  pub header : ℕ
  pub connected : Bool
  pub has_room : ℕ → Bool
  pub accepts : Bool

-- do { size += getTupelSize(…) } while (curTuple != NULL)
unfoldable pub sum_sizes : Link → (ℕ → List (Option Item)) → ℕ → List ℕ → TupleSize
sum_sizes l items size [] = tuple_bytes size
sum_sizes l items size (t ∷ ts) = elim (l.tuple_size (items t)) [
  | tuple_bytes b ↦ sum_sizes l items (size + b) ts
  | unknown ↦ unknown
  | crashed ↦ crashed
]

-- `queryCont->qID.name`: the name of the stream, whatever the first operator is.
abbrev pub stream_name : List Operator → Name
stream_name (gen_source g p ∷ ops) = g.name
stream_name (gen_object g e ∷ ops) = g.name
stream_name (gen_event g ∷ ops) = g.name
stream_name ops = []

-- -1 is sent as 2 ^ 16 - 1.
unfoldable pub continue_with : Query → ℤ → List ℕ → ℕ → QueryContinue
continue_with q steps ts bytes = record {
  name = stream_name q.root;
  id = q.query_id % 2 ^ 16;
  steps = to_bits 2 steps;
  tuples = ts;
  bytes = bytes;
}

module _ (l : Link) where
  -- The messages: none, if the memory for one is not there or it is not accepted.
  unfoldable pub messages : Query → ℤ → List ℕ → ℕ → List QueryContinue
  messages q steps ts bytes =
      if l.has_room bytes then if l.accepts then continue_with q steps ts bytes ∷ [] else [] else []

  abbrev pub sent_and_freed : Stream → List ℕ → List QueryContinue → Executed
  sent_and_freed s ts ms = executed (record { stream = free_all ts s; completed = []; sent = ms })

  -- The tuples are freed on every way out.
  unfoldable pub send_tuples : Query → ℤ → Stream → List ℕ → Executed
  send_tuples q steps s [] = if l.connected then fault else sent_and_freed s [] []
  send_tuples q steps s (t ∷ ts) =
      if l.connected
      then elim (sum_sizes l s.items l.header (t ∷ ts)) [
        | tuple_bytes b ↦ sent_and_freed s (t ∷ ts) (messages q steps (t ∷ ts) b)
        | unknown ↦ sent_and_freed s (t ∷ ts) []
        | crashed ↦ fault
      ]
      else sent_and_freed s (t ∷ ts) []

  unfoldable pub send_query_continue : ℕ → Query → Stream → Option ℕ → ℤ → Executed
  send_query_continue fuel q s tuple steps = elim (walk_chain fuel s.tuples.next tuple) [
    | none ↦ endless
    | some ts ↦ send_tuples q steps s ts
  ]

-- What `doJoin` returns: 1, 0, or 2.
pub data Joined : Type 0 where
  matched : Stream → Joined
  unmatched : Stream → Joined
  elsewhere : Stream → Joined

-- Behind the operators: the list goes on, nothing is left, or a join is up to the other layer.
pub data Ran : Type 0 where
  through : Stream → Ran
  stopped : Stream → Ran
  away : Stream → Ran
  stuck : Ran

abbrev pub unless_empty : Stream → Ran → Ran
unless_empty s r = elim s.tuples.head [ none ↦ stopped s | some h ↦ r ]

-- for (i = 0; i < steps && cur != NULL; i++) cur = cur->child;
unfoldable pub skip : ℕ → List Operator → List Operator
skip zero ops = ops
skip (suc n) [] = []
skip (suc n) (o ∷ ops) = skip n ops

-- Where execution goes on; after -1 nothing is left to do.
unfoldable pub operators_from : ℤ → List Operator → List Operator
operators_from (negsuc zero) ops = []
operators_from steps ops = skip (count steps) ops

-- The code of this layer, the reader of the members of tuples, `doJoin`, and the fuel of each loop.
module _ (l : Link) (layer_code : ℕ) (reader : (ℕ → List (Option Item)) → Reader)
    (do_join : Name → List Predicate → Stream → Joined) (fuel : ℕ) where
  -- while (cur != NULL) switch (cur->type)
  unfoldable pub run_operators : List Operator → Stream → Ran
  run_operators [] s = through s
  run_operators (filter ps ∷ ops) s =
      elim (apply_filter (reader s.items) (elements_of ps) fuel s.tuples) [
        | none ↦ stuck
        | some ts ↦
            unless_empty (record s { tuples = ts }) (run_operators ops (record s { tuples = ts }))
      ]
  run_operators (select es ∷ ops) s = elim (apply_select fuel (elements_of es) s) [
    | none ↦ stuck
    | some s' ↦ run_operators ops s'
  ]
  run_operators (join e ps ∷ ops) s = elim (do_join e (elements_of ps) s) [
    | matched s' ↦ run_operators ops s'
    | unmatched s' ↦ stopped s'
    | elsewhere s' ↦ away s'
  ]
  run_operators (o ∷ ops) s = run_operators ops s

  abbrev pub at_rest : Stream → List ℕ → Executed
  at_rest s ts = executed (record { stream = s; completed = ts; sent = [] })

  -- The tuples that are left: `next` is read before the tuple is handed to `onQueryCompleted`.
  unfoldable pub complete : Query → Stream → Executed
  complete q s =
      if q.layer_code == layer_code
      then if q.on_query_completed
        then elim (walk_chain fuel s.tuples.next s.tuples.head) [
          | none ↦ endless
          | some ts ↦ at_rest s ts
        ]
        else at_rest s []
      else send_query_continue l fuel q s s.tuples.head (negsuc 0)

  -- With the first tuple of the caller, which is sent on where a join is up to the other layer.
  unfoldable pub end_of : Query → Option ℕ → ℤ → Ran → Executed
  end_of q tuple steps (through s) = complete q s
  end_of q tuple steps (stopped s) = at_rest s []
  end_of q tuple steps (away s) = send_query_continue l fuel q s tuple steps
  end_of q tuple steps stuck = endless

  unfoldable pub execute_query : Option Query → Stream → ℤ → Executed
  execute_query none s steps = at_rest s []
  execute_query (some q) s steps =
      end_of q s.tuples.head steps (run_operators (operators_from steps q.root) s)
