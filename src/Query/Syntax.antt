-- ===== src/Query/Syntax.antt =====
-- lib/query.c, `checkQuerySyntax` and `checkQueries`.
pub mod Accepts
use claosi.Prelude.{
  ℕ, zero, suc, ◌+◌, Bool, true, false, not, ◌&&◌, List, [], ◌∷◌, Option, none, some, bit_and, ltb,
  leb, ◌==◌, if◌then◌else◌, length,
}
use claosi.Prelude.Names.{Name}
use claosi.Errors.{
  Error, ewrongorder, enoelement, ewrongstreamtype, enoperiod, eparam, enoobjstatus, eselectors,
  enopredicates, enoelements, eunit, esize, ejointype, ewrongoperator, eresultfuncptr,
}
use claosi.Model.{Node, Kind, header, source, event, object}
use claosi.Model.Lookup.{get_description, get_with_parents}
use claosi.Query.{
  Operator, gen_source, gen_object, gen_event, select, filter, sort, group, join, aggregate,
  unknown_op, Query, GenStream, Predicate, Sort, Aggregate,
}

-- OBJECT_CREATE | OBJECT_DELETE | OBJECT_STATUS
abbrev pub all_object_events : ℕ
all_object_events = 7

-- OBJECT_CREATE | OBJECT_DELETE
abbrev pub change_events : ℕ
change_events = 3

abbrev pub sizeunit_end : ℕ
sizeunit_end = 3

abbrev pub is_source : Kind → Bool
is_source (source i) = true
is_source k = false

abbrev pub is_event : Kind → Bool
is_event (event i) = true
is_event k = false

abbrev pub is_object : Kind → Bool
is_object (object i) = true
is_object k = false

-- How many of the nodes are objects.
pub count_objects : List Node → ℕ
count_objects [] = 0
count_objects (n ∷ ns) =
    if is_object (header n).kind then suc (count_objects ns) else count_objects ns

-- The walk upwards from `dm`, or from its parent if it is an object itself.
pub needed_selectors : Node → List Node → ℕ
needed_selectors dm above = count_objects (if is_object (header dm).kind then above else dm ∷ above)

abbrev pub is_empty? {ℓ} : {A : Type ℓ} → Option (List A) → Bool
is_empty? none = true
is_empty? (some []) = true
is_empty? (some (x ∷ xs)) = false

module _ (root : Node) (sync : Bool) where
  -- The test of the stream against its node, for each of the three kinds of stream.
  pub check_origin : Operator → Kind → Option Error
  check_origin (gen_source s period) k =
      if not (is_source k)
      then some ewrongstreamtype
      else if period == 0
      then some enoperiod
      else none
  check_origin (gen_event s) k =
      if not (is_event k) then some ewrongstreamtype else if sync then some eparam else none
  check_origin (gen_object s events) k =
      if not (is_object k)
      then some ewrongstreamtype
      else if ltb all_object_events events
      then some enoobjstatus
      else if sync && not (bit_and events change_events == 0)
      then some eparam
      else none
  check_origin op k = none

  pub check_stream : Operator → GenStream → Option Error
  check_stream op s = elim (get_with_parents root s.name) [
    | none ↦ some enoelement
    | some (dm, above) ↦ elim (check_origin op (header dm).kind) [
      | some e ↦ some e
      | none ↦
          if ltb (length s.selectors) (needed_selectors dm above) then some eselectors else none
    ]
  ]

  -- CHECK_ELEMENTS
  pub check_elements : List Name → Option Error
  check_elements [] = none
  check_elements (e ∷ es) =
      let rest = check_elements es in
      elim (get_description (some root) e) [ none ↦ some enoelement | some n ↦ rest ]

  pub check_element_array : Option (List Name) → Option Error
  check_element_array none = some enoelements
  check_element_array (some es) =
      if is_empty? (some es) then some enoelements else check_elements es

  pub check_sort : Sort → Option Error
  check_sort s =
      if leb sizeunit_end s.size_unit
      then some eunit
      else if s.size == 0
      then some esize
      else check_element_array s.elements

  pub check_aggregate : Aggregate → Option Error
  check_aggregate a =
      if leb sizeunit_end a.size_unit
      then some eunit
      else if leb sizeunit_end a.advance_unit
      then some eunit
      else if a.size == 0
      then some esize
      else if a.advance == 0
      then some esize
      else check_element_array a.elements

  pub check_join : Name → Option (List Predicate) → Option Error
  check_join e ps =
      if is_empty? ps then some enopredicates else elim (get_description (some root) e) [
        | none ↦ some ejointype
        | some dm ↦
            if not (is_source (header dm).kind) && not (is_object (header dm).kind)
            then some ejointype
            else none
      ]

  -- switch (cur->type); `first` is i == 0.
  pub check_operator : Bool → Operator → Option Error
  check_operator first (gen_source s p) =
      if not first then some ewrongorder else check_stream (gen_source s p) s
  check_operator first (gen_object s e) =
      if not first then some ewrongorder else check_stream (gen_object s e) s
  check_operator first (gen_event s) =
      if not first then some ewrongorder else check_stream (gen_event s) s
  check_operator first (filter ps) =
      if first then some ewrongorder else if is_empty? ps then some enopredicates else none
  check_operator first (select es) = if first then some ewrongorder else check_element_array es
  check_operator first (sort s) = if first then some ewrongorder else check_sort s
  check_operator first (group s) = if first then some ewrongorder else check_sort s
  check_operator first (join e ps) = if first then some ewrongorder else check_join e ps
  check_operator first (aggregate t a) = if first then some ewrongorder else check_aggregate a
  check_operator first (unknown_op t) = some ewrongoperator

  -- The loop from the operator with index `i` on; the index of the operator that fails stands for
  -- the pointer stored through `errOperator`.
  pub check_from : ℕ → List Operator → Option (Error × ℕ)
  check_from i [] = none
  check_from i (op ∷ ops) =
      let rest = check_from (suc i) ops in
      elim (check_operator (i == 0) op) [ some e ↦ some (e, i) | none ↦ rest ]

  -- The root is not NULL here: `checkQueries` has tested it.
  pub check_query_syntax : List Operator → Option (Error × ℕ)
  check_query_syntax ops = check_from 0 ops

  abbrev pub error_of : Option (Error × ℕ) → Option Error
  error_of none = none
  error_of (some (e, i)) = some e

  -- The three tests of a query: its root, its receiver, its operators.
  pub check_root : List Operator → Bool → Option Error
  check_root [] completed = some eparam
  check_root (op ∷ ops) completed =
      if not completed then some eresultfuncptr else error_of (check_query_syntax (op ∷ ops))

  pub check_query : Query → Option Error
  check_query q = check_root q.root q.on_query_completed

  -- The list is not NULL, which the callers have tested.
  pub check_queries : List Query → Option Error
  check_queries [] = none
  check_queries (q ∷ qs) =
      let rest = check_queries qs in elim (check_query q) [ some e ↦ some e | none ↦ rest ]
