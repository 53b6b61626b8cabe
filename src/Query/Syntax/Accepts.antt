-- ===== src/Query/Syntax/Accepts.antt =====
-- What `checkQueries` accepts.
use claosi.Prelude.{
  ℕ, suc, ◌≤◌, ◌<◌, ◌≡◌, refl, sym, ◌∙◌, ◌⊎◌, inl, inr, ◌↔◌, ◌≢◌, Bool, true, false, List, [], ◌∷◌,
  Option, none, some, bit_and, ◌==◌, length, arith, Option-cases, Bool-cases,
}
use claosi.Prelude.Names.{Name}
use claosi.Errors.{Error}
use claosi.Model.{Node, Kind, header}
use claosi.Model.Lookup.{get_description, get_with_parents}
use claosi.Query.{
  Operator, gen_source, gen_object, gen_event, select, filter, sort, group, join, aggregate, Query,
  GenStream, Predicate, Sort, Aggregate,
}
use claosi.Query.Syntax.{
  all_object_events, change_events, sizeunit_end, is_source, is_event, is_object, needed_selectors,
  is_empty?, check_origin, check_stream, check_elements, check_element_array, check_sort,
  check_aggregate, check_join, check_operator, check_from, check_query_syntax, check_query,
  check_queries, error_of, check_root,
}

module _ (root : Node) (sync : Bool) where
  -- The node that the stream names has the kind of the stream, whose parameters are in range.
  abbrev pub FitsOrigin : Operator → Kind → Type 0
  FitsOrigin (gen_source s period) k = (is_source k ≡ true) × (period ≢ 0)
  FitsOrigin (gen_event s) k = (is_event k ≡ true) × (sync ≡ false)
  FitsOrigin (gen_object s events) k =
      (is_object k ≡ true)
      × (events ≤ all_object_events)
      × ((sync ≡ false) ⊎ (bit_and events change_events ≡ 0))
  FitsOrigin op k = Unit

  -- The name leads to such a node, and there is a selector for each object above it.
  abbrev pub IsOrigin : Operator → GenStream → Option (Node × List Node) → Type 0
  IsOrigin op s none = ⊥
  IsOrigin op s (some (dm, above)) =
      FitsOrigin op (header dm).kind × (needed_selectors dm above ≤ length s.selectors)

  abbrev pub HasOrigin : Operator → GenStream → Type 0
  HasOrigin op s = IsOrigin op s (get_with_parents root s.name)

  abbrev pub IsFound : Option Node → Type 0
  IsFound none = ⊥
  IsFound (some n) = Unit

  -- A source or an object.
  abbrev pub IsJoinable : Option Node → Type 0
  IsJoinable none = ⊥
  IsJoinable (some n) = (is_source (header n).kind ≡ true) ⊎ (is_object (header n).kind ≡ true)

  abbrev pub Known : List Name → Type 0
  Known [] = Unit
  Known (e ∷ es) = IsFound (get_description (some root) e) × Known es

  -- At least one element, and all of them known.
  abbrev pub HasElements : Option (List Name) → Type 0
  HasElements none = ⊥
  HasElements (some []) = ⊥
  HasElements (some (e ∷ es)) = Known (e ∷ es)

  abbrev pub IsSortOk : Sort → Type 0
  IsSortOk s = (s.size_unit < sizeunit_end) × (s.size ≢ 0) × HasElements s.elements

  abbrev pub IsAggregateOk : Aggregate → Type 0
  IsAggregateOk a =
      (a.size_unit < sizeunit_end)
      × (a.advance_unit < sizeunit_end)
      × (a.size ≢ 0)
      × (a.advance ≢ 0)
      × HasElements a.elements

  abbrev pub IsJoinOk : Name → Option (List Predicate) → Type 0
  IsJoinOk e ps = (is_empty? ps ≡ false) × IsJoinable (get_description (some root) e)

  -- The first operator of a query.
  abbrev pub IsFirst : Operator → Type 0
  IsFirst (gen_source s p) = HasOrigin (gen_source s p) s
  IsFirst (gen_object s e) = HasOrigin (gen_object s e) s
  IsFirst (gen_event s) = HasOrigin (gen_event s) s
  IsFirst op = ⊥

  -- Any later one.
  abbrev pub IsLater : Operator → Type 0
  IsLater (filter ps) = is_empty? ps ≡ false
  IsLater (select es) = HasElements es
  IsLater (sort s) = IsSortOk s
  IsLater (group s) = IsSortOk s
  IsLater (join e ps) = IsJoinOk e ps
  IsLater (aggregate t a) = IsAggregateOk a
  IsLater op = ⊥

  abbrev pub AllLater : List Operator → Type 0
  AllLater [] = Unit
  AllLater (op ∷ ops) = IsLater op × AllLater ops

  abbrev pub IsPipeline : List Operator → Type 0
  IsPipeline [] = ⊥
  IsPipeline (op ∷ ops) = IsFirst op × AllLater ops

  abbrev pub AllQueries : List Query → Type 0
  AllQueries [] = Unit
  AllQueries (q ∷ qs) = (IsPipeline q.root × (q.on_query_completed ≡ true)) × AllQueries qs

  check_elements-Known : (es : List Name) → (check_elements root sync es ≡ none) ↔ Known es
  unfolding check_elements
  check_elements-Known [] = (λ h. tt, λ h. refl)
  check_elements-Known (e ∷ es) = elim (Option-cases (get_description (some root) e)) [
    | inl p ↦ rw (p, check_elements) (λ h. cc, λ h. absurd h.0)
    | inr (n, p) ↦
        rw (p, check_elements)
          (λ h. (tt, (check_elements-Known es).0 h), λ h. (check_elements-Known es).1 h.1)
  ]

  check_element_array-HasElements :
      (es : Option (List Name)) → (check_element_array root sync es ≡ none) ↔ HasElements es
  unfolding check_element_array
  check_element_array-HasElements none = ground arith
  check_element_array-HasElements (some []) = ground arith
  check_element_array-HasElements (some (e ∷ es)) = check_elements-Known (e ∷ es)

  check_sort-IsSortOk : (s : Sort) → (check_sort root sync s ≡ none) ↔ IsSortOk s
  unfolding check_sort
  check_sort-IsSortOk s =
      let els = check_element_array-HasElements s.elements in
      (
        λ h. (ground arith, (λ e. ground arith), els.0 (ground arith)),
        λ h. let x = els.1 h.2 in ground arith,
      )

  check_aggregate-IsAggregateOk :
      (a : Aggregate) → (check_aggregate root sync a ≡ none) ↔ IsAggregateOk a
  unfolding check_aggregate
  check_aggregate-IsAggregateOk a =
      let els = check_element_array-HasElements a.elements in
      (
        λ h. (
          ground arith,
          ground arith,
          (λ e. ground arith),
          (λ e. ground arith),
          els.0 (ground arith),
        ),
        λ h. let x = els.1 h.4 in ground arith,
      )

  check_join-IsJoinOk :
      (e : Name) (ps : Option (List Predicate)) → (check_join root sync e ps ≡ none) ↔ IsJoinOk e ps
  unfolding check_join
  check_join-IsJoinOk e ps = elim (Bool-cases (is_empty? ps)) [
    | inl z ↦ rw (z, check_join) (λ h. cc h, λ h. cc h.0)
    | inr z ↦ elim (Option-cases (get_description (some root) e)) [
      | inl p ↦ rw (z, p, check_join) (λ h. cc h, λ h. absurd h.1)
      | inr (n, p) ↦ rw (z, p, check_join) (λ h. (refl, ground arith), λ h. ground arith)
    ]
  ]

  check_origin-FitsOrigin :
      (op : Operator) (k : Kind) → (check_origin root sync op k ≡ none) ↔ FitsOrigin op k
  unfolding check_origin
  check_origin-FitsOrigin (gen_source s p) k = ground arith
  check_origin-FitsOrigin (gen_event s) k = ground arith
  check_origin-FitsOrigin (gen_object s e) k = ground arith
  check_origin-FitsOrigin _ k = (λ h. tt, λ h. refl)

  check_stream-HasOrigin :
      (op : Operator) (s : GenStream) → (check_stream root sync op s ≡ none) ↔ HasOrigin op s
  unfolding check_stream
  check_stream-HasOrigin op s = elim (Option-cases (get_with_parents root s.name)) [
    | inl p ↦ rw (p, check_stream) (λ h. cc h, λ h. absurd h)
    | inr ((dm, above), p) ↦
        let fits = check_origin-FitsOrigin op (header dm).kind in
        elim (Option-cases (check_origin root sync op (header dm).kind)) [
          | inr (x, q) ↦ rw (p, q, check_stream) (λ h. cc h, λ h. cc (sym q ∙ fits.1 h.0))
          | inl q ↦ rw (p, q, check_stream) (λ h. (fits.0 q, ground arith), λ h. ground arith)
        ]
  ]

  check_operator-IsFirst : (op : Operator) → (check_operator root sync true op ≡ none) ↔ IsFirst op
  unfolding check_operator
  check_operator-IsFirst (gen_source s p) = check_stream-HasOrigin (gen_source s p) s
  check_operator-IsFirst (gen_object s e) = check_stream-HasOrigin (gen_object s e) s
  check_operator-IsFirst (gen_event s) = check_stream-HasOrigin (gen_event s) s
  check_operator-IsFirst _ = (λ h. cc h, λ h. absurd h)

  check_operator-IsLater : (op : Operator) → (check_operator root sync false op ≡ none) ↔ IsLater op
  unfolding check_operator
  check_operator-IsLater (filter ps) = ground arith
  check_operator-IsLater (select es) = check_element_array-HasElements es
  check_operator-IsLater (sort s) = check_sort-IsSortOk s
  check_operator-IsLater (group s) = check_sort-IsSortOk s
  check_operator-IsLater (join e ps) = check_join-IsJoinOk e ps
  check_operator-IsLater (aggregate t a) = check_aggregate-IsAggregateOk a
  check_operator-IsLater _ = (λ h. cc h, λ h. absurd h)

  check_from-AllLater :
      (i : ℕ) (ops : List Operator) → (check_from root sync (suc i) ops ≡ none) ↔ AllLater ops
  unfolding check_from
  check_from-AllLater i [] = (λ h. tt, λ h. refl)
  check_from-AllLater i (op ∷ ops) =
      let later : (suc i == 0) ≡ false = ground arith in
      let here = check_operator-IsLater op in
      let rest = check_from-AllLater (suc i) ops in
      elim (Option-cases (check_operator root sync false op)) [
        | inl p ↦ rw (later, p, check_from) (λ h. (here.0 p, rest.0 h), λ h. rest.1 h.1)
        | inr (x, p) ↦ rw (later, p, check_from) (λ h. cc h, λ h. cc (sym p ∙ here.1 h.0))
      ]

  check_query_syntax-IsPipeline :
      (op : Operator) (ops : List Operator)
      → (check_query_syntax root sync (op ∷ ops) ≡ none) ↔ IsPipeline (op ∷ ops)
  unfolding check_query_syntax check_from
  check_query_syntax-IsPipeline op ops =
      let here = check_operator-IsFirst op in
      let rest = check_from-AllLater 0 ops in
      elim (Option-cases (check_operator root sync true op)) [
        | inl p ↦
            rw (p, check_query_syntax, check_from) (λ h. (here.0 p, rest.0 h), λ h. rest.1 h.1)
        | inr (x, p) ↦
            rw (p, check_query_syntax, check_from) (λ h. cc h, λ h. cc (sym p ∙ here.1 h.0))
      ]

  error_of-none : (r : Option (Error × ℕ)) → (error_of root sync r ≡ none) ↔ (r ≡ none)
  error_of-none none = (λ h. refl, λ h. refl)
  error_of-none (some (e, i)) = (λ h. cc h, λ h. cc h)

  check_root-IsPipeline :
      (ops : List Operator) (completed : Bool)
      → (check_root root sync ops completed ≡ none) ↔ (IsPipeline ops × (completed ≡ true))
  unfolding check_root
  check_root-IsPipeline [] completed = (λ h. cc h, λ h. absurd h.0)
  check_root-IsPipeline (op ∷ ops) false = (λ h. cc h, λ h. cc h.1)
  check_root-IsPipeline (op ∷ ops) true =
      let ok = check_query_syntax-IsPipeline op ops in
      let none_iff = error_of-none (check_query_syntax root sync (op ∷ ops)) in
      (λ h. (ok.0 (none_iff.0 h), refl), λ h. none_iff.1 (ok.1 h.0))

  check_query-IsPipeline :
      (q : Query)
      → (check_query root sync q ≡ none) ↔ (IsPipeline q.root × (q.on_query_completed ≡ true))
  unfolding check_query
  check_query-IsPipeline q = check_root-IsPipeline q.root q.on_query_completed

  -- Queries are accepted exactly if each has a receiver and begins with a stream whose name leads to
  -- a node of its kind, with parameters in range and a selector for every object above the node,
  -- followed only by operators that are no streams and whose arguments are there, in range and
  -- known to the model.
  pub check_queries-AllQueries :
      (qs : List Query) → (check_queries root sync qs ≡ none) ↔ AllQueries qs
  unfolding check_queries
  check_queries-AllQueries [] = (λ h. tt, λ h. refl)
  check_queries-AllQueries (q ∷ qs) =
      let here = check_query-IsPipeline q in
      let rest = check_queries-AllQueries qs in
      elim (Option-cases (check_query root sync q)) [
        | inl p ↦ rw (p, check_queries) (λ h. (here.0 p, rest.0 h), λ h. rest.1 h.1)
        | inr (x, p) ↦ rw (p, check_queries) (λ h. cc h, λ h. cc (sym p ∙ here.1 h.0))
      ]
