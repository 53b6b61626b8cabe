-- ===== src/Query/Compact/Relocates.antt =====
-- The memory that the copy of a query takes, and the copy after its move.
use claosi.Prelude.{
  some_eq, ℕ, zero, suc, ◌+◌, ◌*◌, ◌^◌, ◌≤◌, ◌<◌, ◌≡◌, refl, sym, ap, ap₂, ◌∙◌, true, List, [], ◌∷◌,
  map, Option, none, some, length, arith,
}
use claosi.Query.{
  Operator, gen_source, gen_object, gen_event, select, filter, sort, group, join, aggregate,
  unknown_op, Query, GenStream,
}
use claosi.Query.Compact.{
  Sizes, Image, QueryImage, len?, operator_size, operators_size, calc_query_size, size_from,
  copy_from, lay_out, copy_stream, copy_array, copy_operator_adjacent, collect,
  copy_and_collect_query, rewrite_addr, rewrite_image, rewrite_query_address,
}

lay_out-end : (n size free : ℕ) → (lay_out n size free).1 ≡ free + n * size
unfolding lay_out
lay_out-end zero size free = omega arith
lay_out-end (suc n) size free = omega (arith, lay_out-end n size (free + size))

-- An address that stands `k` bytes behind the old base comes to stand `k` bytes behind the new one.
pub rewrite_addr-shift :
    (old new k : ℕ) → old + k < 2 ^ 64 → new + k < 2 ^ 64 → rewrite_addr old new (old + k) ≡ new + k
unfolding rewrite_addr
rewrite_addr-shift old new k h h' = omega arith

lay_out-rewrite :
    (n size old new k a b : ℕ)
    → a ≡ old + k
    → b ≡ new + k
    → old + k + n * size < 2 ^ 64
    → new + k + n * size < 2 ^ 64
    → map (rewrite_addr old new) (lay_out n size a).0 ≡ (lay_out n size b).0
unfolding lay_out
lay_out-rewrite zero size old new k a b e f h h' = refl
lay_out-rewrite (suc n) size old new k a b e f h h' =
    ap₂ ◌∷◌
      (ap (rewrite_addr old new) e
        ∙ rewrite_addr-shift old new k (omega arith) (omega arith)
        ∙ sym f)
      (lay_out-rewrite n size old new (k + size) (a + size) (b + size) (omega arith) (omega arith)
        (omega arith) (omega arith))

module _ (z : Sizes) where
  copy_operator_adjacent-end :
      (op : Operator) (free : ℕ) → (copy_operator_adjacent z op free).1 ≡ free + operator_size z op
  unfolding copy_operator_adjacent operator_size copy_stream copy_array
  copy_operator_adjacent-end (gen_source s p) free = omega arith
  copy_operator_adjacent-end (gen_object s e) free = omega arith
  copy_operator_adjacent-end (gen_event s) free = omega arith
  copy_operator_adjacent-end (filter ps) free =
      omega (arith, lay_out-end (len? ps) z.predicate (free + z.filter_op + len? ps * z.pointer))
  copy_operator_adjacent-end (select es) free =
      omega (arith, lay_out-end (len? es) z.element (free + z.select_op + len? es * z.pointer))
  copy_operator_adjacent-end (sort s) free = omega (
    arith,
    lay_out-end (len? s.elements) z.element (free + z.sort_op + len? s.elements * z.pointer),
  )
  copy_operator_adjacent-end (group s) free = omega (
    arith,
    lay_out-end (len? s.elements) z.element (free + z.sort_op + len? s.elements * z.pointer),
  )
  copy_operator_adjacent-end (join e ps) free =
      omega (arith, lay_out-end (len? ps) z.predicate (free + z.join_op + len? ps * z.pointer))
  copy_operator_adjacent-end (aggregate t a) free = omega (
    arith,
    lay_out-end (len? a.elements) z.element (free + z.aggregate_op + len? a.elements * z.pointer),
  )
  copy_operator_adjacent-end (unknown_op t) free = omega arith

  total : List Operator → ℕ
  total [] = 0
  total (op ∷ ops) = operator_size z op + total ops

  operators_size-total :
      (size : ℕ) (ops : List Operator) → operators_size z size ops ≡ size + total ops
  unfolding operators_size total
  operators_size-total size [] = omega arith
  operators_size-total size (op ∷ ops) =
      omega (arith, operators_size-total (size + operator_size z op) ops)

  collect-end : (ops : List Operator) (free : ℕ) → (collect z ops free).1 ≡ free + total ops
  unfolding collect total
  collect-end [] free = omega arith
  collect-end (op ∷ []) free = omega (arith, copy_operator_adjacent-end op free)
  collect-end (op ∷ op' ∷ ops) free =
      collect-end (op' ∷ ops) (copy_operator_adjacent z op free).1
      ∙ omega (arith, copy_operator_adjacent-end op free)

  -- An image moves with its address: the bases, the distance, and the two addresses.
  abbrev Moved : ℕ → ℕ → ℕ → ℕ → ℕ → ℕ → Type 0
  Moved old new k a b bytes =
      (a ≡ old + k) × (b ≡ new + k) × (old + k + bytes < 2 ^ 64) × (new + k + bytes < 2 ^ 64)

  shifted :
      (old new k a b d bytes : ℕ)
      → d ≤ bytes
      → Moved old new k a b bytes
      → rewrite_addr old new (a + d) ≡ b + d
  shifted old new k a b d bytes le m =
      ap (rewrite_addr old new) (omega arith)
      ∙ rewrite_addr-shift old new (k + d) (omega arith) (omega arith)
      ∙ omega arith

  copy_stream-rewrite :
      (op : Operator) (fixed : ℕ) (s : GenStream) (old new k a b : ℕ)
      → Moved old new k a b (fixed + length s.selectors * z.selector)
      → rewrite_image old new (copy_stream z op fixed s a).0 ≡ (copy_stream z op fixed s b).0
  unfolding copy_stream rewrite_image
  copy_stream-rewrite op fixed s old new k a b m =
      ap (λ v. record { op = op; child = none; array = some v; cells = [] })
        (shifted old new k a b fixed _ (omega arith) m)

  copy_array-rewrite :
      (op : Operator) (fixed n size old new k a b : ℕ)
      → Moved old new k a b (fixed + n * (z.pointer + size))
      → rewrite_image old new (copy_array z op fixed n size a).0
        ≡ (copy_array z op fixed n size b).0
  unfolding copy_array rewrite_image
  copy_array-rewrite op fixed n size old new k a b m =
      ap₂ (λ v cs. record { op = op; child = none; array = some v; cells = cs })
        (shifted old new k a b fixed _ (omega arith) m)
        (lay_out-rewrite n size old new (k + fixed + n * z.pointer) (a + fixed + n * z.pointer)
          (b + fixed + n * z.pointer) (omega arith) (omega arith) (omega arith) (omega arith))

  copy_operator_adjacent-rewrite :
      (op : Operator) (old new k a b : ℕ)
      → Moved old new k a b (operator_size z op)
      → rewrite_image old new (copy_operator_adjacent z op a).0 ≡ (copy_operator_adjacent z op b).0
  unfolding copy_operator_adjacent operator_size rewrite_image
  copy_operator_adjacent-rewrite (gen_source s p) old new k a b m =
      copy_stream-rewrite _ _ s old new k a b m
  copy_operator_adjacent-rewrite (gen_object s e) old new k a b m =
      copy_stream-rewrite _ _ s old new k a b m
  copy_operator_adjacent-rewrite (gen_event s) old new k a b m =
      copy_stream-rewrite _ _ s old new k a b m
  copy_operator_adjacent-rewrite (filter ps) old new k a b m =
      copy_array-rewrite _ _ _ _ old new k a b m
  copy_operator_adjacent-rewrite (select es) old new k a b m =
      copy_array-rewrite _ _ _ _ old new k a b m
  copy_operator_adjacent-rewrite (sort s) old new k a b m =
      copy_array-rewrite _ _ _ _ old new k a b m
  copy_operator_adjacent-rewrite (group s) old new k a b m =
      copy_array-rewrite _ _ _ _ old new k a b m
  copy_operator_adjacent-rewrite (join e ps) old new k a b m =
      copy_array-rewrite _ _ _ _ old new k a b m
  copy_operator_adjacent-rewrite (aggregate t c) old new k a b m =
      copy_array-rewrite _ _ _ _ old new k a b m
  copy_operator_adjacent-rewrite (unknown_op t) old new k a b m = refl

  copy_operator_adjacent-child :
      (op : Operator) (a : ℕ) → (copy_operator_adjacent z op a).0.child ≡ none
  unfolding copy_operator_adjacent copy_stream copy_array
  copy_operator_adjacent-child (gen_source s p) a = refl
  copy_operator_adjacent-child _ a = refl

  collect-rewrite :
      (ops : List Operator) (old new k a b : ℕ)
      → Moved old new k a b (total ops)
      → map (rewrite_image old new) (collect z ops a).0 ≡ (collect z ops b).0
  unfolding collect total rewrite_image
  collect-rewrite [] old new k a b m = refl
  collect-rewrite (op ∷ []) old new k a b m =
      ap (λ i. i ∷ [])
        (copy_operator_adjacent-rewrite op old new k a b (m.0, m.1, omega arith, omega arith))
  collect-rewrite (op ∷ op' ∷ ops) old new k a b m =
      let ea = copy_operator_adjacent-end op a in
      let eb = copy_operator_adjacent-end op b in
      let size = operator_size z op in
      ap₂ ◌∷◌
        (ap₂ (λ (c : Option ℕ) (i : Image). record i { child = c })
          (ap some
            (ap (rewrite_addr old new) ea ∙ shifted old new k a b size _ (omega arith) m ∙ sym eb))
          (copy_operator_adjacent-rewrite op old new k a b (m.0, m.1, omega arith, omega arith)))
        (collect-rewrite (op' ∷ ops) old new (k + size) _ _
          (omega (arith, ea), omega (arith, eb), omega arith, omega arith))

  -- The copy at `free` of a query with these operators.
  image : Query → List Operator → ℕ → QueryImage
  image q ops free = record {
    query = record q { compact = true };
    root = free + z.query;
    images = (collect z ops (free + z.query)).0;
  }

  copied :
      (q : Query) (op : Operator) (ops : List Operator) (free : ℕ)
      → q.root ≡ op ∷ ops
      → copy_and_collect_query z q free
        ≡ some (image q (op ∷ ops) free, free + (z.query + total (op ∷ ops)))
  unfolding copy_and_collect_query image
  copied q op ops free e =
      ap (λ r. copy_from z q r free) e
      ∙ ap (λ t. some (image q (op ∷ ops) free, t))
          (collect-end (op ∷ ops) (free + z.query) ∙ omega arith)

  calculated :
      (q : Query) (op : Operator) (ops : List Operator)
      → q.root ≡ op ∷ ops
      → calc_query_size z q ≡ some (z.query + total (op ∷ ops))
  unfolding calc_query_size
  calculated q op ops e = ap (size_from z) e ∙ ap some (operators_size-total z.query (op ∷ ops))

  -- For a query with operators, `calcQuerySize` gives the bytes that `copyAndCollectQuery` uses at
  -- any address.
  pub copy_and_collect_query-size :
      (q : Query) (op : Operator) (ops : List Operator) (free : ℕ)
      → q.root ≡ op ∷ ops
      → (size : ℕ) × (c : QueryImage) × (calc_query_size z q ≡ some size)
        × (copy_and_collect_query z q free ≡ some (c, free + size))
  copy_and_collect_query-size q op ops free e =
      (_, _, calculated q op ops e, copied q op ops free e)

  moved :
      (q : Query) (ops : List Operator) (old new size : ℕ)
      → z.query + total ops ≤ size
      → old + size < 2 ^ 64
      → new + size < 2 ^ 64
      → image q ops new ≡ rewrite_query_address (image q ops old) old new
  unfolding image rewrite_query_address
  moved q ops old new size le h h' =
      ap₂ (λ r is. record { query = record q { compact = true }; root = r; images = is })
        (sym (rewrite_addr-shift old new z.query (omega arith) (omega arith)))
        (sym (
          collect-rewrite ops old new z.query (old + z.query) (new + z.query)
            (refl, refl, omega arith, omega arith)))

  -- A query that is collected at one address and then rewritten for another base is the query
  -- collected at that base, if neither copy reaches the end of the address space.
  pub rewrite_query_address-collect :
      (q : Query) (op : Operator) (ops : List Operator) (old new size : ℕ) (c : QueryImage)
      → q.root ≡ op ∷ ops
      → calc_query_size z q ≡ some size
      → old + size < 2 ^ 64
      → new + size < 2 ^ 64
      → copy_and_collect_query z q old ≡ some (c, old + size)
      → copy_and_collect_query z q new ≡ some (rewrite_query_address c old new, new + size)
  rewrite_query_address-collect q op ops old new size c e n h h' k =
      let same : size ≡ z.query + total (op ∷ ops) = some_eq (sym n ∙ calculated q op ops e) in
      let is : c ≡ image q (op ∷ ops) old =
        ap (λ p. p.0) (some_eq (sym k ∙ copied q op ops old e)) in
      copied q op ops new e
      ∙ ap₂ (λ i t. some (i, t))
          (moved q (op ∷ ops) old new size (omega arith) h h'
            ∙ ap (λ i. rewrite_query_address i old new) (sym is))
          (omega arith)
