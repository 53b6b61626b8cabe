-- ===== src/Query/Execute/Owners.antt =====
-- Who owns the tuples when a query has run: each was completed or freed.
use claosi.Prelude.{
  ℕ, suc, ◌+◌, ◌<◌, ◌≡◌, ◌≢◌, refl, sym, ap, ap₂, ◌∙◌, arith, Bool, true, Bool-cases, List, [], ◌∷◌,
  ◌++◌, Option, none, some, inl, inr, ◌==◌, length, if◌then◌else◌,
}
use claosi.Prelude.Names.{Name}
use claosi.Prelude.Int.{ℤ, negsuc}
use claosi.Tuple.Member.{Item}
use claosi.Query.{
  Operator, gen_source, gen_object, gen_event, select, filter, sort, group, join, aggregate,
  unknown_op, Predicate, Query,
}
use claosi.Query.Filter.{Reader, satisfies}
use claosi.Query.Filter.Keeps.{IsChain, Distinct, kept, dropped}
use claosi.Query.Execute.{
  Stream, Done, Executed, executed, Link, TupleSize, tuple_bytes, unknown, crashed, sum_sizes,
  messages, send_tuples, send_query_continue, Joined, complete, end_of, operators_from,
  execute_query, free_all, elements_of,
}
use claosi.Query.Execute.Pipeline.{
  Flow, select_one, select_all, filter_flow, flow, no_join, view, walk_chain-IsChain, run-RunsTo,
  execute_query-flow,
}

-- How often a tuple occurs.
unfoldable pub occurrences : ℕ → List ℕ → ℕ
occurrences t [] = 0
occurrences t (x ∷ xs) = if x == t then suc (occurrences t xs) else occurrences t xs

occurrences-append :
    (t : ℕ) (xs ys : List ℕ) → occurrences t (xs ++ ys) ≡ occurrences t xs + occurrences t ys
unfolding occurrences
occurrences-append t [] ys = omega arith
occurrences-append t (x ∷ xs) ys = ground (arith, occurrences-append t xs ys)

occurrences-kept :
    (p : ℕ → Bool) (t : ℕ) (xs : List ℕ)
    → occurrences t (kept p xs) + occurrences t (dropped p xs) ≡ occurrences t xs
unfolding occurrences kept dropped
occurrences-kept p t [] = omega arith
occurrences-kept p t (x ∷ xs) = elim (Bool-cases (p x)) [
  | inl e ↦ rw (kept, dropped, e, occurrences) (ground (arith, occurrences-kept p t xs))
  | inr e ↦ rw (kept, dropped, e, occurrences) (ground (arith, occurrences-kept p t xs))
]

abbrev owned : ℕ → Flow → ℕ
owned t f = occurrences t f.passed + occurrences t f.freed

select_all-owned :
    (es : List Name) (xs : List ℕ) (f : Flow) (t : ℕ) → owned t (select_all es xs f) ≡ owned t f
unfolding select_all select_one
select_all-owned es [] f t = refl
select_all-owned es (x ∷ xs) f t = select_all-owned es xs (select_one es x f) t

-- The operators free exactly the tuples that they do not let pass.
flow-owned :
    (reader : (ℕ → List (Option Item)) → Reader) (ops : List Operator) (f : Flow) (t : ℕ)
    → owned t (flow reader ops f) ≡ owned t f
unfolding flow filter_flow
flow-owned reader [] f t = refl
flow-owned reader (filter ps ∷ ops) f t =
    let p = satisfies (reader f.items) (elements_of ps) in
    let split = occurrences-kept p t f.passed in
    let joined = occurrences-append t f.freed (dropped p f.passed) in
    flow-owned reader ops (filter_flow reader (elements_of ps) f) t ∙ omega (arith, split, joined)
flow-owned reader (select es ∷ ops) f t =
    flow-owned reader ops (select_all (elements_of es) f.passed f) t
    ∙ select_all-owned (elements_of es) f.passed f t
flow-owned reader (join e ps ∷ ops) f t = flow-owned reader ops f t
flow-owned reader (gen_source g p ∷ ops) f t = flow-owned reader ops f t
flow-owned reader (gen_object g p ∷ ops) f t = flow-owned reader ops f t
flow-owned reader (gen_event g ∷ ops) f t = flow-owned reader ops f t
flow-owned reader (sort o ∷ ops) f t = flow-owned reader ops f t
flow-owned reader (group o ∷ ops) f t = flow-owned reader ops f t
flow-owned reader (aggregate k o ∷ ops) f t = flow-owned reader ops f t
flow-owned reader (unknown_op k ∷ ops) f t = flow-owned reader ops f t

-- No tuple is read through NULL to size it.
abbrev pub IsSized : Link → Type 0
IsSized l = (items : List (Option Item)) → l.tuple_size items ≢ crashed

sum_sizes-sized :
    (l : Link) (items : ℕ → List (Option Item)) (size : ℕ) (ts : List ℕ)
    → IsSized l
    → sum_sizes l items size ts ≢ crashed
unfolding sum_sizes
sum_sizes-sized l items size [] ok h = cc h
sum_sizes-sized l items size (t ∷ ts) ok h =
    pick (l.tuple_size (items t)) refl (λ b. sum_sizes-sized l items (size + b) ts ok)
  where
    pick :
        (r : TupleSize)
        → l.tuple_size (items t) ≡ r
        → ((b : ℕ) → sum_sizes l items (size + b) ts ≢ crashed)
        → ⊥
    pick (tuple_bytes b) e more = more b (rw (sum_sizes, e) at h)
    pick unknown e more = cc (rw (sum_sizes, e) at h)
    pick crashed e more = ok (items t) e

-- Whatever the link does, the tuples that are to be sent are freed.
send_tuples-freed :
    (l : Link) (q : Query) (steps : ℤ) (s : Stream) (t : ℕ) (ts : List ℕ)
    → IsSized l
    → (d : Done) × (send_tuples l q steps s (t ∷ ts) ≡ executed d)
      × (d.completed ≡ [])
      × (d.stream ≡ free_all (t ∷ ts) s)
unfolding send_tuples sum_sizes messages
send_tuples-freed l q steps s t ts ok = elim (Bool-cases l.connected) [
  | inr c ↦ (
    record { stream = free_all (t ∷ ts) s; completed = []; sent = [] },
    rw (send_tuples, c) refl,
    refl,
    refl,
  )
  | inl c ↦ pick c (sum_sizes l s.items l.header (t ∷ ts)) refl
]
  where
    pick :
        l.connected ≡ true
        → (r : TupleSize) → sum_sizes l s.items l.header (t ∷ ts) ≡ r
        → (d : Done) × (send_tuples l q steps s (t ∷ ts) ≡ executed d)
          × (d.completed ≡ [])
          × (d.stream ≡ free_all (t ∷ ts) s)
    pick c (tuple_bytes b) e = (
      record { stream = free_all (t ∷ ts) s; completed = []; sent = messages l q steps (t ∷ ts) b },
      rw (send_tuples, c, e) refl,
      refl,
      refl,
    )
    pick c unknown e = (
      record { stream = free_all (t ∷ ts) s; completed = []; sent = [] },
      rw (send_tuples, c, e) refl,
      refl,
      refl,
    )
    pick c crashed e = absurd (sum_sizes-sized l s.items l.header (t ∷ ts) ok e)

send_query_continue-freed :
    (l : Link) (fuel : ℕ) (q : Query) (s : Stream) (cur : Option ℕ) (steps : ℤ) (xs : List ℕ)
    → IsSized l
    → length xs < fuel
    → IsChain s.tuples.next cur xs
    → cur ≢ none
    → (d : Done) × (send_query_continue l fuel q s cur steps ≡ executed d)
      × (d.completed ≡ [])
      × (d.stream ≡ free_all xs s)
unfolding send_query_continue
send_query_continue-freed l fuel q s cur steps [] ok f c ne = absurd (ne c)
send_query_continue-freed l fuel q s cur steps (x ∷ xs) ok f c ne =
    let walk = walk_chain-IsChain fuel s.tuples.next cur (x ∷ xs) f c in
    let (d, e, done, freed) = send_tuples-freed l q steps s x xs ok in
    (d, rw (send_query_continue, walk) e, done, freed)

module _ (l : Link) (layer_code : ℕ) (reader : (ℕ → List (Option Item)) → Reader)
    (do_join : Name → List Predicate → Stream → Joined) (fuel : ℕ) where
  abbrev execute : Query → Stream → ℤ → Executed
  execute q s steps = execute_query l layer_code reader do_join fuel (some q) s steps

  -- On a chain of different tuples, at least one, with fuel for one round more than there are tuples, a
  -- query without joins, of this layer with an `onQueryCompleted` or of the other layer, ends, and each
  -- tuple was then handed to `onQueryCompleted` or freed exactly as often as it was in the list or
  -- freed before, whether or not the tuples could be sent. The sizes of tuples are computed without a
  -- read through NULL.
  pub execute_query_owns :
      (q : Query) (s : Stream) (steps : ℤ) (xs : List ℕ) (t : ℕ)
      → length xs < fuel
      → Distinct xs
      → IsChain s.tuples.next s.tuples.head xs
      → s.tuples.head ≢ none
      → no_join (operators_from steps q.root) ≡ true
      → (if q.layer_code == layer_code then q.on_query_completed else true) ≡ true
      → IsSized l
      → (d : Done) × (execute q s steps ≡ executed d)
        × (occurrences t d.completed + occurrences t d.stream.tuples.freed
            ≡ occurrences t xs + occurrences t s.tuples.freed)
  unfolding execute_query end_of complete occurrences
  execute_query_owns q s steps xs t long d c some_tuple n handled ok =
      let ops = operators_from steps q.root in
      let f = flow reader ops (view s xs) in
      let all : owned t f ≡ owned t (view s xs) = flow-owned reader ops (view s xs) t in
      elim (Bool-cases (q.layer_code == layer_code)) [
        | inl m ↦
            let (e, runs, completed, sent, freed, items, deleted) =
              execute_query-flow l layer_code reader do_join fuel q s steps xs long d c n m in
            let all_completed : e.completed ≡ f.passed =
              completed ∙ ap (λ b. if b then f.passed else []) (rw m at handled) in
            (e, runs, ap₂ (λ x y. occurrences t x + occurrences t y) all_completed freed ∙ all)
        | inr m ↦
            let r = run-RunsTo l layer_code reader do_join fuel ops s xs n long d c in
            let count : owned t (view r.end r.left) ≡ owned t (view s xs) =
              ap (owned t) r.same ∙ all in
            elim r.ends [
              | inl e ↦
                  let (g, runs, completed, freed) =
                    send_query_continue-freed l fuel q r.end r.end.tuples.head (negsuc 0) r.left ok
                      r.fits r.chain (r.filled some_tuple e) in
                  let split = occurrences-append t r.end.tuples.freed r.left in
                  (
                    g,
                    rw (execute_query, e, end_of, complete, m) runs,
                    ap₂ (λ x y. occurrences t x + occurrences t y.tuples.freed) completed freed
                        ∙ omega (arith, split, count),
                  )
              | inr (e, none_left) ↦ (
                record { stream = r.end; completed = []; sent = [] },
                rw (execute_query, e, end_of) refl,
                ap (λ x. occurrences t x + occurrences t r.end.tuples.freed) (sym none_left)
                    ∙ count,
              )
            ]
      ]
