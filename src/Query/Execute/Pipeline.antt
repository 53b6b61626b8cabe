-- ===== src/Query/Execute/Pipeline.antt =====
-- What the operators of a query do to a list of tuples, without pointers, and the code that does it.
use claosi.Prelude.{
  ℕ, zero, suc, ◌<◌, ◌≡◌, ◌≢◌, refl, sym, ap, subst, ◌∙◌, arith, Bool, true, false, Bool-cases,
  Option-cases, List, [], ◌∷◌, ◌++◌, append-nil, Option, none, some, some_eq, inl, inr, ◌⊎◌, ◌==◌,
  length, if◌then◌else◌,
}
use claosi.Prelude.Names.{Name}
use claosi.Prelude.Int.{ℤ}
use claosi.Tuple.Member.{Item}
use claosi.Query.{
  Operator, gen_source, gen_object, gen_event, select, filter, sort, group, join, aggregate,
  unknown_op, Predicate, Query,
}
use claosi.Query.Filter.{Reader, satisfies}
use claosi.Query.Filter.Keeps.{
  IsChain, Distinct, kept, dropped, apply_filter-fuel, Distinct-kept, length-kept,
}
use claosi.Query.Execute.{
  Stream, select_items, rejected_items, put_items, select_tuple, select_loop, apply_select,
  elements_of, walk_chain, executed, Done, Link, Joined, Ran, through, stopped, unless_empty,
  run_operators, complete, end_of, operators_from, execute_query,
}

-- The tuples that are still in the list and those that were freed, with their items.
pub record Flow : Type 0 where
  pub items : ℕ → List (Option Item)
  pub compact : ℕ → Bool
  pub deleted : List Item
  pub passed : List ℕ
  pub freed : List ℕ

unfoldable pub select_one : List Name → ℕ → Flow → Flow
select_one es t f = record f {
  items = put_items f.items t (select_items es (f.items t));
  deleted = if f.compact t then f.deleted else f.deleted ++ rejected_items es (f.items t);
}

unfoldable pub select_all : List Name → List ℕ → Flow → Flow
select_all es [] f = f
select_all es (t ∷ ts) f = select_all es ts (select_one es t f)

module _ (reader : (ℕ → List (Option Item)) → Reader) where
  unfoldable pub filter_flow : List Predicate → Flow → Flow
  filter_flow ps f = record f {
    passed = kept (satisfies (reader f.items) ps) f.passed;
    freed = f.freed ++ dropped (satisfies (reader f.items) ps) f.passed;
  }

  -- Filters keep tuples, selections keep items, and the other operators, joins apart, do nothing.
  unfoldable pub flow : List Operator → Flow → Flow
  flow [] f = f
  flow (filter ps ∷ ops) f = flow ops (filter_flow (elements_of ps) f)
  flow (select es ∷ ops) f = flow ops (select_all (elements_of es) f.passed f)
  flow (o ∷ ops) f = flow ops f

-- No operator is a join.
unfoldable pub no_join : List Operator → Bool
no_join [] = true
no_join (join e ps ∷ ops) = false
no_join (o ∷ ops) = no_join ops

abbrev pub view : Stream → List ℕ → Flow
view s xs = record {
  items = s.items;
  compact = s.compact;
  deleted = s.deleted;
  passed = xs;
  freed = s.tuples.freed;
}

-- Loops along `next` come to the tuples of the chain.
pub walk_chain-IsChain :
    (fuel : ℕ) (next : ℕ → Option ℕ) (cur : Option ℕ) (xs : List ℕ)
    → length xs < fuel
    → IsChain next cur xs
    → walk_chain fuel next cur ≡ some xs
unfolding walk_chain
walk_chain-IsChain zero next cur xs f c = absurd (omega arith)
walk_chain-IsChain (suc fuel) next none [] f c = refl
walk_chain-IsChain (suc fuel) next (some y) [] f c = absurd (cc c)
walk_chain-IsChain (suc fuel) next none (x ∷ xs) f c = absurd (cc c.0)
walk_chain-IsChain (suc fuel) next (some y) (x ∷ xs) f c =
    let same : y ≡ x = some_eq c.0 in
    let rest = walk_chain-IsChain fuel next (next x) xs (omega arith) c.1 in
    rw (same, walk_chain, rest) (ap (λ w. some (w ∷ xs)) same)

IsChain-none : (next : ℕ → Option ℕ) (xs : List ℕ) → IsChain next none xs → xs ≡ []
IsChain-none next [] c = refl
IsChain-none next (x ∷ xs) c = absurd (cc c.0)

select_loop-select_all :
    (es : List Name) (fuel : ℕ) (s : Stream) (cur : Option ℕ) (xs ys : List ℕ)
    → length xs < fuel
    → IsChain s.tuples.next cur xs
    → (s' : Stream) × (select_loop fuel es s cur ≡ some s')
      × (s'.tuples ≡ s.tuples)
      × (view s' ys ≡ select_all es xs (view s ys))
unfolding select_loop select_all select_tuple select_one
select_loop-select_all es zero s cur xs ys f c = absurd (omega arith)
select_loop-select_all es (suc fuel) s none [] ys f c = (s, refl, refl, refl)
select_loop-select_all es (suc fuel) s (some y) [] ys f c = absurd (cc c)
select_loop-select_all es (suc fuel) s none (x ∷ xs) ys f c = absurd (cc c.0)
select_loop-select_all es (suc fuel) s (some y) (x ∷ xs) ys f c =
    let same : x ≡ y = sym (some_eq c.0) in
    let (s', e, t, v) =
      select_loop-select_all es fuel (select_tuple es x s) (s.tuples.next x) xs ys (omega arith)
        c.1 in
    (s', ap (λ w. select_loop fuel es (select_tuple es w s) (s.tuples.next w)) (sym same) ∙ e, t, v)

module _ (l : Link) (layer_code : ℕ) (reader : (ℕ → List (Option Item)) → Reader)
    (do_join : Name → List Predicate → Stream → Joined) (fuel : ℕ) where
  abbrev pub run : List Operator → Stream → Ran
  run ops s = run_operators l layer_code reader do_join fuel ops s

  abbrev empty_flow : (ℕ → List (Option Item)) → (ℕ → Bool) → List Item → List ℕ → Flow
  empty_flow i c d r = record { items = i; compact = c; deleted = d; passed = []; freed = r }

  -- An empty list stays empty.
  flow-empty :
      (ops : List Operator) (i : ℕ → List (Option Item)) (c : ℕ → Bool) (d : List Item) (r : List ℕ)
      → flow reader ops (empty_flow i c d r) ≡ empty_flow i c d r
  unfolding flow filter_flow select_all kept dropped
  flow-empty [] i c d r = refl
  flow-empty (filter ps ∷ ops) i c d r =
      ap (λ x. flow reader ops (empty_flow i c d x)) (append-nil r) ∙ flow-empty ops i c d r
  flow-empty (select es ∷ ops) i c d r = flow-empty ops i c d r
  flow-empty (join e ps ∷ ops) i c d r = flow-empty ops i c d r
  flow-empty (gen_source g p ∷ ops) i c d r = flow-empty ops i c d r
  flow-empty (gen_object g p ∷ ops) i c d r = flow-empty ops i c d r
  flow-empty (gen_event g ∷ ops) i c d r = flow-empty ops i c d r
  flow-empty (sort o ∷ ops) i c d r = flow-empty ops i c d r
  flow-empty (group o ∷ ops) i c d r = flow-empty ops i c d r
  flow-empty (aggregate k o ∷ ops) i c d r = flow-empty ops i c d r
  flow-empty (unknown_op k ∷ ops) i c d r = flow-empty ops i c d r

  -- What the operators leave, on the tuples of a chain.
  pub record RunsTo (s : Stream) (f : Flow) (out : Ran) : Type 0 where
    pub end : Stream
    pub left : List ℕ
    pub same : view end left ≡ f
    pub chain : IsChain end.tuples.next end.tuples.head left
    pub fits : length left < fuel
    pub ends : (out ≡ through end) ⊎ ((out ≡ stopped end) × (left ≡ []))
    pub filled : s.tuples.head ≢ none → out ≡ through end → end.tuples.head ≢ none

  pub run-RunsTo :
      (ops : List Operator) (s : Stream) (xs : List ℕ)
      → no_join ops ≡ true
      → length xs < fuel
      → Distinct xs
      → IsChain s.tuples.next s.tuples.head xs
      → RunsTo s (flow reader ops (view s xs)) (run ops s)
  unfolding flow filter_flow no_join run_operators apply_select
  run-RunsTo [] s xs n f d c = record {
    end = s;
    left = xs;
    same = refl;
    chain = c;
    fits = f;
    ends = inl refl;
    filled = λ h e. h;
  }
  run-RunsTo (filter ps ∷ ops) s xs n f d c =
      let r = apply_filter-fuel (reader s.items) (elements_of ps) fuel s.tuples xs f d c in
      let passes = satisfies (reader s.items) (elements_of ps) in
      let s' : Stream = record s { tuples = r.end } in
      let ys = kept passes xs in
      let step : view s' ys ≡ filter_flow reader (elements_of ps) (view s xs) =
        ap (λ x. record (view s' ys) { freed = x }) r.freed in
      elim (Option-cases r.end.head) [
        | inl e ↦
            let none_left : ys ≡ [] =
              IsChain-none r.end.next ys (subst (λ h. IsChain r.end.next h ys) e r.chain) in
            record {
              end = s';
              left = ys;
              same =
                  sym (
                    ap (λ y. flow reader ops (view s' y)) none_left
                    ∙ flow-empty ops s.items s.compact s.deleted r.end.freed
                    ∙ ap (view s') (sym none_left))
                  ∙ ap (flow reader ops) step;
              chain = r.chain;
              fits = omega (arith, length-kept passes xs);
              ends = inr (rw (run_operators, r.ends, unless_empty, e) refl, none_left);
              filled = λ m o. absurd (cc (rw (run_operators, r.ends, unless_empty, e) at o));
            }
        | inr (h, e) ↦
            let q =
              run-RunsTo ops s' ys n (omega (arith, length-kept passes xs))
                (Distinct-kept passes xs d) r.chain in
            record {
              end = q.end;
              left = q.left;
              same = q.same ∙ ap (flow reader ops) step;
              chain = q.chain;
              fits = q.fits;
              ends = rw (run_operators, r.ends, unless_empty, e) q.ends;
              filled = λ m o.
                  q.filled (λ g. cc (e, g)) (rw (run_operators, r.ends, unless_empty, e) at o);
            }
      ]
  run-RunsTo (select es ∷ ops) s xs n f d c =
      let (s', e, t, v) = select_loop-select_all (elements_of es) fuel s s.tuples.head xs xs f c in
      let r = run-RunsTo ops s' xs n f d (subst (λ t. IsChain t.next t.head xs) (sym t) c) in
      record {
        end = r.end;
        left = r.left;
        same = r.same ∙ ap (flow reader ops) v;
        chain = r.chain;
        fits = r.fits;
        ends = rw (run_operators, apply_select, e) r.ends;
        filled = λ m o.
            r.filled (λ g. m (ap (λ u. u.head) (sym t) ∙ g))
              (rw (run_operators, apply_select, e) at o);
      }
  run-RunsTo (join e ps ∷ ops) s xs n f d c = cc n
  run-RunsTo (gen_source g p ∷ ops) s xs n f d c = run-RunsTo ops s xs n f d c
  run-RunsTo (gen_object g p ∷ ops) s xs n f d c = run-RunsTo ops s xs n f d c
  run-RunsTo (gen_event g ∷ ops) s xs n f d c = run-RunsTo ops s xs n f d c
  run-RunsTo (sort o ∷ ops) s xs n f d c = run-RunsTo ops s xs n f d c
  run-RunsTo (group o ∷ ops) s xs n f d c = run-RunsTo ops s xs n f d c
  run-RunsTo (aggregate k o ∷ ops) s xs n f d c = run-RunsTo ops s xs n f d c
  run-RunsTo (unknown_op k ∷ ops) s xs n f d c = run-RunsTo ops s xs n f d c

  -- On a chain of different tuples, with fuel for one round more than there are tuples, a query of
  -- this layer without joins ends. Its `onQueryCompleted`, if there is one, gets the tuples that pass
  -- all filters from the step on, in their order; the others are freed, and the items are those that
  -- the selections leave. Each filter reads the items as the selections before it have left them.
  pub execute_query-flow :
      (q : Query) (s : Stream) (steps : ℤ) (xs : List ℕ)
      → length xs < fuel
      → Distinct xs
      → IsChain s.tuples.next s.tuples.head xs
      → no_join (operators_from steps q.root) ≡ true
      → (q.layer_code == layer_code) ≡ true
      → let f = flow reader (operators_from steps q.root) (view s xs) in
        (d : Done) × (execute_query l layer_code reader do_join fuel (some q) s steps ≡ executed d)
        × (d.completed ≡ (if q.on_query_completed then f.passed else []))
        × (d.sent ≡ [])
        × (d.stream.tuples.freed ≡ f.freed)
        × (d.stream.items ≡ f.items)
        × (d.stream.deleted ≡ f.deleted)
  unfolding execute_query end_of complete
  execute_query-flow q s steps xs long d c n mine =
      let ops = operators_from steps q.root in
      let r = run-RunsTo ops s xs n long d c in
      let walk =
        walk_chain-IsChain fuel r.end.tuples.next r.end.tuples.head r.left r.fits r.chain in
      let completed : execute_query l layer_code reader do_join fuel (some q) s steps
          ≡ executed (record {
            stream = r.end;
            completed = if q.on_query_completed then r.left else [];
            sent = [];
          }) =
        elim r.ends [
          | inl e ↦ elim (Bool-cases q.on_query_completed) [
            | inl o ↦ rw (execute_query, e, end_of, complete, mine, o, walk) refl
            | inr o ↦ rw (execute_query, e, end_of, complete, mine, o) refl
          ]
          | inr (e, none_left) ↦ elim (Bool-cases q.on_query_completed) [
            | inl o ↦ rw (execute_query, e, end_of, none_left, o) refl
            | inr o ↦ rw (execute_query, e, end_of, none_left, o) refl
          ]
        ] in
      (
        record {
          stream = r.end;
          completed = if q.on_query_completed then r.left else [];
          sent = [];
        },
        completed,
        ap (λ f. if q.on_query_completed then f.passed else []) r.same,
        refl,
        ap (λ f. f.freed) r.same,
        ap (λ f. f.items) r.same,
        ap (λ f. f.deleted) r.same,
      )
