-- ===== src/Model/Merge/Repeats.antt =====
-- Merging a model into one that has all of its nodes on the way down to its first leaf.
use claosi.Prelude.{
  some_eq, ℕ, zero, suc, ◌≤◌, ◌≡◌, refl, ap, true, List, [], ◌∷◌, Option, none, some, ◌==◌, arith,
  Option-cases, inl, inr,
}
use claosi.Prelude.Names.{name_eq_refl}
use claosi.Errors.{Error}
use claosi.Model.{Node, Forest, Header, node, nil, cons, header, node_type}
use claosi.Model.Lookup.{child_named}
use claosi.Model.Walk.{Level}
use claosi.Model.Merge.{
  Merge, next, refused, check_same, step_down, matched, merge_round, error, merge_loop, check_merge,
}

-- What the first leaf below a node, and the nodes on the way, are refused for.
unfoldable pub first_refusal : Node → Option Error
first_refusal (node h nil) = check_same h.kind h.kind
first_refusal (node h (cons d ds)) = elim (check_same h.kind h.kind) [
  | some e ↦ some e
  | none ↦ first_refusal d
]

-- The number of nodes on that way.
pub way : Node → ℕ
way (node h nil) = 1
way (node h (cons d ds)) = suc (way d)

pub merge_loop_stays : (fuel : ℕ) (s : Merge) → merge_round s ≡ next s → merge_loop fuel s ≡ none
unfolding merge_loop
merge_loop_stays zero s e = refl
merge_loop_stays (suc fuel) s e = rw (merge_loop, e) (merge_loop_stays fuel s e)

-- The state in which the first child of `old` is compared with itself.
abbrev at_first : Header → Node → Forest → Level → List Level → List Node → Merge
at_first h d ds l up above = record {
  new = record { cur = d; later = ds; up = l ∷ up };
  old = node h (cons d ds);
  above = above;
}

merge_round-at_first :
    (h : Header) (d : Node) (ds : Forest) (l : Level) (up : List Level) (above : List Node)
    → merge_round (at_first h d ds l up above)
      ≡ (elim (check_same (header d).kind (header d).kind) [
        | some e ↦ refused e
        | none ↦ next (step_down (at_first h d ds l up above) d)
      ])
unfolding merge_round matched child_named
merge_round-at_first h d ds l up above =
    let same : (node_type d == node_type d) ≡ true = ground arith in
    rw (name_eq_refl (header d).name, matched, same) refl

descends_none :
    (fuel : ℕ) (h : Header) (d : Node) (ds : Forest) (l : Level) (up : List Level)
    (above : List Node)
    → first_refusal d ≡ none
    → merge_loop fuel (at_first h d ds l up above) ≡ none
unfolding merge_loop first_refusal step_down
descends_none zero h d ds l up above e = refl
descends_none (suc fuel) h (node k nil) ds l up above e =
    merge_loop_stays (suc fuel) _ (rw (merge_round-at_first h (node k nil) ds l up above, e) refl)
descends_none (suc fuel) h (node k (cons d es)) ds l up above e =
    elim (Option-cases (check_same k.kind k.kind)) [
      | inr (x, q) ↦ cc (rw (q, first_refusal) at e)
      | inl q ↦
          rw (merge_loop, merge_round-at_first h (node k (cons d es)) ds l up above, q)
            (descends_none fuel k d es (node k (cons d es), ds) (l ∷ up)
              (node h (cons (node k (cons d es)) ds) ∷ above) (rw (q, first_refusal) at e))
    ]

descends_some :
    (fuel : ℕ) (h : Header) (d : Node) (ds : Forest) (l : Level) (up : List Level)
    (above : List Node) (x : Error)
    → way d ≤ fuel
    → first_refusal d ≡ some x
    → merge_loop fuel (at_first h d ds l up above) ≡ some (error x)
unfolding merge_loop first_refusal step_down way
descends_some zero h (node k nil) ds l up above x f e = absurd (omega arith)
descends_some zero h (node k (cons d es)) ds l up above x f e = absurd (omega arith)
descends_some (suc fuel) h (node k nil) ds l up above x f e =
    rw (merge_loop, merge_round-at_first h (node k nil) ds l up above, e) refl
descends_some (suc fuel) h (node k (cons d es)) ds l up above x f e =
    elim (Option-cases (check_same k.kind k.kind)) [
      | inr (y, q) ↦
          let same : y ≡ x = some_eq (rw (q, first_refusal) at e) in
          rw (merge_loop, merge_round-at_first h (node k (cons d es)) ds l up above, q)
            (ap (λ v. some (error v)) same)
      | inl q ↦
          rw (merge_loop, merge_round-at_first h (node k (cons d es)) ds l up above, q)
            (descends_some fuel k d es (node k (cons d es), ds) (l ∷ up)
              (node h (cons (node k (cons d es)) ds) ∷ above) x (omega arith)
              (rw (q, first_refusal) at e))
    ]

-- Merging a model into itself does not end, with whatever fuel, if neither its first leaf nor a node
-- on the way there, the root apart, is of a type that is refused.
pub check_merge_hangs :
    (h : Header) (d : Node) (ds : Forest) (fuel : ℕ)
    → first_refusal d ≡ none
    → check_merge fuel (node h (cons d ds)) (node h (cons d ds)) ≡ none
unfolding check_merge merge_loop merge_round
check_merge_hangs h d ds zero e = refl
check_merge_hangs h d ds (suc fuel) e = descends_none fuel h d ds _ [] [] e

-- Otherwise merging a model into itself is refused, with the error for the first such node, after
-- one round for the root and at most one for each node on the way.
pub check_merge_refuses :
    (h : Header) (d : Node) (ds : Forest) (x : Error)
    → first_refusal d ≡ some x
    → check_merge (suc (way d)) (node h (cons d ds)) (node h (cons d ds)) ≡ some (error x)
unfolding check_merge merge_loop merge_round
check_merge_refuses h d ds x e = descends_some (way d) h d ds _ [] [] x (omega arith) e
