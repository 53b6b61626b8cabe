-- ===== src/Model/Insert/Union/Agrees.antt =====
-- The test of a merge, `mergeDataModel` with `justCheckSyntax`, and the merge itself.
use claosi.Prelude.{
  ℕ, suc, ◌≤◌, ◌≡◌, ◌≢◌, refl, sym, ap, ◌∙◌, Bool, true, false, none, some, ◌==◌, inl, inr,
  Option-cases, Bool-cases, and-left, and-right, is_none-none, is_none,
}
use claosi.Prelude.Names.{Name, name_eq, name_eq_refl, name_eq→eq, tokens}
use claosi.Model.{has_any, Node, Forest, node, nil, cons, header, children, node_type, node_size}
use claosi.Model.Lookup.{child_named, get_description}
use claosi.Model.Merge.{check_same, done, check_merge}
use claosi.Model.Merge.Accepts.{passes_test, check_merge-passes_test}
use claosi.Model.Copy.Whole.{add_subtree-added, add_subtree-no_room}
use claosi.Model.Insert.{merged, Child, put, find_child, merge_data_model}
use claosi.Model.Insert.Children.{child_of, find_child-child_named, put-find_child}
use claosi.Model.Insert.Union.{append, union_with, union_one, mergeable_with}
use claosi.Model.Insert.Union.Loop.{merge_data_model-union_with}
use claosi.Model.Insert.Union.Paths.{
  union, distinct, head_of, either, union_one-miss, descend-union,
}

module _ (attach : Node → Node → Node)
    (misses : (t : Name) (n o : Node)
      → name_eq t (header n).name ≡ false
      → child_named t (children (union_one attach n o)) ≡ child_named t (children o)) where
  passes_test-mergeable_with :
      (fs : Forest) (o o' : Node)
      → distinct fs ≡ true
      → passes_test fs o ≡ true
      → ((t : Name)
          → child_named t fs ≢ none
          → child_named t (children o') ≡ child_named t (children o))
      → mergeable_with attach fs o' ≡ true
  unfolding passes_test mergeable_with distinct child_named
  passes_test-mergeable_with nil o o' d p agrees = refl
  passes_test-mergeable_with (cons (node h cs) fs) o o' d p agrees =
      let n : Node = node h cs in
      let single = is_none-none _ (and-left (is_none (child_named h.name fs)) _ d) in
      let both = and-right (is_none (child_named h.name fs)) _ d in
      let first : child_named h.name (cons n fs) ≡ some n = rw (child_named, name_eq_refl h.name) in
      let same = agrees h.name (λ y. cc (sym first ∙ y)) in
      let rest : mergeable_with attach fs (union_one attach n o') ≡ true =
        passes_test-mergeable_with fs o (union_one attach n o') (and-right _ _ both)
          (and-right _ _ p)
          (λ t present. elim (Bool-cases (name_eq t h.name)) [
            | inl e ↦ absurd (present (ap (λ x. child_named x fs) (name_eq→eq t h.name e) ∙ single))
            | inr e ↦ misses t n o' e ∙ agrees t (λ y. present (sym (rw (child_named, e)) ∙ y))
          ]) in
      elim (Option-cases (find_child h.name (children o'))) [
        | inl e ↦ rw (mergeable_with, e) rest
        | inr (c, e) ↦
            let here = sym same ∙ find_child-child_named h.name (children o') ∙ ap child_of e in
            let all = and-left _ _ (rw (passes_test, here) at p) in
            let checks = and-left _ _ all in
            let below = and-right _ _ all in
            let typed : (node_type c.here == node_type n) ≡ true = and-left _ _ checks in
            let allowed : is_none (check_same (header c.here).kind h.kind) ≡ true =
              and-right _ _ checks in
            let some_child : has_any cs ≡ true = and-left _ _ below in
            let inner : mergeable_with attach cs c.here ≡ true =
              passes_test-mergeable_with cs c.here c.here (and-left (distinct cs) _ both)
                (and-right _ _ below) (λ t y. refl) in
            rw (mergeable_with, e, typed, allowed, some_child, inner) rest
      ]

-- If every allocation succeeds, no two siblings of the new model have one name, and the test of the
-- merge accepts it, then the merge returns 0, after one round for each new node at most, and a path
-- leads to a node afterwards exactly if it does in one of the two models. The node is then that of
-- the present model, if it is in both.
pub merge_data_model-check_merge :
    (room : ℕ → Bool) (old new : Node) (k tested fuel : ℕ) (name : Name)
    → ((i : ℕ) → room i ≡ true)
    → distinct (children new) ≡ true
    → check_merge tested old new ≡ some done
    → node_size new ≤ fuel
    → (result : Node) × (merge_data_model room fuel old new k ≡ some (merged result))
      × (head_of (get_description (some result) name)
          ≡ either
              (head_of (get_description (some old) name))
              (head_of (get_description (some new) name)))
unfolding get_description
merge_data_model-check_merge room old new k tested fuel name all d c e =
    let m =
      passes_test-mergeable_with append union_one-miss (children new) old old d
        (check_merge-passes_test tested old new c) (λ t y. refl) in
    (
      union (children new) old,
      merge_data_model-union_with room append
          (λ o n i. let (after, q) = add_subtree-added room all o n i in (after, true, q)) old new k
          fuel m e,
      descend-union (tokens name) old new d,
    )

-- The present model is left alone where nothing can be attached.
abbrev ignore : Node → Node → Node
ignore o n = o

union_with-ignore : (fs : Forest) (o : Node) → union_with ignore fs o ≡ o
unfolding union_with
union_with-ignore nil o = refl
union_with-ignore (cons (node h cs) fs) o =
    union_with-ignore fs (union_one ignore (node h cs) o)
    ∙ elim (Option-cases (find_child h.name (children o))) [
      | inl e ↦ rw (union_one, e) refl
      | inr (c, e) ↦
          rw (union_one, e)
            (ap (λ m. node (header o) (put c.before m c.after)) (union_with-ignore cs c.here)
              ∙ whole o c e)
    ]
  where
    whole :
        (o : Node) (c : Child)
        → find_child h.name (children o) ≡ some c
        → node (header o) (put c.before c.here c.after) ≡ o
    whole (node k ds) c e = ap (node k) (put-find_child h.name ds c e)

union_one-ignore : (n o : Node) → union_one ignore n o ≡ o
unfolding union_with
union_one-ignore (node h cs) o = union_with-ignore (cons (node h cs) nil) o

-- If no allocation succeeds, no two siblings of the new model have one name, and the test of the
-- merge accepts it, then the merge returns 0 all the same, and the present model is as it was.
pub merge_data_model_drops :
    (room : ℕ → Bool) (old new : Node) (k tested fuel : ℕ)
    → ((i : ℕ) → room i ≡ false)
    → distinct (children new) ≡ true
    → check_merge tested old new ≡ some done
    → node_size new ≤ fuel
    → merge_data_model room fuel old new k ≡ some (merged old)
merge_data_model_drops room old new k tested fuel empty d c e =
    let m =
      passes_test-mergeable_with ignore
        (λ t n o y. ap (λ o'. child_named t (children o')) (union_one-ignore n o)) (children new)
        old old d (check_merge-passes_test tested old new c) (λ t y. refl) in
    merge_data_model-union_with room ignore
      (λ o n i. (suc i, false, add_subtree-no_room room empty o n i)) old new k fuel m e
    ∙ ap (λ o. some (merged o)) (union_with-ignore (children new) old)
