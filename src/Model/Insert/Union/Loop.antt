-- ===== src/Model/Insert/Union/Loop.antt =====
-- The rounds of the loop of `mergeDataModel`.
use claosi.Prelude.{
  ℕ, suc, ◌+◌, ◌-◌, ◌≤◌, ◌≡◌, refl, sym, ap, ◌∙◌, Bool, true, List, [], ◌∷◌, Option, none, some,
  ◌==◌, arith, inl, inr, Option-cases, and-left, and-right, is_none-none,
}
use claosi.Model.{
  has_any, Node, Forest, node, nil, cons, header, children, node_type, Header, forest_size,
  node_size,
}
use claosi.Model.Walk.{Level}
use claosi.Model.Merge.{check_same}
use claosi.Model.Copy.{added, add_subtree}
use claosi.Model.Insert.{
  Frame, put, rebuilt, Child, find_child, Insert, Round, next, finished, refused, fault, enter,
  climb_both, go_on, step_down, matched, insert_round, Merged, merged, stopped, null_read,
  insert_loop, merge_data_model,
}
use claosi.Model.Insert.Union.{union_with, union_one, mergeable_with, rounds}

module _ (room : ℕ → Bool) where
  pub resume : ℕ → Round → Option Merged
  resume f (next s) = insert_loop room f s
  resume f (finished o) = some (merged o)
  resume f (refused e o) = some (stopped e o)
  resume f fault = some null_read

  insert_loop-suc :
      (f : ℕ) (s : Insert) (r : Round)
      → insert_round room s ≡ r
      → insert_loop room (suc f) s ≡ resume f r
  unfolding insert_loop resume
  insert_loop-suc f s (next s') e = rw (insert_loop, e)
  insert_loop-suc f s (finished o) e = rw (insert_loop, e)
  insert_loop-suc f s (refused x o) e = rw (insert_loop, e)
  insert_loop-suc f s fault e = rw (insert_loop, e)

  abbrev at : Node → Forest → List Level → Node → List Frame → ℕ → Insert
  at n fs up o above k = record {
    new = record { cur = n; later = fs; up = up };
    old = o;
    above = above;
    calls = k;
  }

  module _ (attach : Node → Node → Node)
      (adds : (o n : Node) (k : ℕ)
        → (after : ℕ) × (ok : Bool) × (add_subtree room o n k ≡ added (attach o n) ok after)) where
    -- A node that is not there.
    absent_round :
        (n : Node) (fs : Forest) (l : Level) (up : List Level) (o : Node) (above : List Frame)
        (k : ℕ)
        → find_child (header n).name (children o) ≡ none
        → (after : ℕ) × (insert_round room (at n fs (l ∷ up) o above k)
            ≡ climb_both fs (l ∷ up) (union_one attach n o) above after)
    unfolding insert_round matched go_on
    absent_round n fs l up o above k e =
        let (after, ok, q) = adds o n k in
        (after, rw (insert_round, union_one, e, matched, q, go_on) refl)

    -- A node that is there, with a child.
    present_round :
        (h : Header) (cs fs : Forest) (l : Level) (up : List Level) (o : Node) (above : List Frame)
        (k : ℕ) (c : Child)
        → find_child h.name (children o) ≡ some c
        → (node_type c.here == node_type (node h cs)) ≡ true
        → check_same (header c.here).kind h.kind ≡ none
        → has_any cs ≡ true
        → insert_round room (at (node h cs) fs (l ∷ up) o above k)
          ≡ climb_both cs
              ((node h cs, fs) ∷ l ∷ up)
              c.here
              (record { head = header o; before = c.before; after = c.after } ∷ above)
              k
    unfolding insert_round matched step_down climb_both
    present_round h nil fs l up o above k c e t q a = cc a
    present_round h (cons d ds) fs l up o above k c e t q a =
        rw (insert_round, e, matched, t, q, step_down) refl

    rounds-absent :
        (h : Header) (cs fs : Forest) (o : Node) (f : ℕ)
        → find_child h.name (children o) ≡ none
        → rounds attach (cons (node h cs) fs) o f
          ≡ suc (rounds attach fs (union_one attach (node h cs) o) f)
    unfolding rounds
    rounds-absent h cs fs o f e = rw (rounds, e)

    rounds-present :
        (h : Header) (cs fs : Forest) (o : Node) (f : ℕ) (c : Child)
        → find_child h.name (children o) ≡ some c
        → rounds attach (cons (node h cs) fs) o f
          ≡ suc (rounds attach cs c.here (rounds attach fs (union_one attach (node h cs) o) f))
    unfolding rounds
    rounds-present h cs fs o f c e = rw (rounds, e)

    union_one-present :
        (n o : Node) (c : Child)
        → find_child (header n).name (children o) ≡ some c
        → union_one attach n o
          ≡ node (header o) (put c.before (union_with attach (children n) c.here) c.after)
    union_one-present n o c e = rw (union_one, e)

    -- What a node that is there passes.
    record Passes (h : Header) (cs : Forest) (c : Child) : Type 0 where
      typed : (node_type c.here == node_type (node h cs)) ≡ true
      allowed : check_same (header c.here).kind h.kind ≡ none
      some_child : has_any cs ≡ true
      below : mergeable_with attach cs c.here ≡ true

    passes :
        (h : Header) (cs fs : Forest) (o : Node) (c : Child)
        → find_child h.name (children o) ≡ some c
        → mergeable_with attach (cons (node h cs) fs) o ≡ true
        → Passes h cs c
    unfolding mergeable_with
    passes h cs fs o c e m =
        let a = and-left _ _ (rw (mergeable_with, e) at m) in
        let b = and-left _ _ a in
        let d = and-right _ _ a in
        record {
          typed = and-left _ _ b;
          allowed = is_none-none _ (and-right _ _ b);
          some_child = and-left _ _ d;
          below = and-right _ _ d;
        }

    -- All the new nodes of a level, and what is below them.
    pub insert_all :
        (fs : Forest) (l : Level) (up : List Level) (o : Node) (above : List Frame) (k f : ℕ)
        → mergeable_with attach fs o ≡ true
        → (after : ℕ) × (resume (rounds attach fs o f) (climb_both fs (l ∷ up) o above k)
            ≡ resume f (climb_both nil (l ∷ up) (union_with attach fs o) above after))
    unfolding mergeable_with union_with rounds resume climb_both
    insert_all nil l up o above k f m = (k, refl)
    insert_all (cons (node h cs) fs) l up o above k f m =
        let n : Node = node h cs in
        let o1 = union_one attach n o in
        let f1 = rounds attach fs o1 f in
        let s : Insert = at n fs (l ∷ up) o above k in
        elim (Option-cases (find_child h.name (children o))) [
          | inl e ↦
              let (k1, a) = absent_round n fs l up o above k e in
              let (k2, b) = insert_all fs l up o1 above k1 f (and-right _ _ m) in
              (
                k2,
                ap (λ r. insert_loop room r s) (rounds-absent h cs fs o f e)
                    ∙ insert_loop-suc f1 s (climb_both fs (l ∷ up) o1 above k1) a
                    ∙ b,
              )
          | inr (c, e) ↦
              let p = passes h cs fs o c e m in
              let frame : Frame = record { head = header o; before = c.before; after = c.after } in
              let (k1, a) = insert_all cs (n, fs) (l ∷ up) c.here (frame ∷ above) k f1 p.below in
              let (k2, b) = insert_all fs l up o1 above k1 f (and-right _ _ m) in
              (
                k2,
                ap (λ r. insert_loop room r s) (rounds-present h cs fs o f c e)
                    ∙ insert_loop-suc (rounds attach cs c.here f1) s
                        (climb_both cs ((n, fs) ∷ l ∷ up) c.here (frame ∷ above) k)
                        (present_round h cs fs l up o above k c e p.typed p.allowed p.some_child)
                    ∙ a
                    ∙ ap (λ o'. resume f1 (climb_both fs (l ∷ up) o' above k1))
                        (sym (union_one-present n o c e))
                    ∙ b,
              )
        ]

    -- The whole merge, with `f` rounds to spare.
    merge_data_model-rounds :
        (old : Node) (h : Header) (cs : Forest) (k f : ℕ)
        → mergeable_with attach cs old ≡ true
        → merge_data_model room (suc (rounds attach cs old f)) old (node h cs) k
          ≡ some (merged (union_with attach cs old))
    unfolding merge_data_model rounds resume climb_both enter insert_round insert_loop rebuilt
        union_with
    merge_data_model-rounds old h nil k f m = refl
    merge_data_model-rounds old h (cons d ds) k f m =
        (insert_all (cons d ds) (node h (cons d ds), nil) [] old [] k f m).1

    rounds-plus : (fs : Forest) (o : Node) (f : ℕ) → rounds attach fs o f ≡ rounds attach fs o 0 + f
    unfolding rounds
    rounds-plus nil o f = omega arith
    rounds-plus (cons (node h cs) fs) o f =
        let o1 = union_one attach (node h cs) o in
        elim (Option-cases (find_child h.name (children o))) [
          | inl e ↦
              omega (
                arith,
                rounds-absent h cs fs o f e,
                rounds-absent h cs fs o 0 e,
                rounds-plus fs o1 f,
              )
          | inr (c, e) ↦ omega (
            arith,
            rounds-present h cs fs o f c e,
            rounds-present h cs fs o 0 c e,
            rounds-plus cs c.here (rounds attach fs o1 f),
            rounds-plus cs c.here (rounds attach fs o1 0),
            rounds-plus fs o1 f,
          )
        ]

    rounds-bound : (fs : Forest) (o : Node) → rounds attach fs o 0 ≤ forest_size fs
    unfolding rounds forest_size
    rounds-bound nil o = omega arith
    rounds-bound (cons (node h cs) fs) o =
        let o1 = union_one attach (node h cs) o in
        elim (Option-cases (find_child h.name (children o))) [
          | inl e ↦ omega (arith, rounds-absent h cs fs o 0 e, rounds-bound fs o1)
          | inr (c, e) ↦ omega (
            arith,
            rounds-present h cs fs o 0 c e,
            rounds-plus cs c.here (rounds attach fs o1 0),
            rounds-bound cs c.here,
            rounds-bound fs o1,
          )
        ]

    -- The merge ends, with one round for each new node at most.
    pub merge_data_model-union_with :
        (old new : Node) (k fuel : ℕ)
        → mergeable_with attach (children new) old ≡ true
        → node_size new ≤ fuel
        → merge_data_model room fuel old new k
          ≡ some (merged (union_with attach (children new) old))
    unfolding node_size
    merge_data_model-union_with old (node h cs) k fuel m e =
        let taken = rounds attach cs old 0 in
        let spare = fuel - suc taken in
        let same : fuel ≡ suc (rounds attach cs old spare) =
          omega (arith, e, rounds-bound cs old, rounds-plus cs old spare) in
        ap (λ x. merge_data_model room x old (node h cs) k) same
        ∙ merge_data_model-rounds old h cs k spare m
