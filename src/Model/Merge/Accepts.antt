-- ===== src/Model/Merge/Accepts.antt =====
-- The nodes that the test of a merge goes through without refusing.
use claosi.Prelude.{
  ℕ, zero, suc, ◌≡◌, ◌≢◌, refl, sym, ◌∙◌, Bool, true, false, ◌&&◌, List, [], ◌∷◌, Option, none,
  some, ◌==◌, inl, inr, Option-cases, Bool-cases, is_none,
}
use claosi.Model.{Node, Forest, node, nil, cons, header, children, Header, node_type, has_any}
use claosi.Model.Lookup.{child_named}
use claosi.Model.Walk.{Level, start}
use claosi.Errors.{Error, edifferentnodetype}
use claosi.Model.Merge.{
  Merge, Round, next, finished, refused, fault, climb_both, check_same, step_down, matched,
  merge_round, Merged, done, error, crash, merge_loop, check_merge,
}
use claosi.Model.Merge.Repeats.{merge_loop_stays}

-- What the test asks of each new node, in the present model as it is.
unfoldable pub passes_test : Forest → Node → Bool
passes_test nil o = true
passes_test (cons (node h cs) fs) o =
    (elim (child_named h.name (children o)) [
      | none ↦ true
      | some m ↦
          ((node_type m == node_type (node h cs)) && is_none (check_same (header m).kind h.kind))
          && (has_any cs && passes_test cs m)
    ])
    && passes_test fs o

resume : ℕ → Round → Option Merged
resume f (next s) = merge_loop f s
resume f finished = some done
resume f (refused e) = some (error e)
resume f fault = some crash

abbrev at : Node → Forest → List Level → Node → List Node → Merge
at n fs up o above = record {
  new = record { cur = n; later = fs; up = up };
  old = o;
  above = above;
}

merge_loop-suc :
    (f : ℕ) (s : Merge) (r : Round) → merge_round s ≡ r → merge_loop (suc f) s ≡ resume f r
unfolding merge_loop resume
merge_loop-suc f s (next s') e = rw (merge_loop, e)
merge_loop-suc f s finished e = rw (merge_loop, e)
merge_loop-suc f s (refused x) e = rw (merge_loop, e)
merge_loop-suc f s fault e = rw (merge_loop, e)

absent_round :
    (n : Node) (fs : Forest) (l : Level) (up : List Level) (o : Node) (above : List Node)
    → child_named (header n).name (children o) ≡ none
    → merge_round (at n fs (l ∷ up) o above) ≡ climb_both fs (l ∷ up) o above
unfolding merge_round matched
absent_round n fs l up o above e = rw (merge_round, e, matched)

typed_round :
    (n : Node) (fs : Forest) (l : Level) (up : List Level) (o m : Node) (above : List Node)
    → child_named (header n).name (children o) ≡ some m
    → (node_type m == node_type n) ≡ false
    → (x : Error) × (merge_round (at n fs (l ∷ up) o above) ≡ refused x)
unfolding merge_round matched
typed_round n fs l up o m above e t = (edifferentnodetype, rw (merge_round, e, matched, t))

refused_round :
    (n : Node) (fs : Forest) (l : Level) (up : List Level) (o m : Node) (above : List Node)
    (x : Error)
    → child_named (header n).name (children o) ≡ some m
    → (node_type m == node_type n) ≡ true
    → check_same (header m).kind (header n).kind ≡ some x
    → merge_round (at n fs (l ∷ up) o above) ≡ refused x
unfolding merge_round matched
refused_round n fs l up o m above x e t q = rw (merge_round, e, matched, t, q)

present_round :
    (h : Header) (cs fs : Forest) (l : Level) (up : List Level) (o m : Node) (above : List Node)
    → child_named h.name (children o) ≡ some m
    → (node_type m == node_type (node h cs)) ≡ true
    → check_same (header m).kind h.kind ≡ none
    → has_any cs ≡ true
    → merge_round (at (node h cs) fs (l ∷ up) o above)
      ≡ climb_both cs ((node h cs, fs) ∷ l ∷ up) m (o ∷ above)
unfolding merge_round matched step_down climb_both
present_round h nil fs l up o m above e t q a = cc a
present_round h (cons d ds) fs l up o m above e t q a =
    rw (merge_round, e, matched, t, q, step_down) refl

-- A node that is there and has no children stays the current one.
childless_round :
    (h : Header) (cs fs : Forest) (l : Level) (up : List Level) (o m : Node) (above : List Node)
    → child_named h.name (children o) ≡ some m
    → (node_type m == node_type (node h cs)) ≡ true
    → check_same (header m).kind h.kind ≡ none
    → has_any cs ≡ false
    → merge_round (at (node h cs) fs (l ∷ up) o above) ≡ next (at (node h cs) fs (l ∷ up) o above)
unfolding merge_round matched step_down
childless_round h nil fs l up o m above e t q a = rw (merge_round, e, matched, t, q, step_down) refl
childless_round h (cons d ds) fs l up o m above e t q a = cc a

no_refusal : (f : ℕ) (r : Round) (x : Error) → r ≡ refused x → resume f r ≢ some done
unfolding resume
no_refusal f r x e h = cc (rw e at h)

all_pass :
    (fs : Forest) (l : Level) (up : List Level) (o : Node) (above : List Node) (f : ℕ)
    → resume f (climb_both fs (l ∷ up) o above) ≡ some done
    → (passes_test fs o ≡ true)
      × (f' : ℕ) × (resume f' (climb_both nil (l ∷ up) o above) ≡ some done)
unfolding passes_test resume climb_both merge_loop
all_pass nil l up o above f e = (refl, f, e)
all_pass (cons (node h cs) fs) l up o above zero e = cc e
all_pass (cons (node h cs) fs) l up o above (suc f) e =
    let n : Node = node h cs in
    let s : Merge = at n fs (l ∷ up) o above in
    elim (Option-cases (child_named h.name (children o))) [
      | inl a ↦
          let r = absent_round n fs l up o above a in
          let (p, f1, rest) = all_pass fs l up o above f (sym (merge_loop-suc f s _ r) ∙ e) in
          (rw (passes_test, a) p, f1, rest)
      | inr (m, a) ↦ elim (Bool-cases (node_type m == node_type n)) [
        | inr t ↦
            let (x, r) = typed_round n fs l up o m above a t in
            absurd (no_refusal f (refused x) x refl (sym (merge_loop-suc f s _ r) ∙ e))
        | inl t ↦ elim (Option-cases (check_same (header m).kind h.kind)) [
          | inr (x, q) ↦ absurd (
              no_refusal f (refused x) x refl
                (sym (merge_loop-suc f s _ (refused_round n fs l up o m above x a t q)) ∙ e))
          | inl q ↦ elim (Bool-cases (has_any cs)) [
            | inr c ↦ cc (
                sym (merge_loop_stays (suc f) s (childless_round h cs fs l up o m above a t q c))
                ∙ e)
            | inl c ↦
                let r = present_round h cs fs l up o m above a t q c in
                let (below, f1, e1) =
                  all_pass cs (n, fs) (l ∷ up) m (o ∷ above) f (sym (merge_loop-suc f s _ r) ∙ e) in
                let (p, f2, rest) = all_pass fs l up o above f1 e1 in
                (rw (passes_test, a, t, q, c, below) p, f2, rest)
          ]
        ]
      ]
    ]

-- What the test of a model accepts.
pub check_merge-passes_test :
    (fuel : ℕ) (old new : Node)
    → check_merge fuel old new ≡ some done
    → passes_test (children new) old ≡ true
unfolding check_merge passes_test merge_round merge_loop climb_both resume
check_merge-passes_test fuel old (node h nil) e = refl
check_merge-passes_test zero old (node h (cons d ds)) e = cc e
check_merge-passes_test (suc f) old (node h (cons d ds)) e =
    let s : Merge = record { new = start (node h (cons d ds)); old = old; above = [] } in
    (all_pass (cons d ds) (node h (cons d ds), nil) [] old [] f
      (sym (merge_loop-suc f s _ refl) ∙ e)).0
