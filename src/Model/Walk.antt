-- ===== src/Model/Walk.antt =====
-- The traversal that the functions of lib/datamodel.c share: step down to the first child, else to
-- the next sibling, else up until there is one, and stop at the root.
use claosi.Prelude.{
  ℕ, zero, suc, ◌≤◌, ◌≡◌, refl, ap, ◌∙◌, Bool, true, false, List, [], ◌∷◌, ◌++◌, append_assoc,
  append-nil, Option, none, some, arith, length, length-append, Option-cases, inl, inr, ◌⊎◌,
}
use claosi.Model.{Node, Forest, node, nil, cons, children, forest_size, node_size}

-- A node, and its siblings to the right.
abbrev pub Level : Type 0
Level = Node × Forest

-- Where the traversal is: the current node with its later siblings, and those of its ancestors,
-- the nearest first. At the root there are none.
pub record Cursor : Type 0 where
  pub cur : Node
  pub later : Forest
  pub up : List Level

-- while (cur != root) { if there is a later sibling, go there and break; else go up; }
pub climb : Forest → List Level → Option Cursor
climb fs [] = none
climb nil ((p, pf) ∷ up) = climb pf up
climb (cons m ms) ((p, pf) ∷ up) = some (record { cur = m; later = ms; up = (p, pf) ∷ up })

-- if (cur->childrenLen > 0) cur = cur->children[0]; else climb.
pub advance : Cursor → Option Cursor
advance c = elim (children c.cur) [
  | nil ↦ climb c.later c.up
  | cons d ds ↦ some (record { cur = d; later = ds; up = (c.cur, c.later) ∷ c.up })
]

abbrev pub start : Node → Cursor
start n = record { cur = n; later = nil; up = [] }

-- One round of a loop body: go on with a new state, or return.
pub data Round (S R : Type 0) : Type 0 where
  go : S → Round S R
  stop : R → Round S R

-- Is the node of the current round the root?
abbrev pub at_root : List Level → Bool
at_root [] = true
at_root (l ∷ up) = false

module _ {S R : Type 0} (body : S → Bool × Node → Round S R) where
  -- do { body; advance; } while (cur != root), on fuel; `none` is running out of it.
  pub traverse : ℕ → S → Cursor → Option (Round S R)
  traverse zero s c = none
  traverse (suc fuel) s c = elim (body s (at_root c.up, c.cur)) [
    | stop r ↦ some (stop r)
    | go s' ↦ elim (advance c) [ none ↦ some (go s') | some c' ↦ traverse fuel s' c' ]
  ]

  -- The same rounds over a list of nodes.
  unfoldable pub fold_rounds : S → List (Bool × Node) → Round S R
  fold_rounds s [] = go s
  fold_rounds s (x ∷ xs) = elim (body s x) [ stop r ↦ stop r | go s' ↦ fold_rounds s' xs ]

-- The nodes below, each before its own children.
unfoldable pub preorder_forest : Forest → List (Bool × Node)
preorder_forest nil = []
preorder_forest (cons (node h cs) fs) =
    (false, node h cs) ∷ (preorder_forest cs ++ preorder_forest fs)

unfoldable pub preorder : Node → List (Bool × Node)
unfolding preorder_forest
preorder n = (true, n) ∷ preorder_forest (children n)

pub length-preorder : (fs : Forest) → length (preorder_forest fs) ≡ forest_size fs
unfolding preorder_forest forest_size
length-preorder nil = refl
length-preorder (cons (node h cs) fs) = omega (
  arith,
  length-append (preorder_forest cs) (preorder_forest fs),
  length-preorder cs,
  length-preorder fs,
)

later_nodes : Forest → List Level → List (Bool × Node)
later_nodes fs [] = []
later_nodes fs ((p, pf) ∷ up) = preorder_forest fs ++ later_nodes pf up

-- The nodes that are still to be visited, the current one first.
visits : Cursor → List (Bool × Node)
visits c = (at_root c.up, c.cur) ∷ (preorder_forest (children c.cur) ++ later_nodes c.later c.up)

from : Option Cursor → List (Bool × Node)
from none = []
from (some c) = visits c

climb-visits : (fs : Forest) (up : List Level) → later_nodes fs up ≡ from (climb fs up)
unfolding later_nodes climb from visits preorder_forest
climb-visits fs [] = refl
climb-visits nil ((p, pf) ∷ up) = climb-visits pf up
climb-visits (cons (node h cs) ms) ((p, pf) ∷ up) =
    ap (λ r. (false, node h cs) ∷ r) (append_assoc (preorder_forest cs) (preorder_forest ms) _)

advance-visits :
    (c : Cursor) → preorder_forest (children c.cur) ++ later_nodes c.later c.up ≡ from (advance c)
unfolding advance from visits preorder_forest later_nodes
advance-visits c = go c.cur c.later c.up
  where
    go :
        (n : Node) (fs : Forest) (up : List Level)
        → preorder_forest (children n) ++ later_nodes fs up
          ≡ from (advance (record { cur = n; later = fs; up = up }))
    go (node h nil) fs up = climb-visits fs up
    go (node h (cons (node k ds) es)) fs up =
        ap (λ r. (false, node k ds) ∷ r) (append_assoc (preorder_forest ds) (preorder_forest es) _)

Round-cases : {S R : Type 0} (r : Round S R) → ((s : S) × (r ≡ go s)) ⊎ ((q : R) × (r ≡ stop q))
Round-cases (go s) = inl (s, refl)
Round-cases (stop q) = inr (q, refl)

module _ {S R : Type 0} (body : S → Bool × Node → Round S R) where
  traverse-fold :
      (fuel : ℕ) (s : S) (c : Cursor)
      → length (visits c) ≤ fuel
      → traverse body fuel s c ≡ some (fold_rounds body s (visits c))
  unfolding visits traverse fold_rounds from
  traverse-fold zero s c h = absurd (omega arith)
  traverse-fold (suc fuel) s c h = elim (Round-cases (body s (at_root c.up, c.cur))) [
    | inr (q, e) ↦ rw (e, traverse, fold_rounds)
    | inl (s', e) ↦
        let rest = advance-visits c in
        elim (Option-cases (advance c)) [
          | inl a ↦
              let nothing_left = rest ∙ ap from a in
              rw (e, traverse, a, fold_rounds, nothing_left) refl
          | inr (c', a) ↦
              let more = rest ∙ ap from a in
              rw (e, traverse, a, fold_rounds, more)
                (traverse-fold fuel s' c' (omega (arith, ap length more)))
        ]
  ]

  -- The fuel of one round for each node is enough, and the rounds are those over the preorder.
  pub traverse-preorder :
      (s : S) (n : Node)
      → traverse body (node_size n) s (start n) ≡ some (fold_rounds body s (preorder n))
  unfolding node_size preorder visits later_nodes
  traverse-preorder s n =
      traverse-fold (node_size n) s (start n) (
        omega
          (arith, length-preorder (children n), length-append (preorder_forest (children n)) []))
      ∙ ap (λ l. some (fold_rounds body s ((true, n) ∷ l))) (append-nil _)
