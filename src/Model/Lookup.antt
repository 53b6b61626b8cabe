-- ===== src/Model/Lookup.antt =====
-- lib/datamodel.c, `getDescription`: from a dotted path to a node.
use claosi.Prelude.{
  ◌≡◌, refl, true, List, [], ◌∷◌, ◌++◌, Option, none, some, if◌then◌else◌, inl, inr, Option-cases,
}
use claosi.Prelude.Names.{Name, name_eq, tokens, tokens-dot, no_dot, tokens-no_dot}
use claosi.Model.{Node, Forest, nil, cons, header, children}

-- The first child of that name.
unfoldable pub child_named : Name → Forest → Option Node
child_named t nil = none
child_named t (cons n fs) = if name_eq t (header n).name then some n else child_named t fs

-- while (token) { find the token among the children of cur and step down, or break; }
unfoldable pub descend : Node → List Name → Option Node
descend cur [] = some cur
descend cur (t ∷ ts) = elim (child_named t (children cur)) [ none ↦ none | some c ↦ descend c ts ]

-- `none` is NULL. The copy that `strsep` works on is taken to be allocated.
unfoldable pub get_description : Option Node → Name → Option Node
get_description none name = none
get_description (some root) name = descend root (tokens name)

descend-append :
    (cur : Node) (ts us : List Name)
    → descend cur (ts ++ us) ≡ (elim (descend cur ts) [ none ↦ none | some n ↦ descend n us ])
unfolding descend
descend-append cur [] us = refl
descend-append cur (t ∷ ts) us = elim (Option-cases (child_named t (children cur))) [
  | inl e ↦ rw (e, descend)
  | inr (c, e) ↦ rw (e, descend) (descend-append c ts us)
]

-- Looking up a joined path is looking up its front part, and the back part from there.
pub get_description-dot :
    (root : Node) (p q : Name)
    → get_description (some root) (p ++ (b'.' ∷ q))
      ≡ (elim (get_description (some root) p) [ none ↦ none | some n ↦ get_description (some n) q ])
unfolding get_description
get_description-dot root p q = rw (tokens-dot p q) (descend-append root (tokens p) (tokens q))

Option-eta {ℓ} :
    {A : Type ℓ} (o : Option A) → (elim o as (λ _. Option A) [ none ↦ none | some a ↦ some a ]) ≡ o
Option-eta none = refl
Option-eta (some a) = refl

-- A name without a dot is looked up among the children of the root.
pub get_description-no_dot :
    (root : Node) (p : Name)
    → no_dot p ≡ true
    → get_description (some root) p ≡ child_named p (children root)
unfolding get_description descend
get_description-no_dot root p h =
    rw (tokens-no_dot p h) (Option-eta (child_named p (children root)))

-- The same walk, with the nodes that were left on the way, the nearest first: the parents of the
-- node that is found.
unfoldable pub descend_up : List Node → Node → List Name → Option (Node × List Node)
descend_up above cur [] = some (cur, above)
descend_up above cur (t ∷ ts) = elim (child_named t (children cur)) [
  | none ↦ none
  | some c ↦ descend_up (cur ∷ above) c ts
]

-- `getDescription`, with the chain of parent pointers of its result.
unfoldable pub get_with_parents : Node → Name → Option (Node × List Node)
get_with_parents root name = descend_up [] root (tokens name)

abbrev pub first? : Option (Node × List Node) → Option Node
first? none = none
first? (some (n, above)) = some n

descend_up-descend :
    (above : List Node) (cur : Node) (ts : List Name)
    → first? (descend_up above cur ts) ≡ descend cur ts
unfolding descend descend_up
descend_up-descend above cur [] = refl
descend_up-descend above cur (t ∷ ts) = elim (Option-cases (child_named t (children cur))) [
  | inl e ↦ rw (e, descend, descend_up)
  | inr (c, e) ↦ rw (e, descend, descend_up) (descend_up-descend (cur ∷ above) c ts)
]

-- The lookup that keeps the parents finds the node that `getDescription` finds.
pub get_with_parents-get_description :
    (root : Node) (name : Name)
    → first? (get_with_parents root name) ≡ get_description (some root) name
unfolding get_with_parents get_description
get_with_parents-get_description root name = descend_up-descend [] root (tokens name)
