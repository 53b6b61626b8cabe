-- ===== src/Tuple/Spans.antt =====
-- The members that a walk along a value visits, described by recursion on the data model.
pub mod Rounds
pub mod Walk
use claosi.Prelude.{
  ℕ, zero, suc, ◌+◌, ◌-◌, ◌≤◌, ◌≡◌, refl, sym, ap, ap₂, ◌∙◌, Bool, true, false, List, [], ◌∷◌, ◌++◌,
  append_assoc, append-nil, Option, none, some, if◌then◌else◌, arith, inl, inr, some_eq,
}
use claosi.Prelude.Names.{Name, name_eq, name_eq_refl}
use claosi.Model.{
  Node, Forest, Header, node, nil, cons, header, children, has_any, forest_size, node_size,
}
use claosi.Model.Walk.{Level}
use claosi.Model.Types.{PodSizes, Size, bytes, minus_one, failed, get_complex_type_offset}
use claosi.Tuple.{
  Kind, leaf, structure, no_size, no_type, Place, Moved, moved, finished, returned, fault, Walked,
  walked, negative, crash, before, offset_in, beside, climb, climb_from, step_into, walk, walk_item,
}

abbrev pub both : {A : Type 0} → Option (List A) → Option (List A) → Option (List A)
both (some xs) (some ys) = some (xs ++ ys)
both (some xs) none = none
both none ys = none

pub both-some :
    {A : Type 0} (a b : Option (List A)) (xs : List A)
    → both a b ≡ some xs
    → (us : List A) × (vs : List A) × (a ≡ some us) × (b ≡ some vs) × (xs ≡ us ++ vs)
both-some (some us) (some vs) xs e = (us, vs, refl, refl, sym (some_eq e))
both-some (some us) none xs e = cc e
both-some none b xs e = cc e

module _ (z : PodSizes) (fuel : ℕ) (root : Node) {A : Type 0} (kind : Node → ℕ → Kind A) where
  abbrev pub offset_of : Node → Name → Size
  offset_of p name = get_complex_type_offset z fuel root (children p) name

  -- What one node contributes, its members being `inner`.
  abbrev pub span : Kind A → Bool → Option (List A) → Option (List A)
  span (leaf a) some_member inner = some (a ∷ [])
  span structure some_member inner = if some_member then inner else none
  span no_size some_member inner = none
  span no_type some_member inner = none

  abbrev pub at_offset : Size → (ℕ → Option (List A)) → Option (List A)
  at_offset (bytes o) k = k o
  at_offset minus_one k = none
  at_offset failed k = none

  -- The results for the members of `parent`, whose value lies at `base`, each at its own offset.
  unfoldable pub spans : Forest → Node → ℕ → Option (List A)
  spans nil parent base = some []
  spans (cons (node h cs) fs) parent base =
      both
        (at_offset (offset_of parent h.name)
          (λ o. span (kind (node h cs) (base + o)) (has_any cs) (spans cs (node h cs) (base + o))))
        (spans fs parent base)
