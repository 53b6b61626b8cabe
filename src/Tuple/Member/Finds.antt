-- ===== src/Tuple/Member/Finds.antt =====
-- The node that `getMemberPointer` and `getDescription` find.
use claosi.Prelude.{
  ℕ, ◌+◌, ◌≡◌, refl, List, [], ◌∷◌, ◌++◌, Option, none, some, inl, inr, Bool-cases, Option-cases,
  ◌==◌, length,
}
use claosi.Prelude.Names.{Name, tokens}
use claosi.Model.{Node, children, node_type, complex_bit}
use claosi.Model.Lookup.{child_named, descend, get_description, get_description-dot}
use claosi.Model.Types.{PodSizes, Size, bytes, minus_one, failed, get_complex_type_offset}
use claosi.Tuple.Member.{
  Item, drop, skip_dot, find_item, at, walk_tokens, member_below, member_of, get_member_pointer,
}

pub drop-append : (n rest : Name) → drop (length n) (n ++ rest) ≡ rest
unfolding drop
drop-append [] rest = refl
drop-append (c ∷ n) rest = drop-append n rest

module _ (z : PodSizes) (fuel : ℕ) (root : Node) where
  walk_tokens-descend :
      (value : ℕ) (cur : Node) (ts : List Name) (a : ℕ) (d : Node)
      → walk_tokens z fuel root value cur ts ≡ at a d
      → descend cur ts ≡ some d
  unfolding walk_tokens descend
  walk_tokens-descend value cur [] a d h = cc h
  walk_tokens-descend value cur (t ∷ ts) a d h =
      pick (get_complex_type_offset z fuel root (children cur) t) refl
        (λ o c. walk_tokens-descend (value + o) c ts a d)
    where
      pick :
          (s : Size)
          → get_complex_type_offset z fuel root (children cur) t ≡ s
          → ((o : ℕ) (c : Node)
              → walk_tokens z fuel root (value + o) c ts ≡ at a d
              → descend c ts ≡ some d)
          → descend cur (t ∷ ts) ≡ some d
      pick minus_one q below = cc (rw (walk_tokens, q) at h)
      pick failed q below = cc (rw (walk_tokens, q) at h)
      pick (bytes o) q below = elim (Option-cases (child_named t (children cur))) [
        | inl e ↦ cc (rw (walk_tokens, q, e) at h)
        | inr (c, e) ↦ rw (descend, e) (below o c (rw (walk_tokens, q, e) at h))
      ]

  member_below-dot :
      (value : ℕ) (cur : Node) (p : Name) (a : ℕ) (d : Node)
      → member_below z fuel root value cur (b'.' ∷ p) ≡ at a d
      → get_description (some cur) p ≡ some d
  unfolding member_below get_description skip_dot
  member_below-dot value cur p a d h = elim (Bool-cases (node_type cur == complex_bit)) [
    | inl e ↦ walk_tokens-descend value cur (tokens p) a d (rw (member_below, e, skip_dot) at h)
    | inr e ↦ cc (rw (member_below, e) at h)
  ]

  -- Where the path goes on with a dot behind the name of the item that is taken for it, the node that
  -- comes with the address of a member is the one that the data model has under the whole path.
  pub get_member_pointer-get_description :
      (items : List (Option Item)) (name p : Name) (value a : ℕ) (d : Node)
      → find_item (name ++ (b'.' ∷ p)) none items ≡ some (name, value)
      → get_member_pointer z fuel root (some items) (name ++ (b'.' ∷ p)) ≡ at a d
      → get_description (some root) (name ++ (b'.' ∷ p)) ≡ some d
  unfolding get_member_pointer member_of
  get_member_pointer-get_description items name p value a d f h =
      elim (Option-cases (get_description (some root) name)) [
        | inl e ↦ cc (rw (get_member_pointer, f, member_of, e) at h)
        | inr (n, e) ↦
            rw (get_description-dot root name p, e)
              (member_below-dot value n p a d
                (rw (get_member_pointer, f, member_of, e, drop-append name (b'.' ∷ p)) at h))
      ]
