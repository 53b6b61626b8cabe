-- ===== src/Tuple/Member/Bounds.antt =====
-- Where the members of a structure lie that `getMemberPointer` steps into.
use claosi.Prelude.{
  ℕ, ◌+◌, ◌≤◌, ◌≡◌, refl, sym, ap, subst, ◌∙◌, Bool, true, false, ◌&&◌, ◌||◌, not, List, [], ◌∷◌,
  ◌++◌, Option, none, some, inl, inr, Bool-cases, Option-cases, and-left, and-right, some_eq, ◌==◌,
  ==_iff, arith,
}
use claosi.Prelude.Names.{Name, tokens, name_eq, name_eq_refl, name_eq→eq}
use claosi.Model.{
  Node, Forest, node, nil, cons, header, children, has_any, node_type, data_model_type, complex_bit,
}
use claosi.Model.Lookup.{child_named, get_description}
use claosi.Model.Types.{
  PodSizes, Size, bytes, minus_one, failed, plus, get_complex_type_offset, get_complex_type_size,
  size_of_member, member_size,
}
use claosi.Model.Types.Layout.{total-cons}
use claosi.Tuple.Member.{
  Item, skip_dot, find_item, at, walk_tokens, member_below, member_of, get_member_pointer,
}
use claosi.Tuple.Member.Finds.{drop-append}

-- Only structures have members: every node that has children is COMPLEX.
unfoldable pub structured : Forest → Bool
structured nil = true
structured (cons (node h cs) fs) =
    ((not (has_any cs) || (data_model_type h.kind == complex_bit)) && structured cs)
    && structured fs

abbrev pub structured_node : Node → Bool
structured_node n =
    (not (has_any (children n)) || (node_type n == complex_bit)) && structured (children n)

name_eq_sym : (a b : Name) → name_eq a b ≡ true → name_eq b a ≡ true
name_eq_sym a b h = rw (name_eq→eq a b h) (name_eq_refl b)

name_eq_sym_false : (a b : Name) → name_eq a b ≡ false → name_eq b a ≡ false
name_eq_sym_false a b h = elim (Bool-cases (name_eq b a)) [
  | inl e ↦ cc (h, name_eq_sym b a e)
  | inr e ↦ e
]

structured-child :
    (t : Name) (fs : Forest) (c : Node)
    → structured fs ≡ true
    → child_named t fs ≡ some c
    → structured_node c ≡ true
unfolding structured child_named
structured-child t nil c s h = cc h
structured-child t (cons (node g cs) fs) c s h = elim (Bool-cases (name_eq t g.name)) [
  | inl e ↦
      subst (λ x. structured_node x ≡ true) (some_eq (rw (child_named, e) at h)) (and-left _ _ s)
  | inr e ↦ structured-child t fs c (and-right _ _ s) (rw (child_named, e) at h)
]

module _ (z : PodSizes) (fuel : ℕ) (root : Node) where
  -- The sizes of the two parts of a sum that is a number.
  parts :
      (s t : Size) (n : ℕ)
      → plus s t ≡ bytes n
      → (a : ℕ) × (b : ℕ) × (s ≡ bytes a) × (t ≡ bytes b) × (n ≡ a + b)
  parts (bytes a) (bytes b) n h = (a, b, refl, refl, cc h)
  parts (bytes a) minus_one n h = cc h
  parts (bytes a) failed n h = cc h
  parts minus_one t n h = cc h
  parts failed t n h = cc h

  -- A member that is found by its name lies within its structure.
  child_within :
      (t : Name) (fs : Forest) (c : Node) (o s : ℕ)
      → child_named t fs ≡ some c
      → get_complex_type_offset z fuel root fs t ≡ bytes o
      → get_complex_type_size z fuel root fs ≡ bytes s
      → (u : ℕ) × (size_of_member z fuel root c ≡ bytes u) × (o + u ≤ s)
  unfolding child_named get_complex_type_offset
  child_within t nil c o s f g h = cc f
  child_within t (cons n fs) c o s f g h =
      let (a, b, ea, eb, en) =
        parts (size_of_member z fuel root n) (get_complex_type_size z fuel root fs) s
          (sym (total-cons z fuel root n fs) ∙ h) in
      elim (Bool-cases (name_eq t (header n).name)) [
        | inl e ↦
            let it : n ≡ c = some_eq (rw (child_named, e) at f) in
            let at_start : 0 ≡ o =
              cc (rw (get_complex_type_offset, name_eq_sym t (header n).name e) at g) in
            (a, ap (size_of_member z fuel root) (sym it) ∙ ea, omega arith)
        | inr e ↦
            let (a', o', fa, fo, fn) =
              parts (size_of_member z fuel root n) (get_complex_type_offset z fuel root fs t) o
                (rw (get_complex_type_offset, name_eq_sym_false t (header n).name e) at g) in
            let (u, eu, le) = child_within t fs c o' b (rw (child_named, e) at f) fo eb in
            let same : a ≡ a' = cc (ea, fa) in (u, eu, omega arith)
      ]

  pub structure_size :
      (c : Node)
      → node_type c ≡ complex_bit
      → size_of_member z fuel root c ≡ get_complex_type_size z fuel root (children c)
  unfolding size_of_member member_size
  structure_size (node h cs) e = rw e refl

  has_child : (t : Name) (fs : Forest) (c : Node) → child_named t fs ≡ some c → has_any fs ≡ true
  unfolding child_named
  has_child t nil c h = cc h
  has_child t (cons n fs) c h = refl

  structure_of :
      (cur : Node)
      → structured_node cur ≡ true
      → has_any (children cur) ≡ true
      → node_type cur ≡ complex_bit
  structure_of (node g cs) ok h = (==_iff (data_model_type g.kind) complex_bit).0 (
      rw h at
        (and-left (not (has_any cs) || (data_model_type g.kind == complex_bit)) (structured cs) ok))

  -- A node whose size is a number holds all that can be reached from it: the address lies in it, with
  -- the whole size of the node that comes with it.
  walk_tokens_within :
      (value : ℕ) (cur : Node) (ts : List Name) (a s : ℕ) (d : Node)
      → structured_node cur ≡ true
      → size_of_member z fuel root cur ≡ bytes s
      → walk_tokens z fuel root value cur ts ≡ at a d
      → (u : ℕ) × (size_of_member z fuel root d ≡ bytes u) × (value ≤ a) × (a + u ≤ value + s)
  unfolding walk_tokens
  walk_tokens_within value cur [] a s d ok t h =
      let here : value ≡ a = cc h in
      let it : cur ≡ d = cc h in
      (s, ap (size_of_member z fuel root) (sym it) ∙ t, omega arith, omega arith)
  walk_tokens_within value cur (n ∷ ts) a s d ok t h =
      pick (get_complex_type_offset z fuel root (children cur) n) refl
        (λ o c u. walk_tokens_within (value + o) c ts a u d)
    where
      Within : ℕ → ℕ → Type 0
      Within from room =
          (u : ℕ) × (size_of_member z fuel root d ≡ bytes u) × (from ≤ a) × (a + u ≤ from + room)

      pick :
          (o : Size)
          → get_complex_type_offset z fuel root (children cur) n ≡ o
          → ((o : ℕ) (c : Node) (u : ℕ)
              → structured_node c ≡ true
              → size_of_member z fuel root c ≡ bytes u
              → walk_tokens z fuel root (value + o) c ts ≡ at a d
              → Within (value + o) u)
          → Within value s
      pick minus_one q below = cc (rw (walk_tokens, q) at h)
      pick failed q below = cc (rw (walk_tokens, q) at h)
      pick (bytes o) q below = elim (Option-cases (child_named n (children cur))) [
        | inl e ↦ cc (rw (walk_tokens, q, e) at h)
        | inr (c, e) ↦
            let total =
              sym (structure_size cur (structure_of cur ok (has_child n (children cur) c e))) ∙ t in
            let (u, eu, le) = child_within n (children cur) c o s e q total in
            let (v, ev, lo, hi) =
              below o c u
                (structured-child n (children cur) c
                  (and-right (not (has_any (children cur)) || (node_type cur == complex_bit))
                    (structured (children cur)) ok)
                  e)
                eu (rw (walk_tokens, q, e) at h) in
            (v, ev, omega arith, omega arith)
      ]

  below_within :
      (value : ℕ) (cur : Node) (rest : Name) (a s : ℕ) (d : Node)
      → structured_node cur ≡ true
      → size_of_member z fuel root cur ≡ bytes s
      → member_below z fuel root value cur rest ≡ at a d
      → (u : ℕ) × (size_of_member z fuel root d ≡ bytes u) × (value ≤ a) × (a + u ≤ value + s)
  unfolding member_below
  below_within value cur [] a s d ok t h =
      walk_tokens_within value cur [] a s d ok t (unfold walk_tokens in h)
  below_within value cur (c ∷ cs) a s d ok t h = elim (Bool-cases (node_type cur == complex_bit)) [
    | inl e ↦
        walk_tokens_within value cur (tokens (skip_dot (c ∷ cs))) a s d ok t
          (rw (member_below, e) at h)
    | inr e ↦ cc (rw (member_below, e) at h)
  ]

  -- A path that goes on behind the name of an item of a structure leads into the bytes of the value,
  -- and all of the member that it leads to is within them.
  pub get_member_pointer_within :
      (items : List (Option Item)) (name rest : Name) (value a s : ℕ) (n d : Node)
      → find_item (name ++ rest) none items ≡ some (name, value)
      → get_description (some root) name ≡ some n
      → structured_node n ≡ true
      → size_of_member z fuel root n ≡ bytes s
      → get_member_pointer z fuel root (some items) (name ++ rest) ≡ at a d
      → (u : ℕ) × (size_of_member z fuel root d ≡ bytes u) × (value ≤ a) × (a + u ≤ value + s)
  unfolding get_member_pointer member_of
  get_member_pointer_within items name rest value a s n d f e ok t h =
      below_within value n rest a s d ok t
        (rw (get_member_pointer, f, member_of, e, drop-append name rest) at h)
