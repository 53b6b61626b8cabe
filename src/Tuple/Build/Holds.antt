-- ===== src/Tuple/Build/Holds.antt =====
-- An item that was allocated holds its members.
use claosi.Prelude.{
  ℕ, zero, suc, ◌+◌, ◌≤◌, ◌<◌, ◌≡◌, refl, sym, ap, ◌∙◌, arith, Bool, true, Bool-cases, [], ◌∷◌,
  ◌++◌, Option, none, some, ltb, some_eq, length, set, replicate, length-replicate, inl, inr,
}
use claosi.Prelude.Names.{Name, name_eq}
use claosi.Model.{
  Node, header, node_type, complex_bit, Kind, data_model_type, model, namespace, source, event,
  object, ref, complex, plain,
}
use claosi.Model.Lookup.{get_description}
use claosi.Model.Types.{
  PodSizes, Size, bytes, minus_one, failed, get_data_model_size, size_of_member, resolve_type,
  resolve_round, type_is, sized_as,
}
use claosi.Tuple.{TupleSizes}
use claosi.Tuple.Member.{
  Item, starts_with, strstr, find_item, at, get_member_pointer, member_of, member_below,
}
use claosi.Tuple.Member.Finds.{drop-append}
use claosi.Tuple.Member.Bounds.{structured_node, get_member_pointer_within, structure_size}
use claosi.Tuple.Access.{Tupel}
use claosi.Tuple.Build.{init_tupel, allocated, fill_slot, sized_item, alloc_item}

starts_with-append : (n rest : Name) → starts_with n (n ++ rest) ≡ true
unfolding starts_with
starts_with-append [] rest = refl
starts_with-append (c ∷ n) rest = ground (arith, starts_with-append n rest)

strstr-append : (n rest : Name) → strstr n (n ++ rest) ≡ true
unfolding strstr starts_with
strstr-append [] [] = refl
strstr-append [] (c ∷ rest) = refl
strstr-append (c ∷ n) rest = rw (strstr, starts_with-append (c ∷ n) rest) refl

find_item-empty :
    (path : Name) (best : Option Item) (n : ℕ) → find_item path best (replicate n none) ≡ best
unfolding find_item
find_item-empty path best zero = refl
find_item-empty path best (suc n) = find_item-empty path best n

-- An item that stands alone is found by every path that begins with its name.
find_item-alone :
    (name rest : Name) (value n slot : ℕ)
    → slot < n
    → find_item (name ++ rest) none (set (replicate n none) slot (some (name, value)))
      ≡ some (name, value)
unfolding find_item
find_item-alone name rest value zero slot h = absurd (omega arith)
find_item-alone name rest value (suc n) zero h = elim (Bool-cases (name_eq (name ++ rest) name)) [
  | inl e ↦ rw (find_item, e) refl
  | inr e ↦
      rw (find_item, e, strstr-append name rest)
        (find_item-empty (name ++ rest) (some (name, value)) n)
]
find_item-alone name rest value (suc n) (suc slot) h =
    find_item-alone name rest value n slot (omega arith)

resolves : (k : Kind) → data_model_type k ≡ complex_bit → resolve_round k ≡ type_is complex_bit
unfolding resolve_round
resolves (model i) h = absurd (omega (arith, h))
resolves (namespace i) h = absurd (omega (arith, h))
resolves (source i) h = absurd (omega (arith, h))
resolves (event i) h = absurd (omega (arith, h))
resolves (object i) h = absurd (omega (arith, h))
resolves (ref i) h = absurd (omega (arith, h))
resolves (complex i) h = refl
resolves (plain t i) h = ap type_is h

-- A structure takes the same whether it is sized as a member or by itself.
structure_bytes :
    (z : PodSizes) (fuel : ℕ) (root n : Node) (ignore : Bool)
    → node_type n ≡ complex_bit
    → get_data_model_size z (suc fuel) root (some n) ignore ≡ size_of_member z (suc fuel) root n
unfolding get_data_model_size resolve_type sized_as
structure_bytes z fuel root n ignore e =
    rw (get_data_model_size, resolve_type, resolves (header n).kind e)
      (sym (structure_size z (suc fuel) root n e))

fill_slot-allocated :
    (w : TupleSizes) (t t' : Tupel) (slot mem b size : ℕ) (name : Name) (block : Option ℕ)
    → fill_slot w t slot name size block ≡ allocated t' mem b
    → (b ≡ size)
      × (slot < length t.items)
      × (t'.items ≡ set t.items slot (some (name, mem + w.item)))
unfolding fill_slot
fill_slot-allocated w t t' slot mem b size name none h = cc h
fill_slot-allocated w t t' slot mem b size name (some a) h =
    elim (Bool-cases (ltb slot (length t.items))) [
      | inl e ↦
          let filled = rw (fill_slot, e) at h in
          let here : a ≡ mem = cc filled in
          let tuple : record t { items = set t.items slot (some (name, a + w.item)) } ≡ t' =
            cc filled in
          (
            cc filled,
            ground arith,
            sym (ap (λ x. x.items) tuple)
                ∙ ap (λ x. set t.items slot (some (name, x + w.item))) here,
          )
      | inr e ↦ cc (rw (fill_slot, e) at h)
    ]

module _ (z : PodSizes) (fuel : ℕ) (root : Node) (w : TupleSizes) (alloc : ℕ → Option ℕ) where
  -- What an allocation that succeeds has done.
  alloc_item-allocated :
      (t t' : Tupel) (slot mem b : ℕ) (name : Name) (n : Node)
      → get_description (some root) name ≡ some n
      → alloc_item z fuel root w alloc t slot name ≡ allocated t' mem b
      → (size : ℕ) × (get_data_model_size z fuel root (some n) true ≡ bytes size)
        × (b ≡ w.item + size)
        × (slot < length t.items)
        × (t'.items ≡ set t.items slot (some (name, mem + w.item)))
  unfolding alloc_item sized_item
  alloc_item-allocated t t' slot mem b name n e h = elim (Bool-cases t.compact) [
    | inl c ↦ cc (rw (alloc_item, c) at h)
    | inr c ↦ pick (get_data_model_size z fuel root (some n) true) refl (rw (alloc_item, c, e) at h)
  ]
    where
      pick :
          (s : Size)
          → get_data_model_size z fuel root (some n) true ≡ s
          → sized_item z fuel root w alloc t slot name s ≡ allocated t' mem b
          → (size : ℕ) × (get_data_model_size z fuel root (some n) true ≡ bytes size)
            × (b ≡ w.item + size)
            × (slot < length t.items)
            × (t'.items ≡ set t.items slot (some (name, mem + w.item)))
      pick minus_one q g = cc g
      pick failed q g = cc g
      pick (bytes size) q g =
          let (block, inside, items) =
            fill_slot-allocated w t t' slot mem b (w.item + size) name (alloc (w.item + size)) g in
          (size, q, block, inside, items)

-- In a tuple of empty slots, let an item be allocated for a structure below which only structures have
-- children, and let the rest of a path, from the item's value on, lead to an address and a node. Then getMemberPointer leads to
-- just these for the path that is the item's name and that rest, and the member is within the block of
-- the item, behind the item itself, with all of its bytes.
pub alloc_item-get_member_pointer :
    (z : PodSizes) (fuel : ℕ) (root : Node) (w : TupleSizes) (alloc : ℕ → Option ℕ)
    (num_items slot mem b a : ℕ) (t t' : Tupel) (name rest : Name) (n d : Node)
    → init_tupel true num_items ≡ some t
    → get_description (some root) name ≡ some n
    → structured_node n ≡ true
    → node_type n ≡ complex_bit
    → alloc_item z (suc fuel) root w alloc t slot name ≡ allocated t' mem b
    → member_below z (suc fuel) root (mem + w.item) n rest ≡ at a d
    → (get_member_pointer z (suc fuel) root (some t'.items) (name ++ rest) ≡ at a d)
      × (u : ℕ) × (size_of_member z (suc fuel) root d ≡ bytes u)
      × (mem + w.item ≤ a)
      × (a + u ≤ mem + b)
unfolding init_tupel get_member_pointer member_of
alloc_item-get_member_pointer z fuel root w alloc num_items slot mem b a t t' name rest n d i e ok c
      h g =
    let empty : replicate num_items none ≡ t.items = ap (λ x. x.items) (some_eq i) in
    let (size, sized, block, inside, items) =
      alloc_item-allocated z (suc fuel) root w alloc t t' slot mem b name n e h in
    let within : slot < num_items =
      omega (arith, ap length (sym empty), length-replicate {A = Option Item} num_items none) in
    let only : t'.items ≡ set (replicate num_items none) slot (some (name, mem + w.item)) =
      items ∙ ap (λ l. set l slot (some (name, mem + w.item))) (sym empty) in
    let found =
      ap (find_item (name ++ rest) none) only
      ∙ find_item-alone name rest (mem + w.item) num_items slot within in
    let leads : get_member_pointer z (suc fuel) root (some t'.items) (name ++ rest) ≡ at a d =
      rw (get_member_pointer, found, member_of, e, drop-append name rest) g in
    let (u, eu, lo, hi) =
      get_member_pointer_within z (suc fuel) root t'.items name rest (mem + w.item) a size n d found
        e ok (sym (structure_bytes z fuel root n true c) ∙ sized) leads in
    (leads, u, eu, lo, omega arith)
