-- ===== src/Tuple/Whole.antt =====
-- lib/resultset.c, `copyAndCollectTupel`: a tuple is copied to one place, its items one behind the
-- other, each with its value and the memory behind that.
mod Tests
use claosi.Prelude.{
  ℕ, zero, suc, ◌+◌, ◌*◌, ◌≡◌, ◌≢◌, refl, sym, ap, ap₂, ◌∙◌, false, List, [], ◌∷◌, ◌++◌, Option,
  none, some, arith, inl, inr, Option-cases, some_eq,
}
use claosi.Prelude.Names.{Name}
use claosi.Model.{Node}
use claosi.Model.Lookup.{get_with_parents}
use claosi.Model.Types.{PodSizes, Size, bytes, minus_one, failed, get_data_model_size}
use claosi.Tuple.{Memory, TupleSizes, Walked, walked, negative, crash, endless}
use claosi.Tuple.Items.{
  get_item_size, sum, nearest, with_value, value_size, item_size, and_then, items_size, total,
  get_tupel_size,
}
use claosi.Tuple.Collect.{Piece, copy_and_collect_additional_mem}
use claosi.Tuple.Collect.Ends.{end_of, after_sizes, copy_and_collect_additional_mem-get_item_size}

-- A copied item: its name, its place, the place and the size of its value, and the pieces behind it.
pub record ItemImage : Type 0 where
  pub name : Name
  pub item : ℕ
  pub value : ℕ
  pub size : ℕ
  pub pieces : List (ℕ × Piece)

-- The number of items that are not NULL.
unfoldable pub present : List (Option (Name × ℕ)) → ℕ
present [] = 0
present (none ∷ items) = present items
present (some i ∷ items) = suc (present items)

abbrev pub first_image : ItemImage → Option (List ItemImage × ℕ) → Option (List ItemImage × ℕ)
first_image i none = none
first_image i (some (images, end)) = some (i ∷ images, end)

module _ (z : PodSizes) (fuel : ℕ) (root : Node) (m : Memory) (w : TupleSizes) where
  -- The pieces behind a value, once the size of the value is known, and where they end.
  unfoldable pub value_copied : ℕ → Name → ℕ → ℕ → Node → List Node → Size → Option (ItemImage × ℕ)
  value_copied rounds name value free element above minus_one = none
  value_copied rounds name value free element above failed = none
  value_copied rounds name value free element above (bytes b) =
      elim (copy_and_collect_additional_mem z fuel root m rounds (nearest z fuel root m w above)
        value ((free + w.item) + b) element) [
          | none ↦ none
          | some (pieces, end) ↦ some (
            record { name = name; item = free; value = free + w.item; size = b; pieces = pieces },
            end,
          )
        ]

  unfoldable pub copy_item : ℕ → Name → ℕ → ℕ → Option (ItemImage × ℕ)
  copy_item rounds name value free = elim (get_with_parents root name) [
    | none ↦ none
    | some (element, above) ↦
        value_copied rounds name value free element above
          (get_data_model_size z fuel root (some element) false)
  ]

  -- for (i = 0; i < tupel->itemLen; i++), with `newValue`.
  unfoldable pub copy_items : ℕ → List (Option (Name × ℕ)) → ℕ → Option (List ItemImage × ℕ)
  copy_items rounds [] free = some ([], free)
  copy_items rounds (none ∷ items) free = copy_items rounds items free
  copy_items rounds (some (name, value) ∷ items) free = elim (copy_item rounds name value free) [
    | none ↦ none
    | some (image, end) ↦ first_image image (copy_items rounds items end)
  ]

  -- The items stand behind the tuple and the array of pointers to them. `none` is `freeMem == NULL`, or
  -- a name, a type or a value without a size, which the source does not test for again after
  -- getTupelSize.
  unfoldable pub copy_and_collect_tupel :
      ℕ → List (Option (Name × ℕ)) → ℕ → Option (List ItemImage × ℕ)
  copy_and_collect_tupel rounds items zero = none
  copy_and_collect_tupel rounds items (suc free) =
      copy_items rounds items ((suc free + w.tupel) + w.pointer * present items)

  abbrev sum_of : List ℕ → ℕ
  sum_of ns = sum z fuel root m w ns

  sum-append : (ns ms : List ℕ) → sum_of (ns ++ ms) ≡ sum_of ns + sum_of ms
  unfolding sum
  sum-append [] ms = omega arith
  sum-append (n ∷ ns) ms = omega (arith, sum-append ns ms)

  total-walked :
      (r : Walked ℕ) (n : ℕ)
      → total z fuel root m w r ≡ walked (n ∷ [])
      → (ns : List ℕ) × (r ≡ walked ns) × (n ≡ w.tupel + sum_of ns)
  unfolding total
  total-walked (walked ns) n h = (ns, refl, cc h)
  total-walked negative n h = cc h
  total-walked crash n h = cc h
  total-walked endless n h = cc h

  and_then-walked :
      (r s : Walked ℕ) (ns : List ℕ)
      → and_then z fuel root m w r s ≡ walked ns
      → (as' : List ℕ) × (bs : List ℕ) × (r ≡ walked as')
        × (s ≡ walked bs)
        × (sum_of ns ≡ sum_of as' + sum_of bs)
  unfolding and_then
  and_then-walked (walked l) (walked k) ns h =
      let whole : l ++ k ≡ ns = cc h in (l, k, refl, refl, ap sum_of (sym whole) ∙ sum-append l k)
  and_then-walked (walked l) negative ns h = cc h
  and_then-walked (walked l) crash ns h = cc h
  and_then-walked (walked l) endless ns h = cc h
  and_then-walked negative s ns h = cc h
  and_then-walked crash s ns h = cc h
  and_then-walked endless s ns h = cc h

  with_value-walked :
      (b : ℕ) (r : Walked ℕ) (ns : List ℕ)
      → with_value z fuel root m w b r ≡ walked ns
      → (ms : List ℕ) × (r ≡ walked ms) × (sum_of ns ≡ ((b + sum_of ms) + w.item) + w.pointer)
  unfolding with_value sum
  with_value-walked b (walked ms) ns h =
      let one : (((b + sum_of ms) + w.item) + w.pointer) ∷ [] ≡ ns = cc h in
      (ms, refl, ap sum_of (sym one) ∙ omega arith)
  with_value-walked b negative ns h = cc h
  with_value-walked b crash ns h = cc h
  with_value-walked b endless ns h = cc h

  end-some :
      (c : Option (List (ℕ × Piece) × ℕ)) (e : ℕ)
      → end_of z fuel root m w c ≡ some e
      → (ps : List (ℕ × Piece)) × (c ≡ some (ps, e))
  end-some none e h = cc h
  end-some (some (ps, e')) e h = (ps, ap (λ x. some (ps, x)) (some_eq h))

  value_copied-size :
      (rounds : ℕ) (name : Name) (value free : ℕ) (element : Node) (above : List Node) (s : Size)
      (ns : List ℕ)
      → w.pointer ≡ z.size_string
      → value_size z fuel root m w s
          (get_item_size z fuel root m w rounds (nearest z fuel root m w above) value element)
        ≡ walked ns
      → (i : ItemImage) × (end : ℕ) × (value_copied rounds name value free element above s
          ≡ some (i, end))
        × (end + w.pointer ≡ free + sum_of ns)
  unfolding value_copied value_size
  value_copied-size rounds name value free element above minus_one ns p h = cc h
  value_copied-size rounds name value free element above failed ns p h = cc h
  value_copied-size rounds name value free element above (bytes b) ns p h =
      let outer = nearest z fuel root m w above in
      let (ms, sized, sum) =
        with_value-walked b (get_item_size z fuel root m w rounds outer value element) ns h in
      let (ps, copied) =
        end-some
          (copy_and_collect_additional_mem z fuel root m rounds outer value ((free + w.item) + b)
            element)
          (((free + w.item) + b) + sum_of ms)
          (copy_and_collect_additional_mem-get_item_size z fuel root m w rounds outer value
              ((free + w.item) + b) element p
            ∙ ap (after_sizes z fuel root m w ((free + w.item) + b)) sized) in
      (
        record { name = name; item = free; value = free + w.item; size = b; pieces = ps },
        ((free + w.item) + b) + sum_of ms,
        rw (value_copied, copied) refl,
        omega (arith, sum),
      )

  copy_item-size :
      (rounds : ℕ) (name : Name) (value free : ℕ) (ns : List ℕ)
      → w.pointer ≡ z.size_string
      → item_size z fuel root m w rounds name value ≡ walked ns
      → (i : ItemImage) × (end : ℕ) × (copy_item rounds name value free ≡ some (i, end))
        × (end + w.pointer ≡ free + sum_of ns)
  unfolding copy_item item_size
  copy_item-size rounds name value free ns p h = elim (Option-cases (get_with_parents root name)) [
    | inl e ↦ cc (rw (item_size, e) at h)
    | inr (f, e) ↦
        let (i, end, copied, sum) =
          value_copied-size rounds name value free f.0 f.1
            (get_data_model_size z fuel root (some f.0) false) ns p (rw (item_size, e) at h) in
        (i, end, rw (copy_item, e) copied, sum)
  ]

  copy_items-size :
      (rounds : ℕ) (items : List (Option (Name × ℕ))) (free : ℕ) (ns : List ℕ)
      → w.pointer ≡ z.size_string
      → items_size z fuel root m w rounds items ≡ walked ns
      → (is : List ItemImage) × (end : ℕ) × (copy_items rounds items free ≡ some (is, end))
        × (end + w.pointer * present items ≡ free + sum_of ns)
  unfolding copy_items items_size present sum
  copy_items-size rounds [] free ns p h =
      let none_left : [] ≡ ns = cc h in
      let zero_sum : 0 ≡ sum_of ns = ap sum_of none_left in
      ([], free, refl, omega (arith, zero_sum))
  copy_items-size rounds (none ∷ items) free ns p h = copy_items-size rounds items free ns p h
  copy_items-size rounds (some (name, value) ∷ items) free ns p h =
      let (l, k, here, later, split) =
        and_then-walked (item_size z fuel root m w rounds name value)
          (items_size z fuel root m w rounds items) ns h in
      let (i, mid, one, sum1) = copy_item-size rounds name value free l p here in
      let (is, end, rest, sum2) = copy_items-size rounds items mid k p later in
      (i ∷ is, end, rw (copy_items, one, rest) refl, omega (arith, split, sum1, sum2))

  -- If a pointer takes what a string takes in the data model, getTupelSize gives a number and the memory
  -- is not NULL, then the copy of the tuple is made and takes exactly that many bytes.
  pub copy_and_collect_tupel-get_tupel_size :
      (rounds : ℕ) (items : List (Option (Name × ℕ))) (free n : ℕ)
      → w.pointer ≡ z.size_string
      → get_tupel_size z fuel root m w rounds items ≡ walked (n ∷ [])
      → free ≢ 0
      → (is : List ItemImage) × (copy_and_collect_tupel rounds items free ≡ some (is, free + n))
  unfolding copy_and_collect_tupel get_tupel_size
  copy_and_collect_tupel-get_tupel_size rounds items zero n p h some_place =
      absurd (some_place refl)
  copy_and_collect_tupel-get_tupel_size rounds items (suc free) n p h some_place =
      let (ns, sizes, sum) = total-walked (items_size z fuel root m w rounds items) n h in
      let (is, end, copied, ends) =
        copy_items-size rounds items ((suc free + w.tupel) + w.pointer * present items) ns p
          sizes in
      let same : end ≡ suc free + n = omega (arith, sum, ends) in
      (is, copied ∙ ap (λ e. some (is, e)) same)
