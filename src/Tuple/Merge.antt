-- ===== src/Tuple/Merge.antt =====
-- lib/resultset.c, `mergeTuple` and `deleteItem`: the items of a tuple are moved to another one.
mod Tests
use claosi.Prelude.{
  ℕ, zero, suc, ◌-◌, ◌≡◌, refl, sym, ap, ap₂, ◌∙◌, arith, append-nil, Bool, true, false, Bool-cases,
  Option-cases, List, [], ◌∷◌, ◌++◌, Option, none, some, inl, inr, map, replicate, length, set,
  get_elem?, is_none, if◌then◌else◌,
}
use claosi.Prelude.Names.{Name, name_eq}
use claosi.Model.{Node}
use claosi.Model.Lookup.{get_description}
use claosi.Tuple.Member.{Item}

-- An item pointer: NULL, an item, an item that was freed, or what REALLOC has left there.
pub data Slot : Type 0 where
  null : Slot
  holds : Item → Slot
  dangling : Item → Slot
  unset : Slot

abbrev pub slot : Option Item → Slot
slot none = null
slot (some i) = holds i

-- Is there an item of the name? `none` is a read through NULL.
unfoldable pub has_item : Name → List (Option Item) → Option Bool
has_item name [] = some false
has_item name (none ∷ items) = none
has_item name (some i ∷ items) = if name_eq name i.0 then some true else has_item name items

-- The slots of `tupleB` after the first loop, `newItems`, and the items handed to `freeItem` and FREE.
pub record Counted : Type 0 where
  pub slots : List Slot
  pub new_items : ℕ
  pub freed : List Item

abbrev pub counted : Slot → Counted → Counted
counted s c = record c { slots = s ∷ c.slots; new_items = suc c.new_items }

abbrev pub skipped : Item → Counted → Counted
skipped i c = record c { slots = null ∷ c.slots; freed = i ∷ c.freed }

abbrev pub lost : Item → Counted → Counted
lost i c = record c {
  slots = dangling i ∷ c.slots;
  new_items = suc c.new_items;
  freed = i ∷ c.freed;
}

abbrev pub put_first : Option Counted → (Counted → Counted) → Option Counted
put_first none f = none
put_first (some c) f = some (f c)

module _ (root : Node) where
  -- An item that is already present is freed; one that the data model does not know stays in its slot.
  unfoldable pub slot_counted : Item → Option Bool → Counted → Option Counted
  slot_counted i none c = none
  slot_counted i (some false) c = some (counted (holds i) c)
  slot_counted i (some true) c = elim (get_description (some root) i.0) [
    | none ↦ some (lost i c)
    | some e ↦ some (skipped i c)
  ]

  -- strcmp(tupleB->items[i]->name,…), which a tuple without items does not come to.
  unfoldable pub null_counted : List (Option Item) → Counted → Option Counted
  null_counted [] c = some (counted null c)
  null_counted (a ∷ as') c = none

  unfoldable pub count_items : List (Option Item) → List (Option Item) → Option Counted
  count_items as' [] = some (record { slots = []; new_items = 0; freed = [] })
  count_items as' (b ∷ bs) = elim (count_items as' bs) [
    | none ↦ none
    | some c ↦ elim b [ none ↦ null_counted as' c | some i ↦ slot_counted i (has_item i.0 as') c ]
  ]

-- The pointers that are not NULL.
unfoldable pub moved : List Slot → List Slot
moved [] = []
moved (null ∷ ss) = moved ss
moved (s ∷ ss) = s ∷ moved ss

-- 0, -1, or a read through NULL. A -1 comes after the first loop.
pub data Merged : Type 0 where
  merged : List Slot → List Item → Merged
  failed : List Slot → List Item → Merged
  crash : Merged

-- Whether addItem succeeds: `tupleA` is not compact, and REALLOC has memory.
unfoldable pub merge_tuple : Node → Bool → List (Option Item) → List (Option Item) → Merged
merge_tuple root grows as' bs = elim (count_items root as' bs) [
  | none ↦ crash
  | some c ↦
      if grows
      then merged
          (map slot as'
            ++ (moved c.slots ++ replicate (c.new_items - length (moved c.slots)) unset))
          c.freed
      else failed (map slot as') c.freed
]

-- tupel->items[slot] = NULL, with the item that is freed, unless the tuple is compact. `none` is a
-- slot that is out of range or NULL already.
unfoldable pub delete_item : Bool → List (Option Item) → ℕ → Option (List (Option Item) × List Item)
delete_item compact items i = elim (get_elem? items i) [
  | none ↦ none
  | some none ↦ if compact then some (set items i none, []) else none
  | some (some it) ↦ some (set items i none, if compact then [] else it ∷ [])
]

-- The items that are to come, and those that are there already.
unfoldable pub fresh : List (Option Item) → List Item → List Item
fresh as' [] = []
fresh as' (b ∷ bs) = elim (has_item b.0 as') [
  | some true ↦ fresh as' bs
  | some false ↦ b ∷ fresh as' bs
  | none ↦ fresh as' bs
]

unfoldable pub known : List (Option Item) → List Item → List Item
known as' [] = []
known as' (b ∷ bs) = elim (has_item b.0 as') [
  | some true ↦ b ∷ known as' bs
  | some false ↦ known as' bs
  | none ↦ known as' bs
]

has_item-some :
    (name : Name) (as' : List Item) → (b : Bool) × (has_item name (map some as') ≡ some b)
unfolding has_item
has_item-some name [] = (false, refl)
has_item-some name (a ∷ as') = elim (Bool-cases (name_eq name a.0)) [
  | inl e ↦ (true, rw (has_item, e) refl)
  | inr e ↦ let (b, h) = has_item-some name as' in (b, rw (has_item, e) h)
]

-- The data model knows the names of all these items.
unfoldable pub described : Node → List Item → Bool
described root [] = true
described root (b ∷ bs) =
    let rest = described root bs in
    if is_none (get_description (some root) b.0) then false else rest

length-map : {A B : Type 0} (f : A → B) (xs : List A) → length (map f xs) ≡ length xs
length-map f [] = refl
length-map f (x ∷ xs) = ap suc (length-map f xs)

module _ (root : Node) (as' : List Item) where
  abbrev items : List (Option Item)
  items = map some as'

  count_items-fresh :
      (bs : List Item)
      → described root bs ≡ true
      → (c : Counted) × (count_items root items (map some bs) ≡ some c)
        × (moved c.slots ≡ map holds (fresh items bs))
        × (c.new_items ≡ length (fresh items bs))
        × (c.freed ≡ known items bs)
  unfolding count_items moved fresh known described slot_counted
  count_items-fresh [] d =
      (record { slots = []; new_items = 0; freed = [] }, refl, refl, refl, refl)
  count_items-fresh (b ∷ bs) d = elim (Option-cases (get_description (some root) b.0)) [
    | inl e ↦ cc (rw (described, e) at d)
    | inr (n, e) ↦
        let (c, runs, slots, new, freed) = count_items-fresh bs (rw (described, e) at d) in
        let (found, f) = has_item-some b.0 as' in pick found n c f e runs slots new freed
  ]
    where
      pick :
          (found : Bool) (n : Node) (c : Counted)
          → has_item b.0 items ≡ some found
          → get_description (some root) b.0 ≡ some n
          → count_items root items (map some bs) ≡ some c
          → moved c.slots ≡ map holds (fresh items bs)
          → c.new_items ≡ length (fresh items bs)
          → c.freed ≡ known items bs
          → (c' : Counted) × (count_items root items (map some (b ∷ bs)) ≡ some c')
            × (moved c'.slots ≡ map holds (fresh items (b ∷ bs)))
            × (c'.new_items ≡ length (fresh items (b ∷ bs)))
            × (c'.freed ≡ known items (b ∷ bs))
      pick true n c f e runs slots new freed = (
        skipped b c,
        rw (count_items, runs, f, slot_counted, e) refl,
        rw (fresh, f) slots,
        rw (fresh, f) new,
        rw (known, f) (ap (λ l. b ∷ l) freed),
      )
      pick false n c f e runs slots new freed = (
        counted (holds b) c,
        rw (count_items, runs, f, slot_counted) refl,
        rw (fresh, f) (ap (λ l. holds b ∷ l) slots),
        rw (fresh, f) (ap suc new),
        rw (known, f) freed,
      )

  -- Of two tuples without NULL items, whose second one has items that the data model knows, the merge
  -- returns 0 if the first one can grow. The first one then has its items and behind them, in their
  -- order, those of the second one of which it has no item of the name; the others of the second one
  -- are freed.
  pub merge_tuple-fresh :
      (bs : List Item)
      → described root bs ≡ true
      → merge_tuple root true items (map some bs)
        ≡ merged (map slot items ++ map holds (fresh items bs)) (known items bs)
  unfolding merge_tuple
  merge_tuple-fresh bs d =
      let (c, runs, slots, new, freed) = count_items-fresh bs d in
      let room : c.new_items - length (moved c.slots) ≡ 0 =
        omega (arith, new, ap length slots, length-map holds (fresh items bs)) in
      rw (merge_tuple, runs)
        (ap₂ (λ x f. merged (map slot items ++ x) f)
          (ap₂ (λ s k. s ++ replicate k unset) slots room ∙ append-nil (map holds (fresh items bs)))
          freed)
