-- ===== src/Tuple/Items.antt =====
-- lib/resultset.c, `getItemSize`, `getTupelSize` and `freeItem`.
use claosi.Prelude.{
  ℕ, zero, suc, ◌+◌, ◌*◌, true, false, ◌&&◌, List, [], ◌∷◌, ◌++◌, Option, none, some, if◌then◌else◌,
}
use claosi.Prelude.Names.{Name}
use claosi.Model.{Node, string_bit, array_bit, complex_bit}
use claosi.Model.Lookup.{get_with_parents}
use claosi.Model.Syntax.{has_bits}
use claosi.Model.Types.{
  PodSizes, Resolved, resolved, null_read, unending, resolve_type, Size, bytes, minus_one, failed,
  get_data_model_size,
}
use claosi.Tuple.{
  Memory, TupleSizes, Kind, leaf, structure, no_size, no_type, Walked, walked, negative, crash,
  walk_item,
}

module _ (z : PodSizes) (fuel : ℕ) (root : Node) (m : Memory) (w : TupleSizes) where
  -- The strings of an array from the k-th pointer on, `n` of them.
  unfoldable pub strings : ℕ → ℕ → List ℕ
  strings zero a = []
  strings (suc n) a = m.word a ∷ strings n (a + z.size_string)

  unfoldable pub lengths : List ℕ → ℕ
  lengths [] = 0
  lengths (s ∷ ss) = (m.strlen s + 1) + lengths ss

  abbrev pub array_length : ℕ → ℕ
  array_length a = m.int (m.word a)

  unfoldable pub array_size : ℕ → Size → Kind ℕ
  array_size len (bytes b) = leaf (len * b + z.size_int)
  array_size len minus_one = no_size
  array_size len failed = no_type

  -- The branches of `getItemSize`.
  unfoldable pub size_kind : Node → ℕ → Resolved → Kind ℕ
  size_kind n a null_read = no_type
  size_kind n a unending = no_type
  size_kind n a (resolved t) =
      if has_bits t string_bit && has_bits t array_bit
      then leaf (
          array_length a * w.pointer
          + z.size_int
          + lengths (strings (array_length a) (m.word a + z.size_int)))
      else if has_bits t array_bit
      then array_size (array_length a) (get_data_model_size z fuel root (some n) true)
      else if has_bits t string_bit
      then leaf (m.strlen (m.word a) + 1)
      else if has_bits t complex_bit
      then structure
      else leaf 0

  -- The branches of `freeItem`: the addresses handed to `FREE`.
  unfoldable pub free_kind : ℕ → Resolved → Kind (List ℕ)
  free_kind a null_read = no_type
  free_kind a unending = no_type
  free_kind a (resolved t) =
      if has_bits t string_bit && has_bits t array_bit
      then leaf (strings (array_length a) (m.word a + z.size_int) ++ (m.word a ∷ []))
      else if has_bits t array_bit
      then leaf (m.word a ∷ [])
      else if has_bits t string_bit
      then leaf (m.word a ∷ [])
      else if has_bits t complex_bit
      then structure
      else leaf []

  unfoldable pub get_item_size : ℕ → Option Node → ℕ → Node → Walked ℕ
  get_item_size rounds outer value element =
      walk_item z fuel root true (λ n a. size_kind n a (resolve_type fuel root (some n))) outer
        rounds value element

  unfoldable pub free_item : ℕ → Option Node → ℕ → Node → Walked (List ℕ)
  free_item rounds outer value element =
      walk_item z fuel root false (λ n a. free_kind a (resolve_type fuel root (some n))) outer
        rounds value element

  unfoldable pub sum : List ℕ → ℕ
  sum [] = 0
  sum (n ∷ ns) = n + sum ns

  abbrev pub nearest : List Node → Option Node
  nearest [] = none
  nearest (n ∷ ns) = some n

  -- The bytes of an item whose value takes `b` itself.
  unfoldable pub with_value : ℕ → Walked ℕ → Walked ℕ
  with_value b (walked ns) = walked ((b + sum ns + w.item + w.pointer) ∷ [])
  with_value b r = r

  unfoldable pub value_size : Size → Walked ℕ → Walked ℕ
  value_size (bytes b) r = with_value b r
  value_size minus_one r = negative
  value_size failed r = crash

  -- An item, by its name and the address of its value.
  unfoldable pub item_size : ℕ → Name → ℕ → Walked ℕ
  item_size rounds name value = elim (get_with_parents root name) [
    | none ↦ negative
    | some (element, above) ↦
        value_size (get_data_model_size z fuel root (some element) false)
          (get_item_size rounds (nearest above) value element)
  ]

  unfoldable pub and_then : Walked ℕ → Walked ℕ → Walked ℕ
  and_then (walked ns) (walked ms) = walked (ns ++ ms)
  and_then (walked ns) r = r
  and_then r s = r

  -- The sizes of all items that are not NULL.
  unfoldable pub items_size : ℕ → List (Option (Name × ℕ)) → Walked ℕ
  items_size rounds [] = walked []
  items_size rounds (none ∷ items) = items_size rounds items
  items_size rounds (some (name, value) ∷ items) =
      and_then (item_size rounds name value) (items_size rounds items)

  unfoldable pub total : Walked ℕ → Walked ℕ
  total (walked ns) = walked ((w.tupel + sum ns) ∷ [])
  total r = r

  -- `getTupelSize`: one number, or what stops it.
  unfoldable pub get_tupel_size : ℕ → List (Option (Name × ℕ)) → Walked ℕ
  get_tupel_size rounds items = total (items_size rounds items)
