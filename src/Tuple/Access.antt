-- ===== src/Tuple/Access.antt =====
-- include/resultset.h: the functions that set and get an item of a tuple, `setItem…`, `getItem…` and
-- `setItemArray`. `none` is a read through NULL.
pub mod Slots
pub mod Kept
pub mod Copied
mod Tests
use claosi.Prelude.{
  ℕ, zero, suc, ◌+◌, ◌-◌, ◌*◌, ◌%◌, Bool, true, false, List, Option, none, some, ◌==◌,
  if◌then◌else◌,
}
use claosi.Prelude.Names.{Name}
use claosi.Prelude.Int.{ℤ, pos, negsuc}
use claosi.Model.{Node}
use claosi.Model.Types.{PodSizes, Size, bytes, minus_one, failed, get_data_model_size}
use claosi.Tuple.Bytes.{Bytes, load, store, limit, load_int, store_int}
use claosi.Tuple.Member.{Item, Member, at, missing, lost, get_member_pointer}

-- A `Tupel_t`: its items, and whether TUPLE_COMPACT is set. A tuple in a list has a `next` that is
-- not modelled here.
pub record Tupel : Type 0 where
  pub items : List (Option Item)
  pub compact : Bool

abbrev pub items_of : Option Tupel → Option (List (Option Item))
items_of none = none
items_of (some t) = some t.items

-- TEST_BIT(tupel->flags,TUPLE_COMPACT), of a tuple that has a member and so is not NULL.
abbrev pub is_compact : Option Tupel → Bool
is_compact none = false
is_compact (some t) = t.compact

-- if (valuePtr == NULL) return missed; else go on.
abbrev pub if_found : {A : Type 0} → A → Member → (ℕ → Node → Option A) → Option A
if_found missed missing k = some missed
if_found missed lost k = none
if_found missed (at a n) k = k a n

-- A double by its bits, or the -1 of `getItemFloat`.
pub data Double : Type 0 where
  stored : ℕ → Double
  double_minus_one : Double

-- num * size + sizeof(int), for ALLOC; an error of -1 is multiplied like a size.
unfoldable pub array_bytes : PodSizes → ℤ → Size → Option ℕ
array_bytes z num failed = none
array_bytes z (pos n) (bytes b) = some (n * b + z.size_int)
array_bytes z (negsuc n) (bytes b) =
    some (((limit z.size_array + z.size_int) - suc n * b) % limit z.size_array)
array_bytes z (pos n) minus_one =
    some (((limit z.size_array + z.size_int) - n) % limit z.size_array)
array_bytes z (negsuc n) minus_one = some (suc n + z.size_int)

module _ (z : PodSizes) (fuel : ℕ) (root : Node) where
  abbrev pub member : Option Tupel → Name → Member
  member tuple path = get_member_pointer z fuel root (items_of tuple) path

  unfoldable pub set_item_int : Bytes → Option Tupel → Name → ℤ → Option Bytes
  set_item_int m tuple path value =
      if_found m (member tuple path) λ a n. some (store_int m a z.size_int value)

  unfoldable pub set_item_byte : Bytes → Option Tupel → Name → ℕ → Option Bytes
  set_item_byte m tuple path value =
      if_found m (member tuple path) λ a n. some (store m a z.size_byte value)

  unfoldable pub set_item_float : Bytes → Option Tupel → Name → ℕ → Option Bytes
  set_item_float m tuple path value =
      if_found m (member tuple path) λ a n. some (store m a z.size_float value)

  unfoldable pub set_item_string : Bytes → Option Tupel → Name → ℕ → Option Bytes
  set_item_string m tuple path value =
      if_found m (member tuple path)
        λ a n. if is_compact tuple then some m else some (store m a z.size_string value)

  -- The pointer that ALLOC returns is stored in the member, NULL too; the length goes to its front.
  unfoldable pub place_array : Bytes → ℕ → ℤ → Option ℕ → Bytes
  place_array m a num none = store m a z.size_array 0
  place_array m a num (some p) = store_int (store m a z.size_array p) p z.size_int num

  unfoldable pub set_item_array : (ℕ → Option ℕ) → Bytes → Option Tupel → Name → ℤ → Option Bytes
  set_item_array alloc m tuple path num = if_found m (member tuple path) λ a n.
      elim (array_bytes z num (get_data_model_size z fuel root (some n) true)) [
        | none ↦ none
        | some b ↦ if is_compact tuple then some m else some (place_array m a num (alloc b))
      ]

  unfoldable pub get_item_int : Bytes → Option Tupel → Name → Option ℤ
  get_item_int m tuple path =
      if_found (negsuc 0) (member tuple path) λ a n. some (load_int m a z.size_int)

  unfoldable pub get_item_byte : Bytes → Option Tupel → Name → Option ℕ
  get_item_byte m tuple path = if_found 0 (member tuple path) λ a n. some (load m a z.size_byte)

  unfoldable pub get_item_float : Bytes → Option Tupel → Name → Option Double
  get_item_float m tuple path =
      if_found double_minus_one (member tuple path) λ a n. some (stored (load m a z.size_float))

  -- The pointer itself.
  unfoldable pub get_item_string : Bytes → Option Tupel → Name → Option ℕ
  get_item_string m tuple path = if_found 0 (member tuple path) λ a n. some (load m a z.size_string)
