-- ===== src/Tuple/Access/Slots.antt =====
-- include/resultset.h: the functions that set and get a slot of an array in a tuple, `setArraySlot…`,
-- `getArraySlot…` and `copyArrayByte`.
use claosi.Prelude.{ℕ, zero, suc, ◌+◌, ◌-◌, ◌*◌, ◌%◌, not, Option, none, some, ◌==◌, if◌then◌else◌}
use claosi.Prelude.Names.{Name}
use claosi.Prelude.Int.{ℤ, pos, negsuc, incr, int_less, subtract, count}
use claosi.Model.{Node}
use claosi.Model.Types.{PodSizes}
use claosi.Tuple.Bytes.{Bytes, load, store, limit, load_int, store_int}
use claosi.Tuple.Member.{Member}
use claosi.Tuple.Access.{Tupel, is_compact, if_found, Double, stored, double_minus_one, member}

-- (*(PTR_TYPE*)valuePtr) + sizeof(int) + arraySlot * size
unfoldable pub slot_at : PodSizes → ℕ → ℤ → ℕ → ℕ
slot_at z p (pos n) size = p + z.size_int + n * size
slot_at z p (negsuc n) size =
    ((limit z.size_array + p + z.size_int) - suc n * size) % limit z.size_array

-- for (i = 0; i < toCopy; i++), from the slot `slot` and the i-th value on.
unfoldable pub copy_slots : PodSizes → ℕ → ℕ → ℤ → ℕ → (ℕ → ℕ) → Bytes → Bytes
copy_slots z p zero slot i values m = m
copy_slots z p (suc n) slot i values m =
    copy_slots z p n (incr slot) (suc i) values
      (store m (slot_at z p slot z.size_byte) z.size_byte (values i))

-- (size - startingSlot) > n ? n : (size - startingSlot)
unfoldable pub to_copy : ℤ → ℤ → ℤ → ℤ
to_copy size start n = if int_less n (subtract size start) then n else subtract size start

module _ (z : PodSizes) (fuel : ℕ) (root : Node) where
  -- The pointer to the array, and its length in front of the slots.
  abbrev pub array_at : Bytes → ℕ → ℕ
  array_at m a = load m a z.size_array

  abbrev pub array_len : Bytes → ℕ → ℤ
  array_len m p = load_int m p z.size_int

  -- if (valuePtr == NULL) return missed; if (arraySlot >= length) return outside; else go on at the
  -- slot.
  unfoldable pub in_array : {A : Type 0} → A → A → Bytes → Member → ℤ → ℕ → (ℕ → A) → Option A
  in_array missed outside m found slot size k = if_found missed found λ a n.
      if array_at m a == 0
      then none
      else if int_less slot (array_len m (array_at m a))
      then some (k (slot_at z (array_at m a) slot size))
      else some outside

  unfoldable pub set_array_slot_byte : Bytes → Option Tupel → Name → ℤ → ℕ → Option Bytes
  set_array_slot_byte m tuple path slot value =
      in_array m m m (member z fuel root tuple path) slot z.size_byte
        λ a. store m a z.size_byte value

  unfoldable pub set_array_slot_int : Bytes → Option Tupel → Name → ℤ → ℤ → Option Bytes
  set_array_slot_int m tuple path slot value =
      in_array m m m (member z fuel root tuple path) slot z.size_int
        λ a. store_int m a z.size_int value

  unfoldable pub set_array_slot_float : Bytes → Option Tupel → Name → ℤ → ℕ → Option Bytes
  set_array_slot_float m tuple path slot value =
      in_array m m m (member z fuel root tuple path) slot z.size_float
        λ a. store m a z.size_float value

  unfoldable pub set_array_slot_string : Bytes → Option Tupel → Name → ℤ → ℕ → Option Bytes
  set_array_slot_string m tuple path slot value =
      in_array m m m (member z fuel root tuple path) slot z.size_string
        λ a. if is_compact tuple then m else store m a z.size_string value

  unfoldable pub get_array_slot_byte : Bytes → Option Tupel → Name → ℤ → Option ℕ
  get_array_slot_byte m tuple path slot =
      in_array 0 0 m (member z fuel root tuple path) slot z.size_byte λ a. load m a z.size_byte

  unfoldable pub get_array_slot_int : Bytes → Option Tupel → Name → ℤ → Option ℤ
  get_array_slot_int m tuple path slot =
      in_array (negsuc 0) (pos 0) m (member z fuel root tuple path) slot z.size_int
        λ a. load_int m a z.size_int

  -- The slot is not compared with the length.
  unfoldable pub get_array_slot_float : Bytes → Option Tupel → Name → ℤ → Option Double
  get_array_slot_float m tuple path slot =
      if_found double_minus_one (member z fuel root tuple path)
        λ a n. some (stored (load m (slot_at z (array_at m a) slot z.size_float) z.size_float))

  -- The address of the slot, not the pointer in it.
  unfoldable pub get_array_slot_string : Bytes → Option Tupel → Name → ℤ → Option ℕ
  get_array_slot_string m tuple path slot =
      in_array 0 0 m (member z fuel root tuple path) slot z.size_string λ a. a

  -- `values` is NULL if it is `none`.
  unfoldable pub copy_array_byte :
      Bytes → Option Tupel → Name → ℤ → Option (ℕ → ℕ) → ℤ → Option Bytes
  copy_array_byte m tuple path start values n = if_found m (member z fuel root tuple path) λ a d.
      let p = array_at m a in
      if p == 0
      then none
      else if not (int_less start (array_len m p))
      then some m
      else elim values [
        | none ↦ some m
        | some v ↦ some (copy_slots z p (count (to_copy (array_len m p) start n)) start 0 v m)
      ]
