-- ===== src/Tuple/Build.antt =====
-- include/resultset.h, `initTupel`, `allocItem` and `addItem`: how a tuple is built. What ALLOC and
-- REALLOC give is an argument.
pub mod Holds
use claosi.Prelude.{
  ℕ, ◌+◌, Bool, true, false, List, [], ◌∷◌, ◌++◌, Option, none, some, ltb, length, set, replicate,
  if◌then◌else◌,
}
use claosi.Prelude.Names.{Name}
use claosi.Model.{Node}
use claosi.Model.Lookup.{get_description}
use claosi.Model.Types.{PodSizes, Size, bytes, minus_one, failed, get_data_model_size}
use claosi.Tuple.{TupleSizes}
use claosi.Tuple.Member.{Item}
use claosi.Tuple.Access.{Tupel}

abbrev pub max_name_len : ℕ
max_name_len = 40

-- The item pointers are NULL. The time stamp and the pointer to the next tuple are not modelled. The
-- number of items is taken to be below 2 ^ 16, which the field `itemLen` holds.
unfoldable pub init_tupel : Bool → ℕ → Option Tupel
init_tupel allocated num_items =
    if allocated then some (record { items = replicate num_items none; compact = false }) else none

-- The tuple, with the address and the size of the block that the item got; -1; or a write past the
-- item pointers or a read through NULL.
pub data Allocated : Type 0 where
  allocated : Tupel → ℕ → ℕ → Allocated
  refused : Allocated
  crash : Allocated

-- tupel->items[slot] = mem, with the value behind the item.
unfoldable pub fill_slot : TupleSizes → Tupel → ℕ → Name → ℕ → Option ℕ → Allocated
fill_slot w t slot name size none = refused
fill_slot w t slot name size (some mem) =
    if ltb slot (length t.items)
    then allocated (record t { items = set t.items slot (some (name, mem + w.item)) }) mem size
    else crash

module _ (z : PodSizes) (fuel : ℕ) (root : Node) (w : TupleSizes) (alloc : ℕ → Option ℕ) where
  unfoldable pub sized_item : Tupel → ℕ → Name → Size → Allocated
  sized_item t slot name (bytes b) = fill_slot w t slot name (w.item + b) (alloc (w.item + b))
  sized_item t slot name minus_one = refused
  sized_item t slot name failed = crash

  -- The name is taken to fit its buffer of `max_name_len` bytes, to which strncpy would cut it.
  unfoldable pub alloc_item : Tupel → ℕ → Name → Allocated
  alloc_item t slot name = if t.compact then refused else elim (get_description (some root) name) [
    | none ↦ refused
    | some dm ↦ sized_item t slot name (get_data_model_size z fuel root (some dm) true)
  ]

-- The tuple with its new item pointers, whose contents REALLOC leaves open: they are the memory that
-- it gives, or it gives none.
unfoldable pub add_item : Tupel → Option (List (Option Item)) → Option Tupel
add_item t realloc =
    if t.compact
    then none
    else elim realloc [ none ↦ none | some fresh ↦ some (record t { items = t.items ++ fresh }) ]
