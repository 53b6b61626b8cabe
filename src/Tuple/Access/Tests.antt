-- ===== src/Tuple/Access/Tests.antt =====
-- A tuple with an item for a structure of a number, an array of numbers and an array of bytes.
use claosi.Prelude.{
  ℕ, ◌+◌, ◌≤◌, ◌<◌, ◌≡◌, refl, [], ◌∷◌, ◌++◌, Option, none, some, false, true, if◌then◌else◌, inl,
  arith, ◌==◌, leb, ltb, ◌&&◌,
}
use claosi.Prelude.Names.{Name, name_eq, tokens}
use claosi.Prelude.Int.{pos, negsuc}
use claosi.Model.{Node, nil, cons, model, complex, plain, int_bit}
use claosi.Model.Lookup.{get_description, descend, child_named}
use claosi.Model.Tests.{named, net, dev, rx}
use claosi.Model.Types.{
  PodSizes, bytes, resolve_type, resolve_round, get_complex_type_offset, size_of_member,
  member_size, get_complex_type_size, get_data_model_size, sized_as,
}
use claosi.Tuple.{TupleSizes}
use claosi.Tuple.Bytes.{Bytes, load, store, load_int, limit, Fits, of_bits, to_bits}
use claosi.Tuple.Member.{
  at, drop, skip_dot, strstr, starts_with, find_item, walk_tokens, member_below, member_of,
  get_member_pointer,
}
use claosi.Tuple.Access.{Tupel, member}
use claosi.Tuple.Access.Slots.{
  set_array_slot_int, get_array_slot_int, get_array_slot_byte, copy_array_byte,
}
use claosi.Tuple.Access.Kept.{set_array_slot_int-get_array_slot_int}
use claosi.Tuple.Access.Copied.{copy_array_byte-get_array_slot_byte}
use claosi.Tuple.Member.Finds.{get_member_pointer-get_description}
use claosi.Tuple.Member.Bounds.{structured, structured_node}
use claosi.Tuple.Build.{init_tupel, alloc_item, sized_item, fill_slot, allocated}
use claosi.Tuple.Build.Holds.{alloc_item-get_member_pointer}

abbrev sizes : PodSizes
sizes = record { size_int = 4; size_string = 8; size_float = 8; size_byte = 1; size_array = 8 }

abbrev tuple_sizes : TupleSizes
tuple_sizes = record { tupel = 40; item = 72; pointer = 8 }

abbrev tx : Name
tx = 116 ∷ 120 ∷ []

abbrev numbers : Node
numbers = named net (complex false) (
    cons (named dev (plain int_bit false) nil)
      (cons (named rx (plain 0x240 false) nil) (cons (named tx (plain 0x600 false) nil) nil)))

abbrev root : Node
root = named [] (model false) (cons numbers nil)

abbrev tuple : Option Tupel
tuple = some (record { items = none ∷ some (net, 100) ∷ []; compact = false })

-- The arrays of three numbers and of four bytes are at 200 and at 300.
abbrev memory : Bytes
memory = store (store (store (store (λ a. 7) 200 4 3) 300 4 4) 104 8 200) 112 8 300

abbrev path : Name → Name
path last = net ++ (b'.' ∷ last)

number_found : member sizes 3 root tuple (path dev) ≡ at 100 (named dev (plain int_bit false) nil)
unfolding get_member_pointer find_item member_of member_below walk_tokens drop skip_dot strstr
    starts_with get_description descend child_named tokens name_eq get_complex_type_offset
number_found = refl

number-Fits : Fits 4 (negsuc 4)
unfolding Fits limit
number-Fits = omega arith

numbers_found : member sizes 3 root tuple (path rx) ≡ at 104 (named rx (plain 0x240 false) nil)
unfolding get_member_pointer find_item member_of member_below walk_tokens drop skip_dot strstr
    starts_with get_description descend child_named tokens name_eq get_complex_type_offset
    size_of_member member_size
numbers_found = refl

numbers_pointer : load memory 104 8 ≡ 200
unfolding load store
numbers_pointer = refl

numbers_len : load_int memory 200 4 ≡ pos 3
unfolding load store of_bits to_bits limit
numbers_len = refl

slot-Fits : Fits 4 (pos 9)
unfolding Fits limit
slot-Fits = omega arith

set_array_slot_int-get_array_slot_int_example :
    (m' : Bytes) × (set_array_slot_int sizes 3 root memory tuple (path rx) (pos 2) (pos 9)
      ≡ some m')
    × (get_array_slot_int sizes 3 root m' tuple (path rx) (pos 1) ≡ (
        if 1 == 2
        then some (pos 9)
        else get_array_slot_int sizes 3 root memory tuple (path rx) (pos 1)))
set_array_slot_int-get_array_slot_int_example =
    set_array_slot_int-get_array_slot_int sizes 3 root memory tuple (path rx) 104
      (named rx (plain 0x240 false) nil) numbers_found 200 3 refl numbers_pointer numbers_len 2 1
      (pos 9) (omega arith) (omega arith) slot-Fits (inl (omega arith))

bytes_found : member sizes 3 root tuple (path tx) ≡ at 112 (named tx (plain 0x600 false) nil)
unfolding get_member_pointer find_item member_of member_below walk_tokens drop skip_dot strstr
    starts_with get_description descend child_named tokens name_eq get_complex_type_offset
    size_of_member member_size
bytes_found = refl

bytes_pointer : load memory 112 8 ≡ 300
unfolding load store
bytes_pointer = refl

bytes_len : load_int memory 300 4 ≡ pos 4
unfolding load store of_bits to_bits limit
bytes_len = refl

-- Five values from the third slot on, of which two fit.
byte_fits : (x : ℕ) → 11 < limit 1
unfolding limit
byte_fits x = omega arith

copy_array_byte-get_array_slot_byte_example :
    (m' : Bytes) × (copy_array_byte sizes 3 root memory tuple
        (path tx)
        (pos 2)
        (some (λ i. 11))
        (pos 5)
      ≡ some m')
    × (get_array_slot_byte sizes 3 root m' tuple (path tx) (pos 3) ≡ (
        if leb 2 3 && ltb 3 (2 + 5)
        then some 11
        else get_array_slot_byte sizes 3 root memory tuple (path tx) (pos 3)))
copy_array_byte-get_array_slot_byte_example =
    copy_array_byte-get_array_slot_byte sizes 3 root memory tuple (path tx) 112
      (named tx (plain 0x600 false) nil) bytes_found 300 4 refl bytes_pointer bytes_len 2 5 3
      (λ i. 11) (omega arith) (omega arith) byte_fits (inl (omega arith))

item_found : find_item (path tx) none (none ∷ some (net, 100) ∷ []) ≡ some (net, 100)
unfolding find_item strstr starts_with name_eq
item_found = refl

get_member_pointer-get_description_example :
    get_description (some root) (path tx) ≡ some (named tx (plain 0x600 false) nil)
get_member_pointer-get_description_example =
    get_member_pointer-get_description sizes 3 root (none ∷ some (net, 100) ∷ []) net tx 100 112
      (named tx (plain 0x600 false) nil) item_found bytes_found

started : init_tupel true 2 ≡ some (record { items = none ∷ none ∷ []; compact = false })
unfolding init_tupel
started = refl

described : get_description (some root) net ≡ some numbers
unfolding get_description descend child_named tokens name_eq
described = refl

shape : structured_node numbers ≡ true
unfolding structured
shape = refl

filled :
    alloc_item sizes 3 root tuple_sizes
      (λ b. some 1000)
      (record { items = none ∷ none ∷ []; compact = false })
      1
      net
    ≡ allocated (record { items = none ∷ some (net, 1072) ∷ []; compact = false }) 1000 92
unfolding alloc_item sized_item fill_slot get_description descend child_named tokens name_eq
    get_data_model_size sized_as resolve_type resolve_round get_complex_type_size member_size
filled = refl

reached :
    member_below sizes 3 root 1072 numbers (b'.' ∷ tx) ≡ at 1084 (named tx (plain 0x600 false) nil)
unfolding member_below walk_tokens skip_dot child_named tokens name_eq get_complex_type_offset
    size_of_member member_size
reached = refl

alloc_item-get_member_pointer_example :
    (get_member_pointer sizes 3 root (some (none ∷ some (net, 1072) ∷ [])) (net ++ (b'.' ∷ tx))
      ≡ at 1084 (named tx (plain 0x600 false) nil))
    × (u : ℕ) × (size_of_member sizes 3 root (named tx (plain 0x600 false) nil) ≡ bytes u)
    × (1000 + 72 ≤ 1084)
    × (1084 + u ≤ 1000 + 92)
alloc_item-get_member_pointer_example =
    alloc_item-get_member_pointer sizes 2 root tuple_sizes (λ b. some 1000) 2 1 1000 92 1084
      (record { items = none ∷ none ∷ []; compact = false })
      (record { items = none ∷ some (net, 1072) ∷ []; compact = false }) net (b'.' ∷ tx) numbers
      (named tx (plain 0x600 false) nil) started described shape refl filled reached
