-- ===== src/Tuple/Tests.antt =====
-- Values of a structure with a string, a structure with a string, and a number; and of a reference to
-- a structure.
use claosi.Prelude.{ℕ, ◌≤◌, ◌≡◌, refl, [], ◌∷◌, some, false, suc}
use claosi.Prelude.Names.{Name, name_eq}
use claosi.Model.{Node, nil, cons, model, namespace, complex, plain, int_bit, string_bit, node_size}
use claosi.Model.Tests.{named, net, dev, rx}
use claosi.Model.Types.{
  PodSizes, bytes, resolve_type, resolve_round, get_complex_type_offset, size_of_member,
  member_size, get_complex_type_size, get_data_model_size, sized_as,
}
use claosi.Tuple.{Memory, TupleSizes, walked, offset_in}
use claosi.Tuple.Items.{size_kind, get_item_size}
use claosi.Tuple.Collect.{copy_and_collect_additional_mem}
use claosi.Tuple.Collect.Ends.{end_of, after_sizes, copy_and_collect_additional_mem-get_item_size}
use claosi.Tuple.Spans.{spans}
use claosi.Tuple.Sizes.{counted, get_item_size-counted}

abbrev sizes : PodSizes
sizes = record { size_int = 4; size_string = 8; size_float = 8; size_byte = 1; size_array = 8 }

abbrev tuple_sizes : TupleSizes
tuple_sizes = record { tupel = 40; item = 72; pointer = 8 }

-- The word at an address is the address after it, and a string there is as long as that.
abbrev memory : Memory
memory = record { word = λ a. suc a; int = λ a. 0; strlen = λ a. a }

abbrev text : Name → Node
text name = named name (plain string_bit false) nil

abbrev inner : Node
inner = named rx (complex false) (cons (text dev) nil)

abbrev outer_struct : Node
outer_struct =
    named dev (complex false)
      (cons (text net) (cons inner (cons (named dev (plain int_bit false) nil) nil)))

abbrev above : Node
above = named net (namespace false) (cons outer_struct nil)

abbrev root : Node
root = named [] (model false) (cons above nil)

own_offset : offset_in sizes 3 root (some above) [] dev ≡ bytes 0
unfolding offset_in get_complex_type_offset name_eq
own_offset = refl

-- The strings at 100 and at 108, and the number.
members_counted :
    counted sizes 3 root memory tuple_sizes outer_struct 100 ≡ some (102 ∷ 110 ∷ 0 ∷ [])
unfolding spans size_kind resolve_type resolve_round get_complex_type_offset size_of_member
    member_size get_complex_type_size get_data_model_size sized_as name_eq
members_counted = refl

get_item_size-counted_example :
    (rounds : ℕ) × (rounds ≤ node_size outer_struct)
    × (get_item_size sizes 3 root memory tuple_sizes rounds (some above) 100 outer_struct
        ≡ walked (102 ∷ 110 ∷ 0 ∷ []))
get_item_size-counted_example =
    get_item_size-counted sizes 3 root memory tuple_sizes (some above) 100 0 outer_struct
      (102 ∷ 110 ∷ 0 ∷ []) own_offset members_counted

copy_and_collect_additional_mem-get_item_size_example :
    end_of sizes 3 root memory tuple_sizes
      (copy_and_collect_additional_mem sizes 3 root memory 5 (some above) 100 4096 outer_struct)
    ≡ after_sizes sizes 3 root memory tuple_sizes 4096
        (get_item_size sizes 3 root memory tuple_sizes 5 (some above) 100 outer_struct)
copy_and_collect_additional_mem-get_item_size_example =
    copy_and_collect_additional_mem-get_item_size sizes 3 root memory tuple_sizes 5 (some above) 100
      4096 outer_struct refl
