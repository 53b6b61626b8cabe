-- ===== src/Tuple/Whole/Tests.antt =====
-- A tuple with one item, a structure of one string.
use claosi.Prelude.{ℕ, ◌+◌, ◌≡◌, refl, List, [], ◌∷◌, Option, none, some, false, arith}
use claosi.Prelude.Names.{Name, name_eq, tokens}
use claosi.Model.{Node, nil, cons, model, complex, plain, string_bit}
use claosi.Model.Lookup.{get_with_parents, descend_up, child_named}
use claosi.Model.Tests.{named, net, dev}
use claosi.Model.Types.{
  PodSizes, resolve_type, resolve_round, get_complex_type_offset, size_of_member, member_size,
  get_complex_type_size, get_data_model_size, sized_as,
}
use claosi.Tuple.{Memory, TupleSizes, walked, walk, offset_in, climb, step_into, beside}
use claosi.Tuple.Items.{
  get_tupel_size, items_size, item_size, value_size, with_value, and_then, total, get_item_size,
  size_kind, sum,
}
use claosi.Tuple.Whole.{ItemImage, copy_and_collect_tupel, copy_and_collect_tupel-get_tupel_size}

abbrev sizes : PodSizes
sizes = record { size_int = 4; size_string = 8; size_float = 8; size_byte = 1; size_array = 8 }

abbrev tuple_sizes : TupleSizes
tuple_sizes = record { tupel = 40; item = 72; pointer = 8 }

abbrev memory : Memory
memory = record { word = λ a. a; int = λ a. 0; strlen = λ a. 5 }

abbrev root : Node
root =
    named [] (model false)
      (cons (named net (complex false) (cons (named dev (plain string_bit false) nil) nil)) nil)

abbrev items : List (Option (Name × ℕ))
items = none ∷ some (net, 100) ∷ []

tuple_sized : get_tupel_size sizes 3 root memory tuple_sizes 5 items ≡ walked (134 ∷ [])
unfolding get_tupel_size items_size item_size value_size with_value and_then total get_item_size
    size_kind sum walk offset_in step_into climb beside get_with_parents descend_up resolve_type
    resolve_round get_complex_type_offset size_of_member member_size get_complex_type_size
    get_data_model_size sized_as child_named tokens name_eq
tuple_sized = refl

copy_and_collect_tupel-get_tupel_size_example :
    (is : List ItemImage) × (copy_and_collect_tupel sizes 3 root memory tuple_sizes 5 items 4096
      ≡ some (is, 4096 + 134))
copy_and_collect_tupel-get_tupel_size_example =
    copy_and_collect_tupel-get_tupel_size sizes 3 root memory tuple_sizes 5 items 4096 134 refl
      tuple_sized (λ e. omega arith)
