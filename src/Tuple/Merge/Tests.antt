-- ===== src/Tuple/Merge/Tests.antt =====
-- Two tuples that share an item.
use claosi.Prelude.{◌≡◌, refl, ◌++◌, List, [], ◌∷◌, some, true, false, map}
use claosi.Prelude.Names.{name_eq, tokens}
use claosi.Model.{Node, nil, cons, model, plain, int_bit}
use claosi.Model.Lookup.{get_description, descend, child_named}
use claosi.Model.Tests.{named, net, dev, rx}
use claosi.Tuple.Member.{Item}
use claosi.Tuple.Merge.{
  holds, slot, merged, merge_tuple, fresh, known, described, merge_tuple-fresh,
}

abbrev root : Node
root =
    named [] (model false)
      (cons (named net (plain int_bit false) nil) (cons (named rx (plain int_bit false) nil) nil))

abbrev first : List Item
first = (net, 100) ∷ (dev, 200) ∷ []

abbrev second : List Item
second = (net, 300) ∷ (rx, 400) ∷ []

second_lookup : described root second ≡ true
unfolding described get_description descend child_named tokens name_eq
second_lookup = refl

merge_tuple-fresh_example :
    merge_tuple root true (map some first) (map some second)
    ≡ merged
        (map slot (map some first) ++ map holds (fresh (map some first) second))
        (known (map some first) second)
merge_tuple-fresh_example = merge_tuple-fresh root first second second_lookup
