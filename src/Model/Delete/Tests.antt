-- ===== src/Model/Delete/Tests.antt =====
-- A model of two branches, of which one is deleted.
use claosi.Prelude.{◌≡◌, refl, true, false, List, [], none, some}
use claosi.Prelude.Names.{name_eq}
use claosi.Model.{Node, Forest, nil, cons, Header, model, namespace, plain, int_bit, node}
use claosi.Model.Tests.{net, dev, rx, named}
use claosi.Model.Delete.{
  Slots, holed, empty, child, gap, whole, slots, Stop, find_slot, append, left_over, free_node,
  over, delete_subtree,
}
use claosi.Model.Delete.Ends.{prune, kept_node, rounds, result, delete_subtree-prune}

abbrev leaf : Node
leaf = named rx (plain int_bit false) nil

abbrev to_delete : Forest
to_delete = cons (named net (namespace false) (cons leaf nil)) nil

abbrev root_header : Header
root_header = record { name = []; layer_code = 1; kind = model false }

abbrev branches : Slots
branches =
    child (whole (named net (namespace false) (cons leaf nil)))
      (child (whole (named dev (namespace false) (cons leaf nil))) empty)

abbrev left : Slots
left = gap (child (whole (named dev (namespace false) (cons leaf nil))) empty)

-- The nodes are those of layer 1, and layer 2 deletes them.
branches_pruned : prune 2 branches to_delete ≡ some left
unfolding prune find_slot name_eq free_node kept_node left_over append slots
branches_pruned = refl

root_kept :
    kept_node 2 root_header (left_over left) ≡ some (child (holed root_header (left_over left)))
unfolding kept_node left_over slots
root_kept = refl

delete_subtree-prune_example :
    (fr : List (Header × List Stop)) × (delete_subtree 2
        (λ i. true)
        (rounds to_delete 1)
        (holed root_header branches)
        (node root_header to_delete)
      ≡ some (over none (result root_header (left_over left)) fr))
delete_subtree-prune_example =
    delete_subtree-prune 2 (λ i. true) (λ i. refl) root_header root_header branches left
      (named net (namespace false) (cons leaf nil)) nil (child (holed root_header (left_over left)))
      branches_pruned root_kept
