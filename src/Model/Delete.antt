-- ===== src/Model/Delete.antt =====
-- lib/datamodel.c, `deleteSubtree` and `freeNode`: the nodes that one model describes are taken out of
-- the present one. A deleted child leaves a NULL pointer behind until its parent's array is renewed.
pub mod Ends
mod Tests
use claosi.Prelude.{
  ℕ, zero, suc, Bool, true, false, ◌&&◌, List, [], ◌∷◌, ◌++◌, Option, none, some, ◌==◌,
  if◌then◌else◌,
}
use claosi.Prelude.Names.{Name, name_eq}
use claosi.Errors.{Error, enomemory}
use claosi.Model.{
  Node, Forest, node, nil, cons, header, children, node_type, Header, data_model_type, Kind, source,
  event, object,
}

-- A node whose child pointers may be NULL.
mutual
  pub data Holed : Type 0 where
    holed : Header → Slots → Holed

  pub data Slots : Type 0 where
    empty : Slots
    child : Holed → Slots → Slots
    gap : Slots → Slots

abbrev pub head_of : Holed → Header
head_of (holed h cs) = h

abbrev pub slots_of : Holed → Slots
slots_of (holed h cs) = cs

-- A model without NULL pointers.
unfoldable pub slots : Forest → Slots
slots nil = empty
slots (cons (node h cs) fs) = child (holed h (slots cs)) (slots fs)

abbrev pub whole : Node → Holed
whole (node h cs) = holed h (slots cs)

unfoldable pub append : Slots → Slots → Slots
append empty t = t
append (child c s) t = child c (append s t)
append (gap s) t = gap (append s t)

-- The children that are left, which the new array gets.
unfoldable pub left_over : Slots → Slots
left_over empty = empty
left_over (child c s) = child c (left_over s)
left_over (gap s) = left_over s

-- The present node's child of the type and the name, with the slots before and behind it.
pub record Place : Type 0 where
  pub before : Slots
  pub here : Holed
  pub after : Slots

abbrev pub past : (Slots → Slots) → Option Place → Option Place
past f none = none
past f (some p) = some (record p { before = f p.before })

abbrev pub fits : Header → Header → Bool
fits h d = (data_model_type h.kind == data_model_type d.kind) && name_eq h.name d.name

unfoldable pub find_slot : Header → Slots → Option Place
find_slot d empty = none
find_slot d (gap s) = past gap (find_slot d s)
find_slot d (child c s) =
    let later = past (child c) (find_slot d s) in
    if fits (head_of c) d then some (record { before = empty; here = c; after = s }) else later

-- The parents of `curPresent`, each with its other slots, and those of `curDelete`, each with its
-- children behind the one on the way. Both are always equally many.
pub record Above : Type 0 where
  pub head : Header
  pub before : Slots
  pub after : Slots
  pub remaining : Forest

-- What `freeNode` does to a query that is registered at the node.
pub data Stop : Type 0 where
  deactivate : ℕ → Stop
  stop_timer : ℕ → Stop

-- `curPresent`, `curDelete` without its children, those of them that are still to be looked for, and
-- whether it has any; the nodes that were freed, and the number of allocations.
pub record Delete : Type 0 where
  pub present : Holed
  pub remaining : Forest
  pub leaf : Bool
  pub above : List Above
  pub freed : List (Header × List Stop)
  pub calls : ℕ

abbrev pub each : (ℕ → Stop) → List (Option ℕ) → List Stop
each f [] = []
each f (none ∷ qs) = each f qs
each f (some q ∷ qs) = f q ∷ each f qs

-- regQueries is NULL for a node of this layer that is no event, object or source.
unfoldable pub stopped_queries : Kind → Option (List Stop)
stopped_queries (event (some e)) = some (each deactivate e.queries)
stopped_queries (object (some o)) = some (each deactivate o.queries)
stopped_queries (source (some s)) = some (each stop_timer s.queries)
stopped_queries k = none

unfoldable pub free_node : ℕ → Header → Option (List Stop)
free_node layer_code h = if h.layer_code == layer_code then stopped_queries h.kind else some []

-- A round goes on; or the function ends with 0 or -ENOMEMORY and the present model, which may be
-- NULL; or it reads through NULL.
pub data Round : Type 0 where
  next : Delete → Round
  over : Option Error → Option Holed → List (Header × List Stop) → Round
  crash : Round

abbrev pub is_leaf : Forest → Bool
is_leaf nil = true
is_leaf (cons n fs) = false

unfoldable pub rebuilt : Holed → List Above → Holed
rebuilt n [] = n
rebuilt n (a ∷ as') = rebuilt (holed a.head (append a.before (child n a.after))) as'

-- Both go up, with what is to stand in the slot of `curPresent`.
unfoldable pub up_with : (Slots → Slots) → Delete → Round
up_with put d = elim d.above [
  | [] ↦ over none (some d.present) d.freed
  | a ∷ rest ↦ next (record d {
    present = holed a.head (append a.before (put a.after));
    remaining = a.remaining;
    leaf = false;
    above = rest;
  })
]

unfoldable pub go_up : Delete → Round
go_up d = up_with (child d.present) d

-- Which allocations succeed.
module _ (layer_code : ℕ) (room : ℕ → Bool) where
  -- freeNode(…); children[i] = NULL; and both go up.
  unfoldable pub take_out : Delete → Round
  take_out d = elim (free_node layer_code (head_of d.present)) [
    | none ↦ crash
    | some stops ↦ up_with gap (record d { freed = d.freed ++ ((head_of d.present, stops) ∷ []) })
  ]

  -- No child is left: the root is freed, and the pointer to it set to NULL.
  unfoldable pub take_root : Delete → Round
  take_root d = elim (free_node layer_code (head_of d.present)) [
    | none ↦ crash
    | some stops ↦ over none none (d.freed ++ ((head_of d.present, stops) ∷ []))
  ]

  unfoldable pub emptied : Delete → Round
  emptied d = elim d.above [ [] ↦ take_root d | a ∷ rest ↦ take_out d ]

  -- All children were looked for: the array is renewed, or the node itself goes.
  unfoldable pub renewed : Delete → Slots → Round
  renewed d empty = emptied d
  renewed d (gap s) = emptied d
  renewed d (child c s) =
      if room d.calls
      then go_up (record d { present = holed (head_of d.present) (child c s); calls = suc d.calls })
      else over (some enomemory) (some (rebuilt d.present d.above)) d.freed

  -- Steps down to the child that is to be looked for, or goes up if it is not there.
  unfoldable pub step_to : Delete → Node → Forest → Option Place → Round
  step_to d n ns none = go_up d
  step_to d n ns (some p) = next (record d {
    present = p.here;
    remaining = children n;
    leaf = is_leaf (children n);
    above =
        (record { head = head_of d.present; before = p.before; after = p.after; remaining = ns })
        ∷ d.above;
  })

  unfoldable pub look_for : Delete → Forest → Round
  look_for d nil = renewed d (left_over (slots_of d.present))
  look_for d (cons n ns) = step_to d n ns (find_slot (header n) (slots_of d.present))

  -- curPresent->parent is NULL at the root.
  unfoldable pub delete_leaf : Delete → Round
  delete_leaf d = elim d.above [ [] ↦ crash | a ∷ rest ↦ take_out d ]

  unfoldable pub delete_round : Delete → Round
  delete_round d = if d.leaf then delete_leaf d else look_for d d.remaining

  -- do { … } while (curDelete != treeDelete->parent), on fuel.
  unfoldable pub delete_loop : ℕ → Delete → Option Round
  delete_loop zero d = none
  delete_loop (suc fuel) d = elim (delete_round d) [
    | next d' ↦ delete_loop fuel d'
    | over e p fr ↦ some (over e p fr)
    | crash ↦ some crash
  ]

  -- `none` is running out of fuel.
  unfoldable pub delete_subtree : ℕ → Holed → Node → Option Round
  delete_subtree fuel present tree = delete_loop fuel (record {
    present = present;
    remaining = children tree;
    leaf = is_leaf (children tree);
    above = [];
    freed = [];
    calls = 0;
  })
