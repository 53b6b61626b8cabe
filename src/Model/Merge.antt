-- ===== src/Model/Merge.antt =====
-- lib/datamodel.c, `mergeDataModel` with `justCheckSyntax` set: the test whether a new model can be
-- merged into the present one, which changes neither.
pub mod Accepts
pub mod Repeats
mod Tests
use claosi.Prelude.{
  ℕ, zero, suc, Bool, true, false, List, [], ◌∷◌, Option, none, some, ◌==◌, if◌then◌else◌,
}
use claosi.Prelude.Names.{name_eq}
use claosi.Errors.{Error, esamenode, eobecjtident, edifferentnodetype}
use claosi.Model.{
  Node, Forest, node, nil, cons, header, children, node_type, Kind, source, event, object, complex,
  Object,
}
use claosi.Model.Lookup.{child_named}
use claosi.Model.Walk.{Cursor, Level, start, at_root}

-- `curNodeNew`, with its later siblings and its ancestors, and `curNodeOld` with its ancestors.
pub record Merge : Type 0 where
  pub new : Cursor
  pub old : Node
  pub above : List Node

-- The result of a round. `fault` is a read through NULL.
pub data Round : Type 0 where
  next : Merge → Round
  finished : Round
  refused : Error → Round
  fault : Round

-- do { if there is a later sibling, go there and break; else go up in both; } while (not the root)
unfoldable pub climb_both : Forest → List Level → Node → List Node → Round
climb_both fs [] o above = finished
climb_both nil ((p, pf) ∷ []) o above = finished
climb_both nil ((p, pf) ∷ l ∷ up) o [] = fault
climb_both nil ((p, pf) ∷ l ∷ up) o (o' ∷ above) = climb_both pf (l ∷ up) o' above
climb_both (cons m ms) (l ∷ up) o above =
    next (record { new = record { cur = m; later = ms; up = l ∷ up }; old = o; above = above })

-- switch (dataModelType) for two nodes of one name and one type. An object has its payload, as the
-- syntax check demands.
unfoldable pub check_same : Kind → Kind → Option Error
check_same (complex i) k = some esamenode
check_same (source s) k = some esamenode
check_same (event e) k = some esamenode
check_same (object (some o)) (object (some o')) =
    if o.identifier_type == o'.identifier_type then none else some eobecjtident
check_same k k' = none

-- if (curNodeNew->childrenLen > 0) step down in both.
unfoldable pub step_down : Merge → Node → Merge
step_down s m = elim (children s.new.cur) [
  | nil ↦ s
  | cons d ds ↦ record {
    new = record { cur = d; later = ds; up = (s.new.cur, s.new.later) ∷ s.new.up };
    old = m;
    above = s.old ∷ s.above;
  }
]

-- The child of `curNodeOld` with the name of `curNodeNew`, if there is one.
unfoldable pub matched : Merge → Option Node → Round
matched s none = climb_both s.new.later s.new.up s.old s.above
matched s (some m) =
    if node_type m == node_type s.new.cur
    then elim (check_same (header m).kind (header s.new.cur).kind) [
      | some e ↦ refused e
      | none ↦ next (step_down s m)
    ]
    else refused edifferentnodetype

unfoldable pub merge_round : Merge → Round
merge_round s =
    if at_root s.new.up
    then elim (children s.new.cur) [
      | nil ↦ finished
      | cons d ds ↦ next (record s {
        new = record { cur = d; later = ds; up = (s.new.cur, s.new.later) ∷ s.new.up };
      })
    ]
    else matched s (child_named (header s.new.cur).name (children s.old))

pub data Merged : Type 0 where
  done : Merged
  error : Error → Merged
  crash : Merged

-- The loop on fuel; `none` is running out of it.
unfoldable pub merge_loop : ℕ → Merge → Option Merged
merge_loop zero s = none
merge_loop (suc fuel) s = elim (merge_round s) [
  | next s' ↦ merge_loop fuel s'
  | finished ↦ some done
  | refused e ↦ some (error e)
  | fault ↦ some crash
]

unfoldable pub check_merge : ℕ → Node → Node → Option Merged
check_merge fuel old new = merge_loop fuel (record { new = start new; old = old; above = [] })
