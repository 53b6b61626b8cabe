-- ===== src/Model/Insert.antt =====
-- lib/datamodel.c, `mergeDataModel` without `justCheckSyntax`: the nodes of a new model that the
-- present one does not have are copied into it.
pub mod Children
pub mod Union
pub mod Tests
use claosi.Prelude.{
  ℕ, zero, suc, Bool, true, false, List, [], ◌∷◌, Option, none, some, ◌==◌, if◌then◌else◌,
}
use claosi.Prelude.Names.{Name, name_eq}
use claosi.Errors.{Error, edifferentnodetype}
use claosi.Model.{Node, Forest, node, nil, cons, header, children, node_type, Header}
use claosi.Model.Walk.{Cursor, Level, start, at_root}
use claosi.Model.Merge.{check_same}
use claosi.Model.Copy.{Added, added, crash, add_subtree}

-- A node of the present model above `curNodeOld`: its children before and after the one on the way.
pub record Frame : Type 0 where
  pub head : Header
  pub before : Forest
  pub after : Forest

-- The node with the child on the way; and the whole tree.
pub put : Forest → Node → Forest → Forest
put nil n fs = cons n fs
put (cons m ms) n fs = cons m (put ms n fs)

abbrev pub refill : Frame → Node → Node
refill f n = node f.head (put f.before n f.after)

pub rebuilt : Node → List Frame → Node
rebuilt n [] = n
rebuilt n (f ∷ above) = rebuilt (refill f n) above

-- The first child of a name, with the children before and after it.
pub record Child : Type 0 where
  pub before : Forest
  pub here : Node
  pub after : Forest

abbrev pub behind : Node → Option Child → Option Child
behind m none = none
behind m (some c) = some (record c { before = cons m c.before })

pub find_child : Name → Forest → Option Child
find_child name nil = none
find_child name (cons m ms) =
    let later = find_child name ms in
    if name_eq name (header m).name
    then some (record { before = nil; here = m; after = ms })
    else behind m later

-- `curNodeNew` with its later siblings and its ancestors, `curNodeOld` with the rest of its tree,
-- and the number of allocations.
pub record Insert : Type 0 where
  pub new : Cursor
  pub old : Node
  pub above : List Frame
  pub calls : ℕ

-- A round goes on, or ends with the present model as it then is, with 0 or with an error. `fault`
-- is a read through NULL.
pub data Round : Type 0 where
  next : Insert → Round
  finished : Node → Round
  refused : Error → Node → Round
  fault : Round

-- do { if there is a later sibling, go there and break; else go up in both; } while (not the root)
pub climb_both : Forest → List Level → Node → List Frame → ℕ → Round
climb_both fs [] o above k = finished (rebuilt o above)
climb_both nil ((p, pf) ∷ []) o above k = finished (rebuilt o above)
climb_both nil ((p, pf) ∷ l ∷ up) o [] k = fault
climb_both nil ((p, pf) ∷ l ∷ up) o (f ∷ above) k = climb_both pf (l ∷ up) (refill f o) above k
climb_both (cons m ms) (l ∷ up) o above k = next (record {
  new = record { cur = m; later = ms; up = l ∷ up };
  old = o;
  above = above;
  calls = k;
})

-- After `addSubtree`, whose result is not looked at.
pub go_on : Forest → List Level → List Frame → Added → Round
go_on fs up above (added o ok k) = climb_both fs up o above k
go_on fs up above crash = fault

-- if (curNodeNew->childrenLen > 0) step down in both.
pub step_down : Insert → Child → Forest → Round
step_down s c nil = next s
step_down s c (cons d ds) = next (record s {
  new = record { cur = d; later = ds; up = (s.new.cur, s.new.later) ∷ s.new.up };
  old = c.here;
  above = record { head = (header s.old); before = c.before; after = c.after } ∷ s.above;
})

-- The result, and the present model afterwards.
pub data Merged : Type 0 where
  merged : Node → Merged
  stopped : Error → Node → Merged
  null_read : Merged

module _ (room : ℕ → Bool) where
  -- The child of `curNodeOld` with the name of `curNodeNew`, if there is one.
  pub matched : Insert → Option Child → Round
  matched s none = go_on s.new.later s.new.up s.above (add_subtree room s.old s.new.cur s.calls)
  matched s (some c) =
      if node_type c.here == node_type s.new.cur
      then elim (check_same (header c.here).kind (header s.new.cur).kind) [
        | some e ↦ refused e (rebuilt s.old s.above)
        | none ↦ step_down s c (children s.new.cur)
      ]
      else refused edifferentnodetype (rebuilt s.old s.above)

  -- From the root to its first child.
  pub enter : Insert → Forest → Round
  enter s nil = finished (rebuilt s.old s.above)
  enter s (cons d ds) =
      next (record s {
        new = record { cur = d; later = ds; up = (s.new.cur, s.new.later) ∷ s.new.up };
      })

  pub insert_round : Insert → Round
  insert_round s =
      if at_root s.new.up
      then enter s (children s.new.cur)
      else matched s (find_child (header s.new.cur).name (children s.old))

  pub insert_loop : ℕ → Insert → Option Merged
  insert_loop zero s = none
  insert_loop (suc fuel) s = elim (insert_round s) [
    | next s' ↦ insert_loop fuel s'
    | finished o ↦ some (merged o)
    | refused e o ↦ some (stopped e o)
    | fault ↦ some null_read
  ]

  pub merge_data_model : ℕ → Node → Node → ℕ → Option Merged
  merge_data_model fuel old new k =
      insert_loop fuel (record { new = start new; old = old; above = []; calls = k })
