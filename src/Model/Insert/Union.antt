-- ===== src/Model/Insert/Union.antt =====
-- The tree that a merge builds, described by recursion on the new nodes.
pub mod Loop
pub mod Paths
pub mod Agrees
use claosi.Prelude.{
  ℕ, zero, suc, ◌+◌, ◌-◌, ◌≤◌, ◌≡◌, refl, sym, ap, subst, ◌∙◌, Bool, true, false, ◌&&◌, List, [],
  ◌∷◌, Option, none, some, ◌==◌, if◌then◌else◌, arith, inl, inr, Option-cases, Bool-cases, is_none,
}
use claosi.Prelude.Names.{Name}
use claosi.Model.{
  has_any, Node, Forest, node, nil, cons, header, children, node_type, Header, forest_size,
  node_size,
}
use claosi.Model.Walk.{Level, start}
use claosi.Model.Merge.{check_same}
use claosi.Model.Copy.{snoc, added, add_subtree}
use claosi.Model.Copy.Whole.{add_subtree-added, add_subtree-no_room}
use claosi.Model.Insert.{
  Frame, put, rebuilt, Child, find_child, Insert, Round, next, finished, refused, fault, climb_both,
  go_on, step_down, matched, insert_round, Merged, merged, stopped, null_read, insert_loop,
  merge_data_model,
}

-- The node with another last child.
abbrev pub append : Node → Node → Node
append o n = node (header o) (snoc (children o) n)

-- What a node that the present model lacks does to its parent.
module _ (attach : Node → Node → Node) where
  -- The new nodes, one after the other, each merged with the child of its name or attached.
  unfoldable pub union_with : Forest → Node → Node
  union_with nil o = o
  union_with (cons (node h cs) fs) o = union_with fs (elim (find_child h.name (children o)) [
    | none ↦ attach o (node h cs)
    | some c ↦ node (header o) (put c.before (union_with cs c.here) c.after)
  ])

  abbrev pub union_one : Node → Node → Node
  union_one n o = elim (find_child (header n).name (children o)) [
    | none ↦ attach o n
    | some c ↦ node (header o) (put c.before (union_with (children n) c.here) c.after)
  ]

  -- Each new node is not there, or is of the type of the one that is, may be merged with it and has
  -- children, to which the same applies.
  unfoldable pub mergeable_with : Forest → Node → Bool
  mergeable_with nil o = true
  mergeable_with (cons (node h cs) fs) o =
      (elim (find_child h.name (children o)) [
        | none ↦ true
        | some c ↦
            ((node_type c.here == node_type (node h cs))
              && is_none (check_same (header c.here).kind h.kind))
            && (has_any cs && mergeable_with cs c.here)
      ])
      && mergeable_with fs (union_one (node h cs) o)

  -- The rounds of the loop for them, before `f` more.
  unfoldable pub rounds : Forest → Node → ℕ → ℕ
  rounds nil o f = f
  rounds (cons (node h cs) fs) o f = elim (find_child h.name (children o)) [
    | none ↦ suc (rounds fs (union_one (node h cs) o) f)
    | some c ↦ suc (rounds cs c.here (rounds fs (union_one (node h cs) o) f))
  ]
