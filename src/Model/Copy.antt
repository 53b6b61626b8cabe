-- ===== src/Model/Copy.antt =====
-- lib/datamodel.c, `copyNode`, `copySubtree` and `addSubtree`: a subtree is copied node by node and
-- appended to the children of a node. `room` says which calls of `ALLOC` and `REALLOC` succeed, the
-- first being call 0. Payloads are taken to be there, as the syntax check demands.
pub mod Whole
use claosi.Prelude.{
  ℕ, zero, suc, ◌+◌, Bool, true, false, List, [], ◌∷◌, Option, none, some, if◌then◌else◌,
}
use claosi.Model.{
  Node, Forest, node, nil, cons, header, children, Header, Kind, source, event, object, ref,
  node_size,
}

-- children[len] = n
unfoldable pub snoc : Forest → Node → Forest
snoc nil n = cons n nil
snoc (cons m ms) n = cons m (snoc ms n)

-- Does `copyNode` allocate memory for the payload?
pub has_payload : Kind → Bool
has_payload (source s) = true
has_payload (event e) = true
has_payload (object o) = true
has_payload (ref r) = true
has_payload k = false

abbrev pub has_children : Forest → ℕ
has_children nil = 0
has_children (cons n fs) = 1

-- The allocations of `copyNode`: the node, the array of its children, and its payload.
pub allocations : Node → ℕ
allocations n = suc (has_children (children n) + (if has_payload (header n).kind then 1 else 0))

-- A node on the way from the root of the copy: its copied children, and those of the origin whose
-- entries in the copy are still NULL.
pub record Partial : Type 0 where
  pub head : Header
  pub copied : Forest
  pub missing : Forest

-- `curCopy`, its ancestors, and the number of allocations.
pub record Copying : Type 0 where
  pub cur : Partial
  pub up : List Partial
  pub calls : ℕ

-- The end of `copySubtree`: the copy; NULL; or a read through NULL, since `freeDataModel`, called
-- with a copy that is not complete, steps to an entry that is still NULL. Each with the number of
-- allocations.
pub data Copied : Type 0 where
  copy : Node → ℕ → Copied
  no_copy : ℕ → Copied
  fault : ℕ → Copied

pub data Round : Type 0 where
  next : Copying → Round
  stop : Copied → Round

-- All children processed: step up.
pub step_up : Node → List Partial → ℕ → Round
step_up n [] k = stop (copy n k)
step_up n (p ∷ up) k =
    next (record { cur = record p { copied = snoc p.copied n }; up = up; calls = k })

-- The end of `addSubtree`: `node` afterwards, whether 0 is returned, and the allocations; or a
-- read through NULL.
pub data Added : Type 0 where
  added : Node → Bool → ℕ → Added
  crash : Added

module _ (room : ℕ → Bool) where
  -- `n` allocations, as far as they succeed: the number of calls after them, and whether all did.
  pub allocate : ℕ → ℕ → ℕ × Bool
  allocate zero k = (k, true)
  allocate (suc n) k = let rest = allocate n (suc k) in if room k then rest else (suc k, false)

  -- The first child whose entry is NULL is copied and stepped to.
  pub step_down : Partial → List Partial → ℕ → Forest → Round
  step_down p up k nil = step_up (node p.head p.copied) up k
  step_down p up k (cons n fs) =
      let (k', ok) = allocate (allocations n) k in
      if ok
      then next (record {
        cur = record { head = header n; copied = nil; missing = children n };
        up = record p { missing = fs } ∷ up;
        calls = k';
      })
      else stop (fault k')

  abbrev pub copy_round : Copying → Round
  copy_round s = step_down s.cur s.up s.calls s.cur.missing

  -- do { … } while (curOrigin != rootOrigin->parent), on fuel.
  pub copy_loop : ℕ → Copying → Option Copied
  copy_loop zero s = none
  copy_loop (suc fuel) s = elim (copy_round s) [ next s' ↦ copy_loop fuel s' | stop r ↦ some r ]

  abbrev pub first_copy : Node → ℕ → Copying
  first_copy n k = record {
    cur = record { head = header n; copied = nil; missing = children n };
    up = [];
    calls = k;
  }

  -- One round to step to each node but the root, and one to leave each.
  pub copy_subtree : Node → ℕ → Option Copied
  copy_subtree n k =
      let (k', ok) = allocate (allocations n) k in
      if ok then copy_loop (node_size n + node_size n) (first_copy n k') else some (no_copy k')

  pub attach : Node → Option Copied → Added
  attach o (some (copy c k)) = added (node (header o) (snoc (children o) c)) true k
  attach o (some (no_copy k)) = added o false k
  attach o (some (fault k)) = crash
  attach o none = crash

  pub add_subtree : Node → Node → ℕ → Added
  add_subtree o n k = if room k then attach o (copy_subtree n (suc k)) else added o false (suc k)
