-- ===== src/Tuple/Member.antt =====
-- include/resultset.h, `getMemberPointer`: from a path to the address of a member of a tuple, and its
-- node. An item is its name and the address of its value, a slot that is NULL is `none`.
pub mod Finds
pub mod Bounds
use claosi.Prelude.{
  ℕ, zero, suc, ◌+◌, Bool, true, false, ◌&&◌, ◌||◌, List, [], ◌∷◌, Option, none, some, ◌==◌,
  if◌then◌else◌, length,
}
use claosi.Prelude.Names.{Name, name_eq, tokens}
use claosi.Model.{Node, header, children, node_type, complex_bit}
use claosi.Model.Lookup.{child_named, get_description}
use claosi.Model.Types.{PodSizes, Size, bytes, minus_one, failed, get_complex_type_offset}

abbrev pub Item : Type 0
Item = Name × ℕ

unfoldable pub starts_with : Name → Name → Bool
starts_with [] s = true
starts_with (c ∷ cs) [] = false
starts_with (c ∷ cs) (d ∷ ds) = (c == d) && starts_with cs ds

-- strstr(s, part) != NULL
unfoldable pub strstr : Name → Name → Bool
strstr part [] = starts_with part []
strstr part (c ∷ cs) = starts_with part (c ∷ cs) || strstr part cs

-- s + n, up to the end of the string.
unfoldable pub drop : ℕ → Name → Name
drop zero s = s
drop (suc n) [] = []
drop (suc n) (c ∷ cs) = drop n cs

-- if (*childName == '.') childName++;
unfoldable pub skip_dot : Name → Name
skip_dot [] = []
skip_dot (c ∷ cs) = if c == b'.' then cs else c ∷ cs

-- for (i = 0; i < itemLen; i++): the item of that name, else the last one whose name is a part of it.
unfoldable pub find_item : Name → Option Item → List (Option Item) → Option Item
find_item path best [] = best
find_item path best (none ∷ items) = find_item path best items
find_item path best (some i ∷ items) =
    let part = find_item path (some i) items in
    let other = find_item path best items in
    if name_eq path i.0 then some i else if strstr i.0 path then part else other

-- An address with its node, NULL, or a read through NULL while types are looked up.
pub data Member : Type 0 where
  at : ℕ → Node → Member
  missing : Member
  lost : Member

abbrev pub otherwise : Option Node → (Node → Member) → Member
otherwise none k = missing
otherwise (some n) k = k n

module _ (z : PodSizes) (fuel : ℕ) (root : Node) where
  -- while (token): valuePtr += offset; tempDM = the child of that name.
  unfoldable pub walk_tokens : ℕ → Node → List Name → Member
  walk_tokens value cur [] = at value cur
  walk_tokens value cur (t ∷ ts) = elim (get_complex_type_offset z fuel root (children cur) t) [
    | minus_one ↦ missing
    | failed ↦ lost
    | bytes o ↦ elim (child_named t (children cur)) [
      | none ↦ missing
      | some c ↦ walk_tokens (value + o) c ts
    ]
  ]

  -- What remains of the path, behind the name of the item.
  unfoldable pub member_below : ℕ → Node → Name → Member
  member_below value cur [] = at value cur
  member_below value cur (c ∷ cs) =
      if node_type cur == complex_bit
      then walk_tokens value cur (tokens (skip_dot (c ∷ cs)))
      else missing

  unfoldable pub member_of : Name → Item → Member
  member_of path (name, value) =
      otherwise (get_description (some root) name)
        (λ n. member_below value n (drop (length name) path))

  -- `none` is a tuple that is NULL. The copy that `strsep` works on is taken to be allocated.
  unfoldable pub get_member_pointer : Option (List (Option Item)) → Name → Member
  get_member_pointer none path = missing
  get_member_pointer (some items) path = elim (find_item path none items) [
    | none ↦ missing
    | some i ↦ member_of path i
  ]
