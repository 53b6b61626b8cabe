-- ===== src/Query/Execute/Reads.antt =====
-- lib/query.c, `applyPredicate`: how an operand reads a member of a tuple, by `getMemberPointer` and
-- `resolveType`. A type that is not found counts as no member; the source reads through NULL there.
use claosi.Prelude.{ℕ, List, Option, none, some}
use claosi.Model.{Node}
use claosi.Model.Types.{PodSizes, Resolved, resolved, null_read, unending, resolve_type}
use claosi.Tuple.Member.{Item, Member, at, missing, lost, get_member_pointer}
use claosi.Query.Filter.{Reader}

unfoldable pub typed_at : ℕ → Resolved → Option (ℕ × ℕ)
typed_at a (resolved t) = some (a, t)
typed_at a null_read = none
typed_at a unending = none

unfoldable pub typed_member : ℕ → Node → Member → Option (ℕ × ℕ)
typed_member fuel root (at a n) = typed_at a (resolve_type fuel root (some n))
typed_member fuel root missing = none
typed_member fuel root lost = none

-- The reader of tuples with these items; memory and conversions are those of another reader.
unfoldable pub tuple_reader : PodSizes → ℕ → Node → Reader → (ℕ → List (Option Item)) → Reader
tuple_reader z fuel root r items = record r {
  member = λ t path. typed_member fuel root (get_member_pointer z fuel root (some (items t)) path);
}
