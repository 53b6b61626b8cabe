-- ===== src/Api/Broadcast.antt =====
-- lib/api.c, `eventOccuredBroadcast` and `objectChangedBroadcast`: a tuple is handed to the queries
-- that are registered at a node, each of which gets a tuple of its own. Tuples and queries are
-- pointers, and the copies that `copyTupel` makes have the numbers from `fresh` on.
pub mod Owners
mod Tests
use claosi.Prelude.{
  ℕ, zero, suc, ◌+◌, Bool, true, false, List, [], ◌∷◌, ◌++◌, Option, none, some, bit_and, ◌==◌, ltb,
  if◌then◌else◌,
}
use claosi.Prelude.Names.{Name}
use claosi.Prelude.Int.{ℤ, pos, negsuc}
use claosi.Model.{Node, Kind, event, object, Event, Object, header}
use claosi.Model.Lookup.{get_description}
use claosi.Query.{Operator, gen_object, Query}

-- The calls of `enqueueQuery`, with the tuple or NULL; the tuples handed to `freeTupel`; the next
-- copy; and `curTuple` at the end.
pub record Handed : Type 0 where
  pub sent : List (ℕ × Option ℕ)
  pub freed : List (Option ℕ)
  pub fresh : ℕ
  pub left : Option ℕ

-- j + 1 < numQueries
pub more_to_come : ℕ → ℤ → Bool
more_to_come j (pos n) = ltb (j + 1) n
more_to_come j (negsuc n) = false

-- Puts a call before those that follow.
abbrev pub first_send : ℕ → Option ℕ → Handed → Handed
first_send q t h = record h { sent = (q, t) ∷ h.sent }

-- Whether a copy can be made, and which queries are to get a tuple.
module _ (copies : ℕ → Bool) (selected : ℕ → Bool) where
  -- for (i = 0; i < MAX_QUERIES_PER_DM; i++), with `j` and `curTuple`.
  pub hand_out : List (Option ℕ) → ℕ → ℤ → Option ℕ → ℕ → Handed
  hand_out [] j num cur fresh = record { sent = []; freed = []; fresh = fresh; left = cur }
  hand_out (none ∷ qs) j num cur fresh = hand_out qs j num cur fresh
  hand_out (some q ∷ qs) j num cur fresh =
      let skip = hand_out qs j num cur fresh in
      let copied = hand_out qs (suc j) num (some fresh) (suc fresh) in
      let last = hand_out qs j num none fresh in
      if selected q
      then if more_to_come j num
        then if copies fresh
          then first_send q cur copied
          else record { sent = []; freed = cur ∷ []; fresh = fresh; left = none }
        else first_send q cur last
      else skip

abbrev pub freed_only : ℕ → ℕ → Handed
freed_only t fresh = record { sent = []; freed = some t ∷ []; fresh = fresh; left = none }

-- The queries and their number, if the node is an event.
abbrev pub event_queries : Kind → Option (List (Option ℕ) × ℤ)
event_queries (event (some e)) = some (e.queries, e.num_queries)
event_queries k = none

abbrev pub object_queries : Kind → Option (List (Option ℕ) × ℤ)
object_queries (object (some o)) = some (o.queries, o.num_queries)
object_queries k = none

pub found_queries :
    (Kind → Option (List (Option ℕ) × ℤ)) → Option Node → Option (List (Option ℕ) × ℤ)
found_queries which none = none
found_queries which (some dm) = which (header dm).kind

-- The tuple is not NULL, or nothing happens.
pub event_occured_broadcast : (ℕ → Bool) → Node → Name → ℕ → ℕ → Handed
event_occured_broadcast copies root name t fresh =
    elim (found_queries event_queries (get_description (some root) name)) [
      | none ↦ freed_only t fresh
      | some (qs, num) ↦ hand_out copies (λ q. true) qs 0 num (some t) fresh
    ]

-- A query whose root is an object stream for all of these events.
pub matches : ℕ → List Operator → Bool
matches mask (gen_object s events ∷ ops) = bit_and events mask == mask
matches mask ops = false

pub object_changed_broadcast : (ℕ → Bool) → (ℕ → Query) → Node → Name → ℕ → ℕ → ℕ → Handed
object_changed_broadcast copies heap root name t mask fresh =
    elim (found_queries object_queries (get_description (some root) name)) [
      | none ↦ freed_only t fresh
      | some (qs, num) ↦ hand_out copies (λ q. matches mask (heap q).root) qs 0 num (some t) fresh
    ]
