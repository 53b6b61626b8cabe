-- ===== src/Api/Broadcast/Tests.antt =====
-- A broadcast at an event with two queries, and one at an object of whose two queries one matches.
use claosi.Prelude.{
  ℕ, ◌<◌, ◌≡◌, ◌⊎◌, refl, true, false, List, [], ◌∷◌, ◌++◌, Option, none, some, arith,
  if◌then◌else◌, ◌==◌,
}
use claosi.Prelude.Names.{name_eq, tokens}
use claosi.Prelude.Int.{pos}
use claosi.Model.{Node, nil, cons, model, event, object, int_bit}
use claosi.Model.Lookup.{get_description, descend, child_named}
use claosi.Model.Tests.{named, net, dev}
use claosi.Query.{gen_object, Query}
use claosi.Query.Tests.{origin, query}
use claosi.Api.Broadcast.{
  event_occured_broadcast, object_changed_broadcast, found_queries, event_queries, object_queries,
  matches,
}
use claosi.Api.Broadcast.Owners.{
  event_occured_broadcast_owns, object_changed_broadcast_leaks, tuples, queries, made, chosen,
  how_many,
}

-- Slots with the queries 7 and 8.
abbrev slots : List (Option ℕ)
slots = some 7 ∷ none ∷ some 8 ∷ none ∷ none ∷ none ∷ none ∷ none ∷ []

abbrev sent_event : Node
sent_event =
    named net
      (event (
        some (record {
          return_type = int_bit;
          return_name = [];
          activate = true;
          deactivate = true;
          queries = slots;
          num_queries = pos 2;
        })))
      nil

abbrev changed_object : Node
changed_object =
    named dev
      (object (
        some (record {
          identifier_type = int_bit;
          activate = true;
          deactivate = true;
          status = true;
          queries = slots;
          num_queries = pos 2;
        })))
      nil

abbrev root : Node
root = named [] (model false) (cons sent_event (cons changed_object nil))

-- Query 7 is registered for creations, query 8 for deletions.
abbrev heap : ℕ → Query
heap q = record query { root = gen_object origin (if q == 7 then 1 else 2) ∷ [] }

event_found : found_queries event_queries (get_description (some root) net) ≡ some (slots, pos 2)
unfolding found_queries get_description descend child_named tokens name_eq
event_found = refl

object_found : found_queries object_queries (get_description (some root) dev) ≡ some (slots, pos 2)
unfolding found_queries get_description descend child_named tokens name_eq
object_found = refl

two : how_many (λ q. true) slots ≡ 2
unfolding how_many
two = refl

event_occured_broadcast_owns_example :
    let h = event_occured_broadcast (λ k. true) root net 100 200 in
    (made_copies : ℕ) × (rest : List ℕ) × (tuples h.sent ++ h.freed
      ≡ some 100 ∷ made 200 made_copies)
    × (queries h.sent ++ rest ≡ chosen (λ q. true) slots)
    × (((rest ≡ []) × (h.freed ≡ [])) ⊎ (true ≡ false))
event_occured_broadcast_owns_example =
    event_occured_broadcast_owns (λ k. true) root net 100 200 slots 2 event_found two
      (λ e. omega arith)

one : how_many (λ q. matches 1 (heap q).root) slots < 2
unfolding how_many matches
one = omega arith

object_changed_broadcast_leaks_example :
    let h = object_changed_broadcast (λ k. true) heap root dev 100 1 200 in
    (h.freed ≡ [])
    × (queries h.sent ≡ chosen (λ q. matches 1 (heap q).root) slots)
    × (made_copies last : ℕ) × (h.left ≡ some last)
    × (tuples h.sent ++ (some last ∷ []) ≡ some 100 ∷ made 200 made_copies)
object_changed_broadcast_leaks_example =
    object_changed_broadcast_leaks (λ k. true) heap root dev 100 1 200 slots 2 object_found one
      (λ k. refl)
