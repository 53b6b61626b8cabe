-- ===== src/Query/Registry/Tests.antt =====
-- The theorems on registered queries, at the small query of `Query.Tests`, which names a source.
use claosi.Prelude.{◌<◌, ◌^◌, ℕ, ◌≡◌, refl, Bool, true, [], some, arith}
use claosi.Prelude.Names.{name_eq, tokens}
use claosi.Model.{header}
use claosi.Model.Tests.{good, received, no_queries}
use claosi.Model.Lookup.{get_description, descend, child_named}
use claosi.Query.Tests.{query, origin}
use claosi.Query.Registry.{
  Layer, done, stream_of, reg_queries, free_slot, add_query, resolve_query, register, has_name,
  sent_id,
}
use claosi.Query.Registry.Undo.{IsUndone, left_over, new_id, del_query-add_query}
use claosi.Query.Registry.Resolve.{
  resolve_query-add_query, resolve_query-register, resolve_query_sound,
}

-- No query but the one behind pointer 7 has a number yet.
abbrev layer : Layer
layer = record { root = good; heap = λ k. query; global_query_id = 1; effects = [] }

abbrev sends : ℕ → Bool
sends p = true

found : get_description (some good) origin.name ≡ some received
unfolding get_description descend child_named tokens name_eq
found = refl

streams : stream_of query.root ≡ some origin
unfolding stream_of
streams = refl

slots : reg_queries (header received).kind ≡ some no_queries
unfolding reg_queries
slots = refl

first_free : free_slot no_queries ≡ some 0
unfolding free_slot
first_free = refl

del_query-add_query_example :
    IsUndone 1 sends layer 7 (left_over 1 sends layer 7 origin.name received no_queries)
del_query-add_query_example =
    del_query-add_query 1 sends layer 7 origin received no_queries 0 streams found slots refl
      first_free (λ e. omega arith)

resolve_query-add_query_example :
    (l' : Layer) × (add_query 1 sends layer 7 ≡ done l')
    × (resolve_query l' origin.name (sent_id (new_id 1 sends layer 7)) ≡ some 7)
resolve_query-add_query_example =
    resolve_query-add_query 1 sends layer 7 origin received no_queries 0 streams found slots
      first_free (omega arith) (λ k ne e. omega arith)

-- The layer after the query was added.
abbrev after : Layer
after = register 1 sends layer 7 origin.name received no_queries 0

after_finds : resolve_query after origin.name (sent_id 1) ≡ some 7
unfolding sent_id
after_finds =
    resolve_query-register 1 sends layer 7 origin received no_queries 0 streams found slots
      first_free (λ k ne e. omega arith)

resolve_query_sound_example :
    ((after.heap 7).query_id ≡ sent_id 1)
    × ((after.heap 7).query_id < 2 ^ 16)
    × (has_name origin.name (stream_of (after.heap 7).root) ≡ true)
resolve_query_sound_example = resolve_query_sound after origin.name 1 7 after_finds
