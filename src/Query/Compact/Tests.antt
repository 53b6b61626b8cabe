-- ===== src/Query/Compact/Tests.antt =====
-- The move of a query, at the small query of `Query.Tests`.
use claosi.Prelude.{◌+◌, ◌≡◌, refl, true, [], ◌∷◌, none, some, arith}
use claosi.Query.Tests.{query, stream, query_filter, query_select, later, z}
use claosi.Query.Compact.{
  QueryImage, calc_query_size, size_from, operators_size, operator_size, copy_and_collect_query,
  copy_from, collect, copy_operator_adjacent, copy_stream, copy_array, lay_out,
  rewrite_query_address,
}
use claosi.Query.Compact.Relocates.{rewrite_query_address-collect}

abbrev collected : QueryImage
collected = record {
  query = record query { compact = true };
  root = 4096 + 48;
  images =
      record { op = stream; child = some 4328; array = some 4264; cells = [] }
      ∷ record { op = query_filter; child = some 4506; array = some 4348; cells = 4356 ∷ [] }
      ∷ record { op = query_select; child = none; array = some 4526; cells = 4534 ∷ [] }
      ∷ [];
}

calculated_example : calc_query_size z query ≡ some 502
unfolding calc_query_size size_from operators_size operator_size
calculated_example = refl

collected_example : copy_and_collect_query z query 4096 ≡ some (collected, 4096 + 502)
unfolding copy_and_collect_query copy_from collect copy_operator_adjacent copy_stream copy_array
    lay_out
collected_example = refl

rewrite_query_address-collect_example :
    copy_and_collect_query z query 65536
    ≡ some (rewrite_query_address collected 4096 65536, 65536 + 502)
rewrite_query_address-collect_example =
    rewrite_query_address-collect z query stream later 4096 65536 502 collected refl
      calculated_example (omega arith) (omega arith) collected_example
