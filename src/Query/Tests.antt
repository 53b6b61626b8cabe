-- ===== src/Query/Tests.antt =====
-- The theorems on queries at one small query, on the model of `Model.Tests`.
use claosi.Prelude.{◌≡◌, ◌↔◌, true, false, List, [], ◌∷◌, ◌++◌, none, some}
use claosi.Prelude.Names.{Name}
use claosi.Model.Tests.{net, dev, rx, good}
use claosi.Query.{Operator, gen_source, filter, select, Query, GenStream, op_stream, op_pod, equal}
use claosi.Query.Syntax.{check_queries}
use claosi.Query.Syntax.Accepts.{AllQueries, check_queries-AllQueries}
use claosi.Query.Compact.{Sizes}

abbrev pub path : Name
path = net ++ (b'.' ∷ (dev ++ (b'.' ∷ rx)))

abbrev pub origin : GenStream
origin = record { urgent = 0; name = path; selectors = rx ∷ [] }

abbrev pub stream : Operator
stream = gen_source origin 50

abbrev pub query_filter : Operator
query_filter = filter (
    some (
      record {
        selec = false;
        type = equal;
        left = record { type = op_stream; value = path };
        right = record { type = op_pod; value = 55 ∷ [] };
      }
      ∷ []))

abbrev pub query_select : Operator
query_select = select (some (path ∷ []))

abbrev pub later : List Operator
later = query_filter ∷ query_select ∷ []

abbrev pub query : Query
query = record {
  root = stream ∷ later;
  compact = false;
  transfered = false;
  idx = 0;
  size = 0;
  layer_code = 1;
  query_id = 0;
  on_query_completed = true;
}

abbrev pub z : Sizes
z = record {
  query = 48;
  source_stream = 120;
  object_stream = 116;
  event_stream = 112;
  selector = 64;
  filter_op = 20;
  select_op = 20;
  sort_op = 28;
  join_op = 84;
  aggregate_op = 36;
  predicate = 150;
  element = 64;
  pointer = 8;
}

check_queries-AllQueries_example :
    (check_queries good false (query ∷ []) ≡ none) ↔ AllQueries good false (query ∷ [])
check_queries-AllQueries_example = check_queries-AllQueries good false (query ∷ [])
