-- ===== src/Query/Execute/Tests.antt =====
-- Three tuples in a query that drops an item and filters on a member of another one.
use claosi.Prelude.{
  ℕ, ◌+◌, ◌≡◌, refl, true, false, List, [], ◌∷◌, ◌++◌, Option, none, some, ◌==◌, arith,
  if◌then◌else◌,
}
use claosi.Prelude.Names.{Name}
use claosi.Prelude.Int.{pos, count}
use claosi.Model.{Node, nil, cons, model, complex, plain, int_bit}
use claosi.Model.Tests.{named, net, dev, rx}
use claosi.Model.Types.{PodSizes}
use claosi.Query.{Operator, gen_event, select, filter, Predicate, Query, op_stream, op_pod, neq}
use claosi.Query.Filter.{Reader}
use claosi.Tuple.Member.{Item}
use claosi.Query.Filter.Keeps.{Distinct}
use claosi.Query.Execute.{
  Stream, Link, Joined, unmatched, Done, executed, execute_query, operators_from, skip, tuple_bytes,
}
use claosi.Query.Execute.Reads.{tuple_reader}
use claosi.Query.Execute.Pipeline.{flow, view, no_join, execute_query-flow}
use claosi.Query.Execute.Owners.{occurrences, execute_query_owns, IsSized}

abbrev sizes : PodSizes
sizes = record { size_int = 4; size_string = 8; size_float = 8; size_byte = 1; size_array = 8 }

abbrev root : Node
root =
    named [] (model false)
      (cons (named net (complex false) (cons (named dev (plain int_bit false) nil) nil)) nil)

-- An int is the address where it is, and every literal reads as 2.
abbrev memory : Reader
memory = record {
  member = λ t path. none;
  int_at = pos;
  char_at = pos;
  string_at = λ a. [];
  to_int = λ s. some (pos 2);
  to_char = λ s. none;
  double_test = λ t a b. false;
}

abbrev not_two : Predicate
not_two = record {
  selec = false;
  type = neq;
  left = record { type = op_stream; value = net ++ (b'.' ∷ dev) };
  right = record { type = op_pod; value = b'2' ∷ [] };
}

abbrev operators : List Operator
operators =
    gen_event (record { urgent = 0; name = net; selectors = [] })
    ∷ select (some (net ∷ []))
    ∷ filter (some (not_two ∷ []))
    ∷ []

abbrev query : ℕ → Query
query layer = record {
  root = operators;
  compact = false;
  transfered = false;
  idx = 0;
  size = 0;
  layer_code = layer;
  query_id = 5;
  on_query_completed = true;
}

abbrev three : Stream
three = record {
  tuples = record {
    next = λ p. if p == 1 then some 2 else if p == 2 then some 3 else none;
    head = some 1;
    freed = [];
  };
  items = λ t. some (net, t) ∷ some (rx, 7) ∷ [];
  compact = λ t. false;
  deleted = [];
}

abbrev link : Link
link = record {
  tuple_size = λ is. tuple_bytes 10;
  header = 45;
  connected = true;
  has_room = λ b. true;
  accepts = true;
}

abbrev no_joins : Name → List Predicate → Stream → Joined
no_joins e ps s = unmatched s

abbrev reader : (ℕ → List (Option Item)) → Reader
reader = tuple_reader sizes 3 root memory

abbrev tuples : List ℕ
tuples = 1 ∷ 2 ∷ 3 ∷ []

tuples-Distinct : Distinct tuples
tuples-Distinct =
    ((λ e. omega (arith, e), (λ e. omega (arith, e), tt)), ((λ e. omega (arith, e), tt), (tt, tt)))

operators-no_join : no_join (operators_from (pos 0) operators) ≡ true
unfolding no_join operators_from skip count
operators-no_join = refl

link-IsSized : IsSized link
link-IsSized is e = cc e

execute_query-flow_example :
    let f = flow reader (operators_from (pos 0) operators) (view three tuples) in
    (d : Done) × (execute_query link 1 reader no_joins 4 (some (query 1)) three (pos 0)
      ≡ executed d)
    × (d.completed ≡ f.passed)
    × (d.sent ≡ [])
    × (d.stream.tuples.freed ≡ f.freed)
    × (d.stream.items ≡ f.items)
    × (d.stream.deleted ≡ f.deleted)
execute_query-flow_example =
    execute_query-flow link 1 reader no_joins 4 (query 1) three (pos 0) tuples (omega arith)
      tuples-Distinct (refl, (refl, (refl, refl))) operators-no_join refl

execute_query_owns_example :
    (d : Done) × (execute_query link 1 reader no_joins 4 (some (query 2)) three (pos 0)
      ≡ executed d)
    × (occurrences 3 d.completed + occurrences 3 d.stream.tuples.freed
        ≡ occurrences 3 tuples + occurrences 3 [])
execute_query_owns_example =
    execute_query_owns link 1 reader no_joins 4 (query 2) three (pos 0) tuples 3 (omega arith)
      tuples-Distinct (refl, (refl, (refl, refl))) (λ e. cc e) operators-no_join refl link-IsSized
