-- ===== src/Api/Register/Tests.antt =====
-- Registering `net.tx`, and a model that is registered already, in a layer that knows `net.dev.rx` and
-- has no connection.
use claosi.Prelude.{◌≡◌, refl, [], none, some, true, false, arith, inl, ◌≤◌}
use claosi.Prelude.Names.{name_eq}
use claosi.Errors.{esamenode}
use claosi.Model.{Node, cons, nil, children, children_len, node_size, forest_size}
use claosi.Model.Lookup.{get_description, child_named}
use claosi.Model.Tests.{good, z}
use claosi.Model.Insert.Tests.{
  addition_accepted, net_tx, addition, addition-distinct, addition_size,
}
use claosi.Model.Insert.Union.Agrees.{merge_data_model-check_merge}
use claosi.Model.Insert.Union.Paths.{distinct, head_of, either}
use claosi.Model.Syntax.{resolves, success, check_data_model_syntax}
use claosi.Model.Syntax.Nodes.{Every, IsNodeOk}
use claosi.Model.Syntax.Accepts.{check_data_model_syntax-success}
use claosi.Model.Merge.{
  check_merge, merge_loop, merge_round, matched, step_down, climb_both, check_same, error,
}
use claosi.Model.Insert.{merge_data_model, merged}
use claosi.Model.Send.{busy_wait, send_datamodel}
use claosi.Query.Tests.{query}
use claosi.Api.Register.{
  System, returned, Platform, syntax_checked, tested, merged_in, announce, announced,
  register_queries, register_provider, register_query, unregister_query,
}
use claosi.Api.Register.Locks.{IsReleased, register-IsReleased}
use claosi.Api.Register.Models.{register_provider_keeps, register_provider_paths}

abbrev platform : Platform
platform = record {
  layer_code = 1;
  sends = λ p. false;
  room = λ i. true;
  sizes = z;
  connected = false;
  slcmalloc = λ k n. none;
  taken = λ i. 0;
}

abbrev before : System
before = record {
  layer = record { root = good; heap = λ k. query; global_query_id = 1; effects = [] };
  link = record { tx = none; mallocs = 0; copies = []; returned = [] };
  held = 0;
}

addition-Every : Every (IsNodeOk (resolves (some good) addition)) (cons addition nil)
unfolding children_len
addition-Every = (
  (refl, (omega arith, (refl, tt))),
  (
    (refl, (omega arith, (refl, tt))),
    ((refl, (omega arith, (refl, tt))), ((refl, refl), tt, tt), tt),
    tt,
  ),
  tt,
)

addition_checked : check_data_model_syntax (some good) addition ≡ success
addition_checked = (check_data_model_syntax-success (some good) addition).1 (refl, addition-Every)

abbrev merged_model : Node
merged_model =
    (merge_data_model-check_merge (λ i. true) good addition 0 9 9 net_tx (λ i. refl)
      addition-distinct addition_accepted addition_size).0

abbrev after : System
after = record before { layer = record (before.layer) { root = merged_model } }

merges : merge_data_model (λ i. true) 9 good addition 0 ≡ some (merged merged_model)
merges =
    (merge_data_model-check_merge (λ i. true) good addition 0 9 9 net_tx (λ i. refl)
      addition-distinct addition_accepted addition_size).1

registers : register_provider platform 9 (some addition) none before ≡ returned none after
unfolding register_provider syntax_checked tested merged_in announce announced register_queries
    busy_wait send_datamodel
registers =
    rw
      (
        register_provider, addition_checked, syntax_checked, addition_accepted, tested, merges,
        merged_in,
      )
      refl

register_provider_paths_example :
    head_of (get_description (some merged_model) net_tx)
    ≡ either
        (head_of (get_description (some good) net_tx))
        (head_of (get_description (some addition) net_tx))
register_provider_paths_example =
    register_provider_paths platform 9 addition before after net_tx (λ i. refl) addition-distinct
      addition_size registers

register-IsReleased_example :
    IsReleased 0 [] (register_provider platform 9 (some addition) none before)
    × IsReleased 0 [] (register_query platform none before)
    × IsReleased 0 [] (unregister_query platform none before)
register-IsReleased_example = register-IsReleased platform 9 (some addition) none before

-- The model that is there already.
good-distinct : distinct (children good) ≡ true
unfolding distinct child_named name_eq
good-distinct = refl

good_ok : Every (IsNodeOk (resolves (some good) good)) (cons good nil)
unfolding children_len
good_ok = (
  (refl, (omega arith, (refl, tt))),
  (
    (refl, (omega arith, (refl, tt))),
    (((refl, refl, refl, refl), (refl, tt)), ((((refl, inl refl), refl), refl), tt, tt), tt),
    tt,
  ),
  tt,
)

good_checked : check_data_model_syntax (some good) good ≡ success
good_checked = (check_data_model_syntax-success (some good) good).1 (refl, good_ok)

good_refused : check_merge 9 good good ≡ some (error esamenode)
unfolding check_merge merge_loop merge_round matched step_down climb_both check_same child_named
    name_eq
good_refused = refl

good_size : node_size good ≤ 9
unfolding node_size forest_size
good_size = omega arith

refuses : register_provider platform 9 (some good) none before ≡ returned (some esamenode) before
unfolding register_provider syntax_checked tested
refuses = rw (register_provider, good_checked, syntax_checked, good_refused, tested) refl

register_provider_keeps_example : (before.layer ≡ before.layer) × (before.link ≡ before.link)
register_provider_keeps_example =
    register_provider_keeps platform 9 good before before esamenode (λ i. refl) good-distinct
      good_size refuses
