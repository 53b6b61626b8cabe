-- ===== src/Api/Unregister/Tests.antt =====
-- Unregistering `net.tx` at a layer that knows `net.dev.rx` and `net.tx`, of the other layer.
use claosi.Prelude.{◌≡◌, refl, true, false, [], ◌∷◌, none, some, arith}
use claosi.Prelude.Names.{name_eq}
use claosi.Model.{Node, nil, cons, model, namespace, header, children, children_len}
use claosi.Model.Tests.{z, net, device, named}
use claosi.Model.Insert.Tests.{addition, sent}
use claosi.Model.Syntax.{resolves, success, check_data_model_syntax}
use claosi.Model.Syntax.Nodes.{Every, IsNodeOk}
use claosi.Model.Syntax.Accepts.{check_data_model_syntax-success}
use claosi.Model.Delete.{slots, left_over, find_slot, append, free_node}
use claosi.Model.Delete.Ends.{prune, kept_node, rounds}
use claosi.Query.Tests.{query}
use claosi.Layer.Dispatch.{closed}
use claosi.Api.Register.{System, Platform}
use claosi.Api.Unregister.{returned, unregister_provider}
use claosi.Api.Unregister.Released.{IsReleased, unregister_provider-IsReleased}
use claosi.Api.Unregister.Prunes.{unregister_provider_prunes}

abbrev platform : Platform
platform = record {
  layer_code = 2;
  sends = λ p. false;
  room = λ i. true;
  sizes = z;
  connected = false;
  slcmalloc = λ k n. none;
  taken = λ i. 0;
}

abbrev full : Node
full = named [] (model false) (cons (named net (namespace false) (cons device (cons sent nil))) nil)

-- What is left.
abbrev rest : Node
rest = named net (namespace false) (cons device nil)

abbrev to_delete : Node
to_delete = named net (namespace false) (cons sent nil)

abbrev before : System
before = record {
  layer = record { root = full; heap = λ k. query; global_query_id = 1; effects = [] };
  link = record { tx = none; mallocs = 0; copies = []; returned = [] };
  held = 0;
}

addition-Every : Every (IsNodeOk (resolves (some full) addition)) (cons addition nil)
unfolding children_len
addition-Every = (
  (refl, (omega arith, (refl, tt))),
  (
    (refl, (omega arith, (refl, tt))),
    ((refl, (omega arith, (refl, tt))), ((refl, refl), tt, tt), tt),
    tt,
  ),
  tt,
)

addition_checked : check_data_model_syntax (some full) addition ≡ success
addition_checked = (check_data_model_syntax-success (some full) addition).1 (refl, addition-Every)

tx_pruned : prune 2 (slots (children full)) (cons to_delete nil) ≡ some (slots (cons rest nil))
unfolding prune find_slot name_eq free_node kept_node left_over append slots
tx_pruned = refl

rest_stays : closed (left_over (slots (cons rest nil))) ≡ some (cons rest nil)
unfolding closed left_over slots
rest_stays = refl

unregister_provider-IsReleased_example :
    IsReleased 0 [] (unregister_provider platform 9 9 none (some addition) (some (7 ∷ [])) before)
unregister_provider-IsReleased_example =
    unregister_provider-IsReleased platform 9 9 none (some addition) (some (7 ∷ [])) before

unregister_provider_prunes_example :
    (s' : System) × (unregister_provider platform
        (rounds (cons to_delete nil) 1)
        1
        none
        (some addition)
        none
        before
      ≡ returned none s')
    × (s'.layer.root ≡ named [] (model false) (cons rest nil))
    × (s'.held ≡ 0)
unregister_provider_prunes_example =
    unregister_provider_prunes platform 0 none before (header full) (header addition)
      (children full) to_delete nil (slots (cons rest nil)) rest nil (λ i. refl) refl refl
      addition_checked tx_pruned rest_stays
