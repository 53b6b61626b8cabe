-- ===== src/Model/Syntax/Tests.antt =====
-- The theorems on the syntax check at the small models of `Model.Tests`.
use claosi.Prelude.{◌≡◌, ◌≢◌, ◌↔◌, refl, ◌∙◌, true, false, none}
use claosi.Errors.{echildrentype}
use claosi.Model.{children_len, Node, cons, nil, namespace}
use claosi.Model.Walk.{fold_rounds, preorder, preorder_forest}
use claosi.Model.Syntax.{
  check_data_model_syntax, failure, success, fault, hang, resolves, is_leaf, check_round,
  check_node, check_info, allowed_count, allowed_types, check_count, check_types,
}
use claosi.Model.Syntax.Accepts.{
  check_data_model_syntax-success, check_data_model_syntax-failure, check_data_model_syntax-fault,
  FirstFailure, check_data_model_syntax-fold,
}
use claosi.Model.Syntax.Nodes.{Every, IsNodeOk}
use claosi.Model.Tests.{good, bad, received, net, device, dangling, named}

abbrev culprit : Node
culprit = named net (namespace false) (cons device (cons dangling nil))

bad_verdict : check_data_model_syntax none bad ≡ failure echildrentype culprit
unfolding fold_rounds preorder preorder_forest check_round check_node check_info allowed_count
    allowed_types check_count check_types children_len
bad_verdict = check_data_model_syntax-fold none bad ∙ refl

check_data_model_syntax-failure_example :
    FirstFailure (resolves none bad) (preorder bad) echildrentype culprit
check_data_model_syntax-failure_example =
    check_data_model_syntax-failure none bad culprit echildrentype bad_verdict

check_data_model_syntax-success_example :
    (check_data_model_syntax none good ≡ success)
    ↔ ((is_leaf good ≡ false) × Every (IsNodeOk (resolves none good)) (cons good nil))
check_data_model_syntax-success_example = check_data_model_syntax-success none good

check_data_model_syntax-fault_example :
    (check_data_model_syntax none received ≢ hang)
    × ((check_data_model_syntax none received ≡ fault)
        ↔ ((is_leaf received ≡ true) × IsNodeOk (resolves none received) received))
check_data_model_syntax-fault_example = check_data_model_syntax-fault none received
