-- ===== src/Model/Merge/Tests.antt =====
-- Two models merged into themselves: one whose first leaf is an object without children, and the
-- model of `Model.Tests`, whose first leaf is a source.
use claosi.Prelude.{false, ◌≡◌, refl, [], none, some}
use claosi.Errors.{esamenode}
use claosi.Model.{Node, node, nil, cons, Header, header, namespace, model}
use claosi.Model.Tests.{net, device, named}
use claosi.Model.Merge.{check_merge, check_same}
use claosi.Model.Merge.Repeats.{first_refusal, check_merge_hangs}

abbrev top : Header
top = record { name = []; layer_code = 1; kind = model false }

abbrev bare : Node
bare = named net (namespace false) (cons (node (header device) nil) nil)

passes : first_refusal bare ≡ none
unfolding first_refusal check_same
passes = refl

check_merge_hangs_example :
    check_merge 1000 (node top (cons bare nil)) (node top (cons bare nil)) ≡ none
check_merge_hangs_example = check_merge_hangs top bare nil 1000 passes

abbrev full : Node
full = named net (namespace false) (cons device nil)

refuses : first_refusal full ≡ some esamenode
unfolding first_refusal check_same
refuses = refl
