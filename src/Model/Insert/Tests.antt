-- ===== src/Model/Insert/Tests.antt =====
-- Merging `net.tx` into a model that has `net.dev.rx`, with and without memory.
use claosi.Prelude.{ℕ, ◌≡◌, refl, ◌∷◌, [], ◌++◌, true, false, some, arith, ◌≤◌}
use claosi.Prelude.Names.{Name, name_eq}
use claosi.Model.{
  Node, nil, cons, children, model, namespace, plain, int_bit, node_size, forest_size, complex,
}
use claosi.Model.Lookup.{child_named, get_description}
use claosi.Model.Tests.{named, net, rx, good}
use claosi.Model.Merge.{
  check_merge, done, merge_loop, merge_round, matched, step_down, climb_both, check_same,
}
use claosi.Model.Copy.{copy, copy_subtree}
use claosi.Model.Copy.Whole.{copy_subtree-copy}
use claosi.Model.Insert.{merged, merge_data_model}
use claosi.Model.Insert.Union.Paths.{distinct, head_of, either}
use claosi.Model.Insert.Union.Agrees.{merge_data_model-check_merge, merge_data_model_drops}

abbrev pub tx : Name
tx = 116 ∷ 120 ∷ []

abbrev pub net_tx : Name
net_tx = net ++ (46 ∷ tx)

abbrev pub sent : Node
sent = named tx (complex false) (cons (named rx (plain int_bit false) nil) nil)

abbrev pub addition : Node
addition = named [] (model false) (cons (named net (namespace false) (cons sent nil)) nil)

pub addition-distinct : distinct (children addition) ≡ true
unfolding distinct child_named name_eq
addition-distinct = refl

pub addition_accepted : check_merge 9 good addition ≡ some done
unfolding check_merge merge_loop merge_round matched step_down climb_both check_same child_named
    name_eq
addition_accepted = refl

pub addition_size : node_size addition ≤ 9
unfolding node_size forest_size
addition_size = omega arith

copy_subtree-copy_example : (after : ℕ) × (copy_subtree (λ i. true) good 0 ≡ some (copy good after))
copy_subtree-copy_example = copy_subtree-copy (λ i. true) (λ i. refl) good 0

merge_data_model-check_merge_example :
    (result : Node) × (merge_data_model (λ i. true) 9 good addition 0 ≡ some (merged result))
    × (head_of (get_description (some result) net_tx)
        ≡ either
            (head_of (get_description (some good) net_tx))
            (head_of (get_description (some addition) net_tx)))
merge_data_model-check_merge_example =
    merge_data_model-check_merge (λ i. true) good addition 0 9 9 net_tx (λ i. refl)
      addition-distinct addition_accepted addition_size

merge_data_model_drops_example :
    merge_data_model (λ i. false) 9 good addition 0 ≡ some (merged good)
merge_data_model_drops_example =
    merge_data_model_drops (λ i. false) good addition 0 9 9 (λ i. refl) addition-distinct
      addition_accepted addition_size
