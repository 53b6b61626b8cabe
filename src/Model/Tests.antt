-- ===== src/Model/Tests.antt =====
-- The theorems on the data model at one small model: `net.dev.rx`, an object with a source, and
-- `net.kind`, a reference to nothing.
use claosi.Prelude.{ℕ, refl, true, false, List, [], ◌∷◌, inl, arith, Option, none, some}
use claosi.Prelude.Names.{Name}
use claosi.Prelude.Int.{pos}
use claosi.Model.{
  children_len, Node, Forest, node, nil, cons, Kind, model, namespace, source, object, ref, int_bit,
}
use claosi.Model.Lookup.{}
use claosi.Model.Syntax.{resolves}
use claosi.Model.Syntax.Nodes.{Every, IsNodeOk}
use claosi.Model.Compact.{Sizes}
use claosi.Model.Compact.Fits.{IsCopied, copy_and_collect_datamodel-IsCopied}

abbrev pub net : Name
net = 110 ∷ 101 ∷ 116 ∷ []

abbrev pub dev : Name
dev = 100 ∷ 101 ∷ 118 ∷ []

abbrev pub rx : Name
rx = 114 ∷ 120 ∷ []

abbrev pub no_queries : List (Option ℕ)
no_queries = none ∷ none ∷ none ∷ none ∷ none ∷ none ∷ none ∷ none ∷ []

abbrev pub named : Name → Kind → Forest → Node
named name kind fs = node (record { name = name; layer_code = 1; kind = kind }) fs

abbrev pub received : Node
received =
    named rx
      (source (
        some (record {
          return_type = int_bit;
          return_name = [];
          callback = true;
          queries = no_queries;
          num_queries = pos 0;
        })))
      nil

abbrev pub device : Node
device =
    named dev
      (object (
        some (record {
          identifier_type = int_bit;
          activate = true;
          deactivate = true;
          status = true;
          queries = no_queries;
          num_queries = pos 0;
        })))
      (cons received nil)

abbrev pub good : Node
good = named [] (model false) (cons (named net (namespace false) (cons device nil)) nil)

abbrev pub dangling : Node
dangling = named rx (ref (some dev)) nil

abbrev pub bad : Node
bad =
    named [] (model false)
      (cons (named net (namespace false) (cons device (cons dangling nil))) nil)

abbrev pub z : Sizes
z = record { element = 64; pointer = 8; source_bytes = 100; event_bytes = 90; object_bytes = 110 }

pub good-Every : Every (IsNodeOk (resolves none good)) (cons good nil)
unfolding children_len
good-Every = (
  (refl, (omega arith, (refl, tt))),
  (
    (refl, (omega arith, (refl, tt))),
    (((refl, refl, refl, refl), (refl, tt)), ((((refl, inl refl), refl), refl), tt, tt), tt),
    tt,
  ),
  tt,
)

copy_and_collect_datamodel-IsCopied_example : IsCopied z good 4096
copy_and_collect_datamodel-IsCopied_example =
    copy_and_collect_datamodel-IsCopied z (resolves none good) good 4096 good-Every
