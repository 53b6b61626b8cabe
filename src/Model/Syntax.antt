-- ===== src/Model/Syntax.antt =====
-- lib/datamodel.c, `checkDataModelSyntax`: the check of a data model before it is registered.
pub mod Nodes
pub mod Accepts
mod Tests
use claosi.Prelude.{
  ℕ, zero, suc, ◌+◌, ◌≡◌, refl, sym, ap, ◌∙◌, ◌⊎◌, inl, inr, ◌↔◌, ◌≢◌, Bool, true, false, not, ◌&&◌,
  ◌||◌, List, [], ◌∷◌, ◌++◌, Option, none, some, arith, bit_and, ◌==◌, ltb, if◌then◌else◌,
  Bool-cases, Option-cases,
}
use claosi.Prelude.Names.{Name}
use claosi.Errors.{
  Error, echildrennum, echildrentype, etypeinfo, ecallback, ereturntype, ecomplextype, enoelement,
}
use claosi.Model.{
  Node, Forest, node, nil, cons, header, children, children_len, node_type, node_size, forest_size,
  Kind, model, namespace, source, event, object, ref, complex, plain, Source, Event, Object,
  namespace_bit, source_bit, event_bit, object_bit, ref_bit, string_bit, int_bit, float_bit,
  complex_bit, array_bit, byte_bit,
}
use claosi.Model.Lookup.{get_description}
use claosi.Model.Walk.{
  Round, go, stop, traverse, fold_rounds, start, preorder, preorder_forest, traverse-preorder,
}

-- (x & mask) != 0
abbrev pub has_bits : ℕ → ℕ → Bool
has_bits x mask = not (bit_and x mask == 0)

-- REF | INT | STRING | FLOAT | COMPLEX | ARRAY | BYTE
abbrev pub value_types : ℕ
value_types = 0x7f0

-- NAMESPACE | SOURCE | EVENT | OBJECT | COMPLEX
abbrev pub namespace_members : ℕ
namespace_members = 0x10f

-- INT | STRING | FLOAT | BYTE
abbrev pub identifier_types : ℕ
identifier_types = 0x4e0

-- SOURCE | EVENT
abbrev pub object_members : ℕ
object_members = 0x6

-- `numAllowedChildren`
pub data ChildCount : Type 0 where
  zero_children gre_zero geq_zero : ChildCount

abbrev is_some {ℓ} : {A : Type ℓ} → Option A → Bool
is_some none = false
is_some (some a) = true

-- In the model that is checked, or else in the current one, if there is one.
pub resolves : Option Node → Node → Name → Bool
resolves current root name =
    is_some (get_description (some root) name) || is_some (get_description current name)

-- The tests that a source and an event share.
pub check_return : (Name → Bool) → ℕ → Name → Bool → Option Error
check_return known type name callbacks =
    if not (has_bits type value_types)
    then some ereturntype
    else if has_bits type complex_bit && not (known name)
    then some ecomplextype
    else if callbacks
    then none
    else some ecallback

pub check_object : Object → Option Error
check_object o =
    if not (has_bits o.identifier_type identifier_types)
    then some ereturntype
    else if o.activate && o.deactivate && o.status
    then none
    else some ecallback

-- switch (curNode->dataModelType), the part that returns.
pub check_info : (Name → Bool) → Kind → Option Error
check_info known (model i) = if i then some etypeinfo else none
check_info known (namespace i) = if i then some etypeinfo else none
check_info known (source none) = some etypeinfo
check_info known (source (some s)) = check_return known s.return_type s.return_name s.callback
check_info known (event none) = some etypeinfo
check_info known (event (some e)) =
    check_return known e.return_type e.return_name (e.activate && e.deactivate)
check_info known (object none) = some etypeinfo
check_info known (object (some o)) = check_object o
check_info known (complex i) = if i then some etypeinfo else none
check_info known (ref none) = some etypeinfo
check_info known (ref (some name)) = if known name then none else some enoelement
check_info known (plain t i) = if i then some etypeinfo else none

-- switch (curNode->dataModelType), the part that sets `numAllowedChildren` and `allowedTypes`.
pub allowed_count : Kind → ChildCount
allowed_count (model i) = gre_zero
allowed_count (namespace i) = gre_zero
allowed_count (object i) = geq_zero
allowed_count (complex i) = gre_zero
allowed_count k = zero_children

pub allowed_types : Kind → ℕ
allowed_types (model i) = namespace_bit
allowed_types (namespace i) = namespace_members
allowed_types (object i) = object_members
allowed_types (complex i) = value_types
allowed_types k = 0

-- switch (numAllowedChildren)
pub check_count : ChildCount → ℕ → Option Error
check_count zero_children len = if len == 0 then none else some echildrennum
check_count gre_zero len = if len == 0 then some echildrennum else none
check_count geq_zero len = none

pub check_types : ℕ → Forest → Option Error
check_types mask nil = none
check_types mask (cons n fs) =
    if has_bits (node_type n) mask then check_types mask fs else some echildrentype

-- The body of the loop for one node: the error that it returns, if any.
pub check_node : (Name → Bool) → Node → Option Error
check_node known (node h cs) = elim (check_info known h.kind) [
  | some e ↦ some e
  | none ↦ elim (check_count (allowed_count h.kind) (children_len cs)) [
    | some e ↦ some e
    | none ↦ if allowed_types h.kind == 0 then none else check_types (allowed_types h.kind) cs
  ]
]

-- `failure` carries the node stored through `errElem`. `fault` is the read of the root's parent,
-- which is NULL, when the root itself has no children. `hang` would be running out of fuel.
pub data Verdict : Type 0 where
  success : Verdict
  failure : Error → Node → Verdict
  fault : Verdict
  hang : Verdict

abbrev pub is_leaf : Node → Bool
is_leaf (node h nil) = true
is_leaf (node h (cons n fs)) = false

pub check_round : (Name → Bool) → Unit {0} → Bool × Node → Round (Unit {0}) Verdict
check_round known s (at_root, n) = elim (check_node known n) [
  | some e ↦ stop (failure e n)
  | none ↦ if at_root && is_leaf n then stop fault else go tt
]

abbrev verdict : Option (Round (Unit {0}) Verdict) → Verdict
verdict none = hang
verdict (some (go s)) = success
verdict (some (stop v)) = v

pub check_data_model_syntax : Option Node → Node → Verdict
check_data_model_syntax current root =
    verdict (traverse (check_round (resolves current root)) (node_size root) tt (start root))
