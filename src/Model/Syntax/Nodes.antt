-- ===== src/Model/Syntax/Nodes.antt =====
-- What the syntax check demands of one node.
use claosi.Prelude.{
  ℕ, ◌<◌, ◌≡◌, refl, sym, ◌∙◌, ◌⊎◌, inl, inr, ◌↔◌, Bool, true, false, Option, none, some, arith,
  ◌==◌, if◌then◌else◌, Bool-cases, Option-cases,
}
use claosi.Prelude.Names.{Name}
use claosi.Errors.{Error}
use claosi.Model.{
  Node, Forest, node, nil, cons, children_len, node_type, Kind, model, namespace, source, event,
  object, ref, complex, plain, namespace_bit, complex_bit,
}
use claosi.Model.Syntax.{
  has_bits, value_types, namespace_members, identifier_types, object_members, check_return,
  check_object, check_info, allowed_count, allowed_types, check_count, check_types, check_node,
  gre_zero,
}

-- A return type of some value, with a known name if it is complex.
abbrev Returns : (Name → Bool) → ℕ → Name → Type 0
Returns known type name =
    (has_bits type value_types ≡ true) × ((has_bits type complex_bit ≡ false) ⊎ (known name ≡ true))

-- The payload that the kind of a node asks for.
abbrev pub Payload : (Name → Bool) → Kind → Type 0
Payload known (model i) = i ≡ false
Payload known (namespace i) = i ≡ false
Payload known (source none) = ⊥
Payload known (source (some s)) = Returns known s.return_type s.return_name × (s.callback ≡ true)
Payload known (event none) = ⊥
Payload known (event (some e)) =
    Returns known e.return_type e.return_name × (e.activate ≡ true) × (e.deactivate ≡ true)
Payload known (object none) = ⊥
Payload known (object (some o)) =
    (has_bits o.identifier_type identifier_types ≡ true)
    × (o.activate ≡ true)
    × (o.deactivate ≡ true)
    × (o.status ≡ true)
Payload known (complex i) = i ≡ false
Payload known (ref none) = ⊥
Payload known (ref (some name)) = known name ≡ true
Payload known (plain t i) = i ≡ false

-- Every child is of one of the kinds of the mask.
abbrev AllOf : ℕ → Forest → Type 0
AllOf mask nil = Unit
AllOf mask (cons n fs) = (has_bits (node_type n) mask ≡ true) × AllOf mask fs

-- The children that the kind of a node asks for.
abbrev pub Members : Kind → Forest → Type 0
Members (model i) fs = (0 < children_len fs) × AllOf namespace_bit fs
Members (namespace i) fs = (0 < children_len fs) × AllOf namespace_members fs
Members (object i) fs = AllOf object_members fs
Members (complex i) fs = (0 < children_len fs) × AllOf value_types fs
Members k fs = fs ≡ nil

abbrev pub IsNodeOk : (Name → Bool) → Node → Type 0
IsNodeOk known (node h cs) = Payload known h.kind × Members h.kind cs

-- It holds of every node of the forest.
abbrev pub Every : (Node → Type 0) → Forest → Type 0
Every P nil = Unit
Every P (cons (node h cs) fs) = P (node h cs) × Every P cs × Every P fs

check_info-Payload :
    (known : Name → Bool) (k : Kind) → (check_info known k ≡ none) ↔ Payload known k
unfolding check_info check_return check_object
check_info-Payload known (model i) = ground arith
check_info-Payload known (namespace i) = ground arith
check_info-Payload known (source none) = ground arith
check_info-Payload known (source (some s)) = ground arith
check_info-Payload known (event none) = ground arith
check_info-Payload known (event (some e)) = ground arith
check_info-Payload known (object none) = ground arith
check_info-Payload known (object (some o)) = ground arith
check_info-Payload known (complex i) = ground arith
check_info-Payload known (ref none) = ground arith
check_info-Payload known (ref (some name)) = ground arith
check_info-Payload known (plain t i) = ground arith

check_types-AllOf : (mask : ℕ) (fs : Forest) → (check_types mask fs ≡ none) ↔ AllOf mask fs
unfolding check_types
check_types-AllOf mask nil = ground arith
check_types-AllOf mask (cons n fs) = elim (Bool-cases (has_bits (node_type n) mask)) [
  | inl e ↦
      rw (e, check_types)
        (λ h. (refl, (check_types-AllOf mask fs).0 h), λ h. (check_types-AllOf mask fs).1 h.1)
  | inr e ↦ rw (e, check_types) (λ h. cc, λ h. cc)
]

-- The two tests on the children of a node.
abbrev check_children : Kind → Forest → Option Error
check_children k cs = elim (check_count (allowed_count k) (children_len cs)) [
  | some e ↦ some e
  | none ↦ if allowed_types k == 0 then none else check_types (allowed_types k) cs
]

some_children :
    (k : Kind) (n : Node) (fs : Forest) (mask : ℕ)
    → allowed_count k ≡ gre_zero
    → allowed_types k ≡ mask
    → (mask == 0) ≡ false
    → (check_children k (cons n fs) ≡ none)
      ↔ ((0 < children_len (cons n fs)) × AllOf mask (cons n fs))
unfolding check_count children_len
some_children k n fs mask hc ht hm =
    let e : check_children k (cons n fs) ≡ check_types mask (cons n fs) = ground arith in
    let types = check_types-AllOf mask (cons n fs) in
    (λ h. (omega arith, types.0 (sym e ∙ h)), λ h. e ∙ types.1 h.1)

check_children-Members : (k : Kind) (fs : Forest) → (check_children k fs ≡ none) ↔ Members k fs
unfolding check_count allowed_count allowed_types children_len check_types
check_children-Members (model i) nil = ground arith
check_children-Members (model i) (cons n fs) =
    some_children (model i) n fs namespace_bit refl refl refl
check_children-Members (namespace i) nil = ground arith
check_children-Members (namespace i) (cons n fs) =
    some_children (namespace i) n fs namespace_members refl refl refl
check_children-Members (complex i) nil = ground arith
check_children-Members (complex i) (cons n fs) =
    some_children (complex i) n fs value_types refl refl refl
check_children-Members (object i) fs = check_types-AllOf object_members fs
check_children-Members (source i) nil = ground arith
check_children-Members (source i) (cons n fs) = (λ h. ground arith, λ h. ground arith)
check_children-Members (event i) nil = ground arith
check_children-Members (event i) (cons n fs) = (λ h. ground arith, λ h. ground arith)
check_children-Members (ref i) nil = ground arith
check_children-Members (ref i) (cons n fs) = (λ h. ground arith, λ h. ground arith)
check_children-Members (plain t i) nil = ground arith
check_children-Members (plain t i) (cons n fs) = (λ h. ground arith, λ h. ground arith)

pub check_node-IsNodeOk :
    (known : Name → Bool) (n : Node) → (check_node known n ≡ none) ↔ IsNodeOk known n
unfolding check_node
check_node-IsNodeOk known (node h cs) =
    let info = check_info-Payload known h.kind in
    let members = check_children-Members h.kind cs in
    elim (Option-cases (check_info known h.kind)) [
      | inl e ↦ rw (e, check_node) (λ q. (info.0 e, members.0 q), λ q. members.1 q.1)
      | inr (x, e) ↦ rw (e, check_node) (λ q. cc, λ q. absurd (ground (arith, info.1 q.0)))
    ]
