-- ===== src/Query/Registry/Paths.antt =====
-- Writes to the node that a path leads to.
use claosi.Prelude.{
  some_eq, ◌≡◌, refl, sym, ap, ◌∙◌, true, List, [], ◌∷◌, some, inl, inr, Bool-cases, Option-cases,
}
use claosi.Prelude.Names.{Name, name_eq}
use claosi.Model.{Node, Forest, node, nil, cons, header, Kind}
use claosi.Model.Lookup.{child_named, descend}
use claosi.Query.Registry.{replace_child, write_at}

write_at-name :
    (f : Kind → Kind) (n : Node) (ts : List Name)
    → (header (write_at f n ts)).name ≡ (header n).name
unfolding write_at
write_at-name f (node h cs) [] = refl
write_at-name f (node h cs) (t ∷ ts) = refl

pub child_named-replace_child :
    (t : Name) (f : Node → Node) (fs : Forest) (c : Node)
    → ((n : Node) → (header (f n)).name ≡ (header n).name)
    → child_named t fs ≡ some c
    → child_named t (replace_child t f fs) ≡ some (f c)
unfolding child_named replace_child
child_named-replace_child t f nil c keeps h = cc h
child_named-replace_child t f (cons n fs) c keeps h =
    elim (Bool-cases (name_eq t (header n).name)) [
      | inl e ↦
          let same : n ≡ c = some_eq (rw (e, child_named) at h) in
          let still : name_eq t (header (f n)).name ≡ true = ap (name_eq t) (keeps n) ∙ e in
          rw (e, replace_child, child_named, still) (ap (λ m. some (f m)) same)
      | inr e ↦
          rw (e, replace_child, child_named, e)
            (child_named-replace_child t f fs c keeps (rw (e, child_named) at h))
    ]

replace_child-twice :
    (t : Name) (f g k : Node → Node) (fs : Forest) (c : Node)
    → ((n : Node) → (header (f n)).name ≡ (header n).name)
    → child_named t fs ≡ some c
    → g (f c) ≡ k c
    → replace_child t g (replace_child t f fs) ≡ replace_child t k fs
unfolding child_named replace_child
replace_child-twice t f g k nil c keeps h e = cc
replace_child-twice t f g k (cons n fs) c keeps h q =
    elim (Bool-cases (name_eq t (header n).name)) [
      | inl e ↦
          let same : n ≡ c = some_eq (rw (e, child_named) at h) in
          let still : name_eq t (header (f n)).name ≡ true = ap (name_eq t) (keeps n) ∙ e in
          rw (e, replace_child, still)
            (ap (λ m. cons m fs) (ap (λ m. g (f m)) same ∙ q ∙ ap k (sym same)))
      | inr e ↦
          rw (e, replace_child, e)
            (ap (cons n) (replace_child-twice t f g k fs c keeps (rw (e, child_named) at h) q))
    ]

replace_child_self :
    (t : Name) (k : Node → Node) (fs : Forest) (c : Node)
    → child_named t fs ≡ some c
    → k c ≡ c
    → replace_child t k fs ≡ fs
unfolding child_named replace_child
replace_child_self t k nil c h e = refl
replace_child_self t k (cons n fs) c h q = elim (Bool-cases (name_eq t (header n).name)) [
  | inl e ↦
      let same : n ≡ c = some_eq (rw (e, child_named) at h) in
      rw (e, replace_child) (ap (λ m. cons m fs) (ap k same ∙ q ∙ sym same))
  | inr e ↦
      rw (e, replace_child) (ap (cons n) (replace_child_self t k fs c (rw (e, child_named) at h) q))
]

pub descend-write_at :
    (f : Kind → Kind) (n d : Node) (ts : List Name)
    → descend n ts ≡ some d
    → descend (write_at f n ts) ts ≡ some (write_at f d [])
unfolding descend write_at
descend-write_at f (node h cs) d [] e = ap (λ m. some (write_at f m [])) (some_eq e)
descend-write_at f (node h cs) d (t ∷ ts) e = elim (Option-cases (child_named t cs)) [
  | inl p ↦ cc (rw (p, descend) at e)
  | inr (c, p) ↦
      let found =
        child_named-replace_child t (λ m. write_at f m ts) cs c (λ m. write_at-name f m ts) p in
      rw (found, descend, write_at) (descend-write_at f c d ts (rw (p, descend) at e))
]

-- Two writes to one node are one.
pub write_at-twice :
    (f g k : Kind → Kind) (n d : Node) (ts : List Name)
    → descend n ts ≡ some d
    → g (f (header d).kind) ≡ k (header d).kind
    → write_at g (write_at f n ts) ts ≡ write_at k n ts
unfolding descend write_at
write_at-twice f g k (node h cs) d [] e q =
    let same : node h cs ≡ d = some_eq e in
    let same_kind : h.kind ≡ (header d).kind = ap (λ m. (header m).kind) same in
    ap (λ v. node (record h { kind = v }) cs)
      (ap (λ v. g (f v)) same_kind ∙ q ∙ ap k (sym same_kind))
write_at-twice f g k (node h cs) d (t ∷ ts) e q = elim (Option-cases (child_named t cs)) [
  | inl p ↦ cc (rw (p, descend) at e)
  | inr (c, p) ↦ ap (node h) (
      replace_child-twice t (λ m. write_at f m ts) (λ m. write_at g m ts) (λ m. write_at k m ts) cs
        c (λ m. write_at-name f m ts) p (write_at-twice f g k c d ts (rw (p, descend) at e) q))
]

-- A write that leaves the kind of the node as it is leaves the tree as it is.
pub write_at_self :
    (k : Kind → Kind) (n d : Node) (ts : List Name)
    → descend n ts ≡ some d
    → k (header d).kind ≡ (header d).kind
    → write_at k n ts ≡ n
unfolding descend write_at
write_at_self k (node h cs) d [] e q =
    let same_kind : h.kind ≡ (header d).kind = ap (λ m. (header m).kind) (some_eq e) in
    ap (λ v. node (record h { kind = v }) cs) (ap k same_kind ∙ q ∙ sym same_kind)
write_at_self k (node h cs) d (t ∷ ts) e q = elim (Option-cases (child_named t cs)) [
  | inl p ↦ cc (rw (p, descend) at e)
  | inr (c, p) ↦ ap (node h) (
      replace_child_self t (λ m. write_at k m ts) cs c p
        (write_at_self k c d ts (rw (p, descend) at e) q))
]
