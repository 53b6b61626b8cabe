-- ===== src/Model/Insert/Union/Paths.antt =====
-- Looking up paths in the tree that a merge builds.
use claosi.Prelude.{
  ◌≡◌, refl, sym, ap, subst, ◌∙◌, Bool, true, false, ◌&&◌, List, [], ◌∷◌, Option, none, some, inl,
  inr, Option-cases, Bool-cases, and-left, and-right, is_none-none, is_none, some_eq, ap₂,
}
use claosi.Prelude.Names.{Name, name_eq, name_eq_refl, name_eq→eq}
use claosi.Model.{Node, Forest, node, nil, cons, header, children, Header}
use claosi.Model.Lookup.{child_named, descend}
use claosi.Model.Insert.Children.{
  child_of, find_child-child_named, child_named-snoc_hit, child_named-snoc_miss,
  child_named-put_hit, child_named-put_miss, find_child-name,
}
use claosi.Model.Insert.{put, Child, find_child}
use claosi.Model.Insert.Union.{append, union_with, union_one}

abbrev pub union : Forest → Node → Node
union = union_with append

-- No two siblings have one name.
unfoldable pub distinct : Forest → Bool
distinct nil = true
distinct (cons (node h cs) fs) = is_none (child_named h.name fs) && (distinct cs && distinct fs)

unfoldable pub head_of : Option Node → Option Header
head_of none = none
head_of (some n) = some (header n)

-- The first that is there.
unfoldable pub either : Option Header → Option Header → Option Header
either none b = b
either (some a) b = some a

-- What a name finds after the new nodes were merged in.
combine : Option Node → Option Node → Option Node
combine none b = b
combine (some m) none = some m
combine (some m) (some n) = some (union (children n) m)

combine-none : (a : Option Node) → combine a none ≡ a
unfolding combine
combine-none none = refl
combine-none (some m) = refl

header-union : (fs : Forest) (o : Node) → header (union fs o) ≡ header o
unfolding union_with
header-union nil o = refl
header-union (cons (node h cs) fs) o =
    header-union fs (union_one append (node h cs) o) ∙ one (find_child h.name (children o))
  where
    one :
        (c : Option Child)
        → header (elim c as (λ _. Node) [
          | none ↦ append o (node h cs)
          | some d ↦ node (header o) (put d.before (union cs d.here) d.after)
        ])
          ≡ header o
    one none = refl
    one (some d) = refl

-- The child of the new node's name.
union_one-hit :
    (t : Name) (n o : Node)
    → t ≡ (header n).name
    → child_named t (children (union_one append n o))
      ≡ combine (child_named t (children o)) (some n)
unfolding combine
union_one-hit t n o e =
    let at_it : name_eq t (header n).name ≡ true = ap (name_eq t) (sym e) ∙ name_eq_refl t in
    let found = find_child-child_named t (children o) in
    let same : find_child (header n).name (children o) ≡ find_child t (children o) =
      ap (λ x. find_child x (children o)) (sym e) in
    elim (Option-cases (find_child t (children o))) [
      | inl q ↦
          rw (union_one, same, q, found, q)
            (child_named-snoc_hit t (children o) n (found ∙ ap child_of q) at_it)
      | inr (c, q) ↦
          rw (union_one, same, q, found, q)
            (child_named-put_hit t (children o) c (union (children n) c.here) q (
              ap (λ k. name_eq t k.name) (header-union (children n) c.here)
              ∙ find_child-name t (children o) c q))
    ]

-- The children of other names.
pub union_one-miss :
    (t : Name) (n o : Node)
    → name_eq t (header n).name ≡ false
    → child_named t (children (union_one append n o)) ≡ child_named t (children o)
union_one-miss t n o e = elim (Option-cases (find_child (header n).name (children o))) [
  | inl q ↦ rw (union_one, q) (child_named-snoc_miss t (children o) n e)
  | inr (c, q) ↦
      let named : (header n).name ≡ (header c.here).name =
        name_eq→eq (header n).name (header c.here).name
          (find_child-name (header n).name (children o) c q) in
      let kept = header-union (children n) c.here in
      rw (union_one, q)
        (child_named-put_miss (header n).name t (children o) c (union (children n) c.here) q kept
          (ap (λ k. name_eq t k.name) kept ∙ ap (name_eq t) (sym named) ∙ e))
]

-- A name finds what it finds in the present model, merged with what it finds among the new nodes.
child_named-union :
    (t : Name) (fs : Forest) (o : Node)
    → distinct fs ≡ true
    → child_named t (children (union fs o))
      ≡ combine (child_named t (children o)) (child_named t fs)
unfolding distinct union_with child_named
child_named-union t nil o d = sym (combine-none (child_named t (children o)))
child_named-union t (cons (node h cs) fs) o d =
    let n : Node = node h cs in
    let single = is_none-none _ (and-left (is_none (child_named h.name fs)) _ d) in
    let rest = and-right _ _ (and-right (is_none (child_named h.name fs)) _ d) in
    let later = child_named-union t fs (union_one append n o) rest in
    elim (Bool-cases (name_eq t h.name)) [
      | inl e ↦
          let same = name_eq→eq t h.name e in
          let first : child_named t (cons n fs) ≡ some n = rw (child_named, e) in
          later
          ∙ ap (combine _) (ap (λ x. child_named x fs) same ∙ single)
          ∙ combine-none _
          ∙ union_one-hit t n o same
          ∙ ap (combine (child_named t (children o))) (sym first)
      | inr e ↦
          let first : child_named t (cons n fs) ≡ child_named t fs = rw (child_named, e) in
          later ∙ ap₂ combine (union_one-miss t n o e) (sym first)
    ]

distinct-child_named :
    (t : Name) (fs : Forest) (n : Node)
    → distinct fs ≡ true
    → child_named t fs ≡ some n
    → distinct (children n) ≡ true
unfolding distinct child_named
distinct-child_named t nil n d e = cc e
distinct-child_named t (cons (node h cs) fs) n d e =
    let both = and-right (is_none (child_named h.name fs)) _ d in
    elim (Bool-cases (name_eq t h.name)) [
      | inl q ↦
          subst (λ m. distinct (children m) ≡ true) (some_eq (rw (child_named, q) at e))
            (and-left _ _ both)
      | inr q ↦ distinct-child_named t fs n (and-right _ _ both) (rw (child_named, q) at e)
    ]

either-none : (a : Option Header) → either a none ≡ a
unfolding either
either-none none = refl
either-none (some a) = refl

pub descend-union :
    (ts : List Name) (o new : Node)
    → distinct (children new) ≡ true
    → head_of (descend (union (children new) o) ts)
      ≡ either (head_of (descend o ts)) (head_of (descend new ts))
unfolding descend head_of either combine
descend-union [] o new d = ap some (header-union (children new) o)
descend-union (t ∷ ts) o new d =
    let found = child_named-union t (children new) o d in
    elim (Option-cases (child_named t (children o))) [
      | inl e ↦ elim (Option-cases (child_named t (children new))) [
        | inl q ↦ rw (descend, found, e, q, combine) refl
        | inr (n, q) ↦ rw (descend, found, e, q, combine) refl
      ]
      | inr (m, e) ↦ elim (Option-cases (child_named t (children new))) [
        | inl q ↦ rw (descend, found, e, q, combine) (sym (either-none (head_of (descend m ts))))
        | inr (n, q) ↦
            rw (descend, found, e, q, combine)
              (descend-union ts m n (distinct-child_named t (children new) n d q))
      ]
    ]
