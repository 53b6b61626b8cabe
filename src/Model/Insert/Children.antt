-- ===== src/Model/Insert/Children.antt =====
-- The children of a node, by their names.
use claosi.Prelude.{
  ◌≡◌, refl, sym, ap, ◌∙◌, true, false, Option, none, some, inl, inr, Option-cases, Bool-cases,
  some_eq, ◌⊎◌,
}
use claosi.Prelude.Names.{Name, name_eq}
use claosi.Model.{Node, Forest, nil, cons, header}
use claosi.Model.Lookup.{child_named}
use claosi.Model.Copy.{snoc}
use claosi.Model.Insert.{put, Child, find_child, behind}

abbrev pub child_of : Option Child → Option Node
child_of none = none
child_of (some c) = some c.here

pub find_child-child_named :
    (t : Name) (fs : Forest) → child_named t fs ≡ child_of (find_child t fs)
unfolding child_named find_child
find_child-child_named t nil = refl
find_child-child_named t (cons m ms) = elim (Bool-cases (name_eq t (header m).name)) [
  | inl e ↦ rw (child_named, find_child, e)
  | inr e ↦ rw (child_named, find_child, e) (find_child-child_named t ms ∙ same (find_child t ms))
]
  where
    same : (c : Option Child) → child_of c ≡ child_of (behind m c)
    same none = refl
    same (some c) = refl

pub child_named-snoc_hit :
    (t : Name) (fs : Forest) (n : Node)
    → child_named t fs ≡ none
    → name_eq t (header n).name ≡ true
    → child_named t (snoc fs n) ≡ some n
unfolding child_named snoc
child_named-snoc_hit t nil n e h = rw (child_named, h)
child_named-snoc_hit t (cons m ms) n e h = elim (Bool-cases (name_eq t (header m).name)) [
  | inl q ↦ cc (rw (child_named, q) at e)
  | inr q ↦ rw (child_named, q) (child_named-snoc_hit t ms n (rw (child_named, q) at e) h)
]

pub child_named-snoc_miss :
    (t : Name) (fs : Forest) (n : Node)
    → name_eq t (header n).name ≡ false
    → child_named t (snoc fs n) ≡ child_named t fs
unfolding child_named snoc
child_named-snoc_miss t nil n h = rw (child_named, h)
child_named-snoc_miss t (cons m ms) n h = elim (Bool-cases (name_eq t (header m).name)) [
  | inl q ↦ rw (child_named, q)
  | inr q ↦ rw (child_named, q) (child_named-snoc_miss t ms n h)
]

-- Where the first child of a name stands.
pub find_child-cons :
    (x : Name) (m : Node) (ms : Forest) (c : Child)
    → find_child x (cons m ms) ≡ some c
    → ((name_eq x (header m).name ≡ true) × (c ≡ (record { before = nil; here = m; after = ms })))
      ⊎ ((c' : Child) × (name_eq x (header m).name ≡ false)
          × (find_child x ms ≡ some c')
          × (c ≡ (record c' { before = cons m c'.before })))
unfolding find_child
find_child-cons x m ms c h = elim (Bool-cases (name_eq x (header m).name)) [
  | inl e ↦ inl (e, sym (some_eq (rw (find_child, e) at h)))
  | inr e ↦ elim (Option-cases (find_child x ms)) [
    | inl q ↦ cc (rw (find_child, e, q) at h)
    | inr (c', q) ↦ inr (c', e, q, sym (some_eq (rw (find_child, e, q) at h)))
  ]
]

-- Another node of the name in its place.
pub child_named-put_hit :
    (x : Name) (fs : Forest) (c : Child) (n : Node)
    → find_child x fs ≡ some c
    → name_eq x (header n).name ≡ true
    → child_named x (put c.before n c.after) ≡ some n
unfolding child_named put find_child
child_named-put_hit x nil c n h q = cc h
child_named-put_hit x (cons m ms) c n h q = elim (find_child-cons x m ms c h) [
  | inl (e, w) ↦ rw (w, child_named, q)
  | inr (c', e, r, w) ↦ rw (w, put, child_named, e) (child_named-put_hit x ms c' n r q)
]

pub child_named-put_miss :
    (x t : Name) (fs : Forest) (c : Child) (n : Node)
    → find_child x fs ≡ some c
    → header n ≡ header c.here
    → name_eq t (header n).name ≡ false
    → child_named t (put c.before n c.after) ≡ child_named t fs
unfolding child_named put find_child
child_named-put_miss x t nil c n h same q = cc h
child_named-put_miss x t (cons m ms) c n h same q = elim (find_child-cons x m ms c h) [
  | inl (e, w) ↦
      let other : name_eq t (header m).name ≡ false =
        ap (λ k. name_eq t k.name) (sym (same ∙ ap (λ d. header d.here) w)) ∙ q in
      rw (w, child_named, q, other)
  | inr (c', e, r, w) ↦ elim (Bool-cases (name_eq t (header m).name)) [
    | inl v ↦ rw (w, put, child_named, v)
    | inr v ↦
        rw (w, put, child_named, v)
          (child_named-put_miss x t ms c' n r (same ∙ ap (λ d. header d.here) w) q)
  ]
]

-- It has that name.
pub find_child-name :
    (x : Name) (fs : Forest) (c : Child)
    → find_child x fs ≡ some c
    → name_eq x (header c.here).name ≡ true
unfolding find_child
find_child-name x nil c h = cc h
find_child-name x (cons m ms) c h = elim (find_child-cons x m ms c h) [
  | inl (e, w) ↦ ap (λ d. name_eq x (header d.here).name) w ∙ e
  | inr (c', e, r, w) ↦ ap (λ d. name_eq x (header d.here).name) w ∙ find_child-name x ms c' r
]

-- In its own place it is one of the children.
pub put-find_child :
    (x : Name) (fs : Forest) (c : Child)
    → find_child x fs ≡ some c
    → put c.before c.here c.after ≡ fs
unfolding find_child put
put-find_child x nil c h = cc h
put-find_child x (cons m ms) c h = elim (find_child-cons x m ms c h) [
  | inl (e, w) ↦ ap (λ d. put d.before d.here d.after) w
  | inr (c', e, r, w) ↦
      ap (λ d. put d.before d.here d.after) w ∙ ap (cons m) (put-find_child x ms c' r)
]
