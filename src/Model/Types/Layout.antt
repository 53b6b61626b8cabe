-- ===== src/Model/Types/Layout.antt =====
-- The members of a structure.
use claosi.Prelude.{
  ℕ, ◌≡◌, refl, sym, ap, ◌∙◌, Bool, true, false, inl, inr, Bool-cases, arith, if◌then◌else◌,
}
use claosi.Prelude.Names.{Name, name_eq, name_eq_refl}
use claosi.Model.{Node, Forest, node, nil, cons, header}
use claosi.Model.Types.{
  PodSizes, Size, bytes, minus_one, failed, plus, get_complex_type_size, get_data_model_size,
  size_of_member, get_complex_type_offset,
}

-- The members `before`, then `n`, then `after`.
unfoldable pub with_member : Forest → Node → Forest → Forest
with_member nil n after = cons n after
with_member (cons m before) n after = cons m (with_member before n after)

-- None of them has the name.
unfoldable pub lacks : Name → Forest → Bool
lacks name nil = true
lacks name (cons n fs) = if name_eq (header n).name name then false else lacks name fs

plus_assoc : (a b c : Size) → plus a (plus b c) ≡ plus (plus a b) c
plus_assoc (bytes a) (bytes b) (bytes c) = ap bytes (omega arith)
plus_assoc (bytes a) (bytes b) minus_one = refl
plus_assoc (bytes a) (bytes b) failed = refl
plus_assoc (bytes a) minus_one c = refl
plus_assoc (bytes a) failed c = refl
plus_assoc minus_one b c = refl
plus_assoc failed b c = refl

plus_zero : (a : Size) → plus a (bytes 0) ≡ a
plus_zero (bytes a) = ap bytes (omega arith)
plus_zero minus_one = refl
plus_zero failed = refl

zero_plus : (a : Size) → plus (bytes 0) a ≡ a
zero_plus (bytes a) = ap bytes (omega arith)
zero_plus minus_one = refl
zero_plus failed = refl

module _ (z : PodSizes) (fuel : ℕ) (root : Node) where
  abbrev pub total : Forest → Size
  total = get_complex_type_size z fuel root

  empty : total nil ≡ bytes 0
  empty = unfold get_complex_type_size in refl

  pub total-cons :
      (n : Node) (fs : Forest) → total (cons n fs) ≡ plus (size_of_member z fuel root n) (total fs)
  unfolding get_complex_type_size size_of_member get_data_model_size
  total-cons (node h cs) fs = refl

  total-with_member :
      (before after : Forest) (n : Node)
      → total (with_member before n after)
        ≡ plus (plus (total before) (size_of_member z fuel root n)) (total after)
  unfolding with_member
  total-with_member nil after n =
      total-cons n after
      ∙ ap (λ s. plus s (total after))
          (sym (zero_plus (size_of_member z fuel root n))
            ∙ ap (λ t. plus t (size_of_member z fuel root n)) (sym empty))
  total-with_member (cons m before) after n =
      let here = size_of_member z fuel root m in
      let it = size_of_member z fuel root n in
      total-cons m (with_member before n after)
      ∙ ap (plus here) (total-with_member before after n)
      ∙ plus_assoc here (plus (total before) it) (total after)
      ∙ ap (λ s. plus s (total after))
          (plus_assoc here (total before) it ∙ ap (λ s. plus s it) (sym (total-cons m before)))

  offset-with_member :
      (before after : Forest) (n : Node)
      → lacks (header n).name before ≡ true
      → get_complex_type_offset z fuel root (with_member before n after) (header n).name
        ≡ total before
  unfolding with_member lacks get_complex_type_offset
  offset-with_member nil after n h =
      rw (get_complex_type_offset, name_eq_refl (header n).name) (sym empty)
  offset-with_member (cons m before) after n h =
      elim (Bool-cases (name_eq (header m).name (header n).name)) [
        | inl e ↦ cc (rw (e, lacks) at h)
        | inr e ↦
            rw (get_complex_type_offset, e)
              (ap (plus (size_of_member z fuel root m))
                  (offset-with_member before after n (rw (e, lacks) at h))
                ∙ sym (total-cons m before))
      ]

  -- A member lies behind the bytes of the members before it, the first of its name, and the structure
  -- takes the bytes up to its offset, those of the member and those of the members after it; an error
  -- at an earlier part is that of the whole.
  pub get_complex_type_offset-size :
      (before after : Forest) (n : Node)
      → lacks (header n).name before ≡ true
      → let members = with_member before n after in
        let offset = get_complex_type_offset z fuel root members (header n).name in
        (offset ≡ get_complex_type_size z fuel root before)
        × (get_complex_type_size z fuel root members
            ≡ plus
                (plus offset (size_of_member z fuel root n))
                (get_complex_type_size z fuel root after))
  get_complex_type_offset-size before after n h =
      let o = offset-with_member before after n h in
      (
        o,
        total-with_member before after n
            ∙ ap (λ b. plus (plus b (size_of_member z fuel root n)) (total after)) (sym o),
      )
