-- ===== src/Tuple/Collect/Ends.antt =====
-- How much memory the copy of a value takes.
use claosi.Prelude.{
  ℕ, zero, suc, ◌+◌, ◌*◌, ◌≡◌, refl, sym, ap, ap₂, ◌∙◌, Bool, true, ◌&&◌, List, [], ◌∷◌, ◌++◌,
  Option, none, some, arith, inl, inr, Bool-cases, map,
}
use claosi.Model.{Node, children, string_bit, array_bit, complex_bit}
use claosi.Model.Syntax.{has_bits}
use claosi.Model.Types.{
  PodSizes, Resolved, resolved, null_read, unending, resolve_type, Size, bytes, minus_one, failed,
  get_data_model_size,
}
use claosi.Tuple.{
  Memory, TupleSizes, Kind, leaf, structure, no_size, no_type, Place, Moved, moved, finished,
  returned, fault, Walked, walked, negative, crash, endless, before, climb_from, step_into, walk,
}
use claosi.Tuple.Items.{strings, lengths, array_size, size_kind, get_item_size, sum}
use claosi.Tuple.Collect.{
  Piece, place, concat, collected, string_pieces, array_piece, copy_kind,
  copy_and_collect_additional_mem,
}

map_kind : {A B : Type 0} → (A → B) → Kind A → Kind B
map_kind g (leaf a) = leaf (g a)
map_kind g structure = structure
map_kind g no_size = no_size
map_kind g no_type = no_type

map_walked : {A B : Type 0} → (A → B) → Walked A → Walked B
map_walked g (walked l) = walked (map g l)
map_walked g negative = negative
map_walked g crash = crash
map_walked g endless = endless

before-map_walked :
    {A B : Type 0} (g : A → B) (a : A) (w : Walked A)
    → before (g a) (map_walked g w) ≡ map_walked g (before a w)
unfolding map_walked
before-map_walked g a (walked l) = refl
before-map_walked g a negative = refl
before-map_walked g a crash = refl
before-map_walked g a endless = refl

-- Two walks whose results at each node correspond.
module _ (z : PodSizes) (fuel : ℕ) (root : Node) {A B : Type 0} (g : A → B)
    (kind : Node → ℕ → Kind A) (kind' : Node → ℕ → Kind B)
    (same : (n : Node) (a : ℕ) → kind' n a ≡ map_kind g (kind n a)) (resets : Bool)
    (outer : Option Node) where
  walk-map_walked :
      (n : ℕ) (s : Place)
      → walk z fuel root resets kind' outer n s
        ≡ map_walked g (walk z fuel root resets kind outer n s)
  unfolding walk map_walked map_kind
  walk-map_walked zero s = refl
  walk-map_walked (suc n) s = pick (λ s'. walk-map_walked n s') (kind s.cur s.value) refl
    where
      Same : Moved → Type 0
      Same mv =
          (elim mv as (λ _. Walked B) [
            | moved s' ↦ walk z fuel root resets kind' outer n s'
            | finished ↦ walked []
            | returned ↦ negative
            | fault ↦ crash
          ])
          ≡ map_walked g (elim mv as (λ _. Walked A) [
            | moved s' ↦ walk z fuel root resets kind outer n s'
            | finished ↦ walked []
            | returned ↦ negative
            | fault ↦ crash
          ])

      after_leaf :
          ((s' : Place)
            → walk z fuel root resets kind' outer n s'
              ≡ map_walked g (walk z fuel root resets kind outer n s'))
          → (mv : Moved) → Same mv
      after_leaf more (moved s') = more s'
      after_leaf more finished = refl
      after_leaf more returned = refl
      after_leaf more fault = refl

      after_structure :
          ((s' : Place)
            → walk z fuel root resets kind' outer n s'
              ≡ map_walked g (walk z fuel root resets kind outer n s'))
          → (mv : Moved)
          → (elim mv as (λ _. Walked B) [
            | moved s' ↦ walk z fuel root resets kind' outer n s'
            | finished ↦ crash
            | returned ↦ crash
            | fault ↦ crash
          ])
            ≡ map_walked g (elim mv as (λ _. Walked A) [
              | moved s' ↦ walk z fuel root resets kind outer n s'
              | finished ↦ crash
              | returned ↦ crash
              | fault ↦ crash
            ])
      after_structure more (moved s') = more s'
      after_structure more finished = refl
      after_structure more returned = refl
      after_structure more fault = refl

      pick :
          ((s' : Place)
            → walk z fuel root resets kind' outer n s'
              ≡ map_walked g (walk z fuel root resets kind outer n s'))
          → (q : Kind A) → kind s.cur s.value ≡ q
          → walk z fuel root resets kind' outer (suc n) s
            ≡ map_walked g (walk z fuel root resets kind outer (suc n) s)
      pick more (leaf a) e =
          rw (walk, same s.cur s.value, e, map_kind)
            (ap (before (g a)) (after_leaf more (climb_from z fuel root outer s))
              ∙ before-map_walked g a _)
      pick more structure e =
          rw (walk, same s.cur s.value, e, map_kind)
            (after_structure more (step_into z fuel root resets s (children s.cur)))
      pick more no_size e = rw (walk, same s.cur s.value, e, map_kind, map_walked) refl
      pick more no_type e = rw (walk, same s.cur s.value, e, map_kind, map_walked) refl

bytes_of : List Piece → ℕ
bytes_of [] = 0
bytes_of (p ∷ ps) = p.size + bytes_of ps

bytes_of-append : (ps qs : List Piece) → bytes_of (ps ++ qs) ≡ bytes_of ps + bytes_of qs
unfolding bytes_of
bytes_of-append [] qs = omega arith
bytes_of-append (p ∷ ps) qs = omega (arith, bytes_of-append ps qs)

place-end : (free : ℕ) (ps : List Piece) → (place free ps).1 ≡ free + bytes_of ps
unfolding place bytes_of
place-end free [] = omega arith
place-end free (p ∷ ps) = omega (arith, place-end (free + p.size) ps)

module _ (z : PodSizes) (fuel : ℕ) (root : Node) (m : Memory) (w : TupleSizes) where
  strings-bytes :
      (n a : ℕ)
      → lengths z fuel root m w (strings z fuel root m w n a)
        ≡ bytes_of (string_pieces z fuel root m n a)
  unfolding lengths strings string_pieces bytes_of
  strings-bytes zero a = refl
  strings-bytes (suc n) a =
      ap (λ k. (m.strlen (m.word a) + 1) + k) (strings-bytes n (a + z.size_string))

  sum-bytes :
      (pss : List (List Piece)) → sum z fuel root m w (map bytes_of pss) ≡ bytes_of (concat pss)
  unfolding sum concat bytes_of
  sum-bytes [] = refl
  sum-bytes (ps ∷ pss) = omega (arith, sum-bytes pss, bytes_of-append ps (concat pss))

  array-bytes :
      (a : ℕ) (s : Size)
      → array_size z fuel root m w (m.int (m.word a)) s
        ≡ map_kind bytes_of (array_piece z fuel root m a s)
  unfolding array_size array_piece map_kind bytes_of
  array-bytes a (bytes b) = ap leaf (omega arith)
  array-bytes a minus_one = refl
  array-bytes a failed = refl

  kind-bytes :
      w.pointer ≡ z.size_string
      → (n : Node) (a : ℕ) (r : Resolved)
      → size_kind z fuel root m w n a r ≡ map_kind bytes_of (copy_kind z fuel root m n a r)
  unfolding size_kind copy_kind map_kind bytes_of
  kind-bytes e n a null_read = refl
  kind-bytes e n a unending = refl
  kind-bytes e n a (resolved t) =
      elim (Bool-cases (has_bits t string_bit && has_bits t array_bit)) [
        | inl b ↦
            rw (size_kind, copy_kind, b)
              (ap leaf (
                ap₂ (λ x y. m.int (m.word a) * x + z.size_int + y) e
                  (strings-bytes (m.int (m.word a)) (m.word a + z.size_int))))
        | inr b ↦ elim (Bool-cases (has_bits t array_bit)) [
          | inl c ↦
              rw (size_kind, copy_kind, b, c)
                (array-bytes a (get_data_model_size z fuel root (some n) true))
          | inr c ↦ elim (Bool-cases (has_bits t string_bit)) [
            | inl d ↦ rw (size_kind, copy_kind, b, c, d) (ap leaf (omega arith))
            | inr d ↦ elim (Bool-cases (has_bits t complex_bit)) [
              | inl f ↦ rw (size_kind, copy_kind, b, c, d, f) refl
              | inr f ↦ rw (size_kind, copy_kind, b, c, d, f) refl
            ]
          ]
        ]
      ]

  -- Where a copy ends.
  abbrev pub end_of : Option (List (ℕ × Piece) × ℕ) → Option ℕ
  end_of none = none
  end_of (some (placed, end)) = some end

  -- Where it would end by the sizes of the members.
  abbrev pub after_sizes : ℕ → Walked ℕ → Option ℕ
  after_sizes free (walked ns) = some (free + sum z fuel root m w ns)
  after_sizes free r = none

  collected-end :
      (free : ℕ) (r : Walked (List Piece))
      → end_of (collected free r) ≡ after_sizes free (map_walked bytes_of r)
  unfolding collected map_walked
  collected-end free (walked pss) =
      ap some (place-end free (concat pss) ∙ ap (λ k. free + k) (sym (sum-bytes pss)))
  collected-end free negative = refl
  collected-end free crash = refl
  collected-end free endless = refl

  -- If a pointer takes what a string takes in the data model, then `copyAndCollectAdditionalMem` uses
  -- exactly the bytes that `getItemSize` counts for the value, and gives no result exactly where that
  -- gives none.
  pub copy_and_collect_additional_mem-get_item_size :
      (rounds : ℕ) (outer : Option Node) (value free : ℕ) (element : Node)
      → w.pointer ≡ z.size_string
      → end_of (copy_and_collect_additional_mem z fuel root m rounds outer value free element)
        ≡ after_sizes free (get_item_size z fuel root m w rounds outer value element)
  unfolding copy_and_collect_additional_mem get_item_size
  copy_and_collect_additional_mem-get_item_size rounds outer value free element e =
      collected-end free _
      ∙ ap (after_sizes free) (
          sym (
            walk-map_walked z fuel root bytes_of
              (λ n a. copy_kind z fuel root m n a (resolve_type fuel root (some n)))
              (λ n a. size_kind z fuel root m w n a (resolve_type fuel root (some n)))
              (λ n a. kind-bytes e n a (resolve_type fuel root (some n))) true outer rounds _))
