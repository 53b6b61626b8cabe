-- ===== src/Tuple/Access/Copied.antt =====
-- What `copyArrayByte` leaves in the slots of an array.
use claosi.Prelude.{
  ℕ, zero, suc, ◌+◌, ◌-◌, ◌*◌, ◌≤◌, ◌<◌, ◌≡◌, refl, sym, ap, ◌∙◌, arith, ◌⊎◌, inl, inr, true, false,
  Bool-cases, Option, some, ◌==◌, ltb, leb, ◌&&◌, if◌then◌else◌,
}
use native.Mathlib.Nat.{mul-le-mul_right}
use claosi.Prelude.Names.{Name}
use claosi.Prelude.Int.{pos, incr, int_less, difference, subtract, count}
use claosi.Model.{Node}
use claosi.Model.Types.{PodSizes}
use claosi.Tuple.Bytes.{Bytes, load, store, limit, load_int, load-apart, load-store, of_bits}
use claosi.Tuple.Member.{at}
use claosi.Tuple.Access.{Tupel, member}
use claosi.Tuple.Access.Slots.{
  slot_at, in_array, get_array_slot_byte, copy_slots, to_copy, copy_array_byte,
}
use claosi.Tuple.Access.Kept.{slots_inside}

module _ (z : PodSizes) (p : ℕ) (v : ℕ → ℕ) where
  -- The bytes outside the slots that are written.
  copy_slots-apart :
      (n s i : ℕ) (m : Bytes) (b u : ℕ)
      → ((b + u ≤ (p + z.size_int) + s * z.size_byte)
          ⊎ ((p + z.size_int) + (s + n) * z.size_byte ≤ b))
      → load (copy_slots z p n (pos s) i v m) b u ≡ load m b u
  unfolding copy_slots incr slot_at
  copy_slots-apart zero s i m b u h = refl
  copy_slots-apart (suc n) s i m b u h =
      let at_s = (p + z.size_int) + s * z.size_byte in
      let room = slots_inside s (s + suc n) z.size_byte (omega arith) in
      let next : suc s + n ≡ s + suc n = omega arith in
      copy_slots-apart n (suc s) (suc i) (store m at_s z.size_byte (v i)) b u
        (rw next (elim h [ inl x ↦ inl (omega arith) | inr x ↦ inr x ]))
      ∙ load-apart m at_s z.size_byte (v i) b u
          (elim h [ inl x ↦ inl x | inr x ↦ inr (omega arith) ])

  -- The slots that are written.
  copy_slots-read :
      ((x : ℕ) → v x < limit z.size_byte)
      → (n s i j : ℕ) (m : Bytes) → s ≤ j
      → j < s + n
      → load (copy_slots z p n (pos s) i v m) ((p + z.size_int) + j * z.size_byte) z.size_byte
        ≡ v (i + (j - s))
  unfolding copy_slots incr slot_at
  copy_slots-read small zero s i j m lo hi = absurd (omega arith)
  copy_slots-read small (suc n) s i j m lo hi = elim (Bool-cases (s == j)) [
    | inl e ↦
        let same : s ≡ j = ground arith in
        let first : i ≡ i + (j - s) = omega arith in
        let at_s = (p + z.size_int) + s * z.size_byte in
        let after : at_s + z.size_byte ≤ (p + z.size_int) + suc s * z.size_byte = omega arith in
        rw (sym same) (
          copy_slots-apart n (suc s) (suc i) (store m at_s z.size_byte (v i)) at_s z.size_byte
            (inl after)
          ∙ load-store m at_s z.size_byte (v i) (small i)
          ∙ ap v (omega arith))
    | inr e ↦
        let later : suc s ≤ j = ground arith in
        let index : suc i + (j - suc s) ≡ i + (j - s) = omega arith in
        copy_slots-read small n (suc s) (suc i) j
          (store m ((p + z.size_int) + s * z.size_byte) z.size_byte (v i)) later (omega arith)
        ∙ ap v index
  ]

-- Of `c` values, as many as there are slots from the start on.
copied : (len s c : ℕ) → ℕ
copied len s c = if ltb c (len - s) then c else len - s

count-to_copy : (len s c : ℕ) → s < len → count (to_copy (pos len) (pos s) (pos c)) ≡ copied len s c
unfolding to_copy subtract difference count int_less copied
count-to_copy len s c h = ground arith

module _ (z : PodSizes) (fuel : ℕ) (root : Node) (m : Bytes) (tuple : Option Tupel) (path : Name)
    (a : ℕ) (d : Node) (found : member z fuel root tuple path ≡ at a d) (p len : ℕ)
    (there : (p == 0) ≡ false) (pointer : load m a z.size_array ≡ p)
    (long : load_int m p z.size_int ≡ pos len) where
  get_byte :
      (j : ℕ)
      → j < len
      → get_array_slot_byte z fuel root m tuple path (pos j)
        ≡ some (load m ((p + z.size_int) + j * z.size_byte) z.size_byte)
  unfolding get_array_slot_byte in_array slot_at int_less
  get_byte j h =
      let less : ltb j len ≡ true = ground arith in
      rw (get_array_slot_byte, in_array, found, pointer, there, long, int_less, less, slot_at) refl

  copy_bytes :
      (s c : ℕ) (v : ℕ → ℕ)
      → s < len
      → copy_array_byte z fuel root m tuple path (pos s) (some v) (pos c)
        ≡ some (copy_slots z p (copied len s c) (pos s) 0 v m)
  unfolding copy_array_byte int_less
  copy_bytes s c v h =
      let less : ltb s len ≡ true = ground arith in
      rw (copy_array_byte, found, pointer, there, long, int_less, less, count-to_copy len s c h)
        refl

module _ (z : PodSizes) (fuel : ℕ) (root : Node) (m : Bytes) (tuple : Option Tupel) (path : Name)
    (a : ℕ) (d : Node) (found : member z fuel root tuple path ≡ at a d) (p len : ℕ)
    (there : (p == 0) ≡ false) (pointer : load m a z.size_array ≡ p)
    (long : load_int m p z.size_int ≡ pos len) where
  -- The values that are copied to an array, from a start within it, stand in the slots from there on,
  -- as many as the array has room for, and the other slots are what they were, if the member that holds
  -- the pointer to the array is not itself in the slots.
  pub copy_array_byte-get_array_slot_byte :
      (s c j : ℕ) (v : ℕ → ℕ)
      → s < len
      → j < len
      → ((x : ℕ) → v x < limit z.size_byte)
      → ((a + z.size_array ≤ p) ⊎ ((p + z.size_int) + len * z.size_byte ≤ a))
      → (m' : Bytes) × (copy_array_byte z fuel root m tuple path (pos s) (some v) (pos c) ≡ some m')
        × (get_array_slot_byte z fuel root m' tuple path (pos j) ≡ (
            if leb s j && ltb j (s + c)
            then some (v (j - s))
            else get_array_slot_byte z fuel root m tuple path (pos j)))
  unfolding copied
  copy_array_byte-get_array_slot_byte s c j v hs hj small far =
      (m', copy_bytes z fuel root m tuple path a d found p len there pointer long s c v hs, read)
    where
      m' : Bytes
      m' = copy_slots z p (copied len s c) (pos s) 0 v m

      in_room : s + copied len s c ≤ len
      in_room = ground arith

      outside :
          (b u : ℕ)
          → ((b + u ≤ p + z.size_int) ⊎ ((p + z.size_int) + len * z.size_byte ≤ b))
          → load m' b u ≡ load m b u
      outside b u h =
          let room : (s + copied len s c) * z.size_byte ≤ len * z.size_byte =
            mul-le-mul_right z.size_byte in_room in
          copy_slots-apart z p v (copied len s c) s 0 m b u
            (elim h [ inl x ↦ inl (omega arith) | inr x ↦ inr (omega arith) ])

      now :
          get_array_slot_byte z fuel root m' tuple path (pos j)
          ≡ some (load m' ((p + z.size_int) + j * z.size_byte) z.size_byte)
      now =
          get_byte z fuel root m' tuple path a d found p len there
            (outside a z.size_array (elim far [ inl x ↦ inl (omega arith) | inr x ↦ inr x ])
              ∙ pointer)
            (ap (of_bits z.size_int) (outside p z.size_int (inl (omega arith))) ∙ long) j hj

      before :
          get_array_slot_byte z fuel root m tuple path (pos j)
          ≡ some (load m ((p + z.size_int) + j * z.size_byte) z.size_byte)
      before = get_byte z fuel root m tuple path a d found p len there pointer long j hj

      gap :
          (leb s j && ltb j (s + c)) ≡ false
          → (((p + z.size_int) + j * z.size_byte) + z.size_byte
              ≤ (p + z.size_int) + s * z.size_byte)
            ⊎ ((p + z.size_int) + (s + copied len s c) * z.size_byte
                ≤ (p + z.size_int) + j * z.size_byte)
      gap e = elim (Bool-cases (ltb j s)) [
        | inl l ↦ let before_it = slots_inside j s z.size_byte (ground arith) in inl (omega arith)
        | inr l ↦
            let past : s + copied len s c ≤ j = ground arith in
            let le : (s + copied len s c) * z.size_byte ≤ j * z.size_byte =
              mul-le-mul_right z.size_byte past in
            inr (omega arith)
      ]

      read : get_array_slot_byte z fuel root m' tuple path (pos j) ≡ (
          if leb s j && ltb j (s + c)
          then some (v (j - s))
          else get_array_slot_byte z fuel root m tuple path (pos j))
      read = elim (Bool-cases (leb s j && ltb j (s + c))) [
        | inl e ↦
            let hit : j < s + copied len s c = ground arith in
            let index : 0 + (j - s) ≡ j - s = omega arith in
            rw e (
              now
              ∙ ap some (
                  copy_slots-read z p v small (copied len s c) s 0 j m (ground arith) hit
                  ∙ ap v index))
        | inr e ↦ rw e (
            now
            ∙ ap some (
                copy_slots-apart z p v (copied len s c) s 0 m ((p + z.size_int) + j * z.size_byte)
                  z.size_byte (gap e))
            ∙ sym before)
      ]
