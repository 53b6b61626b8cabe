-- ===== src/Tuple/Access/Kept.antt =====
-- What is read after a write: of an item, of a slot of an array, and of the slots that are copied.
use claosi.Prelude.{
  ℕ, suc, ◌+◌, ◌*◌, ◌≤◌, ◌<◌, ◌≡◌, ◌≢◌, refl, sym, ap, ◌∙◌, arith, ◌⊎◌, inl, inr, true, false,
  Bool-cases, Option, some, ◌==◌, ltb, if◌then◌else◌,
}
use native.Mathlib.Nat.{mul-le-mul_right}
use claosi.Prelude.Names.{Name}
use claosi.Prelude.Int.{ℤ, pos, int_less}
use claosi.Model.{Node}
use claosi.Model.Types.{PodSizes}
use claosi.Tuple.Bytes.{
  Bytes, load, store, load_int, store_int, Fits, load-apart, load_int-store_int, of_bits, to_bits,
}
use claosi.Tuple.Member.{at}
use claosi.Tuple.Access.{Tupel, member, set_item_int, get_item_int}
use claosi.Tuple.Access.Slots.{slot_at, in_array, set_array_slot_int, get_array_slot_int}

module _ (z : PodSizes) (fuel : ℕ) (root : Node) (m : Bytes) (tuple : Option Tupel) (path : Name)
    (a : ℕ) (d : Node) (found : member z fuel root tuple path ≡ at a d) where
  -- A value that fits an int is got back from the member that it was set in, and all other bytes are
  -- what they were.
  pub set_item_int-get_item_int :
      (v : ℤ) (b u : ℕ)
      → Fits z.size_int v
      → ((b + u ≤ a) ⊎ (a + z.size_int ≤ b))
      → (m' : Bytes) × (set_item_int z fuel root m tuple path v ≡ some m')
        × (get_item_int z fuel root m' tuple path ≡ some v)
        × (load m' b u ≡ load m b u)
  unfolding set_item_int get_item_int
  set_item_int-get_item_int v b u fit far = (
    store_int m a z.size_int v,
    rw (set_item_int, found) refl,
    rw (get_item_int, found) (ap some (load_int-store_int m a z.size_int v fit)),
    load-apart m a z.size_int (to_bits z.size_int v) b u far,
  )

pub slots_inside : (j n s : ℕ) → j < n → j * s + s ≤ n * s
slots_inside j n s h =
    let below : suc j ≤ n = omega arith in
    let le : suc j * s ≤ n * s = mul-le-mul_right s below in omega arith

pub slots_apart : (j k s : ℕ) → j ≢ k → (j * s + s ≤ k * s) ⊎ (k * s + s ≤ j * s)
slots_apart j k s ne = elim (Bool-cases (ltb j k)) [
  | inl e ↦ inl (slots_inside j k s (ground arith))
  | inr e ↦ let past : k < j = ground arith in inr (slots_inside k j s past)
]

-- A read at another multiple of the size is not touched by a write.
pub load_slot-apart :
    (m : Bytes) (base j k s v : ℕ)
    → j ≢ k
    → load (store m (base + k * s) s v) (base + j * s) s ≡ load m (base + j * s) s
load_slot-apart m base j k s v ne = elim (slots_apart j k s ne) [
  | inl le ↦ load-apart m (base + k * s) s v (base + j * s) s (inl (omega arith))
  | inr le ↦ load-apart m (base + k * s) s v (base + j * s) s (inr (omega arith))
]

module _ (z : PodSizes) (fuel : ℕ) (root : Node) (m : Bytes) (tuple : Option Tupel) (path : Name)
    (a : ℕ) (d : Node) (found : member z fuel root tuple path ≡ at a d) (p len : ℕ)
    (there : (p == 0) ≡ false) (pointer : load m a z.size_array ≡ p)
    (long : load_int m p z.size_int ≡ pos len) where
  get_slot :
      (j : ℕ)
      → j < len
      → get_array_slot_int z fuel root m tuple path (pos j)
        ≡ some (load_int m ((p + z.size_int) + j * z.size_int) z.size_int)
  unfolding get_array_slot_int in_array slot_at int_less
  get_slot j h =
      let less : ltb j len ≡ true = ground arith in
      rw (get_array_slot_int, in_array, found, pointer, there, long, int_less, less, slot_at) refl

  set_slot :
      (k : ℕ) (v : ℤ)
      → k < len
      → set_array_slot_int z fuel root m tuple path (pos k) v
        ≡ some (store_int m ((p + z.size_int) + k * z.size_int) z.size_int v)
  unfolding set_array_slot_int in_array slot_at int_less
  set_slot k v h =
      let less : ltb k len ≡ true = ground arith in
      rw (set_array_slot_int, in_array, found, pointer, there, long, int_less, less, slot_at) refl

module _ (z : PodSizes) (fuel : ℕ) (root : Node) (m : Bytes) (tuple : Option Tupel) (path : Name)
    (a : ℕ) (d : Node) (found : member z fuel root tuple path ≡ at a d) (p len : ℕ)
    (there : (p == 0) ≡ false) (pointer : load m a z.size_array ≡ p)
    (long : load_int m p z.size_int ≡ pos len) where
  -- A slot of an array that has it is got back as it was set, and every other slot of the array is
  -- what it was, if the member that holds the pointer to the array is not itself in the slots.
  pub set_array_slot_int-get_array_slot_int :
      (k j : ℕ) (v : ℤ)
      → k < len
      → j < len
      → Fits z.size_int v
      → ((a + z.size_array ≤ p) ⊎ ((p + z.size_int) + len * z.size_int ≤ a))
      → (m' : Bytes) × (set_array_slot_int z fuel root m tuple path (pos k) v ≡ some m')
        × (get_array_slot_int z fuel root m' tuple path (pos j)
            ≡ (if j == k then some v else get_array_slot_int z fuel root m tuple path (pos j)))
  set_array_slot_int-get_array_slot_int k j v hk hj fit far =
      (m', set_slot z fuel root m tuple path a d found p len there pointer long k v hk, read)
    where
      m' : Bytes
      m' = store_int m ((p + z.size_int) + k * z.size_int) z.size_int v

      outside :
          (b u : ℕ)
          → ((b + u ≤ p + z.size_int) ⊎ ((p + z.size_int) + len * z.size_int ≤ b))
          → load m' b u ≡ load m b u
      outside b u h =
          let room = slots_inside k len z.size_int hk in
          load-apart m ((p + z.size_int) + k * z.size_int) z.size_int (to_bits z.size_int v) b u
            (elim h [ inl x ↦ inl (omega arith) | inr x ↦ inr (omega arith) ])

      now :
          get_array_slot_int z fuel root m' tuple path (pos j)
          ≡ some (load_int m' ((p + z.size_int) + j * z.size_int) z.size_int)
      now =
          get_slot z fuel root m' tuple path a d found p len there
            (outside a z.size_array (elim far [ inl x ↦ inl (omega arith) | inr x ↦ inr x ])
              ∙ pointer)
            (ap (of_bits z.size_int) (outside p z.size_int (inl (omega arith))) ∙ long) j hj

      read :
          get_array_slot_int z fuel root m' tuple path (pos j)
          ≡ (if j == k then some v else get_array_slot_int z fuel root m tuple path (pos j))
      read = elim (Bool-cases (j == k)) [
        | inl e ↦
            let same : j ≡ k = ground arith in
            rw e (
              now
              ∙ ap some (
                  ap (λ i. load_int m' ((p + z.size_int) + i * z.size_int) z.size_int) same
                  ∙ load_int-store_int m ((p + z.size_int) + k * z.size_int) z.size_int v fit))
        | inr e ↦
            let other : j ≢ k = ground arith in
            rw e (
              now
              ∙ ap (λ b. some (of_bits z.size_int b))
                  (load_slot-apart m (p + z.size_int) j k z.size_int (to_bits z.size_int v) other)
              ∙ sym (get_slot z fuel root m tuple path a d found p len there pointer long j hj))
      ]
