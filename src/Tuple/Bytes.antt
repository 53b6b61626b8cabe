-- ===== src/Tuple/Bytes.antt =====
-- The memory that a value lies in, byte by byte: an int, a double and a pointer take the bytes from
-- their address on, the lowest one first, and an int is its two's complement. A double is its bits.
use claosi.Prelude.{
  ℕ, zero, suc, ◌+◌, ◌-◌, ◌*◌, ◌/◌, ◌%◌, ◌≤◌, ◌<◌, ◌≡◌, refl, ap, ◌∙◌, arith, ◌⊎◌, ◌==◌, ltb,
  if◌then◌else◌,
}
use native.Mathlib.Nat.{mod-lt, mod-eq_of_lt}
use claosi.Prelude.Int.{ℤ, pos, negsuc}

abbrev pub Bytes : Type 0
Bytes = ℕ → ℕ

abbrev pub put : Bytes → ℕ → ℕ → Bytes
put m a v b = if a == b then v else m b

-- The `w` bytes at an address, and a write of the low `w` bytes of a number.
unfoldable pub load : Bytes → ℕ → ℕ → ℕ
load m a zero = 0
load m a (suc w) = m a + 256 * load m (suc a) w

unfoldable pub store : Bytes → ℕ → ℕ → ℕ → Bytes
store m a zero v = m
store m a (suc w) v = put (store m (suc a) w (v / 256)) a (v % 256)

-- The numbers that `w` bytes hold.
unfoldable pub limit : ℕ → ℕ
limit zero = 1
limit (suc w) = 256 * limit w

-- Another address keeps its byte.
pub store-byte : (m : Bytes) (a w v b : ℕ) → ((b < a) ⊎ (a + w ≤ b)) → store m a w v b ≡ m b
unfolding store
store-byte m a zero v b h = refl
store-byte m a (suc w) v b h = ground (arith, store-byte m (suc a) w (v / 256) b)

pub load-apart :
    (m : Bytes) (a w v b u : ℕ)
    → ((b + u ≤ a) ⊎ (a + w ≤ b))
    → load (store m a w v) b u ≡ load m b u
unfolding load
load-apart m a w v b zero h = refl
load-apart m a w v b (suc u) h =
    rw (load, store-byte m a w v b (ground arith), load-apart m a w v (suc b) u (ground arith)) refl

load-put : (m : Bytes) (a v b u : ℕ) → a < b → load (put m a v) b u ≡ load m b u
unfolding load
load-put m a v b zero h = refl
load-put m a v b (suc u) h = ground (arith, load-put m a v (suc b) u)

pub load-store : (m : Bytes) (a w v : ℕ) → v < limit w → load (store m a w v) a w ≡ v
unfolding load store limit
load-store m a zero v h = omega arith
load-store m a (suc w) v h =
    let low : put (store m (suc a) w (v / 256)) a (v % 256) a ≡ v % 256 = ground arith in
    omega (
      arith,
      low,
      load-put (store m (suc a) w (v / 256)) a (v % 256) (suc a) w (omega arith),
      load-store m (suc a) w (v / 256) (omega arith),
    )

-- A signed integer of `w` bytes as the bits of its two's complement, and back.
unfoldable pub to_bits : ℕ → ℤ → ℕ
to_bits w (pos n) = n % limit w
to_bits w (negsuc n) = (limit w - 1) - (n % limit w)

unfoldable pub of_bits : ℕ → ℕ → ℤ
of_bits w b = if ltb (2 * b) (limit w) then pos b else negsuc ((limit w - 1) - b)

-- The integers of `w` bytes.
unfoldable pub Fits : ℕ → ℤ → Type 0
Fits w (pos n) = 2 * n < limit w
Fits w (negsuc n) = 2 * n + 2 ≤ limit w

pub limit-pos : (w : ℕ) → 0 < limit w
unfolding limit
limit-pos zero = omega arith
limit-pos (suc w) = omega (arith, limit-pos w)

pub to_bits-lt : (w : ℕ) (x : ℤ) → to_bits w x < limit w
unfolding to_bits
to_bits-lt w (pos n) = mod-lt n (limit-pos w)
to_bits-lt w (negsuc n) = omega (arith, limit-pos w)

pub of_bits-to_bits : (w : ℕ) (x : ℤ) → Fits w x → of_bits w (to_bits w x) ≡ x
unfolding to_bits of_bits Fits
of_bits-to_bits w (pos n) h =
    let small : n % limit w ≡ n = mod-eq_of_lt (omega arith) in
    rw (to_bits, small, of_bits) (ground arith)
of_bits-to_bits w (negsuc n) h =
    let small : n % limit w ≡ n = mod-eq_of_lt (omega arith) in
    rw (to_bits, small, of_bits) (ground arith)

abbrev pub load_int : Bytes → ℕ → ℕ → ℤ
load_int m a w = of_bits w (load m a w)

abbrev pub store_int : Bytes → ℕ → ℕ → ℤ → Bytes
store_int m a w x = store m a w (to_bits w x)

pub load_int-store_int :
    (m : Bytes) (a w : ℕ) (x : ℤ) → Fits w x → load_int (store_int m a w x) a w ≡ x
load_int-store_int m a w x h =
    ap (of_bits w) (load-store m a w (to_bits w x) (to_bits-lt w x)) ∙ of_bits-to_bits w x h
