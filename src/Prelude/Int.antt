-- ===== src/Prelude/Int.antt =====
-- The C integers that can fall below zero: the library's ℤ over the native numbers.
use Prim.Native.Nat.{ℕ, zero, suc, ◌+◌, ◌-◌}
use mathlib.Core.Path.{◌≡◌, refl}
use mathlib.Core.Bool.{Bool, true, false}
use claosi.Prelude.Tests.{ltb, leb, if◌then◌else◌}

-- `negsuc n` is -(n + 1).
pub data ℤ : Type 0 where
  pos : ℕ → ℤ
  negsuc : ℕ → ℤ

-- x + 1
unfoldable pub incr : ℤ → ℤ
incr (pos n) = pos (suc n)
incr (negsuc zero) = pos 0
incr (negsuc (suc n)) = negsuc n

-- x - 1
unfoldable pub decr : ℤ → ℤ
decr (pos zero) = negsuc 0
decr (pos (suc n)) = pos n
decr (negsuc n) = negsuc (suc n)

pub decr-incr : (x : ℤ) → decr (incr x) ≡ x
unfolding incr decr
decr-incr (pos n) = refl
decr-incr (negsuc zero) = refl
decr-incr (negsuc (suc n)) = refl

unfoldable pub int_less : ℤ → ℤ → Bool
int_less (pos a) (pos b) = ltb a b
int_less (pos a) (negsuc b) = false
int_less (negsuc a) (pos b) = true
int_less (negsuc a) (negsuc b) = ltb b a

-- a - b, of two natural numbers.
unfoldable pub difference : ℕ → ℕ → ℤ
difference a b = if leb b a then pos (a - b) else negsuc ((b - a) - 1)

-- x - y
unfoldable pub subtract : ℤ → ℤ → ℤ
subtract (pos a) (pos b) = difference a b
subtract (pos a) (negsuc b) = pos (a + suc b)
subtract (negsuc a) (pos b) = negsuc (a + b)
subtract (negsuc a) (negsuc b) = difference b a

-- How often a loop runs whose counter goes from 0 to below x.
unfoldable pub count : ℤ → ℕ
count (pos n) = n
count (negsuc n) = 0
