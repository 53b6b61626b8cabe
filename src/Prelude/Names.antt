-- ===== src/Prelude/Names.antt =====
-- C strings as lists of bytes without the final NUL: `strcmp`, `strsep` at a dot, `strlen`.
use Prim.Native.Nat.{ℕ}
use mathlib.Core.Path.{◌≡◌, refl, ap}
use mathlib.Core.Logic.{inl, inr}
use mathlib.Core.Bool.{Bool, true, false, ◌&&◌}
use mathlib.Core.List.{List, [], ◌∷◌, ◌++◌}
use native.Mathlib.Omega.{arith}
use claosi.Prelude.Tests.{◌==◌, if◌then◌else◌, Bool-cases}

abbrev pub Name : Type 0
Name = List ℕ

-- strcmp(a, b) == 0
unfoldable pub name_eq : Name → Name → Bool
name_eq [] [] = true
name_eq [] (b ∷ bs) = false
name_eq (a ∷ as') [] = false
name_eq (a ∷ as') (b ∷ bs) = (a == b) && name_eq as' bs

pub name_eq_refl : (a : Name) → name_eq a a ≡ true
unfolding name_eq
name_eq_refl [] = refl
name_eq_refl (a ∷ r) = ground (arith, name_eq_refl r)

pub name_eq→eq : (a b : Name) → name_eq a b ≡ true → a ≡ b
unfolding name_eq
name_eq→eq [] [] h = refl
name_eq→eq [] (b ∷ bs) h = cc
name_eq→eq (a ∷ r) [] h = cc
name_eq→eq (a ∷ r) (b ∷ bs) h = ground (arith, name_eq→eq r bs)

-- Put a byte before the first token.
abbrev push_byte : ℕ → List Name → List Name
push_byte c [] = (c ∷ []) ∷ []
push_byte c (t ∷ ts) = (c ∷ t) ∷ ts

-- The tokens that `strsep(&s, ".")` returns one after another: at least one, empty ones included.
unfoldable pub tokens : Name → List Name
tokens [] = [] ∷ []
tokens (c ∷ cs) = if c == b'.' then [] ∷ tokens cs else push_byte c (tokens cs)

push_byte-append :
    (c : ℕ) (ts us : List Name) (n : Name)
    → push_byte c ((n ∷ ts) ++ us) ≡ push_byte c (n ∷ ts) ++ us
push_byte-append c ts us n = refl

-- There is a first token.
tokens-cons : (s : Name) → (n : Name) × (ts : List Name) × (tokens s ≡ n ∷ ts)
unfolding tokens
tokens-cons [] = ([], [], refl)
tokens-cons (c ∷ cs) = elim (Bool-cases (c == b'.')) [
  | inl e ↦ ([], tokens cs, rw e)
  | inr e ↦ let (n, ts, q) = tokens-cons cs in (c ∷ n, ts, rw (e, q))
]

-- A dot joins two paths.
pub tokens-dot : (p q : Name) → tokens (p ++ (b'.' ∷ q)) ≡ tokens p ++ tokens q
unfolding tokens
tokens-dot [] q = refl
tokens-dot (c ∷ p) q = elim (Bool-cases (c == b'.')) [
  | inl e ↦ rw e (ap (λ r. [] ∷ r) (tokens-dot p q))
  | inr e ↦ let (n, ts, h) = tokens-cons p in rw (e, tokens-dot p q, h) refl
]

-- A name without a dot is one token.
pub no_dot : Name → Bool
no_dot [] = true
no_dot (c ∷ cs) = if c == b'.' then false else no_dot cs

pub tokens-no_dot : (p : Name) → no_dot p ≡ true → tokens p ≡ p ∷ []
unfolding tokens no_dot
tokens-no_dot [] h = refl
tokens-no_dot (c ∷ p) h = elim (Bool-cases (c == b'.')) [
  | inl e ↦ absurd (ground arith)
  | inr e ↦ rw (e, tokens-no_dot p (rw e at h)) refl
]
