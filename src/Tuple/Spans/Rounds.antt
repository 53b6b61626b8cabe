-- ===== src/Tuple/Spans/Rounds.antt =====
-- The rounds of a walk.
use claosi.Prelude.{ℕ, suc, ◌+◌, ◌≡◌, refl, ap, true, List, [], ◌∷◌, ◌++◌, Option, arith}
use claosi.Prelude.Names.{name_eq_refl}
use claosi.Model.{Node, Forest, Header, node, nil, cons, header, has_any}
use claosi.Model.Walk.{Level}
use claosi.Model.Types.{PodSizes, Size, bytes, get_complex_type_offset}
use claosi.Tuple.{
  Kind, leaf, structure, Place, Moved, moved, finished, returned, fault, Walked, walked, negative,
  crash, before, offset_in, beside, climb, climb_from, step_into, walk,
}
use claosi.Tuple.Spans.{offset_of}

module _ (z : PodSizes) (fuel : ℕ) (root : Node) {A : Type 0} (kind : Node → ℕ → Kind A)
    (outer : Option Node) where
  unfoldable pub continue : ℕ → Moved → Walked A
  continue f (moved s) = walk z fuel root true kind outer f s
  continue f finished = walked []
  continue f returned = negative
  continue f fault = crash

  unfoldable pub prepend : List A → Walked A → Walked A
  prepend [] w = w
  prepend (x ∷ xs) w = before x (prepend xs w)

  pub prepend-append :
      (xs ys : List A) (w : Walked A) → prepend (xs ++ ys) w ≡ prepend xs (prepend ys w)
  unfolding prepend
  prepend-append [] ys w = refl
  prepend-append (x ∷ xs) ys w = ap (before x) (prepend-append xs ys w)

  abbrev pub at : Node → Forest → List Level → ℕ → ℕ → Place
  at n fs up v o = record { cur = n; later = fs; up = up; value = v; offset = o; previous = o }

  -- Where the walk enters the members of a node.
  abbrev pub entry : Forest → List Level → ℕ → ℕ → Moved
  entry nil up v o = finished
  entry (cons n fs) up v o = moved (at n fs up v o)

  abbrev pub first_offset : Node → Forest → Size
  first_offset p nil = bytes 0
  first_offset p (cons n fs) = offset_of z fuel root kind p (header n).name

  pub walk-leaf :
      (n : ℕ) (s : Place) (a : A)
      → kind s.cur s.value ≡ leaf a
      → walk z fuel root true kind outer (suc n) s
        ≡ before a (continue n (climb_from z fuel root outer s))
  unfolding walk continue
  walk-leaf n s a e = rw (walk, e) (same (climb_from z fuel root outer s))
    where
      same :
          (m : Moved)
          → before a (elim m as (λ _. Walked A) [
            | moved s' ↦ walk z fuel root true kind outer n s'
            | finished ↦ walked []
            | returned ↦ negative
            | fault ↦ crash
          ])
            ≡ before a (continue n m)
      same (moved s') = refl
      same finished = refl
      same returned = refl
      same fault = refl

  pub walk-structure :
      (n : ℕ) (h : Header) (cs fs : Forest) (up : List Level) (v o : ℕ)
      → kind (node h cs) v ≡ structure
      → has_any cs ≡ true
      → walk z fuel root true kind outer (suc n) (at (node h cs) fs up v o)
        ≡ continue n (entry cs ((node h cs, fs) ∷ up) v 0)
  unfolding walk continue step_into
  walk-structure n h nil fs up v o e a = cc a
  walk-structure n h (cons d ds) fs up v o e a = rw (walk, e, step_into) refl

  -- The climb to a sibling.
  pub climb-beside :
      (m : Node) (ms : Forest) (p : Node) (pf : Forest) (up : List Level) (base o o' : ℕ)
      → offset_of z fuel root kind p (header m).name ≡ bytes o'
      → climb z fuel root outer (cons m ms) ((p, pf) ∷ up) (base + o) o o
        ≡ moved (at m ms ((p, pf) ∷ up) (base + o') o')
  unfolding climb beside offset_in
  climb-beside m ms p pf up base o o' e =
      rw (climb, offset_in, e, beside) (ap (λ v. moved (at m ms ((p, pf) ∷ up) v o')) (omega arith))

  -- The climb out of a structure.
  pub climb-out :
      (h : Header) (cs fs : Forest) (p : Node) (pf : Forest) (up : List Level) (v o o' : ℕ)
      → offset_of z fuel root kind p h.name ≡ bytes o'
      → climb z fuel root outer nil ((node h cs, fs) ∷ (p, pf) ∷ up) (v + o) o o
        ≡ climb z fuel root outer fs ((p, pf) ∷ up) v o' o'
  unfolding climb offset_in
  climb-out h cs fs p pf up v o o' e =
      rw (climb, offset_in, e)
        (ap (λ u. climb z fuel root outer fs ((p, pf) ∷ up) u o' o') (omega arith))

  pub first_is_zero : (h : Header) (cs : Forest) → first_offset (node h cs) cs ≡ bytes 0
  unfolding get_complex_type_offset
  first_is_zero h nil = refl
  first_is_zero h (cons d ds) = rw (get_complex_type_offset, name_eq_refl (header d).name)
