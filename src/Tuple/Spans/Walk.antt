-- ===== src/Tuple/Spans/Walk.antt =====
-- The whole walk.
use claosi.Prelude.{
  ℕ, suc, ◌+◌, ◌≤◌, ◌≡◌, refl, sym, ap, ◌∙◌, Bool, true, false, List, [], ◌∷◌, ◌++◌, append-nil,
  Option, some, arith, some_eq,
}
use claosi.Model.{Node, Forest, Header, node, nil, cons, has_any, forest_size, node_size}
use claosi.Model.Walk.{Level}
use claosi.Model.Types.{PodSizes, Size, bytes, minus_one, failed}
use claosi.Tuple.{
  Kind, leaf, structure, no_size, no_type, finished, walked, before, offset_in, climb, walk,
  walk_item,
}
use claosi.Tuple.Spans.{both-some, span, spans, offset_of}
use claosi.Tuple.Spans.Rounds.{
  continue, prepend, entry, at, first_offset, prepend-append, walk-leaf, walk-structure,
  climb-beside, climb-out, first_is_zero,
}

module _ (z : PodSizes) (fuel : ℕ) (root : Node) {A : Type 0} (kind : Node → ℕ → Kind A)
    (outer : Option Node) where
  -- The walk over all members of a structure.
  record Spanned (fs : Forest) (p : Node) (pf : Forest) (up : List Level) (base o f : ℕ)
      (xs : List A) : Type 0 where
    rounds : ℕ
    last : ℕ
    bound : rounds ≤ forest_size fs + f
    same :
        continue z fuel root kind outer rounds
          (entry z fuel root kind outer fs ((p, pf) ∷ up) (base + o) o)
        ≡ prepend z fuel root kind outer xs (
            continue z fuel root kind outer f
              (climb z fuel root outer nil ((p, pf) ∷ up) (base + last) last last))

  -- One member, before its siblings.
  record Visited (h : Header) (cs fs : Forest) (p : Node) (pf : Forest) (up : List Level)
      (v o f : ℕ) (xs : List A) : Type 0 where
    rounds : ℕ
    bound : rounds ≤ suc (forest_size cs + f)
    same :
        walk z fuel root true kind outer rounds
          (at z fuel root kind outer (node h cs) fs ((p, pf) ∷ up) v o)
        ≡ prepend z fuel root kind outer xs
            (continue z fuel root kind outer f (climb z fuel root outer fs ((p, pf) ∷ up) v o o))

  -- A structure, from the walk over its members.
  from_members :
      (h : Header) (cs fs : Forest) (p : Node) (pf : Forest) (up : List Level) (v o f : ℕ)
      (xs : List A)
      → kind (node h cs) v ≡ structure
      → has_any cs ≡ true
      → offset_of z fuel root kind p h.name ≡ bytes o
      → Spanned cs (node h cs) fs ((p, pf) ∷ up) v 0 f xs
      → Visited h cs fs p pf up v o f xs
  from_members h cs fs p pf up v o f xs k a e s = record {
    rounds = suc s.rounds;
    bound = omega (arith, s.bound);
    same =
        walk-structure z fuel root kind outer s.rounds h cs fs ((p, pf) ∷ up) v o k a
        ∙ ap
            (λ u.
              continue z fuel root kind outer s.rounds
                (entry z fuel root kind outer cs ((node h cs, fs) ∷ (p, pf) ∷ up) u 0))
            (omega arith)
        ∙ s.same
        ∙ ap (λ m. prepend z fuel root kind outer xs (continue z fuel root kind outer f m))
            (climb-out z fuel root kind outer h cs fs p pf up v s.last o e);
  }

  -- A node alone.
  visit :
      (h : Header) (cs fs : Forest) (p : Node) (pf : Forest) (up : List Level) (v o f : ℕ)
      (xs : List A)
      → offset_of z fuel root kind p h.name ≡ bytes o
      → span z fuel root kind
          (kind (node h cs) v)
          (has_any cs)
          (spans z fuel root kind cs (node h cs) v)
        ≡ some xs
      → ((ys : List A)
          → spans z fuel root kind cs (node h cs) v ≡ some ys
          → has_any cs ≡ true
          → Spanned cs (node h cs) fs ((p, pf) ∷ up) v 0 f ys)
      → Visited h cs fs p pf up v o f xs
  unfolding prepend
  visit h cs fs p pf up v o f xs e k below = pick (kind (node h cs) v) refl (has_any cs) refl k
    where
      pick :
          (q : Kind A)
          → kind (node h cs) v ≡ q
          → (b : Bool) → has_any cs ≡ b
          → span z fuel root kind q b (spans z fuel root kind cs (node h cs) v) ≡ some xs
          → Visited h cs fs p pf up v o f xs
      pick (leaf a) c b d r = record {
        rounds = suc f;
        bound = omega arith;
        same =
            walk-leaf z fuel root kind outer f
              (at z fuel root kind outer (node h cs) fs ((p, pf) ∷ up) v o) a c
            ∙ ap
                (λ l. prepend z fuel root kind outer l (
                  continue z fuel root kind outer f
                    (climb z fuel root outer fs ((p, pf) ∷ up) v o o)))
                (some_eq r);
      }
      pick structure c true d r = from_members h cs fs p pf up v o f xs c d e (below xs r d)
      pick structure c false d r = cc r
      pick no_size c b d r = cc r
      pick no_type c b d r = cc r

  first_offset-bytes :
      (fs : Forest) (p : Node) (base : ℕ) (xs : List A)
      → spans z fuel root kind fs p base ≡ some xs
      → (o : ℕ) × (first_offset z fuel root kind outer p fs ≡ bytes o)
  unfolding spans
  first_offset-bytes nil p base xs q = (0, refl)
  first_offset-bytes (cons (node h cs) fs) p base xs q =
      pick (offset_of z fuel root kind p h.name) refl
    where
      pick :
          (r : Size)
          → offset_of z fuel root kind p h.name ≡ r
          → (o : ℕ) × (offset_of z fuel root kind p h.name ≡ bytes o)
      pick (bytes o) e = (o, e)
      pick minus_one e = cc (rw (spans, e) at q)
      pick failed e = cc (rw (spans, e) at q)

  walk-spans :
      (fs : Forest) (p : Node) (pf : Forest) (up : List Level) (base o f : ℕ) (xs : List A)
      → has_any fs ≡ true
      → first_offset z fuel root kind outer p fs ≡ bytes o
      → spans z fuel root kind fs p base ≡ some xs
      → Spanned fs p pf up base o f xs
  unfolding spans continue forest_size
  walk-spans nil p pf up base o f xs a e q = cc a
  walk-spans (cons (node h cs) nil) p pf up base o f xs a e q =
      let (us, vs, q1, q2, q3) = both-some _ _ xs (rw (spans, e) at q) in
      let n = visit h cs nil p pf up (base + o) o f us e q1 (λ ys r b.
        walk-spans cs (node h cs) nil ((p, pf) ∷ up) (base + o) 0 f ys b
          (first_is_zero z fuel root kind outer h cs) r) in
      record {
        rounds = n.rounds;
        last = o;
        bound = omega (arith, n.bound);
        same =
            n.same
            ∙ ap
                (λ l. prepend z fuel root kind outer l (
                  continue z fuel root kind outer f
                    (climb z fuel root outer nil ((p, pf) ∷ up) (base + o) o o)))
                (sym (q3 ∙ ap (λ l. us ++ l) (sym (some_eq q2)) ∙ append-nil us));
      }
  walk-spans (cons (node h cs) (cons m ms)) p pf up base o f xs a e q =
      let (us, vs, q1, q2, q3) = both-some _ _ xs (rw (spans, e) at q) in
      let (o', e') = first_offset-bytes (cons m ms) p base vs q2 in
      let later = walk-spans (cons m ms) p pf up base o' f vs refl e' q2 in
      let n = visit h cs (cons m ms) p pf up (base + o) o later.rounds us e q1 (λ ys r b.
        walk-spans cs (node h cs) (cons m ms) ((p, pf) ∷ up) (base + o) 0 later.rounds ys b
          (first_is_zero z fuel root kind outer h cs) r) in
      record {
        rounds = n.rounds;
        last = later.last;
        bound = omega (arith, n.bound, later.bound);
        same =
            n.same
            ∙ ap
                (λ w.
                  prepend z fuel root kind outer us
                    (continue z fuel root kind outer later.rounds w))
                (climb-beside z fuel root kind outer m ms p pf up base o o' e')
            ∙ ap (prepend z fuel root kind outer us) later.same
            ∙ sym (prepend-append z fuel root kind outer us vs _)
            ∙ ap
                (λ l. prepend z fuel root kind outer l (
                  continue z fuel root kind outer f (
                    climb z fuel root outer nil ((p, pf) ∷ up) (base + later.last) later.last
                      later.last)))
                (sym q3);
      }

  pub element_alone :
      (h : Header) (cs : Forest) (v o : ℕ) (xs : List A)
      → offset_in z fuel root outer [] h.name ≡ bytes o
      → span z fuel root kind
          (kind (node h cs) v)
          (has_any cs)
          (spans z fuel root kind cs (node h cs) v)
        ≡ some xs
      → (rounds : ℕ) × (rounds ≤ node_size (node h cs))
        × (walk_item z fuel root true kind outer rounds v (node h cs) ≡ walked xs)
  unfolding prepend node_size continue climb
  element_alone h cs v o xs e k = pick (kind (node h cs) v) refl (has_any cs) refl k
    where
      ends : (l : ℕ) → climb z fuel root outer nil ((node h cs, nil) ∷ []) (v + l) l l ≡ finished
      ends l = rw (climb, e) refl

      whole : (ys : List A) → prepend z fuel root kind outer ys (walked []) ≡ walked ys
      whole [] = refl
      whole (y ∷ ys) = ap (before y) (whole ys)

      pick :
          (q : Kind A)
          → kind (node h cs) v ≡ q
          → (b : Bool) → has_any cs ≡ b
          → span z fuel root kind q b (spans z fuel root kind cs (node h cs) v) ≡ some xs
          → (rounds : ℕ) × (rounds ≤ node_size (node h cs))
            × (walk_item z fuel root true kind outer rounds v (node h cs) ≡ walked xs)
      pick (leaf a) c b d r = (
        1,
        omega arith,
        walk-leaf z fuel root kind outer 0 (at z fuel root kind outer (node h cs) nil [] v 0) a c
            ∙ ap walked (some_eq r),
      )
      pick structure c true d r =
          let s =
            walk-spans cs (node h cs) nil [] v 0 0 xs d (first_is_zero z fuel root kind outer h cs)
              r in
          (
            suc s.rounds,
            omega (arith, s.bound),
            walk-structure z fuel root kind outer s.rounds h cs nil [] v 0 c d
                ∙ ap
                    (λ u.
                      continue z fuel root kind outer s.rounds
                        (entry z fuel root kind outer cs ((node h cs, nil) ∷ []) u 0))
                    (omega arith)
                ∙ s.same
                ∙ ap (λ m. prepend z fuel root kind outer xs (continue z fuel root kind outer 0 m))
                    (ends s.last)
                ∙ whole xs,
          )
      pick structure c false d r = cc r
      pick no_size c b d r = cc r
      pick no_type c b d r = cc r
