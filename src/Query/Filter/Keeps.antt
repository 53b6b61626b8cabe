-- ===== src/Query/Filter/Keeps.antt =====
-- The list that a filter leaves.
use claosi.Prelude.{
  some_eq, subst, ℕ, zero, suc, ◌≤◌, ◌<◌, ◌≡◌, ◌≢◌, refl, sym, ap, ◌∙◌, Bool, true, false, List, [],
  ◌∷◌, ◌++◌, append_assoc, append-nil, Option, none, some, inl, inr, ◌↔◌, Bool-cases, if◌then◌else◌,
  length, arith, ◌==◌,
}
use claosi.Query.{Predicate}
use claosi.Query.Filter.{
  Reader, Tuples, link, unlink, filter_loop, satisfies, apply_filter, apply_predicate,
}

-- The pointers from `head` on run through these tuples, to a NULL.
abbrev pub IsChain : (ℕ → Option ℕ) → Option ℕ → List ℕ → Type 0
IsChain next head [] = head ≡ none
IsChain next head (x ∷ xs) = (head ≡ some x) × IsChain next (next x) xs

abbrev pub NotIn : ℕ → List ℕ → Type 0
NotIn p [] = Unit
NotIn p (x ∷ xs) = (p ≢ x) × NotIn p xs

abbrev pub Distinct : List ℕ → Type 0
Distinct [] = Unit
Distinct (x ∷ xs) = NotIn x xs × Distinct xs

-- The elements that pass, in their order, and those that do not.
unfoldable pub kept : (ℕ → Bool) → List ℕ → List ℕ
kept passes [] = []
kept passes (x ∷ xs) = if passes x then x ∷ kept passes xs else kept passes xs

unfoldable pub dropped : (ℕ → Bool) → List ℕ → List ℕ
dropped passes [] = []
dropped passes (x ∷ xs) = if passes x then dropped passes xs else x ∷ dropped passes xs

link_other : (next : ℕ → Option ℕ) (p q : ℕ) (v : Option ℕ) → p ≢ q → link next p v q ≡ next q
link_other next p q v ne =
    let e : (q == p) ≡ false = ground arith in ap (λ b. if b then v else next q) e

link_same : (next : ℕ → Option ℕ) (p : ℕ) (v : Option ℕ) → link next p v p ≡ v
link_same next p v = let e : (p == p) ≡ true = ground arith in ap (λ b. if b then v else next p) e

IsChain-link :
    (next : ℕ → Option ℕ) (p : ℕ) (v : Option ℕ) (xs : List ℕ) (head : Option ℕ)
    → NotIn p xs
    → IsChain next head xs
    → IsChain (link next p v) head xs
IsChain-link next p v [] head n c = c
IsChain-link next p v (x ∷ xs) head n c = (
  c.0,
  subst (λ h. IsChain (link next p v) h xs) (sym (link_other next p x v n.0))
      (IsChain-link next p v xs (next x) n.1 c.1),
)

module _ (passes : ℕ → Bool) where
  -- What the loop gives when `prevTuple` is `p`: the chain behind `p`, and nothing else changed.
  record Rest (p : ℕ) (xs : List ℕ) (s : Tuples) (out : Option Tuples) : Type 0 where
    end : Tuples
    ends : out ≡ some end
    chain : IsChain end.next (end.next p) (kept passes xs)
    same_head : end.head ≡ s.head
    same_next : (q : ℕ) → p ≢ q → NotIn q xs → end.next q ≡ s.next q
    freed : end.freed ≡ s.freed ++ dropped passes xs

  filter_loop-Rest :
      (fuel : ℕ) (s : Tuples) (p : ℕ) (cur : Option ℕ) (xs : List ℕ)
      → length xs < fuel
      → NotIn p xs
      → Distinct xs
      → s.next p ≡ cur
      → IsChain s.next cur xs
      → Rest p xs s (filter_loop passes fuel s (some p) cur)
  unfolding filter_loop kept dropped unlink
  filter_loop-Rest zero s p cur xs f n d l c = absurd (omega arith)
  filter_loop-Rest (suc fuel) s p none [] f n d l c = record {
    end = s;
    ends = refl;
    chain = l;
    same_head = refl;
    same_next = λ q ne m. refl;
    freed = sym (append-nil s.freed);
  }
  filter_loop-Rest (suc fuel) s p (some y) [] f n d l c = absurd (cc c)
  filter_loop-Rest (suc fuel) s p none (x ∷ xs) f n d l c = absurd (cc c.0)
  filter_loop-Rest (suc fuel) s p (some y) (x ∷ xs) f n d l c =
      let same : y ≡ x = some_eq c.0 in
      subst (λ z. Rest p (x ∷ xs) s (filter_loop passes (suc fuel) s (some p) (some z))) (sym same)
        (elim (Bool-cases (passes x)) [
          | inl e ↦
              let r = filter_loop-Rest fuel s x (s.next x) xs (omega arith) d.0 d.1 refl c.1 in
              record {
                end = r.end;
                ends = rw (filter_loop, e) r.ends;
                chain =
                    rw (kept, e) (r.same_next p (λ q. n.0 (sym q)) n.1 ∙ l ∙ ap some same, r.chain);
                same_head = r.same_head;
                same_next = λ q ne m. r.same_next q (λ k. m.0 (sym k)) m.1;
                freed = rw (dropped, e) r.freed;
              }
          | inr e ↦
              let r =
                filter_loop-Rest fuel (unlink s (some p) x) p (s.next x) xs (omega arith) n.1 d.1
                  (link_same s.next p _) (IsChain-link s.next p _ xs (s.next x) n.1 c.1) in
              record {
                end = r.end;
                ends = rw (filter_loop, e) r.ends;
                chain = rw (kept, e) r.chain;
                same_head = r.same_head;
                same_next = λ q ne m. r.same_next q ne m.1 ∙ link_other s.next p q _ ne;
                freed = rw (dropped, e) (r.freed ∙ append_assoc s.freed (x ∷ []) _);
              }
        ])

  -- What the loop gives as long as `prevTuple` is NULL.
  pub record IsFiltered (xs : List ℕ) (s : Tuples) (out : Option Tuples) : Type 0 where
    pub end : Tuples
    pub ends : out ≡ some end
    pub chain : IsChain end.next end.head (kept passes xs)
    pub freed : end.freed ≡ s.freed ++ dropped passes xs

  filter_loop-IsFiltered :
      (fuel : ℕ) (s : Tuples) (cur : Option ℕ) (xs : List ℕ)
      → length xs < fuel
      → Distinct xs
      → s.head ≡ cur
      → IsChain s.next cur xs
      → IsFiltered xs s (filter_loop passes fuel s none cur)
  unfolding filter_loop kept dropped unlink
  filter_loop-IsFiltered zero s cur xs f d l c = absurd (omega arith)
  filter_loop-IsFiltered (suc fuel) s none [] f d l c = record {
    end = s;
    ends = refl;
    chain = l;
    freed = sym (append-nil s.freed);
  }
  filter_loop-IsFiltered (suc fuel) s (some y) [] f d l c = absurd (cc c)
  filter_loop-IsFiltered (suc fuel) s none (x ∷ xs) f d l c = absurd (cc c.0)
  filter_loop-IsFiltered (suc fuel) s (some y) (x ∷ xs) f d l c =
      let same : y ≡ x = some_eq c.0 in
      subst (λ z. IsFiltered (x ∷ xs) s (filter_loop passes (suc fuel) s none (some z))) (sym same)
        (elim (Bool-cases (passes x)) [
          | inl e ↦
              let r = filter_loop-Rest fuel s x (s.next x) xs (omega arith) d.0 d.1 refl c.1 in
              record {
                end = r.end;
                ends = rw (filter_loop, e) r.ends;
                chain = rw (kept, e) (r.same_head ∙ l ∙ ap some same, r.chain);
                freed = rw (dropped, e) r.freed;
              }
          | inr e ↦
              let r =
                filter_loop-IsFiltered fuel (unlink s none x) (s.next x) xs (omega arith) d.1 refl
                  c.1 in
              record {
                end = r.end;
                ends = rw (filter_loop, e) r.ends;
                chain = rw (kept, e) r.chain;
                freed = rw (dropped, e) (r.freed ∙ append_assoc s.freed (x ∷ []) _);
              }
        ])

NotIn-kept : (p : ℕ → Bool) (x : ℕ) (xs : List ℕ) → NotIn x xs → NotIn x (kept p xs)
unfolding kept
NotIn-kept p x [] n = tt
NotIn-kept p x (y ∷ ys) n = elim (Bool-cases (p y)) [
  | inl e ↦ rw (kept, e) (n.0, NotIn-kept p x ys n.1)
  | inr e ↦ rw (kept, e) (NotIn-kept p x ys n.1)
]

pub Distinct-kept : (p : ℕ → Bool) (xs : List ℕ) → Distinct xs → Distinct (kept p xs)
unfolding kept
Distinct-kept p [] d = tt
Distinct-kept p (y ∷ ys) d = elim (Bool-cases (p y)) [
  | inl e ↦ rw (kept, e) (NotIn-kept p y ys d.0, Distinct-kept p ys d.1)
  | inr e ↦ rw (kept, e) (Distinct-kept p ys d.1)
]

pub length-kept : (p : ℕ → Bool) (xs : List ℕ) → length (kept p xs) ≤ length xs
unfolding kept
length-kept p [] = omega arith
length-kept p (y ∷ ys) = elim (Bool-cases (p y)) [
  | inl e ↦ rw (kept, e) (omega (arith, length-kept p ys))
  | inr e ↦ rw (kept, e) (omega (arith, length-kept p ys))
]

-- Every predicate holds of the tuple.
abbrev pub AllHold : Reader → List Predicate → ℕ → Type 0
AllHold r [] t = Unit
AllHold r (p ∷ ps) t = (apply_predicate r p (some t) none ≡ true) × AllHold r ps t

pub satisfies-AllHold :
    (r : Reader) (ps : List Predicate) (t : ℕ) → (satisfies r ps t ≡ true) ↔ AllHold r ps t
unfolding satisfies
satisfies-AllHold r [] t = (λ h. tt, λ h. refl)
satisfies-AllHold r (p ∷ ps) t = elim (Bool-cases (apply_predicate r p (some t) none)) [
  | inl e ↦
      rw (e, satisfies)
        (λ h. (refl, (satisfies-AllHold r ps t).0 h), λ h. (satisfies-AllHold r ps t).1 h.1)
  | inr e ↦ rw (e, satisfies) (λ h. cc h, λ h. cc h.0)
]

pub apply_filter-fuel :
    (r : Reader) (ps : List Predicate) (fuel : ℕ) (s : Tuples) (xs : List ℕ)
    → length xs < fuel
    → Distinct xs
    → IsChain s.next s.head xs
    → IsFiltered (satisfies r ps) xs s (apply_filter r ps fuel s)
unfolding apply_filter
apply_filter-fuel r ps fuel s xs f d c =
    filter_loop-IsFiltered (satisfies r ps) fuel s s.head xs f d refl c

-- On a chain of different tuples, with fuel for one round more than there are tuples, a filter ends.
-- The chain from the new head on is that of the tuples that satisfy all predicates, in their order,
-- and exactly the others were freed.
pub apply_filter-IsFiltered :
    (r : Reader) (ps : List Predicate) (s : Tuples) (xs : List ℕ)
    → Distinct xs
    → IsChain s.next s.head xs
    → IsFiltered (satisfies r ps) xs s (apply_filter r ps (suc (length xs)) s)
apply_filter-IsFiltered r ps s xs d c =
    apply_filter-fuel r ps (suc (length xs)) s xs (omega arith) d c
