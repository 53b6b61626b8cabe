-- ===== src/Api/Broadcast/Owners.antt =====
-- Who owns the tuples of a broadcast.
use claosi.Prelude.{
  ℕ, zero, suc, ◌+◌, ◌≤◌, ◌<◌, ◌≡◌, ◌≢◌, refl, sym, ap, ap₂, ◌∙◌, ◌⊎◌, inl, inr, Bool, true, false,
  List, [], ◌∷◌, ◌++◌, map, append-nil, Option, none, some, arith, if◌then◌else◌, Bool-cases,
}
use claosi.Prelude.Names.{Name}
use claosi.Prelude.Int.{ℤ, pos}
use claosi.Model.{Node}
use claosi.Model.Lookup.{get_description}
use claosi.Query.{Query}
use claosi.Api.Broadcast.{
  Handed, more_to_come, hand_out, event_queries, object_queries, found_queries,
  event_occured_broadcast, matches, object_changed_broadcast,
}

-- The queries in the slots that are to get a tuple.
pub chosen : (ℕ → Bool) → List (Option ℕ) → List ℕ
chosen selected [] = []
chosen selected (none ∷ qs) = chosen selected qs
chosen selected (some q ∷ qs) = if selected q then q ∷ chosen selected qs else chosen selected qs

unfoldable pub how_many : (ℕ → Bool) → List (Option ℕ) → ℕ
how_many selected [] = 0
how_many selected (none ∷ qs) = how_many selected qs
how_many selected (some q ∷ qs) =
    if selected q then suc (how_many selected qs) else how_many selected qs

-- The copies that were made, `n` of them from `a` on.
pub made : ℕ → ℕ → List (Option ℕ)
made a zero = []
made a (suc n) = some a ∷ made (suc a) n

abbrev pub queries : List (ℕ × Option ℕ) → List ℕ
queries = map (λ s. s.0)

abbrev pub tuples : List (ℕ × Option ℕ) → List (Option ℕ)
tuples = map (λ s. s.1)

abbrev pub kept : Option ℕ → List (Option ℕ)
kept none = []
kept (some t) = some t ∷ []

-- The tuple `c` and the copies are each sent, freed or kept once. The queries `rest` were not told, and
-- there are none and nothing is freed, unless the next copy failed.
pub record IsOwned (can_copy : ℕ → Bool) (c fresh : ℕ) (qs : List ℕ) (h : Handed) : Type 0 where
  pub copies : ℕ
  pub all : tuples h.sent ++ (h.freed ++ kept h.left) ≡ some c ∷ made fresh copies
  pub rest : List ℕ
  pub told : queries h.sent ++ rest ≡ qs
  pub why : ((rest ≡ []) × (h.freed ≡ [])) ⊎ (can_copy (fresh + copies) ≡ false)

module _ (copies : ℕ → Bool) (selected : ℕ → Bool) where
  -- Nothing is done where no query is left.
  nothing_chosen :
      (qs : List (Option ℕ)) (j : ℕ) (num : ℤ) (cur : Option ℕ) (fresh : ℕ)
      → how_many selected qs ≡ 0
      → (hand_out copies selected qs j num cur fresh
          ≡ record { sent = []; freed = []; fresh = fresh; left = cur })
        × (chosen selected qs ≡ [])
  unfolding hand_out how_many chosen
  nothing_chosen [] j num cur fresh h = (refl, refl)
  nothing_chosen (none ∷ qs) j num cur fresh h = nothing_chosen qs j num cur fresh h
  nothing_chosen (some q ∷ qs) j num cur fresh h = elim (Bool-cases (selected q)) [
    | inl e ↦ let z : suc (how_many selected qs) ≡ 0 = rw (how_many, e) at h in absurd (omega arith)
    | inr e ↦
        let rest = nothing_chosen qs j num cur fresh (rw (how_many, e) at h) in
        (rw (hand_out, e) rest.0, rw (chosen, e) rest.1)
  ]

  more-lt : (j n : ℕ) → more_to_come j (pos n) ≡ true → j + 1 < n
  unfolding more_to_come
  more-lt j n e = ground arith

  more-ge : (j n : ℕ) → more_to_come j (pos n) ≡ false → n ≤ j + 1
  unfolding more_to_come
  more-ge j n e = ground arith

  counts :
      (q : ℕ) (qs : List (Option ℕ))
      → selected q ≡ true
      → how_many selected (some q ∷ qs) ≡ suc (how_many selected qs)
  unfolding how_many
  counts q qs e = rw (how_many, e) refl

  skips :
      (q : ℕ) (qs : List (Option ℕ))
      → selected q ≡ false
      → how_many selected (some q ∷ qs) ≡ how_many selected qs
  unfolding how_many
  skips q qs e = rw (how_many, e) refl

  passes : (qs : List (Option ℕ)) → how_many selected (none ∷ qs) ≡ how_many selected qs
  unfolding how_many
  passes qs = refl

  none_chosen : how_many selected [] ≡ 0
  unfolding how_many
  none_chosen = refl

  hand_out-IsOwned :
      (qs : List (Option ℕ)) (j n c fresh : ℕ)
      → j + how_many selected qs ≤ n
      → IsOwned copies c fresh
          (chosen selected qs)
          (hand_out copies selected qs j (pos n) (some c) fresh)
  unfolding hand_out chosen made
  hand_out-IsOwned [] j n c fresh h = record {
    copies = 0;
    all = refl;
    rest = [];
    told = refl;
    why = inl (refl, refl);
  }
  hand_out-IsOwned (none ∷ qs) j n c fresh h =
      hand_out-IsOwned qs j n c fresh (omega (arith, h, passes qs))
  hand_out-IsOwned (some q ∷ qs) j n c fresh h = elim (Bool-cases (selected q)) [
    | inr e ↦
        rw (e, hand_out, chosen) (hand_out-IsOwned qs j n c fresh (omega (arith, h, skips q qs e)))
    | inl e ↦ elim (Bool-cases (more_to_come j (pos n))) [
      | inr m ↦
          let rest =
            nothing_chosen qs j (pos n) none fresh
              (omega (arith, h, counts q qs e, more-ge j n m)) in
          rw (e, hand_out, chosen, m, rest.0, rest.1)
            (record { copies = 0; all = refl; rest = []; told = refl; why = inl (refl, refl) })
      | inl m ↦ elim (Bool-cases (copies fresh)) [
        | inr k ↦
            rw (e, hand_out, chosen, m, k)
              (record {
                copies = 0;
                all = refl;
                rest = q ∷ chosen selected qs;
                told = refl;
                why = inr (ap copies (omega arith) ∙ k);
              })
        | inl k ↦
            let r =
              hand_out-IsOwned qs (suc j) n fresh (suc fresh) (omega (arith, h, counts q qs e)) in
            rw (e, hand_out, chosen, m, k)
              (record {
                copies = suc r.copies;
                all = ap (λ l. some c ∷ l) r.all;
                rest = r.rest;
                told = ap (λ l. q ∷ l) r.told;
                why = elim r.why [ inl t ↦ inl t | inr t ↦ inr (ap copies (omega arith) ∙ t) ];
              })
      ]
    ]
  ]

  -- With the exact number none is left over.
  hand_out-left :
      (qs : List (Option ℕ)) (j n c fresh : ℕ)
      → j + how_many selected qs ≡ n
      → how_many selected qs ≢ 0
      → (hand_out copies selected qs j (pos n) (some c) fresh).left ≡ none
  unfolding hand_out
  hand_out-left [] j n c fresh h z = absurd (z none_chosen)
  hand_out-left (none ∷ qs) j n c fresh h z =
      hand_out-left qs j n c fresh (omega (arith, h, passes qs)) (λ y. z (passes qs ∙ y))
  hand_out-left (some q ∷ qs) j n c fresh h z = elim (Bool-cases (selected q)) [
    | inr e ↦
        rw (e, hand_out)
          (hand_out-left qs j n c fresh (omega (arith, h, skips q qs e))
            (λ y. z (skips q qs e ∙ y)))
    | inl e ↦ elim (Bool-cases (more_to_come j (pos n))) [
      | inr m ↦
          let rest =
            nothing_chosen qs j (pos n) none fresh
              (omega (arith, h, counts q qs e, more-ge j n m)) in
          rw (e, hand_out, m, rest.0) refl
      | inl m ↦ elim (Bool-cases (copies fresh)) [
        | inr k ↦ rw (e, hand_out, m, k) refl
        | inl k ↦
            rw (e, hand_out, m, k)
              (hand_out-left qs (suc j) n fresh (suc fresh) (omega (arith, h, counts q qs e))
                (λ y. omega (arith, h, counts q qs e, more-lt j n m, y)))
      ]
    ]
  ]

  -- With a larger number the last copy is left over.
  hand_out-left_over :
      (qs : List (Option ℕ)) (j n c fresh : ℕ)
      → j + how_many selected qs < n
      → ((k : ℕ) → copies k ≡ true)
      → ((hand_out copies selected qs j (pos n) (some c) fresh).freed ≡ [])
        × ((hand_out copies selected qs j (pos n) (some c) fresh).left ≢ none)
  unfolding hand_out
  hand_out-left_over [] j n c fresh h all = (refl, λ y. cc y)
  hand_out-left_over (none ∷ qs) j n c fresh h all =
      hand_out-left_over qs j n c fresh (omega (arith, h, passes qs)) all
  hand_out-left_over (some q ∷ qs) j n c fresh h all = elim (Bool-cases (selected q)) [
    | inr e ↦
        rw (e, hand_out) (hand_out-left_over qs j n c fresh (omega (arith, h, skips q qs e)) all)
    | inl e ↦ elim (Bool-cases (more_to_come j (pos n))) [
      | inr m ↦ absurd (omega (arith, h, counts q qs e, more-ge j n m))
      | inl m ↦
          rw (e, hand_out, m, all fresh)
            (hand_out-left_over qs (suc j) n fresh (suc fresh) (omega (arith, h, counts q qs e))
              all)
    ]
  ]

kept-none : {o : Option ℕ} (l : List (Option ℕ)) → o ≡ none → l ++ kept o ≡ l
kept-none l e = ap (λ o. l ++ kept o) e ∙ append-nil l

is_there : (o : Option ℕ) → o ≢ none → (t : ℕ) × (o ≡ some t)
is_there none h = absurd (h refl)
is_there (some t) h = (t, refl)

-- At an event whose counter is the number of its registered queries, of which there is one at
-- least, the tuple and each copy is handed to a query or freed, once and in the order in which they
-- were made. Queries are handed tuples in the order of the slots: all of them, with nothing freed,
-- unless the next copy cannot be made.
pub event_occured_broadcast_owns :
    (copies : ℕ → Bool) (root : Node) (name : Name) (t fresh : ℕ) (qs : List (Option ℕ)) (n : ℕ)
    → found_queries event_queries (get_description (some root) name) ≡ some (qs, pos n)
    → how_many (λ q. true) qs ≡ n
    → n ≢ 0
    → let h = event_occured_broadcast copies root name t fresh in
      (made_copies : ℕ) × (rest : List ℕ) × (tuples h.sent ++ h.freed
        ≡ some t ∷ made fresh made_copies)
      × (queries h.sent ++ rest ≡ chosen (λ q. true) qs)
      × (((rest ≡ []) × (h.freed ≡ [])) ⊎ (copies (fresh + made_copies) ≡ false))
unfolding event_occured_broadcast
event_occured_broadcast_owns copies root name t fresh qs n e c z =
    let r = hand_out-IsOwned copies (λ q. true) qs 0 n t fresh (omega (arith, c)) in
    let l =
      hand_out-left copies (λ q. true) qs 0 n t fresh (omega (arith, c)) (λ y. z (sym c ∙ y)) in
    rw (event_occured_broadcast, e)
      (
        r.copies,
        r.rest,
        sym (
              ap (λ k. tuples (hand_out copies (λ q. true) qs 0 (pos n) (some t) fresh).sent ++ k)
                (kept-none _ l))
            ∙ r.all,
        r.told,
        r.why,
      )

-- At an object whose counter is larger than the number of the queries that are registered for the
-- events, and where every copy can be made, nothing is freed, each of these queries is handed a
-- tuple, and of the tuple and its copies, each of which is handed out once at most, the last one
-- remains: it is neither handed to a query nor freed.
pub object_changed_broadcast_leaks :
    (copies : ℕ → Bool) (heap : ℕ → Query) (root : Node) (name : Name) (t mask fresh : ℕ)
    (qs : List (Option ℕ)) (n : ℕ)
    → found_queries object_queries (get_description (some root) name) ≡ some (qs, pos n)
    → how_many (λ q. matches mask (heap q).root) qs < n
    → ((k : ℕ) → copies k ≡ true)
    → let h = object_changed_broadcast copies heap root name t mask fresh in
      (h.freed ≡ [])
      × (queries h.sent ≡ chosen (λ q. matches mask (heap q).root) qs)
      × (made_copies last : ℕ) × (h.left ≡ some last)
      × (tuples h.sent ++ (some last ∷ []) ≡ some t ∷ made fresh made_copies)
unfolding object_changed_broadcast
object_changed_broadcast_leaks copies heap root name t mask fresh qs n e c all =
    let sel : ℕ → Bool = λ q. matches mask (heap q).root in
    let r = hand_out-IsOwned copies sel qs 0 n t fresh (omega (arith, c)) in
    let l = hand_out-left_over copies sel qs 0 n t fresh (omega (arith, c)) all in
    let h = hand_out copies sel qs 0 (pos n) (some t) fresh in
    let (last, there) = is_there _ l.1 in
    let told : r.rest ≡ [] = elim r.why [
      | inl y ↦ y.0
      | inr y ↦ cc (sym y ∙ all (fresh + r.copies))
    ] in
    rw (object_changed_broadcast, e)
      (
        l.0,
        sym (append-nil (queries h.sent)) ∙ ap (λ k. queries h.sent ++ k) (sym told) ∙ r.told,
        r.copies,
        last,
        there,
        sym (ap₂ (λ x y. tuples h.sent ++ (x ++ kept y)) l.0 there) ∙ r.all,
      )
