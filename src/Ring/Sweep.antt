-- ===== src/Ring/Sweep.antt =====
-- The sweep of `ringBufferWrite` over the unused slots, and what it leaves.
use claosi.Prelude.{
  ℕ, zero, suc, ◌+◌, ◌≤◌, ◌<◌, ◌≡◌, refl, ◌∙◌, ◌⊎◌, inl, inr, ◌≢◌, ℕ_discrete, true, false, none,
  some, List, [], ◌∷◌, ◌++◌, arith, ◌==◌, if◌then◌else◌, length, get_or, set, length-set,
  get_or-set, Bool-cases, Option-cases,
}
use claosi.Ring.{
  LayerMessage, Sender, is_empty_type, next_index, element, blank, sweep_element, sweep,
}

-- Does the message hold the address `x`?
abbrev pub holds : ℕ → LayerMessage → ℕ
holds x m = elim m.addr [ none ↦ 0 | some a ↦ if a == x then 1 else 0 ]

-- How many slots hold the address `x`.
unfoldable pub held : ℕ → List LayerMessage → ℕ
held x [] = 0
held x (m ∷ ms) = holds x m + held x ms

-- How often `x` was handed to `slcfree`.
unfoldable pub count : ℕ → List ℕ → ℕ
count x [] = 0
count x (a ∷ rest) = (if a == x then 1 else 0) + count x rest

unfoldable pub tally : ℕ → Sender → ℕ
tally x s = count x s.freed + held x s.ring.elements

pub held-set :
    (x : ℕ) (ms : List LayerMessage) (i : ℕ) (m : LayerMessage)
    → i < length ms
    → held x (set ms i m) + holds x (get_or ms i blank) ≡ held x ms + holds x m
unfolding held
held-set x [] i m h = absurd (omega arith)
held-set x (n ∷ ms) zero m h = omega arith
held-set x (n ∷ ms) (suc i) m h = omega (arith, held-set x ms i m)

count-append :
    (x : ℕ) (l : List ℕ) (a : ℕ) → count x (l ++ (a ∷ [])) ≡ count x l + (if a == x then 1 else 0)
unfolding count
count-append x [] a = omega arith
count-append x (b ∷ l) a = omega (arith, count-append x l a)

-- What a sweep may change.
pub record Swept (s s' : Sender) : Type 0 where
  pub same_size : s'.ring.size ≡ s.ring.size
  pub same_read : s'.ring.read ≡ s.ring.read
  pub same_write : s'.ring.write ≡ s.ring.write
  pub same_room : length s'.ring.elements ≡ length s.ring.elements
  pub same_ops : s'.write_ops ≡ s.write_ops
  pub types : (j : ℕ) → (element s'.ring j).type ≡ (element s.ring j).type
  pub waiting :
      (j : ℕ) → is_empty_type (element s.ring j).type ≡ false → element s'.ring j ≡ element s.ring j
  pub nulls : (j : ℕ) → (element s.ring j).addr ≡ none → (element s'.ring j).addr ≡ none
  pub tallied : (x : ℕ) → tally x s' ≡ tally x s

-- A complaint changes none of it.
pub Swept-errors : (s : Sender) (es : List ℕ) → Swept s (record s { errors = es })
unfolding tally
Swept-errors s es = record {
  same_size = refl;
  same_read = refl;
  same_write = refl;
  same_room = refl;
  same_ops = refl;
  types = λ j. refl;
  waiting = λ j h. refl;
  nulls = λ j h. h;
  tallied = λ x. refl;
}

Swept-trans : {s t u : Sender} → Swept s t → Swept t u → Swept s u
Swept-trans {s} {t} {u} p q = record {
  same_size = q.same_size ∙ p.same_size;
  same_read = q.same_read ∙ p.same_read;
  same_write = q.same_write ∙ p.same_write;
  same_room = q.same_room ∙ p.same_room;
  same_ops = q.same_ops ∙ p.same_ops;
  types = λ j. q.types j ∙ p.types j;
  waiting = λ j h. q.waiting j (rw (p.types j) h) ∙ p.waiting j h;
  nulls = λ j h. q.nulls j (p.nulls j h);
  tallied = λ x. q.tallied x ∙ p.tallied x;
}

sweep_element-Swept :
    (i : ℕ) (s : Sender) → i < length s.ring.elements → Swept s (sweep_element i s)
unfolding sweep_element tally
sweep_element-Swept i s h = elim (Bool-cases (is_empty_type (element s.ring i).type)) [
  | inr busy ↦ rw (busy, sweep_element) (Swept-errors s _)
  | inl idle ↦ elim (Option-cases (element s.ring i).addr) [
    | inl e ↦ rw (idle, e, sweep_element) (Swept-errors s s.errors)
    | inr (a, e) ↦
        let m : LayerMessage = record (element s.ring i) { addr = none } in
        rw (idle, e, sweep_element)
          (record {
            same_size = refl;
            same_read = refl;
            same_write = refl;
            same_room = length-set s.ring.elements i m;
            same_ops = refl;
            types = λ j. ground (arith, get_or-set s.ring.elements i j m blank);
            waiting = λ j w. ground (arith, get_or-set s.ring.elements i j m blank);
            nulls = λ j w. ground (arith, get_or-set s.ring.elements i j m blank);
            tallied =
                λ x. ground (arith, held-set x s.ring.elements i m h, count-append x s.freed a);
          })
  ]
]

-- Slot `j` is one of the `k` slots from `i` on, going round at `size`.
abbrev pub Region : ℕ → ℕ → ℕ → ℕ → Type 0
Region size i k j = ((i ≤ j) × (j < i + k)) ⊎ (j + size < i + k)

-- One round clears its slot, and complains only of a message that is not marked empty.
sweep_element-clears :
    (i : ℕ) (s : Sender)
    → i < length s.ring.elements
    → is_empty_type (element s.ring i).type ≡ true
    → ((element (sweep_element i s).ring i).addr ≡ none) × ((sweep_element i s).errors ≡ s.errors)
unfolding sweep_element
sweep_element-clears i s h e =
    ground (arith, get_or-set s.ring.elements i i (record (element s.ring i) { addr = none }) blank)

-- What the sweep of `k` slots from `i` on leaves behind.
pub record SweptFrom (i k : ℕ) (s s' : Sender) : Type 0 where
  pub frame : Swept s s'
  pub cleared :
      (j : ℕ)
      → j < s.ring.size
      → Region s.ring.size i k j
      → is_empty_type (element s.ring j).type ≡ true
      → (element s'.ring j).addr ≡ none
  pub quiet :
      ((j : ℕ)
        → j < s.ring.size
        → is_empty_type (element s.ring j).type ≡ false
        → ¬ Region s.ring.size i k j)
      → s'.errors ≡ s.errors

-- The round in which the loop stops.
SweptFrom-last :
    (i : ℕ) (s : Sender)
    → i < s.ring.size
    → length s.ring.elements ≡ s.ring.size
    → SweptFrom i 1 s (sweep_element i s)
SweptFrom-last i s hi hl = record {
  frame = sweep_element-Swept i s (omega arith);
  cleared = λ j hj g e.
      let same : j ≡ i = omega arith in
      rw same ((sweep_element-clears i s (omega arith) (rw (← same) e)).0);
  quiet = λ h. elim (Bool-cases (is_empty_type (element s.ring i).type)) [
    | inl e ↦ (sweep_element-clears i s (omega arith) e).1
    | inr e ↦ absurd (h i hi e (omega arith))
  ];
}

Region-next :
    (size size' i k j : ℕ)
    → size' ≡ size
    → i < size
    → j < size
    → suc k < size
    → j ≢ i
    → Region size i (suc (suc k)) j
    → Region size' (next_index size i) (suc k) j
Region-next size size' i k j e hi hj hk ne r = ground arith

Region-prev :
    (size size' i k j : ℕ)
    → size' ≡ size
    → i < size
    → j < size
    → Region size' (next_index size i) (suc k) j
    → Region size i (suc (suc k)) j
Region-prev size size' i k j e hi hj r = ground arith

-- One round, and the rounds from the next slot on.
SweptFrom-next :
    (i k : ℕ) (s s' : Sender)
    → i < s.ring.size
    → length s.ring.elements ≡ s.ring.size
    → suc k < s.ring.size
    → SweptFrom (next_index s.ring.size i) (suc k) (sweep_element i s) s'
    → SweptFrom i (suc (suc k)) s s'
SweptFrom-next i k s s' hi hl hk g =
    let step : Swept s (sweep_element i s) = sweep_element-Swept i s (omega arith) in
    record {
      frame = Swept-trans step g.frame;
      cleared = λ j hj r e. elim (ℕ_discrete j i) [
        | yes same ↦
            rw same (g.frame.nulls i (sweep_element-clears i s (omega arith) (rw (← same) e)).0)
        | no ne ↦
            g.cleared j (rw step.same_size hj)
              (Region-next s.ring.size _ i k j step.same_size hi hj hk ne r) (rw (step.types j) e)
      ];
      quiet = λ h. elim (Bool-cases (is_empty_type (element s.ring i).type)) [
        | inl e ↦
            g.quiet (λ j hj b r.
              h j (omega (arith, step.same_size)) (rw (step.types j) at b) (
                Region-prev s.ring.size _ i k j step.same_size hi (omega (arith, step.same_size))
                  r))
            ∙ (sweep_element-clears i s (omega arith) e).1
        | inr e ↦ absurd (h i hi e (omega arith))
      ];
    }

-- The loop of `k` rounds that stops at the read index, with fuel for them.
pub sweep-SweptFrom :
    (fuel k i : ℕ) (s : Sender)
    → k < fuel
    → i < s.ring.size
    → s.ring.read < s.ring.size
    → length s.ring.elements ≡ s.ring.size
    → k < s.ring.size
    → (i + suc k ≡ s.ring.read) ⊎ (i + suc k ≡ s.ring.read + s.ring.size)
    → (s' : Sender) × (sweep fuel i s ≡ some s') × SweptFrom i (suc k) s s'
unfolding sweep
sweep-SweptFrom zero k i s hf hi hr hl hk e = absurd (omega arith)
sweep-SweptFrom (suc fuel) zero i s hf hi hr hl hk e =
    let stop : (next_index s.ring.size i == s.ring.read) ≡ true = ground arith in
    (sweep_element i s, rw (stop, sweep), SweptFrom-last i s hi hl)
sweep-SweptFrom (suc fuel) (suc k) i s hf hi hr hl hk e =
    let more : (next_index s.ring.size i == s.ring.read) ≡ false = ground arith in
    let step : Swept s (sweep_element i s) = sweep_element-Swept i s (omega arith) in
    let (s', run, g) =
      sweep-SweptFrom fuel k (next_index s.ring.size i) (sweep_element i s) (omega arith)
        (rw step.same_size (ground arith)) (rw (step.same_size, step.same_read) hr)
        (rw (step.same_size, step.same_room) hl) (rw step.same_size (omega arith))
        (rw (step.same_size, step.same_read) (ground arith)) in
    (s', rw (more, sweep) run, SweptFrom-next i k s s' hi hl hk g)
