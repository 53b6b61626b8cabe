-- ===== src/Model/Copy/Whole.antt =====
-- Copies of whole trees.
use claosi.Prelude.{
  ℕ, zero, suc, ◌+◌, ◌≡◌, refl, sym, ap, ◌∙◌, Bool, true, false, List, [], ◌∷◌, some, arith,
}
use claosi.Model.{Node, Forest, node, nil, cons, header, children, Header, node_size, forest_size}
use claosi.Model.Copy.{
  snoc, allocations, Partial, Copying, copy, next, step_up, allocate, step_down, copy_round,
  copy_loop, copy_subtree, added, attach, add_subtree,
}

pub join : Forest → Forest → Forest
join nil fs = fs
join (cons n ms) fs = cons n (join ms fs)

join-snoc : (ms : Forest) (n : Node) (fs : Forest) → join (snoc ms n) fs ≡ join ms (cons n fs)
unfolding join snoc
join-snoc nil n fs = refl
join-snoc (cons m ms) n fs = ap (cons m) (join-snoc ms n fs)

-- The rounds for the missing children of a node, before `f` more, and the allocations for them.
rounds : Forest → ℕ → ℕ
rounds nil f = f
rounds (cons (node h cs) fs) f = suc (rounds cs (suc (rounds fs f)))

calls_for : Forest → ℕ → ℕ
calls_for nil k = k
calls_for (cons (node h cs) fs) k = calls_for fs (calls_for cs (k + allocations (node h cs)))

rounds-size : (fs : Forest) (f : ℕ) → rounds fs f ≡ (forest_size fs + forest_size fs) + f
unfolding rounds forest_size
rounds-size nil f = omega arith
rounds-size (cons (node h cs) fs) f =
    omega (arith, rounds-size cs (suc (rounds fs f)), rounds-size fs f)

join-nil : (ms : Forest) → join ms nil ≡ ms
unfolding join
join-nil nil = refl
join-nil (cons m ms) = ap (cons m) (join-nil ms)

copy_loop-next :
    (room : ℕ → Bool) (f : ℕ) (s s' : Copying)
    → copy_round room s ≡ next s'
    → copy_loop room (suc f) s ≡ copy_loop room f s'
unfolding copy_loop
copy_loop-next room f s s' e = rw (copy_loop, e)

module _ (room : ℕ → Bool) (all : (k : ℕ) → room k ≡ true) where
  allocate-all : (n k : ℕ) → allocate room n k ≡ (k + n, true)
  unfolding allocate
  allocate-all zero k = ap (λ x. (x, true)) (omega arith)
  allocate-all (suc n) k =
      rw (allocate, all k) (allocate-all n (suc k) ∙ ap (λ x. (x, true)) (omega arith))

  abbrev state : Header → Forest → Forest → List Partial → ℕ → Copying
  state h done todo up k = record {
    cur = record { head = h; copied = done; missing = todo };
    up = up;
    calls = k;
  }

  step_down-cons :
      (h : Header) (done fs : Forest) (n : Node) (up : List Partial) (k : ℕ)
      → copy_round room (state h done (cons n fs) up k)
        ≡ next (
            state
              (header n)
              nil
              (children n)
              (record { head = h; copied = done; missing = fs } ∷ up)
              (k + allocations n))
  unfolding step_down
  step_down-cons h done fs n up k = rw (step_down, allocate-all (allocations n) k)

  copy_loop-children :
      (todo : Forest) (f : ℕ) (h : Header) (done : Forest) (up : List Partial) (k : ℕ)
      → copy_loop room (rounds todo f) (state h done todo up k)
        ≡ copy_loop room f (state h (join done todo) nil up (calls_for todo k))
  unfolding rounds calls_for copy_loop step_down step_up join
  copy_loop-children nil f h done up k =
      ap (λ d. copy_loop room f (state h d nil up k)) (sym (join-nil done))
  copy_loop-children (cons (node h' cs) fs) f h done up k =
      let k' = k + allocations (node h' cs) in
      let below : List Partial = record { head = h; copied = done; missing = fs } ∷ up in
      let mid = rounds cs (suc (rounds fs f)) in
      let after = calls_for fs (calls_for cs k') in
      copy_loop-next room mid (state h done (cons (node h' cs) fs) up k) (state h' nil cs below k')
        (step_down-cons h done fs (node h' cs) up k)
      ∙ copy_loop-children cs (suc (rounds fs f)) h' nil below k'
      ∙ copy_loop-next room (rounds fs f) (state h' cs nil below (calls_for cs k'))
          (state h (snoc done (node h' cs)) fs up (calls_for cs k')) refl
      ∙ copy_loop-children fs f h (snoc done (node h' cs)) up (calls_for cs k')
      ∙ ap (λ d. copy_loop room f (state h d nil up after)) (join-snoc done (node h' cs) fs)

  last :
      (f : ℕ) (h : Header) (cs : Forest) (k : ℕ)
      → copy_loop room (suc f) (state h cs nil [] k) ≡ some (copy (node h cs) k)
  unfolding copy_loop step_down step_up
  last f h cs k = refl

  -- If every allocation succeeds, the subtree is copied, with fuel for two rounds for each node.
  pub copy_subtree-copy :
      (n : Node) (k : ℕ) → (after : ℕ) × (copy_subtree room n k ≡ some (copy n after))
  unfolding copy_subtree node_size step_down step_up join
  copy_subtree-copy (node h cs) k =
      let k' = k + allocations (node h cs) in
      let enough : node_size (node h cs) + node_size (node h cs) ≡ rounds cs 2 =
        omega (arith, rounds-size cs 2) in
      (
        calls_for cs k',
        rw (copy_subtree, allocate-all (allocations (node h cs)) k, enough)
            (copy_loop-children cs 2 h nil [] k' ∙ last 1 h cs (calls_for cs k')),
      )

  -- Then the copy becomes the last child.
  pub add_subtree-added :
      (o n : Node) (k : ℕ)
      → (after : ℕ) × (add_subtree room o n k
          ≡ added (node (header o) (snoc (children o) n)) true after)
  unfolding add_subtree attach
  add_subtree-added o n k =
      let (after, e) = copy_subtree-copy n (suc k) in
      (after, rw (add_subtree, all k, e, attach) refl)

-- If no allocation succeeds, the node stays as it was.
pub add_subtree-no_room :
    (room : ℕ → Bool)
    → ((k : ℕ) → room k ≡ false)
    → (o n : Node) (k : ℕ) → add_subtree room o n k ≡ added o false (suc k)
unfolding add_subtree
add_subtree-no_room room empty o n k = rw (add_subtree, empty k)
