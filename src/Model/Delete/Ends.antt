-- ===== src/Model/Delete/Ends.antt =====
-- What `deleteSubtree` leaves, by recursion on the model that describes the nodes.
use claosi.Prelude.{
  ℕ, suc, ◌≡◌, refl, ap, ◌∙◌, Bool, true, false, List, [], ◌∷◌, ◌++◌, Option, none, some, some_eq,
}
use claosi.Model.{Node, Forest, node, nil, cons, header, Header}
use claosi.Model.Delete.{
  Holed, Slots, holed, empty, child, gap, head_of, slots_of, append, left_over, Place, find_slot,
  Above, Delete, Stop, free_node, Round, next, over, is_leaf, up_with, go_up, take_out, take_root,
  emptied, renewed, step_to, look_for, delete_leaf, delete_round, delete_loop, delete_subtree,
}

abbrev pub state : Holed → Forest → Bool → List Above → List (Header × List Stop) → ℕ → Delete
state p r l a f c = record { present = p; remaining = r; leaf = l; above = a; freed = f; calls = c }

-- Whether a node can be freed.
abbrev pub freeable : {A : Type 0} → Option (List Stop) → Option A → Option A
freeable none r = none
freeable (some stops) r = r

abbrev pub after : {A B : Type 0} → Option A → (A → Option B) → Option B
after none k = none
after (some a) k = k a

-- The slot of a node whose children are pruned: NULL if none is left.
unfoldable pub kept_node : ℕ → Header → Slots → Option (Slots → Slots)
kept_node layer_code h empty = freeable (free_node layer_code h) (some gap)
kept_node layer_code h (gap s) = freeable (free_node layer_code h) (some gap)
kept_node layer_code h (child c s) = some (child (holed h (child c s)))

-- The slots of a node after all nodes of the forest are taken out; `none` if one is not there or
-- cannot be freed.
unfoldable pub prune : ℕ → Slots → Forest → Option Slots
prune layer_code s nil = some s
prune layer_code s (cons (node h nil) ds) = after (find_slot h s) λ p.
    freeable (free_node layer_code (head_of p.here))
      (prune layer_code (append p.before (gap p.after)) ds)
prune layer_code s (cons (node h (cons k ks)) ds) = after (find_slot h s) λ p.
    after (prune layer_code (slots_of p.here) (cons k ks)) λ s'.
      after (kept_node layer_code (head_of p.here) (left_over s'))
        λ put. prune layer_code (append p.before (put p.after)) ds

-- One round to step down to each node, and one to leave it.
unfoldable pub rounds : Forest → ℕ → ℕ
rounds nil f = f
rounds (cons (node h nil) ds) f = suc (suc (rounds ds f))
rounds (cons (node h (cons k ks)) ds) f = suc (rounds (cons k ks) (suc (rounds ds f)))

holed-eta : (n : Holed) → n ≡ holed (head_of n) (slots_of n)
holed-eta (holed h s) = refl

freeable-some :
    {A : Type 0} (o : Option (List Stop)) (r : Option A) (a : A)
    → freeable o r ≡ some a
    → (stops : List Stop) × (o ≡ some stops) × (r ≡ some a)
freeable-some none r a h = cc h
freeable-some (some stops) r a h = (stops, refl, h)

after-some :
    {A B : Type 0} (o : Option A) (k : A → Option B) (b : B)
    → after o k ≡ some b
    → (a : A) × (o ≡ some a) × (k a ≡ some b)
after-some none k b h = cc h
after-some (some a) k b h = (a, refl, h)

module _ (layer_code : ℕ) (room : ℕ → Bool) (all : (i : ℕ) → room i ≡ true) where
  abbrev loop : ℕ → Delete → Option Round
  loop f d = delete_loop layer_code room f d

  loop-next :
      (f : ℕ) (d d' : Delete)
      → delete_round layer_code room d ≡ next d'
      → loop (suc f) d ≡ loop f d'
  unfolding delete_loop
  loop-next f d d' e = rw (delete_loop, e) refl

  abbrev aside : Header → Place → Forest → Above
  aside h p ds = record { head = h; before = p.before; after = p.after; remaining = ds }

  down :
      (h g : Header) (s : Slots) (ks ds : Forest) (l : List Above) (fr : List (Header × List Stop))
      (c : ℕ) (p : Place)
      → find_slot g s ≡ some p
      → delete_round layer_code room (state (holed h s) (cons (node g ks) ds) false l fr c)
        ≡ next (state p.here ks (is_leaf ks) (aside h p ds ∷ l) fr c)
  unfolding delete_round look_for step_to
  down h g s ks ds l fr c p e = rw (delete_round, look_for, e, step_to) refl

  leave_leaf :
      (h : Header) (p : Place) (ds : Forest) (l : List Above) (fr : List (Header × List Stop))
      (c : ℕ) (stops : List Stop)
      → free_node layer_code (head_of p.here) ≡ some stops
      → delete_round layer_code room (state p.here nil true (aside h p ds ∷ l) fr c)
        ≡ next (
            state
              (holed h (append p.before (gap p.after)))
              ds
              false
              l
              (fr ++ ((head_of p.here, stops) ∷ []))
              c)
  unfolding delete_round delete_leaf take_out up_with
  leave_leaf h p ds l fr c stops e = rw (delete_round, delete_leaf, take_out, e, up_with) refl

  -- Leaving a node whose children were pruned.
  leave_node :
      (h g : Header) (p : Place) (s : Slots) (ds : Forest) (l : List Above)
      (fr : List (Header × List Stop)) (c : ℕ) (put : Slots → Slots) (t : Slots)
      → left_over s ≡ t
      → kept_node layer_code g t ≡ some put
      → (fr' : List (Header × List Stop)) × (c' : ℕ) × (delete_round layer_code room
            (state (holed g s) nil false (aside h p ds ∷ l) fr c)
          ≡ next (state (holed h (append p.before (put p.after))) ds false l fr' c'))
  unfolding delete_round look_for renewed emptied take_out up_with go_up kept_node
  leave_node h g p s ds l fr c put empty e k =
      let (stops, free, same) = freeable-some (free_node layer_code g) (some gap) put k in
      (
        fr ++ ((g, stops) ∷ []),
        c,
        rw (delete_round, look_for, e, renewed, emptied, take_out, free, up_with)
            (ap
              (λ w. next (
                state (holed h (append p.before (w p.after))) ds false l (fr ++ ((g, stops) ∷ []))
                  c))
              (some_eq same)),
      )
  leave_node h g p s ds l fr c put (gap u) e k =
      let (stops, free, same) = freeable-some (free_node layer_code g) (some gap) put k in
      (
        fr ++ ((g, stops) ∷ []),
        c,
        rw (delete_round, look_for, e, renewed, emptied, take_out, free, up_with)
            (ap
              (λ w. next (
                state (holed h (append p.before (w p.after))) ds false l (fr ++ ((g, stops) ∷ []))
                  c))
              (some_eq same)),
      )
  leave_node h g p s ds l fr c put (child n u) e k = (
    fr,
    suc c,
    rw (delete_round, look_for, e, renewed, all c, go_up, up_with)
        (ap (λ w. next (state (holed h (append p.before (w p.after))) ds false l fr (suc c)))
          (some_eq k)),
  )

  -- What the loop does at a node until all of its children were looked for.
  abbrev Prunes :
      Forest → Header → Slots → List Above → List (Header × List Stop) → ℕ → Slots → Type 0
  Prunes ds h s l fr c s' =
      (fr' : List (Header × List Stop)) × (c' : ℕ) × ((f : ℕ)
        → loop (rounds ds f) (state (holed h s) ds false l fr c)
          ≡ loop f (state (holed h s') nil false l fr' c'))

  loop-prune :
      (ds : Forest) (h : Header) (s s' : Slots) (l : List Above) (fr : List (Header × List Stop))
      (c : ℕ)
      → prune layer_code s ds ≡ some s'
      → Prunes ds h s l fr c s'
  unfolding prune rounds
  loop-prune nil h s s' l fr c e =
      (fr, c, λ f. ap (λ x. loop f (state (holed h x) nil false l fr c)) (some_eq e))
  loop-prune (cons (node g nil) ds) h s s' l fr c e =
      let (p, found, e') = after-some (find_slot g s) _ s' e in
      let (stops, free, e'') = freeable-some (free_node layer_code (head_of p.here)) _ s' e' in
      let (fr', c', rest) =
        loop-prune ds h (append p.before (gap p.after)) s' l (fr ++ ((head_of p.here, stops) ∷ []))
          c e'' in
      (
        fr',
        c',
        λ f.
            loop-next (suc (rounds ds f)) _ _ (down h g s nil ds l fr c p found)
            ∙ loop-next (rounds ds f) _ _ (leave_leaf h p ds l fr c stops free)
            ∙ rest f,
      )
  loop-prune (cons (node g (cons k ks)) ds) h s s' l fr c e =
      let (p, found, e1) = after-some (find_slot g s) _ s' e in
      let (t, pruned, e2) = after-some (prune layer_code (slots_of p.here) (cons k ks)) _ s' e1 in
      let (put, kept, e3) =
        after-some (kept_node layer_code (head_of p.here) (left_over t)) _ s' e2 in
      let (fr1, c1, inner) =
        loop-prune (cons k ks) (head_of p.here) (slots_of p.here) t (aside h p ds ∷ l) fr c
          pruned in
      let (fr2, c2, left) =
        leave_node h (head_of p.here) p t ds l fr1 c1 put (left_over t) refl kept in
      let (fr3, c3, rest) = loop-prune ds h (append p.before (put p.after)) s' l fr2 c2 e3 in
      (
        fr3,
        c3,
        λ f.
            loop-next (rounds (cons k ks) (suc (rounds ds f))) _ _
              (down h g s (cons k ks) ds l fr c p found)
            ∙ ap
                (λ x.
                  loop (rounds (cons k ks) (suc (rounds ds f)))
                    (state x (cons k ks) false (aside h p ds ∷ l) fr c))
                (holed-eta p.here)
            ∙ inner (suc (rounds ds f))
            ∙ loop-next (rounds ds f) _ _ left
            ∙ rest f,
      )

-- The present model at the end: NULL if no child of the root is left.
abbrev pub result : Header → Slots → Option Holed
result h empty = none
result h (gap s) = none
result h (child n s) = some (holed h (child n s))

module _ (layer_code : ℕ) (room : ℕ → Bool) (all : (i : ℕ) → room i ≡ true) where
  at_end :
      (h : Header) (s t : Slots) (fr : List (Header × List Stop)) (c : ℕ) (put : Slots → Slots)
      → left_over s ≡ t
      → kept_node layer_code h t ≡ some put
      → (fr' : List (Header × List Stop)) × (delete_loop layer_code room 1
            (state (holed h s) nil false [] fr c)
          ≡ some (over none (result h t) fr'))
  unfolding delete_loop delete_round look_for renewed emptied take_root up_with go_up kept_node
  at_end h s empty fr c put e k =
      let (stops, free, same) = freeable-some (free_node layer_code h) (some gap) put k in
      (
        fr ++ ((h, stops) ∷ []),
        rw (delete_loop, delete_round, look_for, e, renewed, emptied, take_root, free) refl,
      )
  at_end h s (gap u) fr c put e k =
      let (stops, free, same) = freeable-some (free_node layer_code h) (some gap) put k in
      (
        fr ++ ((h, stops) ∷ []),
        rw (delete_loop, delete_round, look_for, e, renewed, emptied, take_root, free) refl,
      )
  at_end h s (child n u) fr c put e k =
      (fr, rw (delete_loop, delete_round, look_for, e, renewed, all c, go_up, up_with) refl)

  -- If every node of the tree of nodes to delete, the root apart, is in the present model, and every
  -- node that goes can be freed, then the deletion ends, after two rounds for each node at most and one,
  -- and returns 0. The present model is then the one without those leaves and without each node that
  -- they leave without children, the root being NULL if nothing is left. Every allocation succeeds.
  pub delete_subtree-prune :
      (h g : Header) (s s' : Slots) (k : Node) (ks : Forest) (put : Slots → Slots)
      → prune layer_code s (cons k ks) ≡ some s'
      → kept_node layer_code h (left_over s') ≡ some put
      → (fr : List (Header × List Stop)) × (delete_subtree layer_code room
            (rounds (cons k ks) 1)
            (holed h s)
            (node g (cons k ks))
          ≡ some (over none (result h (left_over s')) fr))
  unfolding delete_subtree
  delete_subtree-prune h g s s' k ks put e kept =
      let (fr, c, pruned) = loop-prune layer_code room all (cons k ks) h s s' [] [] 0 e in
      let (fr', end) = at_end h s' (left_over s') fr c put refl kept in (fr', pruned 1 ∙ end)

-- If the first node to be deleted is not there, 0 is returned and nothing is deleted, whatever the
-- other nodes are.
pub delete_subtree_stops :
    (layer_code : ℕ) (room : ℕ → Bool) (fuel : ℕ) (present : Holed) (g : Header) (k : Node)
    (ks : Forest)
    → find_slot (header k) (slots_of present) ≡ none
    → delete_subtree layer_code room (suc fuel) present (node g (cons k ks))
      ≡ some (over none (some present) [])
unfolding delete_subtree delete_loop delete_round look_for step_to go_up up_with
delete_subtree_stops layer_code room fuel present g k ks e =
    rw (delete_subtree, delete_loop, delete_round, look_for, e, step_to, go_up, up_with) refl
