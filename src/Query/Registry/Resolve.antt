-- ===== src/Query/Registry/Resolve.antt =====
-- The search for a query that was added.
use claosi.Prelude.{
  subst, ℕ, zero, suc, ◌<◌, ◌^◌, ◌≡◌, ◌≢◌, refl, sym, ap, ◌∙◌, Bool, true, false, not, ◌&&◌, List,
  [], ◌∷◌, Option, none, some, inl, inr, Option-cases, Bool-cases, if◌then◌else◌, set, length,
  arith, ◌==◌,
}
use claosi.Prelude.Names.{Name, tokens, name_eq_refl}
use claosi.Prelude.Int.{ℤ, incr}
use claosi.Model.{Node, header}
use claosi.Model.Lookup.{get_description}
use claosi.Query.{Query, GenStream}
use claosi.Query.Registry.{
  Layer, done, reg_queries, with_queries, free_slot, stream_of, wants_status, numbered, register,
  add_query, resolve_slot, sent_id, resolve_query, has_name, is_local,
}
use claosi.Query.Registry.Paths.{descend-write_at}
use claosi.Query.Registry.Undo.{
  add_query-register, register-heap, write_at-kind, free_slot-length, reg_queries-with_queries,
  new_id,
}

-- The slot is found if its query matches, and no query behind another pointer has the number.
resolve_slot-set :
    (heap : ℕ → Query) (name : Name) (id p : ℕ) (qs : List (Option ℕ)) (i : ℕ)
    → i < length qs
    → (((heap p).query_id == id) && has_name name (stream_of (heap p).root)) ≡ true
    → ((k : ℕ) → k ≢ p → (heap k).query_id ≢ id)
    → resolve_slot heap name id (set qs i (some p)) ≡ some p
unfolding resolve_slot
resolve_slot-set heap name id p [] i h m fresh = absurd (omega arith)
resolve_slot-set heap name id p (x ∷ qs) zero h m fresh = rw (m) refl
resolve_slot-set heap name id p (none ∷ qs) (suc i) h m fresh =
    resolve_slot-set heap name id p qs i (omega arith) m fresh
resolve_slot-set heap name id p (some k ∷ qs) (suc i) h m fresh = elim (Bool-cases (k == p)) [
  | inl e ↦ let same : k ≡ p = ground arith in rw (same, resolve_slot, m) refl
  | inr e ↦
      let other : k ≢ p = λ q. ground arith in
      let differs = fresh k other in
      let no : ((heap k).query_id == id) ≡ false = ground arith in
      rw (resolve_slot, no) (resolve_slot-set heap name id p qs i (omega arith) m fresh)
]

found_pointer : {a b : ℕ} → some a ≡ some b → a ≡ b
found_pointer e = cc e

resolve_slot_sound :
    (heap : ℕ → Query) (name : Name) (id p : ℕ) (qs : List (Option ℕ))
    → resolve_slot heap name id qs ≡ some p
    → ((heap p).query_id ≡ id) × (has_name name (stream_of (heap p).root) ≡ true)
unfolding resolve_slot
resolve_slot_sound heap name id p [] h = cc h
resolve_slot_sound heap name id p (none ∷ qs) h = resolve_slot_sound heap name id p qs h
resolve_slot_sound heap name id p (some k ∷ qs) h =
    elim (Bool-cases (((heap k).query_id == id) && has_name name (stream_of (heap k).root))) [
      | inl e ↦
          let same : k ≡ p = found_pointer (rw (resolve_slot, e) at h) in
          subst (λ j. ((heap j).query_id ≡ id) × (has_name name (stream_of (heap j).root) ≡ true))
            same (ground arith)
      | inr e ↦ resolve_slot_sound heap name id p qs (rw (resolve_slot, e) at h)
    ]

-- A query that is found for a `QueryID_t` has the number that this one holds, and so one below
-- 2 ^ 16, and its stream has the name.
pub resolve_query_sound :
    (l : Layer) (name : Name) (id p : ℕ)
    → resolve_query l name (sent_id id) ≡ some p
    → ((l.heap p).query_id ≡ sent_id id)
      × ((l.heap p).query_id < 2 ^ 16)
      × (has_name name (stream_of (l.heap p).root) ≡ true)
unfolding resolve_query sent_id
resolve_query_sound l name id p h = elim (Option-cases (get_description (some l.root) name)) [
  | inl e ↦ cc (rw (e, resolve_query) at h)
  | inr (dm, e) ↦ elim (Option-cases (reg_queries (header dm).kind)) [
    | inl g ↦ cc (rw (e, g, resolve_query) at h)
    | inr (qs, g) ↦
        let q = resolve_slot_sound l.heap name (sent_id id) p qs (rw (e, g, resolve_query) at h) in
        (q.0, omega (arith, q.0), q.1)
  ]
]

matches :
    (q : Query) (id : ℕ) (s : GenStream)
    → q.query_id ≡ id
    → stream_of q.root ≡ some s
    → ((q.query_id == id) && has_name s.name (stream_of q.root)) ≡ true
unfolding has_name
matches q id s e f = rw (f) (ground (arith, name_eq_refl s.name))

unequal : (k p : ℕ) → k ≢ p → (k == p) ≡ false
unequal k p ne = ground arith

module _ (layer_code : ℕ) (sends : ℕ → Bool) where
  pub resolve_query-register :
      (l : Layer) (p : ℕ) (s : GenStream) (dm : Node) (qs : List (Option ℕ)) (i : ℕ)
      → stream_of (l.heap p).root ≡ some s
      → get_description (some l.root) s.name ≡ some dm
      → reg_queries (header dm).kind ≡ some qs
      → free_slot qs ≡ some i
      → ((k : ℕ) → k ≢ p → (l.heap k).query_id ≢ new_id layer_code sends l p)
      → resolve_query
          (register layer_code sends l p s.name dm qs i)
          s.name
          (new_id layer_code sends l p)
        ≡ some p
  unfolding register get_description resolve_query numbered has_name
  resolve_query-register l p s dm qs i e f g h fresh =
      let up : ℤ → ℤ = λ x.
        if is_local layer_code sends dm && not (wants_status (l.heap p).root) then incr x else x in
      let write = with_queries (set qs i (some p)) up in
      let l' = register layer_code sends l p s.name dm qs i in
      let here = register-heap layer_code sends l p s.name dm qs i in
      let found = descend-write_at write l.root dm (tokens s.name) f in
      let array =
        ap reg_queries (write_at-kind layer_code sends write dm)
        ∙ reg_queries-with_queries (header dm).kind qs _ _ g in
      rw (resolve_query, found, array)
        (resolve_slot-set l'.heap s.name _ p qs i (free_slot-length qs i h)
          (matches (l'.heap p) _ s (ap (λ (q : Query). q.query_id) here)
            (ap (λ (q : Query). stream_of q.root) here ∙ e))
          (λ k ne.
            subst (λ (q : Query). q.query_id ≢ new_id layer_code sends l p)
              (sym (
                ap (λ b. if b then numbered layer_code sends l p dm i else l.heap k)
                  (unequal k p ne)))
              (fresh k ne)))

  sent_id_small : (id : ℕ) → id < 2 ^ 16 → sent_id id ≡ id
  unfolding sent_id
  sent_id_small id h = omega arith

  -- If the number that the query gets is below 2 ^ 16 and no other query has it, then the query, its
  -- node having a free slot, is found by its stream's name and the number that a `QueryID_t` holds
  -- for it, once it was added.
  pub resolve_query-add_query :
      (l : Layer) (p : ℕ) (s : GenStream) (dm : Node) (qs : List (Option ℕ)) (i : ℕ)
      → stream_of (l.heap p).root ≡ some s
      → get_description (some l.root) s.name ≡ some dm
      → reg_queries (header dm).kind ≡ some qs
      → free_slot qs ≡ some i
      → new_id layer_code sends l p < 2 ^ 16
      → ((k : ℕ) → k ≢ p → (l.heap k).query_id ≢ new_id layer_code sends l p)
      → (l' : Layer) × (add_query layer_code sends l p ≡ done l')
        × (resolve_query l' s.name (sent_id (new_id layer_code sends l p)) ≡ some p)
  resolve_query-add_query l p s dm qs i e f g h small fresh =
      let l' = register layer_code sends l p s.name dm qs i in
      (
        l',
        add_query-register layer_code sends l p s dm qs i e f g h,
        ap (resolve_query l' s.name) (sent_id_small (new_id layer_code sends l p) small)
            ∙ resolve_query-register l p s dm qs i e f g h fresh,
      )
