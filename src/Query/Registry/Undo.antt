-- ===== src/Query/Registry/Undo.antt =====
-- Deleting a query that was just added.
use claosi.Prelude.{
  some_eq, subst, ℕ, suc, ◌<◌, ◌≡◌, ◌≢◌, refl, sym, ap, ap₂, ◌∙◌, Bool, true, false, not, ◌&&◌,
  ◌||◌, List, [], ◌∷◌, Option, none, some, inl, inr, Bool-cases, Option-cases, if◌then◌else◌, set,
  length, arith, leb, ◌==◌,
}
use claosi.Prelude.Names.{Name, tokens}
use claosi.Prelude.Int.{ℤ, incr, decr, decr-incr}
use claosi.Model.{Node, node, header, Kind, source, event, object, max_queries_per_dm}
use claosi.Model.Lookup.{get_description, descend}
use claosi.Query.{Query, GenStream}
use claosi.Query.Registry.{
  Layer, done, reg_queries, with_queries, free_slot, write_at, stream_of, wants_status, numbered,
  register, add_slot, add_at, add_stream, add_query, unregister, del_slot, del_at, del_stream,
  del_query, is_local,
}
use claosi.Query.Registry.Paths.{descend-write_at, write_at-twice, write_at_self}

pub free_slot-length : (qs : List (Option ℕ)) (i : ℕ) → free_slot qs ≡ some i → i < length qs
unfolding free_slot
free_slot-length [] i h = cc h
free_slot-length (none ∷ qs) i h = let e : 0 ≡ i = some_eq h in omega arith
free_slot-length (some p ∷ qs) i h = elim (Option-cases (free_slot qs)) [
  | inl e ↦ cc (rw (e, free_slot) at h)
  | inr (k, e) ↦
      let same : suc k ≡ i = some_eq (rw (e, free_slot) at h) in
      omega (arith, free_slot-length qs k e)
]

set-free_slot :
    (qs : List (Option ℕ)) (i : ℕ) (x : Option ℕ)
    → free_slot qs ≡ some i
    → set (set qs i x) i none ≡ qs
unfolding free_slot
set-free_slot [] i x h = refl
set-free_slot (none ∷ qs) i x h = ap (λ j. set (set (none ∷ qs) j x) j none) (sym (some_eq h))
set-free_slot (some p ∷ qs) i x h = elim (Option-cases (free_slot qs)) [
  | inl e ↦ cc (rw (e, free_slot) at h)
  | inr (k, e) ↦
      ap (λ j. set (set (some p ∷ qs) j x) j none) (sym (some_eq (rw (e, free_slot) at h)))
      ∙ ap (λ r. some p ∷ r) (set-free_slot qs k x e)
]

pub reg_queries-with_queries :
    (k : Kind) (qs qs' : List (Option ℕ)) (count : ℤ → ℤ)
    → reg_queries k ≡ some qs
    → reg_queries (with_queries qs' count k) ≡ some qs'
unfolding reg_queries with_queries
reg_queries-with_queries (source none) qs qs' count h = cc h
reg_queries-with_queries (source (some s)) qs qs' count h = refl
reg_queries-with_queries (event none) qs qs' count h = cc h
reg_queries-with_queries (event (some s)) qs qs' count h = refl
reg_queries-with_queries (object none) qs qs' count h = cc h
reg_queries-with_queries (object (some s)) qs qs' count h = refl
reg_queries-with_queries _ qs qs' count h = cc h

-- Two writes with the old array at last leave the difference in the counter.
with_queries-twice :
    (k : Kind) (qs qs' : List (Option ℕ)) (up down both : ℤ → ℤ)
    → reg_queries k ≡ some qs
    → ((x : ℤ) → down (up x) ≡ both x)
    → with_queries qs down (with_queries qs' up k) ≡ with_queries qs both k
unfolding reg_queries with_queries
with_queries-twice (source none) qs qs' up down both h e = refl
with_queries-twice (source (some s)) qs qs' up down both h e =
    ap (λ v. source (some (record s { queries = qs; num_queries = v }))) (e s.num_queries)
with_queries-twice (event none) qs qs' up down both h e = refl
with_queries-twice (event (some s)) qs qs' up down both h e =
    ap (λ v. event (some (record s { queries = qs; num_queries = v }))) (e s.num_queries)
with_queries-twice (object none) qs qs' up down both h e = refl
with_queries-twice (object (some s)) qs qs' up down both h e =
    ap (λ v. object (some (record s { queries = qs; num_queries = v }))) (e s.num_queries)
with_queries-twice _ qs qs' up down both h e = refl

with_queries_self :
    (k : Kind) (qs : List (Option ℕ)) → reg_queries k ≡ some qs → with_queries qs (λ x. x) k ≡ k
unfolding reg_queries with_queries
with_queries_self (source none) qs h = refl
with_queries_self (source (some s)) qs h =
    ap (λ v. source (some (record s { queries = v }))) (sym (some_eq h))
with_queries_self (event none) qs h = refl
with_queries_self (event (some s)) qs h =
    ap (λ v. event (some (record s { queries = v }))) (sym (some_eq h))
with_queries_self (object none) qs h = refl
with_queries_self (object (some s)) qs h =
    ap (λ v. object (some (record s { queries = v }))) (sym (some_eq h))
with_queries_self _ qs h = refl

module _ (layer_code : ℕ) (sends : ℕ → Bool) where
  pub add_query-register :
      (l : Layer) (p : ℕ) (s : GenStream) (dm : Node) (qs : List (Option ℕ)) (i : ℕ)
      → stream_of (l.heap p).root ≡ some s
      → get_description (some l.root) s.name ≡ some dm
      → reg_queries (header dm).kind ≡ some qs
      → free_slot qs ≡ some i
      → add_query layer_code sends l p ≡ done (register layer_code sends l p s.name dm qs i)
  unfolding add_query add_stream add_at add_slot
  add_query-register l p s dm qs i e f g h =
      rw (add_query, e, add_stream, f, add_at, g, add_slot, h) refl

  del_query-unregister :
      (l : Layer) (p : ℕ) (s : GenStream) (dm : Node) (qs : List (Option ℕ))
      → (l.heap p).query_id ≢ 0
      → (l.heap p).idx < max_queries_per_dm
      → stream_of (l.heap p).root ≡ some s
      → get_description (some l.root) s.name ≡ some dm
      → reg_queries (header dm).kind ≡ some qs
      → del_query layer_code sends l p ≡ done (unregister layer_code sends l p s.name dm qs)
  unfolding del_query del_stream del_at del_slot
  del_query-unregister l p s dm qs id idx e f g =
      let valid : (((l.heap p).query_id == 0) || leb max_queries_per_dm (l.heap p).idx) ≡ false =
        ground arith in
      rw (del_query, valid, e, del_stream, f, del_at, g, del_slot) refl

  pub write_at-kind :
      (f : Kind → Kind) (dm : Node) → (header (write_at f dm [])).kind ≡ f (header dm).kind
  unfolding write_at
  write_at-kind f (node h cs) = refl

  write_at-is_local :
      (f : Kind → Kind) (dm : Node)
      → is_local layer_code sends (write_at f dm []) ≡ is_local layer_code sends dm
  unfolding write_at
  write_at-is_local f (node h cs) = refl

  -- The number that the query gets.
  abbrev pub new_id : Layer → ℕ → ℕ
  new_id l p =
      if (l.heap p).layer_code == layer_code then l.global_query_id else (l.heap p).query_id

  -- The model that is left once the query was added and deleted.
  abbrev pub left_over : Layer → ℕ → Name → Node → List (Option ℕ) → Node
  left_over l p name dm qs =
      if is_local layer_code sends dm && wants_status (l.heap p).root
      then write_at (with_queries qs decr) l.root (tokens name)
      else l.root

  assign_same : (p : ℕ) → (p == p) ≡ true
  assign_same p = ground arith

  counts :
      (local status : Bool) (x : ℤ)
      → (if local
          then decr (if local && not status then incr x else x)
          else (if local && not status then incr x else x))
        ≡ (if local && status then decr x else x)
  counts true true x = refl
  counts true false x = decr-incr x
  counts false status x = refl

  restored :
      (l : Layer) (p : ℕ) (name : Name) (dm : Node) (qs : List (Option ℕ))
      → descend l.root (tokens name) ≡ some dm
      → reg_queries (header dm).kind ≡ some qs
      → write_at
          (with_queries qs (λ x.
            if is_local layer_code sends dm && wants_status (l.heap p).root then decr x else x))
          l.root
          (tokens name)
        ≡ left_over l p name dm qs
  restored l p name dm qs e h =
      elim (Bool-cases (is_local layer_code sends dm && wants_status (l.heap p).root)) [
        | inl b ↦ rw (b) refl
        | inr b ↦ rw (b) (
            write_at_self (with_queries qs (λ x. x)) l.root dm (tokens name) e
              (with_queries_self _ qs h))
      ]

  -- What adding a query and deleting it gives.
  pub record IsUndone (l : Layer) (p : ℕ) (root : Node) : Type 0 where
    pub between : Layer
    pub after : Layer
    pub added : add_query layer_code sends l p ≡ done between
    pub deleted : del_query layer_code sends between p ≡ done after
    pub left : after.root ≡ root

  pub register-heap :
      (l : Layer) (p : ℕ) (name : Name) (dm : Node) (qs : List (Option ℕ)) (i : ℕ)
      → (register layer_code sends l p name dm qs i).heap p ≡ numbered layer_code sends l p dm i
  unfolding register
  register-heap l p name dm qs i =
      ap (λ b. if b then numbered layer_code sends l p dm i else l.heap p) (assign_same p)

  -- The model after both writes.
  unregister-root :
      (l : Layer) (p : ℕ) (name : Name) (dm : Node) (qs : List (Option ℕ)) (i : ℕ)
      → descend l.root (tokens name) ≡ some dm
      → reg_queries (header dm).kind ≡ some qs
      → free_slot qs ≡ some i
      → (dm' : Node) → is_local layer_code sends dm' ≡ is_local layer_code sends dm
      → (unregister layer_code sends
          (register layer_code sends l p name dm qs i)
          p
          name
          dm'
          (set qs i (some p))).root
        ≡ left_over l p name dm qs
  unfolding register unregister numbered
  unregister-root l p name dm qs i f g h dm' local =
      let status = wants_status (l.heap p).root in
      let up : ℤ → ℤ = λ x. if is_local layer_code sends dm && not status then incr x else x in
      let down : Bool → ℤ → ℤ = λ b x. if b then decr x else x in
      let qs' = set qs i (some p) in
      let once = write_at (with_queries qs' up) l.root (tokens name) in
      let idx = ap (λ (q : Query). q.idx) (register-heap l p name dm qs i) in
      let slots : set qs' ((register layer_code sends l p name dm qs i).heap p).idx none ≡ qs =
        ap (λ j. set qs' j none) idx ∙ set-free_slot qs i (some p) h in
      ap₂ (λ b v. write_at (with_queries v (down b)) once (tokens name)) local slots
      ∙ write_at-twice (with_queries qs' up) (with_queries qs (down (is_local layer_code sends dm)))
          (with_queries qs (λ x. if is_local layer_code sends dm && status then decr x else x))
          l.root dm (tokens name) f
          (with_queries-twice (header dm).kind qs qs' up _ _ g
            (counts (is_local layer_code sends dm) status))
      ∙ restored l p name dm qs f g

  -- A query whose stream names a node with its eight slots, one of them free, is added; with a
  -- number other than 0 it can be deleted again, and then the model is what it was, but for a
  -- status query at a node of this layer, which leaves the node's counter one lower.
  pub del_query-add_query :
      (l : Layer) (p : ℕ) (s : GenStream) (dm : Node) (qs : List (Option ℕ)) (i : ℕ)
      → stream_of (l.heap p).root ≡ some s
      → get_description (some l.root) s.name ≡ some dm
      → reg_queries (header dm).kind ≡ some qs
      → length qs ≡ max_queries_per_dm
      → free_slot qs ≡ some i
      → new_id l p ≢ 0
      → IsUndone l p (left_over l p s.name dm qs)
  unfolding register get_description numbered
  del_query-add_query l p s dm qs i e f g n h id =
      let up : ℤ → ℤ = λ x.
        if is_local layer_code sends dm && not (wants_status (l.heap p).root) then incr x else x in
      let write = with_queries (set qs i (some p)) up in
      let l' = register layer_code sends l p s.name dm qs i in
      let dm' = write_at write dm [] in
      let same = sym (register-heap l p s.name dm qs i) in
      record {
        between = l';
        after = unregister layer_code sends l' p s.name dm' (set qs i (some p));
        added = add_query-register l p s dm qs i e f g h;
        deleted =
            del_query-unregister l' p s dm' (set qs i (some p))
              (subst (λ (q : Query). q.query_id ≢ 0) same id)
              (subst (λ (q : Query). q.idx < max_queries_per_dm) same
                (omega (arith, free_slot-length qs i h)))
              (subst (λ (q : Query). stream_of q.root ≡ some s) same e)
              (descend-write_at write l.root dm (tokens s.name) f)
              (ap reg_queries (write_at-kind write dm)
                ∙ reg_queries-with_queries (header dm).kind qs _ _ g);
        left = unregister-root l p s.name dm qs i f g h dm' (write_at-is_local write dm);
      }
