-- ===== src/Query/Registry/Locking.antt =====
-- The lock during `addQueries` and `delQueries`.
use claosi.Prelude.{
  ℕ, ◌≡◌, refl, sym, ap, ◌∙◌, Bool, true, false, ◌&&◌, ◌||◌, leb, get_or, List, [], ◌∷◌, ◌++◌,
  append-nil, append_assoc, Option, none, some, inl, inr, Option-cases, Bool-cases, ◌==◌,
  if◌then◌else◌,
}
use claosi.Prelude.Names.{Name}
use claosi.Model.{
  Node, header, Kind, model, namespace, source, event, object, ref, complex, plain,
  max_queries_per_dm,
}
use claosi.Query.{GenStream}
use claosi.Query.Registry.{
  Effect, lock_released, lock_acquired, sent_add, sent_del, activated, deactivated, timer_started,
  timer_stopped, status_thread_started, pending_dropped, Layer, Outcome, done, failed, fault,
  kernel_code, free_slot, wants_status, when, started, stopped, status_started,
  should_transfer_query, register, add_slot, add_at, add_stream, add_query, add_queries, unregister,
  del_slot, del_at, del_stream, del_query, del_queries, sent_id,
}

-- Whether the lock is held after an effect, if it was so before; `none` is a release of a lock that is
-- not held, an acquisition of one that is, a call of `activate` under the lock, or a timer, a message
-- or the queue without it.
unfoldable pub lock_step : Bool → Effect → Option Bool
lock_step true lock_released = some false
lock_step false lock_released = none
lock_step true lock_acquired = none
lock_step false lock_acquired = some true
lock_step true (activated p) = none
lock_step false (activated p) = some false
lock_step h (deactivated p) = some h
lock_step h (status_thread_started p) = some h
lock_step true (sent_add p) = some true
lock_step true (sent_del name id) = some true
lock_step true (timer_started p) = some true
lock_step true (timer_stopped p) = some true
lock_step true (pending_dropped p) = some true
lock_step false e = none

unfoldable pub lock_run : Bool → List Effect → Option Bool
lock_run h [] = some h
lock_run h (e ∷ es) = elim (lock_step h e) [ none ↦ none | some h' ↦ lock_run h' es ]

lock_run-append :
    (h h' : Bool) (es fs : List Effect)
    → lock_run h es ≡ some h'
    → lock_run h (es ++ fs) ≡ lock_run h' fs
unfolding lock_run
lock_run-append h h' [] fs r = ap (λ b. elim b [ none ↦ none | some x ↦ lock_run x fs ]) r
lock_run-append h h' (e ∷ es) fs r = elim (Option-cases (lock_step h e)) [
  | inl q ↦ cc (rw (lock_run, q) at r)
  | inr (x, q) ↦ rw (lock_run, q) (lock_run-append x h' es fs (rw (lock_run, q) at r))
]

-- The effects go on with some that begin and end with the lock held.
pub record IsKept (before after : List Effect) : Type 0 where
  pub caused : List Effect
  pub behind : after ≡ before ++ caused
  pub locked : lock_run true caused ≡ some true

pub same-IsKept : (es : List Effect) → IsKept es es
unfolding lock_run
same-IsKept es = record { caused = []; behind = sym (append-nil es); locked = refl }

pub then-IsKept : {a b c : List Effect} → IsKept a b → IsKept b c → IsKept a c
then-IsKept {a} x y = record {
  caused = x.caused ++ y.caused;
  behind = y.behind ∙ ap (λ l. l ++ y.caused) x.behind ∙ append_assoc a x.caused y.caused;
  locked = lock_run-append true true x.caused y.caused x.locked ∙ y.locked;
}

pub more-IsKept : (es fs : List Effect) → lock_run true fs ≡ some true → IsKept es (es ++ fs)
more-IsKept es fs r = record { caused = fs; behind = refl; locked = r }

started-locked : (k : Kind) (p : ℕ) → lock_run true (started k p) ≡ some true
unfolding lock_run lock_step started
started-locked (model i) p = refl
started-locked (namespace i) p = refl
started-locked (source i) p = refl
started-locked (event i) p = refl
started-locked (object i) p = refl
started-locked (ref i) p = refl
started-locked (complex i) p = refl
started-locked (plain t i) p = refl

stopped-locked : (k : Kind) (p : ℕ) → lock_run true (stopped k p) ≡ some true
unfolding lock_run lock_step stopped
stopped-locked (model i) p = refl
stopped-locked (namespace i) p = refl
stopped-locked (source i) p = refl
stopped-locked (event i) p = refl
stopped-locked (object i) p = refl
stopped-locked (ref i) p = refl
stopped-locked (complex i) p = refl
stopped-locked (plain t i) p = refl

status_started-locked : (code p : ℕ) → lock_run true (status_started code p) ≡ some true
unfolding lock_run lock_step status_started
status_started-locked code p = elim (Bool-cases (code == kernel_code)) [
  | inl e ↦ rw e refl
  | inr e ↦ rw e refl
]

-- What an outcome leaves behind.
abbrev pub Leaves : List Effect → Outcome → Type 0
Leaves es (done l) = IsKept es l.effects
Leaves es (failed e l) = IsKept es l.effects
Leaves es fault = Unit {0}

when-locked :
    (b : Bool) (e : Effect) → lock_step true e ≡ some true → lock_run true (when b e) ≡ some true
unfolding lock_run
when-locked true e h = rw (lock_run, h) refl
when-locked false e h = refl

module _ (layer_code : ℕ) (sends : ℕ → Bool) where
  abbrev begins : Kind → ℕ → Bool → Bool → List Effect
  begins k p here status =
      if here then if status then status_started layer_code p else started k p else []

  begins-locked :
      (k : Kind) (p : ℕ) (here status : Bool) → lock_run true (begins k p here status) ≡ some true
  unfolding lock_run
  begins-locked k p true true = status_started-locked layer_code p
  begins-locked k p true false = started-locked k p
  begins-locked k p false status = refl

  ends-locked :
      (k : Kind) (p : ℕ) (here : Bool)
      → lock_run true (if here then stopped k p else []) ≡ some true
  unfolding lock_run
  ends-locked k p true = stopped-locked k p
  ends-locked k p false = refl

  sent-locked : (p : ℕ) → lock_step true (sent_add p) ≡ some true
  unfolding lock_step
  sent-locked p = refl

  register-IsKept :
      (l : Layer) (p : ℕ) (name : Name) (dm : Node) (qs : List (Option ℕ)) (i : ℕ)
      → IsKept l.effects (register layer_code sends l p name dm qs i).effects
  unfolding register
  register-IsKept l p name dm qs i =
      let sent = should_transfer_query layer_code sends dm (l.heap p) && sends p in
      let here = (header dm).layer_code == layer_code in
      let status = wants_status (l.heap p).root in
      then-IsKept
        (more-IsKept l.effects (when sent (sent_add p))
          (when-locked sent (sent_add p) (sent-locked p)))
        (more-IsKept (l.effects ++ when sent (sent_add p)) (begins (header dm).kind p here status)
          (begins-locked (header dm).kind p here status))

  dropped-locked :
      (q : Option ℕ) (b : Bool) (name : Name) (id : ℕ)
      → lock_run true (pending_dropped q ∷ when b (sent_del name id)) ≡ some true
  unfolding lock_run lock_step
  dropped-locked q true name id = refl
  dropped-locked q false name id = refl

  unregister-IsKept :
      (l : Layer) (p : ℕ) (name : Name) (dm : Node) (qs : List (Option ℕ))
      → IsKept l.effects (unregister layer_code sends l p name dm qs).effects
  unfolding unregister
  unregister-IsKept l p name dm qs =
      let q = l.heap p in
      let told = (q.layer_code == layer_code) && q.transfered && sends p in
      let here = (header dm).layer_code == layer_code in
      let stops : List Effect = if here then stopped (header dm).kind p else [] in
      then-IsKept (more-IsKept l.effects stops (ends-locked (header dm).kind p here)) (
        more-IsKept (l.effects ++ stops)
          (pending_dropped (get_or qs q.idx none) ∷ when told (sent_del name (sent_id q.query_id)))
          (dropped-locked (get_or qs q.idx none) told name (sent_id q.query_id)))

  add_slot-Leaves :
      (l : Layer) (p : ℕ) (name : Name) (dm : Node) (qs : Option (List (Option ℕ)))
      → Leaves l.effects (add_slot layer_code sends l p name dm qs)
  unfolding add_slot
  add_slot-Leaves l p name dm none = tt
  add_slot-Leaves l p name dm (some qs) = elim (Option-cases (free_slot qs)) [
    | inl e ↦ rw (add_slot, e) (same-IsKept l.effects)
    | inr (i, e) ↦ rw (add_slot, e) (register-IsKept l p name dm qs i)
  ]

  add_at-Leaves :
      (l : Layer) (p : ℕ) (name : Name) (dm : Option Node)
      → Leaves l.effects (add_at layer_code sends l p name dm)
  unfolding add_at
  add_at-Leaves l p name none = tt
  add_at-Leaves l p name (some dm) = add_slot-Leaves l p name dm _

  add_stream-Leaves :
      (l : Layer) (p : ℕ) (s : Option GenStream)
      → Leaves l.effects (add_stream layer_code sends l p s)
  unfolding add_stream
  add_stream-Leaves l p none = tt
  add_stream-Leaves l p (some s) = add_at-Leaves l p s.name _

  add_query-Leaves : (l : Layer) (p : ℕ) → Leaves l.effects (add_query layer_code sends l p)
  unfolding add_query
  add_query-Leaves l p = add_stream-Leaves l p _

  del_slot-Leaves :
      (l : Layer) (p : ℕ) (name : Name) (dm : Node) (qs : Option (List (Option ℕ)))
      → Leaves l.effects (del_slot layer_code sends l p name dm qs)
  unfolding del_slot
  del_slot-Leaves l p name dm none = tt
  del_slot-Leaves l p name dm (some qs) = unregister-IsKept l p name dm qs

  del_at-Leaves :
      (l : Layer) (p : ℕ) (name : Name) (dm : Option Node)
      → Leaves l.effects (del_at layer_code sends l p name dm)
  unfolding del_at
  del_at-Leaves l p name none = tt
  del_at-Leaves l p name (some dm) = del_slot-Leaves l p name dm _

  del_stream-Leaves :
      (l : Layer) (p : ℕ) (s : Option GenStream)
      → Leaves l.effects (del_stream layer_code sends l p s)
  unfolding del_stream
  del_stream-Leaves l p none = tt
  del_stream-Leaves l p (some s) = del_at-Leaves l p s.name _

  del_query-Leaves : (l : Layer) (p : ℕ) → Leaves l.effects (del_query layer_code sends l p)
  unfolding del_query
  del_query-Leaves l p =
      elim (Bool-cases (((l.heap p).query_id == 0) || leb max_queries_per_dm (l.heap p).idx)) [
        | inl e ↦ rw (del_query, e) (same-IsKept l.effects)
        | inr e ↦ rw (del_query, e) (del_stream-Leaves l p _)
      ]

  abbrev next : (Layer → Outcome) → Outcome → Outcome
  next k (done l') = k l'
  next k (failed e l') = failed e l'
  next k fault = fault

  next-Leaves :
      (es : List Effect) (k : Layer → Outcome) (o : Outcome)
      → Leaves es o
      → ((l : Layer) → Leaves l.effects (k l))
      → Leaves es (next k o)
  next-Leaves es k (done l) x rest = after (k l) (rest l)
    where
      after : (o : Outcome) → Leaves l.effects o → Leaves es o
      after (done l') y = then-IsKept x y
      after (failed e l') y = then-IsKept x y
      after fault y = tt
  next-Leaves es k (failed e l) x rest = x
  next-Leaves es k fault x rest = tt

  -- With the lock held at the beginning, it is so at the end, with an error too.
  pub add_queries-Leaves :
      (l : Layer) (ps : List ℕ) → Leaves l.effects (add_queries layer_code sends l ps)
  unfolding add_queries
  add_queries-Leaves l [] = same-IsKept l.effects
  add_queries-Leaves l (p ∷ ps) =
      next-Leaves l.effects (λ l'. add_queries layer_code sends l' ps)
        (add_query layer_code sends l p) (add_query-Leaves l p) (λ l'. add_queries-Leaves l' ps)

  pub del_queries-Leaves :
      (l : Layer) (ps : List ℕ) → Leaves l.effects (del_queries layer_code sends l ps)
  unfolding del_queries
  del_queries-Leaves l [] = same-IsKept l.effects
  del_queries-Leaves l (p ∷ ps) =
      next-Leaves l.effects (λ l'. del_queries layer_code sends l' ps)
        (del_query layer_code sends l p) (del_query-Leaves l p) (λ l'. del_queries-Leaves l' ps)
