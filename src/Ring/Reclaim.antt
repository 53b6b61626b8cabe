-- ===== src/Ring/Reclaim.antt =====
-- The reclamation of the payloads of read messages before a write.
use claosi.Prelude.{
  ℕ, suc, ◌+◌, ◌≤◌, ◌<◌, ◌≡◌, refl, sym, ap, ◌-◌, ◌∙◌, ◌⊎◌, inl, inr, ◌≢◌, false, not, ℕ_discrete,
  none, some, arith, leb, ltb, if◌then◌else◌, Bool-cases,
}
use claosi.Ring.{Ringbuffer, Sender, is_full, next_index, element, reclaim, free_threshold}
use claosi.Ring.Inv.{IsValid, in_use, is_full-next}
use claosi.Ring.Sweep.{Swept, SweptFrom, Region, sweep-SweptFrom, Swept-errors}

-- The addresses that a write could still overwrite are NULL.
pub record IsClean (s : Sender) : Type 0 where
  pub valid : IsValid s.ring
  pub fresh : s.write_ops ≡ 0 → (j : ℕ) → (element s.ring j).addr ≡ none
  pub once : s.write_ops ≡ 1 → (element s.ring s.ring.write).addr ≡ none

-- What `reclaim` prepares for the write that follows.
pub record IsReady (s s' : Sender) : Type 0 where
  pub frame : Swept (record s { write_ops = s'.write_ops }) s'
  pub quiet : s'.errors ≡ s.errors
  pub few : s'.write_ops ≤ 1
  pub target : (element s'.ring s'.ring.write).addr ≡ none
  pub beyond :
      s'.write_ops ≡ 0 → (element s'.ring (next_index s'.ring.size s'.ring.write)).addr ≡ none

pub Swept-IsValid : (s s' : Sender) → Swept s s' → IsValid s.ring → IsValid s'.ring
Swept-IsValid s s' p v = record {
  bounded = rw p.same_size v.bounded;
  read_in = rw (p.same_size, p.same_read) v.read_in;
  write_in = rw (p.same_size, p.same_write) v.write_in;
  room = p.same_room ∙ v.room ∙ sym p.same_size;
  marked = λ i h. rw (p.types i, p.same_read, p.same_write) (v.marked i (rw p.same_size at h));
}

-- One less than the number of slots that a sweep visits.
gap : Ringbuffer → ℕ
gap r = if ltb r.write r.read then r.read - r.write - 1 else r.read + r.size - r.write - 1

gap_bounds :
    (r : Ringbuffer)
    → IsValid r
    → (gap r < r.size)
      × ((r.write + suc (gap r) ≡ r.read) ⊎ (r.write + suc (gap r) ≡ r.read + r.size))
unfolding gap
gap_bounds r v = ground arith

-- The slots that it visits are those not in use.
Region-in_use :
    (r : Ringbuffer) (j : ℕ)
    → IsValid r
    → j < r.size
    → (in_use r j ≡ false → Region r.size r.write (suc (gap r)) j)
      × (Region r.size r.write (suc (gap r)) j → in_use r j ≡ false)
unfolding gap
Region-in_use r j v hj = (λ h. ground arith, λ h. ground arith)

-- The slot of the next write, and the one behind it unless the ring is full, are not in use.
pub target-free :
    (r : Ringbuffer)
    → IsValid r
    → is_full r ≡ false
    → (in_use r r.write ≡ false)
      × (in_use r (next_index r.size r.write) ≡ false)
      × (next_index r.size r.write < r.size)
      × (next_index r.size r.write ≢ r.write)
target-free r v h =
    let e = is_full-next r v in (ground arith, ground arith, ground arith, ground arith)

-- A swept slot that was not in use holds no address.
cleared-free :
    (s s' : Sender) (j : ℕ)
    → IsValid s.ring
    → SweptFrom s.ring.write (suc (gap s.ring)) s s'
    → j < s.ring.size
    → in_use s.ring j ≡ false
    → (element s'.ring j).addr ≡ none
cleared-free s s' j v g hj h =
    g.cleared j hj ((Region-in_use s.ring j v hj).0 h) (v.marked j hj ∙ ap not h)

quiet-free :
    (s s' : Sender)
    → IsValid s.ring
    → SweptFrom s.ring.write (suc (gap s.ring)) s s'
    → s'.errors ≡ s.errors
quiet-free s s' v g =
    g.quiet (λ j hj b r. ground (arith, v.marked j hj, (Region-in_use s.ring j v hj).1 r))

ready-target :
    (s : Sender)
    → IsClean s
    → leb free_threshold s.write_ops ≡ false
    → (element s.ring s.ring.write).addr ≡ none
ready-target s c h = elim (ℕ_discrete s.write_ops 0) [
  | yes z ↦ c.fresh z s.ring.write
  | no ne ↦ c.once (ground arith)
]

pub reclaim-IsReady :
    (s : Sender)
    → IsClean s
    → is_full s.ring ≡ false
    → (s' : Sender) × (reclaim s ≡ some s') × IsReady s s'
unfolding reclaim
reclaim-IsReady s c h = elim (Bool-cases (leb free_threshold s.write_ops)) [
  | inl many ↦
      let s0 : Sender = record s { write_ops = 0 } in
      let v = c.valid in
      let k = gap_bounds s.ring v in
      let free = target-free s.ring v h in
      let (s', ran, g) =
        sweep-SweptFrom s.ring.size (gap s.ring) s.ring.write s0 k.0 v.write_in v.read_in v.room k.0
          k.1 in
      (
        s',
        rw (many, reclaim) ran,
        record {
          frame = rw g.frame.same_ops g.frame;
          quiet = quiet-free s0 s' v g;
          few = rw g.frame.same_ops (omega arith);
          target = rw g.frame.same_write (cleared-free s0 s' s.ring.write v g v.write_in free.0);
          beyond = λ z.
              rw (g.frame.same_write, g.frame.same_size)
                (cleared-free s0 s' (next_index s.ring.size s.ring.write) v g free.2 free.1);
        },
      )
  | inr less ↦ (
    s,
    rw (less, reclaim),
    record {
      frame = Swept-errors s s.errors;
      quiet = refl;
      few = ground arith;
      target = ready-target s c less;
      beyond = λ z. c.fresh z _;
    },
  )
]
