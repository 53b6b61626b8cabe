-- ===== src/Ring/Memory.antt =====
-- Who owns the payload of a message: the buffer, from the write until the sweep that follows its
-- reading, and then `slcfree`.
use claosi.Prelude.{
  ℕ, ◌+◌, ◌≡◌, refl, ap, ◌∙◌, inl, inr, ◌≢◌, true, false, Option, List, [], ◌∷◌, arith, get_or-set,
  get_or-replicate, Bool-cases,
}
use claosi.Ring.{
  LayerMessage, MessageType, Ringbuffer, Sender, written, full, is_empty_type, is_empty, is_full,
  next_index, element, blank, put, ring_buffer_write, ring_buffer_read_end, ring_buffer_read_begin,
  step, run, Call, send, receive, msg_empty, init_sender, ring_buffer_size, Reply, accepted, hung,
  init_buffer,
}
use claosi.Ring.Inv.{IsValid, put-IsValid, ring_buffer_read_end-IsValid, init_buffer-IsValid}
use claosi.Ring.Sweep.{holds, held, count, tally, held-set}
use claosi.Ring.Reclaim.{IsClean, IsReady, Swept-IsValid, target-free, reclaim-IsReady}

-- What one accepted write does.
pub record IsWritten (t : MessageType) (a : Option ℕ) (s s' : Sender) : Type 0 where
  pub clean : IsClean s'
  pub quiet : s'.errors ≡ s.errors
  pub tallied : (x : ℕ) → tally x s' ≡ tally x s + holds x (record { type = t; addr = a })

put-IsWritten :
    (t : MessageType) (a : Option ℕ) (s s' : Sender)
    → is_empty_type t ≡ false
    → IsClean s
    → is_full s.ring ≡ false
    → IsReady s s'
    → IsWritten t a s (put t a s')
unfolding put tally
put-IsWritten t a s s' ht c h d =
    let m : LayerMessage = record { type = t; addr = a } in
    let v : IsValid s'.ring = Swept-IsValid _ s' d.frame c.valid in
    let h' : is_full s'.ring ≡ false =
      rw (d.frame.same_size, d.frame.same_read, d.frame.same_write) h in
    let free = target-free s'.ring v h' in
    record {
      clean = record {
        valid = put-IsValid t a s' ht v h';
        fresh = λ z. absurd (omega arith);
        once = λ z. ground (
          arith,
          d.beyond (omega arith),
          free,
          get_or-set s'.ring.elements s'.ring.write (next_index s'.ring.size s'.ring.write) m blank,
          v.room,
        );
      };
      quiet = d.quiet;
      tallied = λ x. ground (
        arith,
        d.frame.tallied x,
        d.target,
        held-set x s'.ring.elements s'.ring.write m (rw v.room v.write_in),
      );
    }

-- A write into a ring that is not full is carried out: the sweep ends, complains of nothing, and
-- hands over to `slcfree` exactly what leaves the buffer.
pub ring_buffer_write-IsWritten :
    (t : MessageType) (a : Option ℕ) (s : Sender)
    → is_empty_type t ≡ false
    → IsClean s
    → is_full s.ring ≡ false
    → (s' : Sender) × (ring_buffer_write t a s ≡ written s') × IsWritten t a s s'
unfolding ring_buffer_write
ring_buffer_write-IsWritten t a s ht c h =
    let (s', e, d) = reclaim-IsReady s c h in
    (put t a s', rw (h, e, ring_buffer_write), put-IsWritten t a s s' ht c h d)

pub ring_buffer_write-full :
    (t : MessageType) (a : Option ℕ) (s : Sender)
    → is_full s.ring ≡ true
    → ring_buffer_write t a s ≡ full s
unfolding ring_buffer_write
ring_buffer_write-full t a s h = rw (h, ring_buffer_write)

-- Taking a message leaves every address where it is.
read_end-addr :
    (r : Ringbuffer) (j : ℕ)
    → IsValid r
    → (element (ring_buffer_read_end r) j).addr ≡ (element r j).addr
unfolding ring_buffer_read_end
read_end-addr r j v = ground (
  arith,
  get_or-set r.elements r.read j (record (element r r.read) { type = msg_empty }) blank,
  v.room,
  v.read_in,
)

read_end-held :
    (r : Ringbuffer) (x : ℕ)
    → IsValid r
    → held x (ring_buffer_read_end r).elements ≡ held x r.elements
unfolding ring_buffer_read_end
read_end-held r x v = omega (
  arith,
  held-set x r.elements r.read (record (element r r.read) { type = msg_empty })
      (rw v.room v.read_in),
)

read_end-IsClean :
    (s : Sender)
    → IsClean s
    → is_empty s.ring ≡ false
    → IsClean (record s { ring = ring_buffer_read_end s.ring })
unfolding ring_buffer_read_end
read_end-IsClean s c h = record {
  valid = ring_buffer_read_end-IsValid s.ring c.valid h;
  fresh = λ z j. read_end-addr s.ring j c.valid ∙ c.fresh z j;
  once = λ z. read_end-addr s.ring s.ring.write c.valid ∙ c.once z;
}

-- A message that is sent is not marked empty.
abbrev pub IsMessage : Call → Type 0
IsMessage (send t a) = is_empty_type t ≡ false
IsMessage receive = Unit

abbrev pub AllMessages : List Call → Type 0
AllMessages [] = Unit
AllMessages (c ∷ cs) = IsMessage c × AllMessages cs

-- How often a call gives the address `x` to the buffer.
abbrev given : ℕ → Call → Reply → ℕ
given x (send t a) accepted = holds x (record { type = t; addr = a })
given x c r = 0

-- What every call keeps: it never hangs, never complains, and accounts for every address.
pub record Kept (c : Call) (s : Sender) (out : Sender × Reply) : Type 0 where
  pub clean : IsClean out.0
  pub quiet : out.0.errors ≡ s.errors
  pub ends : out.1 ≢ hung
  pub tallied : (x : ℕ) → tally x out.0 ≡ tally x s + given x c out.1

pub step-Kept : (c : Call) (s : Sender) → IsMessage c → IsClean s → Kept c s (step s c)
unfolding step ring_buffer_read_begin tally
step-Kept (send t a) s m c = elim (Bool-cases (is_full s.ring)) [
  | inl h ↦
      rw (ring_buffer_write-full t a s h, step)
        (record { clean = c; quiet = refl; ends = λ e. cc; tallied = λ x. omega arith })
  | inr h ↦
      let (s', e, d) = ring_buffer_write-IsWritten t a s m c h in
      rw (e, step)
        (record { clean = d.clean; quiet = d.quiet; ends = λ e. cc; tallied = d.tallied })
]
step-Kept receive s m c = elim (Bool-cases (is_empty s.ring)) [
  | inl h ↦
      rw (h, step) (record { clean = c; quiet = refl; ends = λ e. cc; tallied = λ x. omega arith })
  | inr h ↦
      rw (h, step)
        (record {
          clean = read_end-IsClean s c h;
          quiet = refl;
          ends = λ e. cc;
          tallied = λ x. omega (arith, read_end-held s.ring x c.valid);
        })
]

-- How often a history of calls gives the address `x` to the buffer.
pub given_in : ℕ → Sender → List Call → ℕ
given_in x s [] = 0
given_in x s (c ∷ cs) = given x c (step s c).1 + given_in x (step s c).0 cs

run-tally :
    (x : ℕ) (s : Sender) (cs : List Call)
    → AllMessages cs
    → IsClean s
    → (tally x (run s cs) ≡ tally x s + given_in x s cs)
      × ((run s cs).errors ≡ s.errors)
      × IsClean (run s cs)
unfolding run given_in
run-tally x s [] m c = (omega arith, refl, c)
run-tally x s (k ∷ cs) m c =
    let q = step-Kept k s m.0 c in
    let (t, e, v) = run-tally x (step s k).0 cs m.1 q.clean in
    (omega (arith, q.tallied x, t), e ∙ q.quiet, v)

pub init-IsClean : IsClean init_sender
unfolding init_sender init_buffer
init-IsClean = record {
  valid = init_buffer-IsValid;
  fresh = λ z j. ap (λ m. m.addr) (get_or-replicate ring_buffer_size j blank);
  once = λ z. refl;
}

init-tally : (x : ℕ) → tally x init_sender ≡ 0
unfolding init_sender init_buffer tally count held
init-tally x = refl

-- Along every history of writes and reads from the initial buffer, each payload address was handed
-- to `slcfree` plus is held in a slot exactly as often as a write with it was accepted, and no sweep
-- met an element that was not marked empty.
pub run_owns :
    (x : ℕ) (cs : List Call)
    → AllMessages cs
    → (count x (run init_sender cs).freed + held x (run init_sender cs).ring.elements
        ≡ given_in x init_sender cs)
      × ((run init_sender cs).errors ≡ [])
unfolding tally
run_owns x cs m =
    let (t, e, v) = run-tally x init_sender cs m init-IsClean in
    (omega (arith, t, init-tally x), e ∙ no_errors)
  where
    no_errors : init_sender.errors ≡ []
    no_errors = unfold init_sender in refl
