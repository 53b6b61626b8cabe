-- ===== src/Layer/Dispatch/Flush.antt =====
-- The buffer after the messages that are left were discarded.
use claosi.Prelude.{
  ℕ, zero, suc, ◌+◌, ◌-◌, ◌<◌, ◌≡◌, ap, ◌∙◌, true, false, Bool-cases, some, inl, inr, leb, arith,
  if◌then◌else◌,
}
use claosi.Ring.{Ringbuffer, is_empty, is_full, ring_buffer_read_begin, ring_buffer_read_end}
use claosi.Ring.Inv.{IsValid, next_index-mod, ring_buffer_read_end-IsValid}
use claosi.Layer.Dispatch.{flush}

-- The messages in the buffer: the slots from the read index to the write index.
unfoldable pub pending : Ringbuffer → ℕ
pending r = if leb r.read r.write then r.write - r.read else (r.size - r.read) + r.write

pending-read_end :
    (r : Ringbuffer)
    → IsValid r
    → is_empty r ≡ false
    → suc (pending (ring_buffer_read_end r)) ≡ pending r
unfolding pending ring_buffer_read_end
pending-read_end r v h = ground (arith, v.bounded, v.read_in, v.write_in)

-- After the call for a message that is not there, the buffer is full.
full_after :
    (r : Ringbuffer) → IsValid r → is_empty r ≡ true → is_full (ring_buffer_read_end r) ≡ true
unfolding ring_buffer_read_end
full_after r v h =
    let same : r.read ≡ r.write = ground arith in
    let index = next_index-mod r.size r.write v.write_in in ground (arith, same, index)

none_left : (r : Ringbuffer) → IsValid r → is_empty r ≡ true → (n : ℕ) → n ≡ n + pending r
unfolding pending
none_left r v h n = ground (arith, v.read_in)

flush-pending :
    (fuel n : ℕ) (r : Ringbuffer)
    → IsValid r
    → pending r < fuel
    → (r' : Ringbuffer) × (flush fuel n r ≡ some (n + pending r, r')) × (is_full r' ≡ true)
unfolding flush ring_buffer_read_begin pending
flush-pending zero n r v f = absurd (omega arith)
flush-pending (suc fuel) n r v f = elim (Bool-cases (is_empty r)) [
  | inl e ↦ (
    ring_buffer_read_end r,
    rw (flush, ring_buffer_read_begin, e)
        (ap (λ k. some (k, ring_buffer_read_end r)) (none_left r v e n)),
    full_after r v e,
  )
  | inr e ↦
      let one = pending-read_end r v e in
      let (r', runs, full) =
        flush-pending fuel (suc n) (ring_buffer_read_end r) (ring_buffer_read_end-IsValid r v e)
          (omega (arith, one)) in
      (
        r',
        rw (flush, ring_buffer_read_begin, e) (runs ∙ ap (λ k. some (k, r')) (omega (arith, one))),
        full,
      )
]

-- From a valid buffer the flush ends, after one round more than there are messages, and counts the
-- messages; but it drops one more slot than there are messages, and leaves the buffer full.
pub flush_leaves_full :
    (r : Ringbuffer)
    → IsValid r
    → (r' : Ringbuffer) × (flush (suc (pending r)) 0 r ≡ some (pending r, r')) × (is_full r' ≡ true)
flush_leaves_full r v =
    let (r', runs, full) = flush-pending (suc (pending r)) 0 r v (omega arith) in
    (r', runs ∙ ap (λ k. some (k, r')) (omega arith), full)
