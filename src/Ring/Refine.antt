-- ===== src/Ring/Refine.antt =====
-- The ring as a bounded queue of its size less one.
use claosi.Prelude.{
  ℕ, zero, suc, ◌+◌, ◌-◌, ◌≤◌, ◌<◌, ◌≡◌, refl, sym, ap, ap₂, ◌∙◌, ◌⊎◌, inl, inr, true, false,
  Option, List, [], ◌∷◌, ◌++◌, arith, ◌==◌, leb, if◌then◌else◌, length, get_or, set, get_or-set,
  Bool-cases,
}
use claosi.Ring.{
  LayerMessage, MessageType, Ringbuffer, Sender, written, is_empty, is_full, next_index, element,
  blank, put, ring_buffer_write, ring_buffer_read_end, ring_buffer_read_begin, step, replies, Call,
  send, receive, msg_empty, init_sender, Reply, accepted, rejected, nothing, got, init_buffer,
}
use claosi.Ring.Inv.{IsValid, is_full-next}
use claosi.Ring.Sweep.{Swept}
use claosi.Ring.Memory.{IsMessage, AllMessages, step-Kept, init-IsClean, ring_buffer_write-full}
use claosi.Ring.Reclaim.{IsClean, reclaim-IsReady, Swept-IsValid}

-- The abstract queue of `cap` messages, oldest first.
unfoldable pub queue_step : ℕ → List LayerMessage → Call → List LayerMessage × Reply
queue_step cap q (send t a) =
    if length q == cap then (q, rejected) else (q ++ (record { type = t; addr = a } ∷ []), accepted)
queue_step cap [] receive = ([], nothing)
queue_step cap (m ∷ q) receive = (q, got m.type m.addr)

unfoldable pub queue_replies : ℕ → List LayerMessage → List Call → List Reply
queue_replies cap q [] = []
queue_replies cap q (c ∷ cs) = (queue_step cap q c).1 ∷ queue_replies cap (queue_step cap q c).0 cs

-- The `n` messages from slot `i` on, going round at `size`.
window : ℕ → List LayerMessage → ℕ → ℕ → List LayerMessage
window size es i zero = []
window size es i (suc n) = get_or es i blank ∷ window size es (next_index size i) n

-- How many messages wait to be read.
abbrev waiting : Ringbuffer → ℕ
waiting r = if leb r.read r.write then r.write - r.read else r.write + r.size - r.read

pub contents : Ringbuffer → List LayerMessage
unfolding window
contents r = window r.size r.elements r.read (waiting r)

length-window : (size : ℕ) (es : List LayerMessage) (i n : ℕ) → length (window size es i n) ≡ n
unfolding window
length-window size es i zero = refl
length-window size es i (suc n) = ap suc (length-window size es (next_index size i) n)

-- A window is made of the slots that it covers.
window-ext :
    (size : ℕ) (es fs : List LayerMessage) (i n : ℕ)
    → i < size
    → n ≤ size
    → ((j : ℕ)
        → j < size
        → ((i ≤ j) × (j < i + n)) ⊎ (j + size < i + n)
        → get_or fs j blank ≡ get_or es j blank)
    → window size fs i n ≡ window size es i n
unfolding window
window-ext size es fs i zero hi hn h = refl
window-ext size es fs i (suc n) hi hn h = ap₂ ◌∷◌ (h i hi (omega arith)) (
    window-ext size es fs (next_index size i) n (ground arith) (omega arith)
      (λ j hj r. h j hj (ground arith)))

-- Writing just behind a window extends it.
window-snoc :
    (size : ℕ) (es : List LayerMessage) (m : LayerMessage) (i n w : ℕ)
    → i < size
    → n < size
    → w < length es
    → length es ≡ size
    → (i + n ≡ w) ⊎ (i + n ≡ w + size)
    → window size (set es w m) i (suc n) ≡ window size es i n ++ (m ∷ [])
unfolding window
window-snoc size es m i zero w hi hn hw hl e = ground (arith, get_or-set es w i m blank)
window-snoc size es m i (suc n) w hi hn hw hl e =
    ap₂ ◌∷◌ (ground (arith, get_or-set es w i m blank)) (
      window-snoc size es m (next_index size i) n w (ground arith) (omega arith) hw hl
        (ground arith))

-- The sweep does not touch a message that waits to be read.
contents-Swept : (s s' : Sender) → Swept s s' → IsValid s.ring → contents s'.ring ≡ contents s.ring
unfolding contents
contents-Swept s s' p v =
    rw (p.same_size, p.same_read, p.same_write)
      (window-ext s.ring.size s.ring.elements s'.ring.elements s.ring.read (waiting s.ring)
        v.read_in (ground arith) (λ j hj r. p.waiting j (ground (arith, v.marked j hj))))

-- `isFull` and `isEmpty` by the number of messages.
waiting-full : (r : Ringbuffer) → IsValid r → is_full r ≡ (waiting r == (r.size - 1))
waiting-full r v = is_full-next r v ∙ ground arith

contents-put :
    (t : MessageType) (a : Option ℕ) (s : Sender)
    → IsValid s.ring
    → is_full s.ring ≡ false
    → contents (put t a s).ring ≡ contents s.ring ++ (record { type = t; addr = a } ∷ [])
unfolding contents put
contents-put t a s v h =
    let m : LayerMessage = record { type = t; addr = a } in
    let free = is_full-next s.ring v in
    let grown : waiting (put t a s).ring ≡ suc (waiting s.ring) = ground arith in
    rw grown (
      window-snoc s.ring.size s.ring.elements m s.ring.read (waiting s.ring) s.ring.write v.read_in
        (ground arith) (rw v.room v.write_in) v.room (ground arith))

contents-read_end :
    (r : Ringbuffer)
    → IsValid r
    → is_empty r ≡ false
    → contents r ≡ element r r.read ∷ contents (ring_buffer_read_end r)
unfolding contents ring_buffer_read_end
contents-read_end r v h =
    let m : LayerMessage = record (element r r.read) { type = msg_empty } in
    let less : waiting r ≡ suc (waiting (ring_buffer_read_end r)) = ground arith in
    rw less (
      ap (λ q. element r r.read ∷ q)
        (sym (
          window-ext r.size r.elements (set r.elements r.read m) (next_index r.size r.read) _
            (ground arith) (ground arith)
            (λ j hj g. ground (arith, get_or-set r.elements r.read j m blank, v.room)))))

contents-empty : (r : Ringbuffer) → is_empty r ≡ true → contents r ≡ []
unfolding contents
contents-empty r h = let none_left : waiting r ≡ 0 = ground arith in rw none_left

record Refines (s : Sender) (c : Call) (out : Sender × Reply) : Type 0 where
  queue : (contents out.0.ring, out.1) ≡ queue_step (s.ring.size - 1) (contents s.ring) c
  same_size : out.0.ring.size ≡ s.ring.size

contents-length : (r : Ringbuffer) → length (contents r) ≡ waiting r
unfolding contents
contents-length r = length-window r.size r.elements r.read (waiting r)

step-Refines : (c : Call) (s : Sender) → IsMessage c → IsClean s → Refines s c (step s c)
unfolding step ring_buffer_read_begin queue_step
step-Refines (send t a) s m c = elim (Bool-cases (is_full s.ring)) [
  | inl h ↦
      let at_cap : (length (contents s.ring) == (s.ring.size - 1)) ≡ true =
        rw (contents-length s.ring) (sym (waiting-full s.ring c.valid) ∙ h) in
      rw (ring_buffer_write-full t a s h, step) (record { queue = rw at_cap; same_size = refl })
  | inr h ↦
      let below : (length (contents s.ring) == (s.ring.size - 1)) ≡ false =
        rw (contents-length s.ring) (sym (waiting-full s.ring c.valid) ∙ h) in
      let (s', e, d) = reclaim-IsReady s c h in
      let free : is_full s'.ring ≡ false =
        rw (d.frame.same_size, d.frame.same_read, d.frame.same_write) h in
      let v : IsValid s'.ring = Swept-IsValid _ s' d.frame c.valid in
      let ran : ring_buffer_write t a s ≡ written (put t a s') =
        unfold ring_buffer_write in rw (h, e, ring_buffer_write) in
      rw (ran, step)
        (record {
          queue = rw below (
              ap (λ q. (q, accepted))
                (contents-put t a s' v free
                  ∙ ap (λ q. q ++ (record { type = t; addr = a } ∷ []))
                      (contents-Swept _ s' d.frame c.valid)));
          same_size = unfold put in d.frame.same_size;
        })
]
step-Refines receive s m c = elim (Bool-cases (is_empty s.ring)) [
  | inl h ↦ rw (h, step) (record { queue = rw (contents-empty s.ring h); same_size = refl })
  | inr h ↦
      rw (h, step)
        (record {
          queue = rw (contents-read_end s.ring c.valid h);
          same_size = unfold ring_buffer_read_end in refl;
        })
]

run-Refines :
    (s : Sender) (cs : List Call)
    → AllMessages cs
    → IsClean s
    → replies s cs ≡ queue_replies (s.ring.size - 1) (contents s.ring) cs
unfolding replies queue_replies
run-Refines s [] m c = refl
run-Refines s (k ∷ cs) m c =
    let r = step-Refines k s m.0 c in
    let rest = run-Refines (step s k).0 cs m.1 (step-Kept k s m.0 c).clean in
    let q : (contents (step s k).0.ring) ≡ (queue_step (s.ring.size - 1) (contents s.ring) k).0 =
      ap (λ p. p.0) r.queue in
    ap₂ ◌∷◌ (ap (λ p. p.1) r.queue) (rest ∙ ap₂ (λ n q. queue_replies (n - 1) q cs) r.same_size q)

-- Whatever the two layers do, in whatever order, from the initial buffer: each call answers as a
-- first-in first-out queue of at most 39 messages would.
pub run_refines :
    (cs : List Call) → AllMessages cs → replies init_sender cs ≡ queue_replies 39 [] cs
unfolding init_sender init_buffer contents window
run_refines cs m = run-Refines init_sender cs m init-IsClean
