-- ===== src/Ring/Inv.antt =====
-- The representation invariant of `Ringbuffer_t`: indices in range, and exactly the slots between
-- the read and the write index carry a message that is not marked empty.
use claosi.Prelude.{
  ℕ, ◌+◌, ◌%◌, ◌<◌, ◌≡◌, refl, ◌∙◌, Bool, false, ◌&&◌, ◌||◌, not, Option, arith, ltb, leb, ◌==◌,
  if◌then◌else◌, length, length-set, get_or-replicate, get_or-set,
}
use claosi.Ring.{
  MessageType, Ringbuffer, is_empty_type, is_empty, is_full, next_index, element, blank,
  init_buffer, ring_buffer_read_end, ring_buffer_size, put, Sender, msg_empty,
}

-- Is slot `i` between the read and the write index, going round at the end?
abbrev pub in_use : Ringbuffer → ℕ → Bool
in_use r i =
    if leb r.read r.write then leb r.read i && ltb i r.write else leb r.read i || ltb i r.write

pub record IsValid (r : Ringbuffer) : Type 0 where
  pub bounded : 1 < r.size
  pub read_in : r.read < r.size
  pub write_in : r.write < r.size
  pub room : length r.elements ≡ r.size
  pub marked : (i : ℕ) → i < r.size → is_empty_type (element r i).type ≡ not (in_use r i)

pub init_buffer-IsValid : IsValid init_buffer
unfolding init_buffer
init_buffer-IsValid = record {
  bounded = omega arith;
  read_in = omega arith;
  write_in = omega arith;
  room = refl;
  marked = λ i h. ground (arith, get_or-replicate ring_buffer_size i blank);
}

-- The remainder of `isFull` and the index arithmetic without one agree below the size.
pub next_index-mod : (size i : ℕ) → i < size → (i + 1) % size ≡ next_index size i
next_index-mod size i h = grind arith

pub is_full-next : (r : Ringbuffer) → IsValid r → is_full r ≡ (next_index r.size r.write == r.read)
is_full-next r v = rw (next_index-mod r.size r.write v.write_in) refl

-- Taking the message at the read index keeps the invariant, if there is one.
pub ring_buffer_read_end-IsValid :
    (r : Ringbuffer) → IsValid r → is_empty r ≡ false → IsValid (ring_buffer_read_end r)
unfolding ring_buffer_read_end
ring_buffer_read_end-IsValid r v h = record {
  bounded = v.bounded;
  read_in = ground arith;
  write_in = v.write_in;
  room = length-set r.elements r.read _ ∙ v.room;
  marked = λ i hi. ground (
    arith,
    v.marked i hi,
    get_or-set r.elements r.read i (record (element r r.read) { type = msg_empty }) blank,
    v.room,
  );
}

-- Writing a message that is not marked empty into a ring that is not full keeps it.
pub put-IsValid :
    (t : MessageType) (a : Option ℕ) (s : Sender)
    → is_empty_type t ≡ false
    → IsValid s.ring
    → is_full s.ring ≡ false
    → IsValid (put t a s).ring
unfolding put
put-IsValid t a s ht v h =
    let free = is_full-next s.ring v in
    record {
      bounded = v.bounded;
      read_in = v.read_in;
      write_in = ground arith;
      room = length-set s.ring.elements s.ring.write _ ∙ v.room;
      marked = λ i hi. ground (
        arith,
        v.marked i hi,
        free,
        get_or-set s.ring.elements s.ring.write i (record { type = t; addr = a }) blank,
        v.room,
      );
    }
