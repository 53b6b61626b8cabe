-- ===== src/Ring.antt =====
-- lib/communication.c and include/communication.h: the ring buffer by which a layer sends messages.
-- `write_ops` is the layer's static counter. The lock around `write` makes the function one step.
pub mod Inv
pub mod Sweep
pub mod Reclaim
pub mod Memory
pub mod Refine
mod Tests
use claosi.Prelude.{
  ℕ, zero, suc, ◌+◌, ◌%◌, Bool, true, false, List, [], ◌∷◌, ◌++◌, Option, none, some, leb, ◌==◌,
  if◌then◌else◌, get_or, set, replicate,
}

abbrev pub ring_buffer_size : ℕ
ring_buffer_size = 40

abbrev pub free_threshold : ℕ
free_threshold = 2

-- `enum LayerMessageType`
pub data MessageType : Type 0 where
  msg_empty msg_dm_add msg_dm_del msg_dm_snapshot : MessageType
  msg_query_add msg_query_del msg_query_continue : MessageType

-- `LayerMessage_t`. `none` is a NULL address.
pub record LayerMessage : Type 0 where
  pub type : MessageType
  pub addr : Option ℕ

abbrev pub blank : LayerMessage
blank = record { type = msg_empty; addr = none }

pub record Ringbuffer : Type 0 where
  pub size : ℕ
  pub read : ℕ
  pub write : ℕ
  pub elements : List LayerMessage

-- What the sending layer keeps: the buffer, its counter, the addresses handed to `slcfree` so far,
-- and the indices of which the sweep complained.
pub record Sender : Type 0 where
  pub ring : Ringbuffer
  pub write_ops : ℕ
  pub freed : List ℕ
  pub errors : List ℕ

abbrev pub is_empty_type : MessageType → Bool
is_empty_type msg_empty = true
is_empty_type _ = false

abbrev pub is_empty : Ringbuffer → Bool
is_empty r = r.read == r.write

abbrev pub is_full : Ringbuffer → Bool
is_full r = ((r.write + 1) % r.size) == r.read

-- i + 1 == size ? 0 : i + 1
abbrev pub next_index : ℕ → ℕ → ℕ
next_index size i = if (i + 1) == size then 0 else i + 1

-- The part of `ringBufferInit` that the kernel runs for each of the two buffers.
pub init_buffer : Ringbuffer
init_buffer = record {
  size = ring_buffer_size;
  read = 0;
  write = 0;
  elements = replicate ring_buffer_size blank;
}

pub init_sender : Sender
unfolding init_buffer
init_sender = record { ring = init_buffer; write_ops = 0; freed = []; errors = [] }

abbrev pub element : Ringbuffer → ℕ → LayerMessage
element r i = get_or r.elements i blank

unfoldable pub ring_buffer_read_begin : Ringbuffer → Option LayerMessage
ring_buffer_read_begin r = if is_empty r then none else some (element r r.read)

unfoldable pub ring_buffer_read_end : Ringbuffer → Ringbuffer
ring_buffer_read_end r = record r {
  read = next_index r.size r.read;
  elements = set r.elements r.read (record (element r r.read) { type = msg_empty });
}

-- One round of the sweep over unused elements.
pub sweep_element : ℕ → Sender → Sender
sweep_element i s = elim (is_empty_type (element s.ring i).type) [
  | true ↦ elim (element s.ring i).addr [
    | none ↦ s
    | some a ↦ record s {
      ring = record (s.ring) {
        elements = set s.ring.elements i (record (element s.ring i) { addr = none });
      };
      freed = s.freed ++ (a ∷ []);
    }
  ]
  | false ↦ record s { errors = s.errors ++ (i ∷ []) }
]

-- for (i = write; 1;) { …; if (i == read) break; }, on fuel; `none` is running out of it.
pub sweep : ℕ → ℕ → Sender → Option Sender
sweep zero i s = none
sweep (suc fuel) i s =
    let s' = sweep_element i s in
    let i' = next_index s.ring.size i in
    elim (i' == s.ring.read) [ true ↦ some s' | false ↦ sweep fuel i' s' ]

-- Reclaims the memory of read messages once enough messages were written.
pub reclaim : Sender → Option Sender
reclaim s =
    if leb free_threshold s.write_ops
    then sweep s.ring.size s.ring.write (record s { write_ops = 0 })
    else some s

pub put : MessageType → Option ℕ → Sender → Sender
put type addr s = record s {
  ring = record (s.ring) {
    elements = set s.ring.elements s.ring.write (record { type = type; addr = addr });
    write = next_index s.ring.size s.ring.write;
  };
  write_ops = s.write_ops + 1;
}

pub data Written : Type 0 where
  full : Sender → Written
  written : Sender → Written
  stuck : Written

-- `full` is the result -1, `written` is 0, and `stuck` would be a sweep that does not end.
pub ring_buffer_write : MessageType → Option ℕ → Sender → Written
ring_buffer_write type addr s =
    if is_full s.ring
    then full s
    else elim (reclaim s) [ none ↦ stuck | some s' ↦ written (put type addr s') ]

-- The layer that sends and the one that receives, as the calls arrive at the buffer. A receiver
-- looks at a message with `ringBufferReadBegin` and drops it with `ringBufferReadEnd`.
pub data Call : Type 0 where
  send : MessageType → Option ℕ → Call
  receive : Call

pub data Reply : Type 0 where
  accepted rejected hung nothing : Reply
  got : MessageType → Option ℕ → Reply

pub step : Sender → Call → Sender × Reply
step s (send type addr) = elim (ring_buffer_write type addr s) [
  | full s' ↦ (s', rejected)
  | written s' ↦ (s', accepted)
  | stuck ↦ (s, hung)
]
step s receive = elim (ring_buffer_read_begin s.ring) [
  | none ↦ (s, nothing)
  | some m ↦ (record s { ring = ring_buffer_read_end s.ring }, got m.type m.addr)
]

pub run : Sender → List Call → Sender
run s [] = s
run s (c ∷ cs) = run (step s c).0 cs

pub replies : Sender → List Call → List Reply
replies s [] = []
replies s (c ∷ cs) = (step s c).1 ∷ replies (step s c).0 cs
