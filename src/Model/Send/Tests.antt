-- ===== src/Model/Send/Tests.antt =====
-- Sending the model of `Model.Tests` through a full ring buffer.
use claosi.Prelude.{◌+◌, ◌*◌, ◌≡◌, refl, [], ◌∷◌, none, some, true, length}
use claosi.Model.Tests.{good, z, good-Every}
use claosi.Model.Syntax.{resolves}
use claosi.Ring.{Sender, msg_query_add, msg_dm_add, blank}
use claosi.Model.Send.{Link, busy_wait, waiting}
use claosi.Model.Send.Waits.{busy_wait_leaks}

-- A buffer of two slots, one of which is taken.
abbrev full_sender : Sender
full_sender = record {
  ring = record {
    size = 2;
    read = 0;
    write = 1;
    elements = record { type = msg_query_add; addr = some 8 } ∷ blank ∷ [];
  };
  write_ops = 1;
  freed = [];
  errors = [];
}

abbrev link : Link
link = record { tx = some full_sender; mallocs = 0; copies = []; returned = [] }

busy_wait_leaks_example :
    (l' : Link) × (busy_wait z true (λ k n. some (4096 * k)) (λ i. 0) 5 good msg_dm_add link
      ≡ waiting l')
    × (length l'.copies ≡ length link.copies + 5)
    × (l'.returned ≡ link.returned)
    × (l'.tx ≡ some full_sender)
busy_wait_leaks_example =
    busy_wait_leaks z (λ k n. 4096 * k) (resolves none good) 5 good msg_dm_add full_sender link
      good-Every refl refl
