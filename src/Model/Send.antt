-- ===== src/Model/Send.antt =====
-- lib/datamodel.c, `sendDatamodel`, and the loop in lib/api.c that repeats it while the ring buffer is
-- full. `connected` is ENDPOINT_CONNECTED; `slcmalloc` gives the address for each call, by its number
-- and the size, or NULL.
pub mod Waits
mod Tests
use claosi.Prelude.{
  ℕ, zero, suc, Bool, true, false, not, List, [], ◌∷◌, ◌++◌, Option, none, some, if◌then◌else◌,
}
use claosi.Model.{Node}
use claosi.Model.Compact.{Sizes, Block, calc_datamodel_size, copy_and_collect_datamodel}
use claosi.Ring.{
  MessageType, Sender, Written, full, written, stuck, ring_buffer_write, step, receive,
}

-- `txBuffer`, if it is initialized; the number of calls of `slcmalloc`; the copies that were made,
-- with their addresses; and the addresses that `sendDatamodel` handed to `slcfree`.
pub record Link : Type 0 where
  pub tx : Option Sender
  pub mallocs : ℕ
  pub copies : List (ℕ × List Block)
  pub returned : List ℕ

-- The results 0, -EBADF, -ENOMEM and -EBUSY. `no_end` would be a loop that does not end.
pub data Sent : Type 0 where
  sent : Link → Sent
  ebadf : Link → Sent
  enomem : Link → Sent
  ebusy : Link → Sent
  no_end : Sent

-- `userCopy`: NULL, or the pointer behind it, which the function reads and never writes.
abbrev pub UserCopy : Type 0
UserCopy = Option (Option ℕ)

-- if (ret == -1) { if (userCopy == NULL) slcfree(copy); return -EBUSY; }
pub was_full : UserCopy → ℕ → Link → Sent
was_full none copy l = ebusy (record l { returned = l.returned ++ (copy ∷ []) })
was_full (some p) copy l = ebusy l

pub was_written : UserCopy → ℕ → Link → Written → Sent
was_written user copy l (written s) = sent (record l { tx = some s })
was_written user copy l (full s) = was_full user copy (record l { tx = some s })
was_written user copy l stuck = no_end

pub write_copy : UserCopy → MessageType → ℕ → Sender → Link → Sent
write_copy user type copy s l = was_written user copy l (ring_buffer_write type (some copy) s)

-- What the loop ends with, or where it is when the fuel runs out.
pub data Waited : Type 0 where
  finished : Link → Waited
  waiting : Link → Waited
  hung : Waited

-- The other layer takes `n` messages out.
pub take_out : ℕ → Sender → Sender
take_out zero s = s
take_out (suc n) s = take_out n (step s receive).0

pub slept : ℕ → Link → Link
slept n l = record l { tx = elim l.tx [ none ↦ none | some s ↦ some (take_out n s) ] }

module _ (z : Sizes) (connected : Bool) (slcmalloc : ℕ → ℕ → Option ℕ) where
  -- copyAndCollectDatamodel(root,copy)
  pub collected : UserCopy → MessageType → ℕ → Sender → Link → Option (List Block × ℕ) → Sent
  collected user type copy s l none = no_end
  collected user type copy s l (some (blocks, end)) =
      write_copy user type copy s (record l { copies = l.copies ++ ((copy, blocks) ∷ []) })

  pub allocated : UserCopy → MessageType → Node → Sender → Link → Option ℕ → Sent
  allocated user type root s l none = enomem l
  allocated user type root s l (some copy) =
      collected user type copy s l (copy_and_collect_datamodel z root copy)

  pub sized : UserCopy → MessageType → Node → Sender → Link → Option ℕ → Sent
  sized user type root s l none = no_end
  sized user type root s l (some size) =
      allocated user type root s (record l { mallocs = suc l.mallocs }) (slcmalloc l.mallocs size)

  -- With a buffer.
  pub send_copy : UserCopy → MessageType → Node → Link → Sender → Sent
  send_copy (some (some copy)) type root l s = write_copy (some (some copy)) type copy s l
  send_copy (some none) type root l s = sized (some none) type root s l (calc_datamodel_size z root)
  send_copy none type root l s = sized none type root s l (calc_datamodel_size z root)

  unfoldable pub send_datamodel : Node → MessageType → UserCopy → Link → Sent
  send_datamodel root type user l =
      if not connected
      then ebadf l
      else elim l.tx [ none ↦ ebadf l | some s ↦ send_copy user type root l s ]

  -- do { ret = sendDatamodel(dm,…,&callerCopy); if (ret == -EBUSY) MSLEEP(100); } while (ret == -EBUSY);
  -- on fuel. `callerCopy` is NULL, and `taken` says how many messages are taken out in each sleep.
  unfoldable pub busy_wait : (ℕ → ℕ) → ℕ → Node → MessageType → Link → Waited
  busy_wait taken zero root type l = waiting l
  busy_wait taken (suc fuel) root type l = elim (send_datamodel root type (some none) l) [
    | sent l' ↦ finished l'
    | ebadf l' ↦ finished l'
    | enomem l' ↦ finished l'
    | ebusy l' ↦ busy_wait (λ i. taken (suc i)) fuel root type (slept (taken 0) l')
    | no_end ↦ hung
  ]
