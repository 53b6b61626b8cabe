-- ===== src/Ring/Tests.antt =====
-- Runs of the ring buffer, and its theorems at concrete histories.
use claosi.Prelude.{◌+◌, ◌≡◌, refl, List, [], ◌∷◌, some}
use claosi.Ring.{
  Call, send, receive, msg_query_add, msg_dm_add, accepted, got, nothing, run, replies, init_sender,
  msg_query_del,
}
use claosi.Ring.Sweep.{count, held}
use claosi.Ring.Memory.{AllMessages, run_owns, given_in}
use claosi.Ring.Refine.{run_refines, queue_replies, queue_step}

-- Three messages, read as they come; the third write sweeps.
abbrev script : List Call
script =
    send msg_dm_add (some 100)
    ∷ receive
    ∷ send msg_query_add (some 200)
    ∷ receive
    ∷ receive
    ∷ send msg_query_del (some 300)
    ∷ receive
    ∷ []

script_messages : AllMessages script
script_messages = (refl, (tt, (refl, (tt, (tt, (refl, (tt, tt)))))))

replies_script :
    queue_replies 39 [] script
    ≡ accepted
      ∷ got msg_dm_add (some 100)
      ∷ accepted
      ∷ got msg_query_add (some 200)
      ∷ nothing
      ∷ accepted
      ∷ got msg_query_del (some 300)
      ∷ []
unfolding queue_replies queue_step
replies_script = refl

run_refines_example : replies init_sender script ≡ queue_replies 39 [] script
run_refines_example = run_refines script script_messages

run_owns_example :
    (count 100 (run init_sender script).freed + held 100 (run init_sender script).ring.elements
      ≡ given_in 100 init_sender script)
    × ((run init_sender script).errors ≡ [])
run_owns_example = run_owns 100 script script_messages
