-- ===== src/Layer/Dispatch/Tests.antt =====
-- Messages to a layer of the kernel that has no connection of its own, and an initial buffer.
use claosi.Prelude.{suc, ◌+◌, if◌then◌else◌, ◌≡◌, refl, true, false, [], none, some}
use claosi.Prelude.Names.{name_eq, tokens}
use claosi.Prelude.Int.{pos, incr, decr}
use claosi.Model.Lookup.{get_description, descend, child_named}
use claosi.Model.Tests.{good, z, rx}
use claosi.Query.Tests.{query}
use claosi.Query.Registry.{resolve_query}
use claosi.Layer.Queue.{Kernel, enqueue_query}
use claosi.Ring.{Ringbuffer, init_buffer, is_full, msg_query_del}
use claosi.Ring.Inv.{init_buffer-IsValid}
use claosi.Layer.Dispatch.{Comm, Platform, in_kernel, query_name, dispatch, flush}
use claosi.Layer.Dispatch.Balance.{IsHeld, released_wrongly, dels_unknown, dispatch-IsHeld}
use claosi.Layer.Dispatch.Flush.{pending, flush_leaves_full}

abbrev platform : Platform Kernel
platform = record {
  side = in_kernel;
  layer_code = 1;
  sends = λ p. false;
  room = λ i. true;
  sizes = z;
  connected = false;
  slcmalloc = λ k n. none;
  taken = λ i. 0;
  alloc = λ q. some 9;
  copy_tuple = λ t. some (t + 100);
  enqueue = enqueue_query;
  new_model = none;
  shared = λ a. none;
}

abbrev thread : Comm Kernel
thread = record {
  layer = record { root = good; heap = λ k. query; global_query_id = 1; effects = [] };
  link = record { tx = none; mallocs = 0; copies = []; returned = [] };
  reading = pos 0;
  writing = pos 0;
  queue = record { jobs = []; waiting = 0; max_waiting = 0; freed = [] };
  freed_queries = [];
  freed_tuples = [];
}

rx_unknown : dels_unknown in_kernel thread msg_query_del (some (query_name rx 5)) ≡ true
unfolding dels_unknown released_wrongly resolve_query get_description descend child_named tokens
    name_eq
rx_unknown = refl

dispatch-IsHeld_example :
    let unknown = dels_unknown in_kernel thread msg_query_del (some (query_name rx 5)) in
    IsHeld
      (if unknown then decr (pos 0) else pos 0)
      (if unknown then incr (pos 0) else pos 0)
      []
      (dispatch platform 9 thread msg_query_del (some (query_name rx 5)))
dispatch-IsHeld_example = dispatch-IsHeld platform 9 thread msg_query_del (some (query_name rx 5))

flush_leaves_full_example :
    (r' : Ringbuffer) × (flush (suc (pending init_buffer)) 0 init_buffer
      ≡ some (pending init_buffer, r'))
    × (is_full r' ≡ true)
flush_leaves_full_example = flush_leaves_full init_buffer init_buffer-IsValid
