-- ===== src/KvRaft/Apply/Reply.antt =====
-- What a client of Get and PutAppend (src/kvraft/server.go) is told.
use mit_distributed_system.Prelude.{
  ℕ, ◌<◌, ◌≡◌, refl, true, false, Option, none, some, List, arith, if◌then◌else◌, lt→leb_false, ok,
}
use mit_distributed_system.Gob.{Bytes}
use mit_distributed_system.Assoc.{lookup, put, lookup-put, nat_key}
use mit_distributed_system.Service.WaitChs.{open_ch, send, receive}
use mit_distributed_system.Raft.State.{command_msg}
use mit_distributed_system.KvRaft.Defs.{Op, KvServer}
use mit_distributed_system.KvRaft.Apply.{
  Codec, is_due, apply_op, serialize, apply_command, apply_message, begin_request, finish_request,
}

-- The channel of an index, once it is made.
opened : (kv : KvServer) (index : ℕ) → KvServer
opened kv index = record kv { wait_chs = put index none kv.wait_chs }

begin_request-opened :
    (kv : KvServer) (index : ℕ)
    → lookup index kv.wait_chs ≡ none
    → begin_request kv true (index, true) ≡ ok (opened kv index, some index)
unfolding begin_request open_ch opened
begin_request-opened kv index free = ground arith

-- The wait channels play no part in what an operation does.
apply_op-opened :
    (kv : KvServer) (op : Op) (index : ℕ)
    → ((apply_op (opened kv index) op).1 ≡ (apply_op kv op).1)
      × ((apply_op (opened kv index) op).0.wait_chs ≡ put index none kv.wait_chs)
unfolding apply_op opened
apply_op-opened kv op index = (refl, refl)

send-opened :
    {R : Type 0} (index : ℕ) (r : R) (chs : List (ℕ × Option R))
    → send index r (put index none chs) ≡ ok (put index (some r) (put index none chs))
unfolding send
send-opened index r chs = ground (arith, lookup-put index index none chs)

receive-sent :
    {R : Type 0} (index : ℕ) (r : R) (chs : List (ℕ × Option R))
    → receive false index (put index (some r) chs) ≡ some r
unfolding receive
receive-sent index r chs = ground (arith, lookup-put index index (some r) chs)

latest-opened :
    (kv : KvServer) (index : ℕ)
    → (opened kv index).latest_applied_raft_index ≡ kv.latest_applied_raft_index
unfolding opened
latest-opened kv index = refl

-- The server after the operation, with its answer in the channel.
answered : (kv : KvServer) (op : Op) (index : ℕ) → KvServer
answered kv op index = record (apply_op (opened kv index) op).0 {
  latest_applied_raft_index = index;
  wait_chs = put index (some (apply_op kv op).1) (put index none kv.wait_chs);
}

apply_message-answered :
    (codec : Codec) (kv : KvServer) (op : Op) (index size : ℕ)
    → kv.latest_applied_raft_index < index
    → (snapshot : Option Bytes) × (apply_message codec
          (opened kv index)
          (command_msg (some op) index)
          size
        ≡ ok (answered kv op index, snapshot))
unfolding apply_message apply_command answered
apply_message-answered codec kv op index size new =
    let applied = record (apply_op (opened kv index) op).0 { latest_applied_raft_index = index } in
    (
      if is_due codec applied size then some (serialize codec applied) else none,
      rw
          (
            latest-opened kv index,
            lt→leb_false index kv.latest_applied_raft_index new,
            (apply_op-opened kv op index).0,
            (apply_op-opened kv op index).1,
            send-opened index (apply_op kv op).1 kv.wait_chs,
          )
          refl,
    )

finish_request-answered :
    (kv : KvServer) (op : Op) (index : ℕ)
    → ((finish_request (answered kv op index) false index).1 ≡ (apply_op kv op).1.err)
      × ((finish_request (answered kv op index) false index).2 ≡ (apply_op kv op).1.value)
unfolding finish_request answered
finish_request-answered kv op index =
    ground (arith, receive-sent index (apply_op kv op).1 (put index none kv.wait_chs))

-- A handler that waits at an index answers with the result of the operation `op` that is committed
-- there, whichever it is: its own one or, after a change of leader, another client's. No handler waits
-- there yet, and the server is below that index.
pub finish_request-apply_message :
    (codec : Codec) (kv : KvServer) (op : Op) (index size : ℕ)
    → lookup index kv.wait_chs ≡ none
    → kv.latest_applied_raft_index < index
    → (waiting : KvServer) × (begin_request kv true (index, true) ≡ ok (waiting, some index))
      × (after : KvServer) × (snapshot : Option Bytes) × (apply_message codec waiting
            (command_msg (some op) index)
            size
          ≡ ok (after, snapshot))
      × ((finish_request after false index).1 ≡ (apply_op kv op).1.err)
      × ((finish_request after false index).2 ≡ (apply_op kv op).1.value)
finish_request-apply_message codec kv op index size free new =
    let (snapshot, applies) = apply_message-answered codec kv op index size new in
    (
      opened kv index,
      begin_request-opened kv index free,
      answered kv op index,
      snapshot,
      applies,
      (finish_request-answered kv op index).0,
      (finish_request-answered kv op index).1,
    )
