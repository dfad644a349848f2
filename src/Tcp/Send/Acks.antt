-- ===== src/Tcp/Send/Acks.antt =====
-- `slidingWindow` on acknowledgements, and its rounds.
use ip_tcp.Base.{
  ℕ, ◌+◌, ◌-◌, ◌%◌, true, false, List, [], ◌∷◌, Option, none, some, leb, ltb, ◌==◌, if◌then◌else◌,
  add32, sub32,
}
use ip_tcp.Base.Table.{lookup, insert, nat_eq}
use ip_tcp.Tcp.Ring.{window_size}
use ip_tcp.Tcp.Segment.{TcpInfo}
use ip_tcp.Tcp.Socket.{NormalSocket}
use ip_tcp.Tcp.Send.{
  WindowNode, Queue, from_dummy, from_head, gone, Transfer, Part, goes_on, blocked, panics, sending,
}

-- `skip_probe = false` once the client's window is 0.
abbrev pub unskip : Transfer → Transfer
unskip t = record t { skip_probe = if t.sock.client_window_size == 0 then false else t.skip_probe }

-- The loop that takes acknowledged nodes off the head.
abbrev pub shrink_nodes : ℕ → List WindowNode → WindowNode → Queue
shrink_nodes ack [] tail = if leb tail.expected_ack ack then gone else from_head []
shrink_nodes ack (x ∷ before) tail =
    let behind = shrink_nodes ack before tail in
    if leb x.expected_ack ack then behind else from_head (x ∷ before)

abbrev pub shrink : ℕ → Queue → WindowNode → Queue
shrink ack (from_dummy before) tail = shrink_nodes ack before tail
shrink ack (from_head before) tail = shrink_nodes ack before tail
shrink ack gone tail = gone

-- An acknowledgement ahead of `cumWriteUNA`.
unfoldable pub advance : ℕ → Transfer → Transfer
advance ack t = record t {
  sock = record t.sock {
    cum_write_una = ack;
    write_buffer = record t.sock.write_buffer {
      una = add32 (sub32 ack t.sock.base_seq) window_size % window_size;
    };
  };
  bytes_sent = t.bytes_sent + (ack - t.sock.cum_write_una);
  queue = shrink ack t.queue t.tail;
}

-- How often an acknowledgement with a number was taken; a number that is missing counts as 0.
abbrev pub times_seen : NormalSocket → ℕ → ℕ
times_seen s n = elim (lookup n s.unacked_nums) [ none ↦ 0 | some k ↦ k ]

-- A number seen for the first time, and the new window of the client.
abbrev pub first_seen : TcpInfo → Transfer → Transfer
first_seen r t = record t {
  sock = record t.sock {
    unacked_nums = insert r.ack_num 1 t.sock.unacked_nums;
    client_window_size = r.window_size;
  };
}

-- A round of the loop over `ackChan`; `none` is a wait for `unackedMtx`. A duplicate is left with
-- `unackedMtx` held.
unfoldable pub take_ack : TcpInfo → Transfer → Option Transfer
take_ack r t =
    if t.unacked_locked
    then none
    else if times_seen t.sock r.ack_num == 0
    then if ltb t.sock.cum_write_una r.ack_num
      then some (advance r.ack_num (first_seen r t))
      else some (first_seen r t)
    else some (record t { unacked_locked = true })

-- That loop, on the acknowledgements that it finds.
unfoldable pub take_acks : List TcpInfo → Transfer → Option Transfer
take_acks [] t = some t
take_acks (r ∷ acks) t = elim (take_ack r t) [ none ↦ none | some t' ↦ take_acks acks t' ]

abbrev pub with_acks : List TcpInfo → Part → Part
with_acks acks (goes_on t out) = elim (take_acks acks (unskip t)) [
  | none ↦ blocked
  | some t' ↦ goes_on t' out
]
with_acks acks blocked = blocked
with_acks acks panics = panics

-- A round of the loop of `slidingWindow` that does not probe.
unfoldable pub round : List TcpInfo → Transfer → Part
round acks t = with_acks acks (sending t)
