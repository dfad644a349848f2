-- ===== src/Tcp/Send.antt =====
-- `slidingWindow`: how a payload of `SenderThread` is sent in segments.
pub mod Acks
pub mod Retransmit
pub mod Segments
pub mod Progress
pub mod Steps
pub mod Kept
pub mod Delivery
pub mod Thread
pub mod Rounds
pub mod Probe
pub mod Frozen
pub mod Flaws
mod Tests
use ip_tcp.Base.{
  ℕ, zero, suc, ◌+◌, ◌-◌, ◌%◌, Bool, true, false, ◌&&◌, List, [], ◌∷◌, ◌++◌, Option, none, some,
  leb, ltb, ◌==◌, if◌then◌else◌, length, take, drop, min, u16, sub16, add32, sub32,
}
use ip_tcp.Base.Table.{lookup, insert, nat_eq}
use ip_tcp.Tcp.Ring.{window_size}
use ip_tcp.Tcp.ReadBuffer.{ring_dist, window}
use ip_tcp.Tcp.WriteBuffer.{WriteBuffer}
use ip_tcp.Tcp.Segment.{TcpInfo, TcpPacket, flag_ack}
use ip_tcp.Tcp.Socket.{NormalSocket}

-- `MSS`
abbrev pub mss : ℕ
mss = 1360

-- A node of the window with its packet. `sent` is whether `lastSent` is set.
pub record WindowNode : Type 0 where
  pub payload_index : ℕ  -- uint16
  pub expected_ack : ℕ  -- uint32
  pub packet : TcpPacket
  pub index : ℕ  -- uint32
  pub sent : Bool
  pub retrans : Bool

-- The nodes from `window.head` to before `window.tail`. The first head has no packet and expects 0
-- (`from_dummy`); `gone` is a head that is nil, which the tail is then behind.
pub data Queue : Type 0 where
  from_dummy : List WindowNode → Queue
  from_head : List WindowNode → Queue
  gone : Queue

-- A call of `slidingWindow` in its loop: the socket, the variables of the call, and whether
-- `unackedMtx` is held when no step is running. `rest` is `packet.payload`, and `first_payload` the
-- payload of the first node, which the variable `tail` points to for good.
pub record Transfer : Type 0 where
  pub sock : NormalSocket
  pub queue : Queue
  pub tail : WindowNode
  pub rest : List ℕ
  pub first_payload : List ℕ
  pub payload_size : ℕ
  pub bytes_to_send : ℕ
  pub bytes_sent : ℕ
  pub skip_probe : Bool
  pub unacked_locked : Bool

-- A segment of the socket.
abbrev pub data_packet : NormalSocket → List ℕ → ℕ → TcpPacket
data_packet s payload seq_num = record {
  source_ip = s.key.local_addr;
  dest_ip = s.key.remote_addr;
  payload = payload;
  flags = flag_ack;
  source_port = s.key.local_port;
  dest_port = s.key.remote_port;
  seq_num = seq_num;
  ack_num = s.cum_read_nxt;
  window = window s.read_buffer;
}

-- `distUNA + sock.cumWriteUNA`
abbrev pub seq_nxt : NormalSocket → ℕ
seq_nxt s = add32 (ring_dist s.write_buffer.nxt s.write_buffer.una) s.cum_write_una

-- The start of `slidingWindow` on a payload.
abbrev pub start : NormalSocket → List ℕ → Transfer
start s payload =
    let n = min (min mss (length payload)) s.client_window_size in
    record {
      sock = s;
      queue = from_dummy [];
      tail = record {
        payload_index = 0;
        expected_ack = add32 (seq_nxt s) n;
        packet = data_packet s (take n payload) s.cum_write_una;
        index = 0;
        sent = false;
        retrans = false;
      };
      rest = drop n payload;
      first_payload = take n payload;
      payload_size = length payload;
      bytes_to_send = n;
      bytes_sent = 0;
      skip_probe = true;
      unacked_locked = false;
    }

-- The nodes when the tail gets a next one.
abbrev pub append_node : Queue → WindowNode → Queue
append_node (from_dummy before) tail = from_dummy (before ++ tail ∷ [])
append_node (from_head before) tail = from_head (before ++ tail ∷ [])
append_node gone tail = gone

-- The last part of the test for sending: `none` is the panic on a head that is nil.
abbrev pub has_room : Queue → ℕ → Option Bool
has_room (from_dummy []) tail_index = some true
has_room (from_dummy (x ∷ _)) tail_index = some (ltb (sub32 tail_index x.index) window_size)
has_room (from_head []) tail_index = some true
has_room (from_head (_ ∷ [])) tail_index = some (ltb (sub32 tail_index tail_index) window_size)
has_room (from_head (_ ∷ x ∷ _)) tail_index = some (ltb (sub32 tail_index x.index) window_size)
has_room gone tail_index = none

-- The socket when the segment in the tail is sent: `NXT` moves over it, the number that will
-- acknowledge it is noted, and its length comes off the client's window.
abbrev pub noted : Transfer → NormalSocket
noted t =
    let nxt = add32 t.sock.write_buffer.nxt t.bytes_to_send % window_size in
    let s : NormalSocket = record t.sock {
      write_buffer = record t.sock.write_buffer { nxt = nxt };
    } in
    record s {
      unacked_nums = insert (seq_nxt s) 0 s.unacked_nums;
      client_window_size = sub16 s.client_window_size (length t.tail.packet.payload);
    }

-- `bytesToSend` of the next segment; a difference below 0 comes to no segment, as 0 does.
abbrev pub next_size : Transfer → ℕ
next_size t = min (min mss (t.payload_size - t.tail.payload_index)) (length t.rest)

-- The next node, for a tail whose segment ends before `expected_ack`.
abbrev pub next_node : Transfer → NormalSocket → WindowNode
next_node t s = record {
  payload_index = u16 (t.tail.payload_index + mss);
  expected_ack = add32 (seq_nxt s) (next_size t);
  packet = data_packet s (take (next_size t) t.rest) (seq_nxt s);
  index = add32 t.tail.index 1;
  sent = false;
  retrans = false;
}

-- The tail once it is sent.
abbrev pub sent_tail : Transfer → WindowNode
sent_tail t = record t.tail { sent = true; retrans = false }

-- What sending the tail makes of the call.
unfoldable pub send_tail : Transfer → Transfer
send_tail t =
    let s = noted t in
    if ltb 0 (next_size t)
    then record t {
      sock = s;
      queue = append_node t.queue (sent_tail t);
      tail = next_node t s;
      rest = drop (next_size t) t.rest;
      bytes_to_send = next_size t;
    }
    else record t { sock = s; tail = sent_tail t; bytes_to_send = 0 }

-- A part of a round: the call after it and the segments it sends, a wait for `unackedMtx`, or a panic.
pub data Part : Type 0 where
  goes_on : Transfer → List TcpPacket → Part
  blocked : Part
  panics : Part

abbrev pub send_in_room : Transfer → Option Bool → Part
send_in_room t none = panics
send_in_room t (some false) = goes_on t []
send_in_room t (some true) =
    if t.unacked_locked then blocked else goes_on (send_tail t) (t.tail.packet ∷ [])

-- The `if` behind the label `normal`, and the test for the next probe.
unfoldable pub sending : Transfer → Part
sending t =
    if ltb 0 t.sock.client_window_size && ltb 0 t.bytes_to_send
    then send_in_room t (has_room t.queue t.tail.index)
    else goes_on t []
