-- ===== src/Tcp/Send/Probe.antt =====
-- Zero-window probes of `slidingWindow`.
use ip_tcp.Base.{
  ℕ, suc, ◌%◌, Bool, true, ◌&&◌, not, List, [], ◌∷◌, map, drop, ltb, ◌==◌, if◌then◌else◌, add32,
  sub32,
}
use ip_tcp.Base.Table.{insert, nat_eq}
use ip_tcp.Tcp.Ring.{window_size}
use ip_tcp.Tcp.Segment.{TcpInfo, TcpPacket}
use ip_tcp.Tcp.Socket.{NormalSocket}
use ip_tcp.Tcp.Send.{WindowNode, Queue, from_dummy, from_head, gone, Transfer, data_packet, seq_nxt}

-- The test of the loop of probes.
abbrev pub needs_probe : Transfer → Bool
needs_probe t =
    t.sock.write_buffer.nxt == t.sock.write_buffer.una
    && not t.skip_probe
    && t.sock.client_window_size == 0

-- The socket with `NXT` moved over the byte of the probe.
abbrev pub probing : NormalSocket → NormalSocket
probing s = record s {
  write_buffer = record s.write_buffer { nxt = add32 s.write_buffer.nxt 1 % window_size };
}

-- A probe on its way: the call, with the number noted that is awaited, and the packet that is sent
-- every second.
pub record Probing : Type 0 where
  pub transfer : Transfer
  pub packet : TcpPacket
  pub expected : ℕ

unfoldable pub probe : Transfer → Probing
probe t =
    let s = probing t.sock in
    let expected = seq_nxt s in
    record {
      transfer = record t { sock = record s { unacked_nums = insert expected 0 s.unacked_nums } };
      packet = data_packet s (s.write_buffer.buffer s.write_buffer.una ∷ []) (sub32 (seq_nxt s) 1);
      expected = expected;
    }

-- The socket when a probe is acknowledged.
abbrev pub probed_socket : TcpInfo → NormalSocket → NormalSocket
probed_socket received s = record s {
  client_window_size = received.window_size;
  cum_write_una = received.ack_num;
  write_buffer = record s.write_buffer {
    una = add32 (sub32 received.ack_num s.base_seq) window_size % window_size;
  };
}

-- The first node, that of index 0, loses the first byte of its payload.
abbrev pub strip : WindowNode → WindowNode
strip x =
    if x.index == 0
    then record x { packet = record x.packet { payload = drop 1 x.packet.payload } }
    else x

abbrev pub strip_queue : Queue → Queue
strip_queue (from_dummy before) = from_dummy (map strip before)
strip_queue (from_head before) = from_head (map strip before)
strip_queue gone = gone

-- What a segment from `ackChan` makes of a probe: it goes on waiting; the loop resumes; or, if the
-- first segment is empty, `slidingWindow` starts again on the rest of the payload.
pub data Probed : Type 0 where
  waits : Probed
  resumes : Transfer → Probed
  restarts : NormalSocket → List ℕ → Probed
  panics : Probed

-- By the payload of the first node and the rest.
abbrev pub probed_in : TcpInfo → Transfer → List ℕ → List ℕ → Probed
probed_in received t [] [] = panics
probed_in received t [] (x ∷ rest) = restarts (probed_socket received t.sock) rest
probed_in received t (x ∷ payload) rest = resumes (record t {
  sock = probed_socket received t.sock;
  queue = strip_queue t.queue;
  tail = strip t.tail;
  first_payload = payload;
  bytes_sent = suc t.bytes_sent;
  skip_probe = true;
})

unfoldable pub probe_acked : Probing → TcpInfo → Probed
probe_acked p received =
    if received.ack_num == p.expected && ltb 0 received.window_size
    then probed_in received p.transfer p.transfer.first_payload p.transfer.rest
    else waits
