-- ===== src/Tcp/Send/Tests.antt =====
-- Sending on a concrete connection.
use ip_tcp.Base.{
  ℕ, ◌+◌, ◌≤◌, ◌≡◌, ◌≢◌, refl, true, false, List, [], ◌∷◌, ◌++◌, none, some, arith, All, length,
}
use ip_tcp.Base.Table.{lookup, insert, nat_eq}
use ip_tcp.Pq.Least.{container_heap}
use ip_tcp.Tcp.Samples.{key, socket, peer}
use ip_tcp.Tcp.ReadBuffer.{window}
use ip_tcp.Tcp.ReadBuffer.Queue.{unread}
use ip_tcp.Tcp.Segment.{TcpInfo, TcpPacket, flag_ack}
use ip_tcp.Tcp.Socket.{NormalSocket, send, to_ack_chan, runs}
use ip_tcp.Tcp.Wire.RoundTrip.{info_of}
use ip_tcp.Tcp.Receive.{receive}
use ip_tcp.Tcp.Send.{Transfer, from_head, start, send_tail, goes_on, panics, sending}
use ip_tcp.Tcp.Send.Acks.{take_ack, advance, first_seen, unskip}
use ip_tcp.Tcp.Send.Probe.{probe, probe_acked, resumes}
use ip_tcp.Tcp.Send.Segments.{payloads, IsSegment}
use ip_tcp.Tcp.Send.Steps.{Run, Reach, here, next, sends, acks, receives}
use ip_tcp.Tcp.Send.Delivery.{starting, IsReady, Reach-delivered}
use ip_tcp.Tcp.Send.Flaws.{IsProbed, window_wraps, probe_misnumbers}
use ip_tcp.Tcp.Send.Frozen.{duplicate_ack_freezes}
use ip_tcp.Tcp.Exchange.{CanSend, sending-start, take_ack-first, exchange}

abbrev data_bytes : List ℕ
data_bytes = 7 ∷ 8 ∷ 9 ∷ []

-- The acknowledgement of all three bytes.
abbrev acked : TcpInfo
acked = record {
  key = key;
  flag = flag_ack;
  seq_num = 5001;
  ack_num = 6004;
  window_size = 65532;
  payload = [];
}

socket-IsReady : IsReady socket
unfolding lookup
socket-IsReady = record { based = omega arith; una = refl; nxt = refl; keys = λ k v h. absurd cc }

abbrev in_flight : Transfer
in_flight = unskip (send_tail (start socket data_bytes))

abbrev finished : Run
finished = record {
  transfer = advance 6004 (first_seen acked in_flight);
  sent = (start socket data_bytes).tail.packet ∷ [];
  again = [];
}

reached : Reach (starting socket data_bytes) finished
unfolding send_tail lookup insert
reached =
    next
      (next here (
        sends (starting socket data_bytes) (send_tail (start socket data_bytes)) _
          (sending-start socket data_bytes (omega arith) (omega arith) (omega arith))))
      (acks _ acked 0 _ refl (take_ack-first acked in_flight refl refl (omega arith)))

Reach-delivered_example :
    All (IsSegment data_bytes 6001) finished.sent
    × All (IsSegment data_bytes 6001) finished.again
    × (sending finished.transfer ≢ panics)
    × (3 ≤ finished.transfer.bytes_sent
        → (payloads finished.sent ≡ data_bytes)
          × (finished.transfer.sock.cum_write_una ≡ 6004)
          × (finished.transfer.sock.write_buffer.una ≡ finished.transfer.sock.write_buffer.nxt))
Reach-delivered_example =
    Reach-delivered socket data_bytes socket-IsReady (omega arith) (omega arith) reached

peer-CanSend : CanSend socket peer data_bytes
unfolding lookup
peer-CanSend = record {
  ready = socket-IsReady;
  not_empty = omega arith;
  one_segment = omega arith;
  in_window = omega arith;
  fits = omega arith;
  forth = refl;
  a_fins = refl;
  b_fins = refl;
  b_in_order = refl;
  b_valid = record { lbr_in = omega arith; nxt_in = omega arith };
  b_base = omega arith;
  b_follows = refl;
  b_room = omega arith;
}

exchange_example :
    (t : Transfer) × (p : TcpPacket) × (sending (start socket data_bytes) ≡ goes_on t (p ∷ []))
    × (b' : NormalSocket) × (ack : TcpPacket) × (receive container_heap peer
          (info_of key.local_addr p)
        ≡ runs b' (send ack ∷ []))
    × (unread b'.read_buffer ≡ unread peer.read_buffer ++ data_bytes)
    × (a' : NormalSocket) × (receive container_heap t.sock (info_of key.remote_addr ack)
        ≡ runs a' (to_ack_chan (info_of key.remote_addr ack) ∷ []))
    × (t' : Transfer) × (take_ack (info_of key.remote_addr ack) (record t { sock = a' }) ≡ some t')
    × (t'.bytes_sent ≡ 3)
    × (t'.sock.cum_write_una ≡ b'.cum_read_nxt)
    × (t'.sock.write_buffer.una ≡ t'.sock.write_buffer.nxt)
    × (t'.sock.client_window_size ≡ window b'.read_buffer)
exchange_example =
    exchange container_heap socket peer data_bytes key.remote_addr key.local_addr peer-CanSend

-- A call that has taken an acknowledgement with number 6004.
abbrev after_ack : Transfer
after_ack = record (start socket data_bytes) {
  sock = record socket { unacked_nums = (6004, 1) ∷ [] };
}

abbrev acked_run : Run
acked_run = record { transfer = after_ack; sent = []; again = [] }

-- The duplicate, and then a new window of the client.
abbrev held_run : Run
held_run = record acked_run { transfer = record after_ack { unacked_locked = true } }

abbrev later_run : Run
later_run = record held_run {
  transfer = record held_run.transfer { sock = record after_ack.sock { client_window_size = 100 } };
}

duplicate_ack_freezes_example :
    (later_run.sent ≡ [])
    × ((a : TcpInfo) → take_ack a later_run.transfer ≡ none)
    × (later_run.transfer.sock.cum_write_una ≡ 6001)
    × (later_run.transfer.bytes_sent ≡ 0)
unfolding take_ack lookup
duplicate_ack_freezes_example =
    duplicate_ack_freezes acked_run acked (record after_ack { unacked_locked = true }) refl
      (λ e. absurd (omega arith)) refl
      (next here (
        receives held_run (record after_ack.sock { client_window_size = 100 })
          (record {
            write_buffer_same = refl;
            base_seq_same = refl;
            una_same = refl;
            nums_same = refl;
          })))

-- Two bytes are sent and acknowledged, the window of the client is 0, and three more wait.
abbrev stopped : Transfer
stopped = record (start socket data_bytes) {
  sock = record socket { client_window_size = 0 };
  queue = from_head [];
  tail = record (start socket data_bytes).tail { index = 1 };
  first_payload = 5 ∷ 6 ∷ [];
  payload_size = 5;
  bytes_sent = 2;
  skip_probe = false;
}

abbrev opened : TcpInfo
opened = record acked { ack_num = 6002 }

stopped-IsProbed : IsProbed stopped opened 7 (8 ∷ 9 ∷ [])
unfolding lookup
stopped-IsProbed = record {
  ready = record { based = omega arith; una = refl; nxt = refl; keys = λ k v h. absurd cc };
  unlocked = refl;
  alone = refl;
  later = λ e. absurd (omega arith);
  first_sent = λ e. cc;
  in_tail = refl;
  numbered = refl;
  sized = refl;
  acked = refl;
  opened = omega arith;
  small = omega arith;
  fits = omega arith;
}

probe_misnumbers_example :
    (t' : Transfer) × (probe_acked (probe stopped) opened ≡ resumes t')
    × (t'' : Transfer) × (p : TcpPacket) × (sending t' ≡ goes_on t'' (p ∷ []))
    × (p.payload ≡ 7 ∷ 8 ∷ 9 ∷ [])
    × (p.seq_num ≡ 6001)
    × (lookup (p.seq_num + length p.payload + 1) t''.sock.unacked_nums ≡ some 0)
probe_misnumbers_example = probe_misnumbers stopped opened 7 (8 ∷ 9 ∷ []) stopped-IsProbed

-- The window of the client has shrunk to two bytes.
abbrev narrow : Transfer
narrow = record (start socket data_bytes) { sock = record socket { client_window_size = 2 } }

window_wraps_example :
    (t' : Transfer) × (sending narrow ≡ goes_on t' (narrow.tail.packet ∷ []))
    × (t'.sock.client_window_size ≡ 65535)
window_wraps_example =
    window_wraps narrow refl (omega arith) refl (omega arith) (omega arith) (omega arith)
