-- ===== src/Tcp/Send/Thread.antt =====
-- A round of `SenderThread`: the packet it makes of what was written, and the call of
-- `slidingWindow` with it.
use ip_tcp.Base.{
  ℕ, ◌+◌, ◌%◌, ◌≤◌, ◌<◌, ◌≡◌, sym, List, Option, none, some, arith, length, u16, add32, sub32,
}
use ip_tcp.Tcp.Ring.{window_size}
use ip_tcp.Tcp.Ring.Read.{length-read_ring}
use ip_tcp.Tcp.WriteBuffer.{amount_to_send, sender_payload}
use ip_tcp.Tcp.WriteBuffer.Unsent.{IsValid, unsent, sender_payload-unsent}
use ip_tcp.Tcp.Segment.{TcpPacket, flag_ack}
use ip_tcp.Tcp.Socket.{NormalSocket}
use ip_tcp.Tcp.Send.{Transfer, start}
use ip_tcp.Tcp.Send.Segments.{payloads}
use ip_tcp.Tcp.Send.Steps.{Run, Reach}
use ip_tcp.Tcp.Send.Delivery.{IsReady, starting, Reach-delivered}

-- The packet for `slidingWindow`, which takes its payload, its flags, and the addresses and ports
-- of the socket from it: the last three are those of `data_packet`.
abbrev pub sender_packet : NormalSocket → List ℕ → TcpPacket
sender_packet s payload = record {
  source_ip = s.key.local_addr;
  dest_ip = s.key.remote_addr;
  payload = payload;
  flags = flag_ack;
  source_port = s.key.local_port;
  dest_port = s.key.remote_port;
  seq_num = add32 s.write_buffer.una s.base_seq;
  ack_num = add32 s.read_buffer.nxt s.base_ack;
  window = u16 (add32 (sub32 s.read_buffer.lbr s.read_buffer.nxt) window_size % window_size);
}

-- A round on a value of `writeChan`: the call of `slidingWindow` at its start, or none if the test
-- of the distances fails.
unfoldable pub sender_round : NormalSocket → ℕ → Option Transfer
sender_round s lbw = elim (sender_payload s.write_buffer lbw) [
  | none ↦ none
  | some payload ↦ some (start s (sender_packet s payload).payload)
]

-- With nothing in flight, a round on the current `LBW` starts a call for the unsent bytes; and when
-- that call has ended, in whatever order its threads came and as long as no zero window was
-- probed, the segments sent make up the unsent bytes, in order, and the sequence number that is
-- acknowledged has moved over all of them, so that nothing is in flight again. The sequence
-- numbers do not wrap.
pub sender_round-delivered :
    {r : Run} (s : NormalSocket)
    → IsValid s.write_buffer
    → IsReady s
    → s.cum_write_una + length (unsent s.write_buffer) < 4294967296
    → Reach (starting s (unsent s.write_buffer)) r
    → length (unsent s.write_buffer) ≤ r.transfer.bytes_sent
    → (sender_round s s.write_buffer.lbw ≡ some (start s (unsent s.write_buffer)))
      × (payloads r.sent ≡ unsent s.write_buffer)
      × (r.transfer.sock.cum_write_una ≡ s.cum_write_una + length (unsent s.write_buffer))
      × (r.transfer.sock.write_buffer.una ≡ r.transfer.sock.write_buffer.nxt)
unfolding sender_round
sender_round-delivered s valid ready fits reach ended =
    let taken = sender_payload-unsent s.write_buffer valid (sym ready.nxt) in
    let (within, again, runs_on, ends) =
      Reach-delivered s (unsent s.write_buffer) ready short fits reach in
    let (bytes, acknowledged, level) = ends ended in
    (ground (arith, taken), bytes, acknowledged, level)
  where
    short : length (unsent s.write_buffer) < window_size
    short = omega (
      arith,
      length-read_ring s.write_buffer.buffer s.write_buffer.nxt
          (amount_to_send s.write_buffer s.write_buffer.lbw),
    )
