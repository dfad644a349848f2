-- ===== src/Tcp/Receive/Branches.antt =====
-- Short cuts through a round of `ReceiverThread`.
use ip_tcp.Base.{
  ℕ, ◌≤◌, ◌≡◌, ap, ◌∙◌, true, le→not_ltb, List, [], none, length, add32, if◌then◌else◌,
}
use ip_tcp.Base.Table.{lookup, nat_eq}
use ip_tcp.Pq.{Heap}
use ip_tcp.Tcp.Ring.{write_ring}
use ip_tcp.Tcp.ReadBuffer.{ring_dist}
use ip_tcp.Tcp.ReadBuffer.Queue.{IsValid}
use ip_tcp.Tcp.ReadBuffer.Fill.{insert_payload-write_ring}
use ip_tcp.Tcp.Segment.{TcpInfo, has_ack}
use ip_tcp.Tcp.Socket.{NormalSocket, Effect, runs, out_of_fuel}
use ip_tcp.Tcp.Receive.{on_payload, early_loop, ready_in, accept, receive_ack, receive}

-- A segment with ACK that is not behind `cumReadNXT`, and whose acknowledgement number nothing waits
-- for, gets to the test for FIN.
pub receive-accept :
    (heap : Heap) (s : NormalSocket) (r : TcpInfo)
    → has_ack r.flag ≡ true
    → lookup r.ack_num s.unacked_fins ≡ none
    → lookup r.ack_num s.unacked_nums ≡ none
    → r.seq_num ≤ s.cum_read_nxt
    → receive heap s r ≡ accept heap (record s { client_window_size = r.window_size }) r
unfolding receive_ack receive
receive-accept heap s r a f n h = simp (a, f, n, le→not_ltb s.cum_read_nxt r.seq_num h)

-- With no early packets the loop over them does nothing.
pub early_loop-empty :
    (heap : Heap) (s : NormalSocket) (fx : List Effect)
    → s.early_pq ≡ []
    → early_loop heap (length s.early_pq) s fx ≡ runs s fx
unfolding early_loop
early_loop-empty heap s fx e =
    ap (λ q. early_loop heap (length q) s fx) e
    ∙ ap (λ q. if ready_in q s.cum_read_nxt then out_of_fuel else runs s fx) e

-- The copy of any payload ends.
pub on_payload-write_ring :
    (s : NormalSocket) (seq : ℕ) (payload : List ℕ) (fx : List Effect)
    → IsValid s.read_buffer
    → on_payload s seq payload fx
      ≡ runs
          (record s {
            read_buffer = record s.read_buffer {
              buffer = write_ring s.read_buffer.buffer s.read_buffer.nxt payload;
              nxt = ring_dist (add32 seq (length payload)) s.base_ack;
            };
            cum_read_nxt = add32 seq (length payload);
          })
          fx
unfolding on_payload
on_payload-write_ring s seq payload fx v =
    rw (insert_payload-write_ring s.read_buffer s.base_ack seq payload v.nxt_in, on_payload)
