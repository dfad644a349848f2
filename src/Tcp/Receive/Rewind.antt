-- ===== src/Tcp/Receive/Rewind.antt =====
-- What a segment that was received before does to the receive side.
use ip_tcp.Base.{
  ℕ, ◌+◌, ◌<◌, ◌≡◌, ◌≢◌, ap, ◌∙◌, true, false, ne→not_==, [], ◌∷◌, none, arith, length, add32,
  IsU32,
}
use ip_tcp.Base.Table.{lookup, nat_eq}
use ip_tcp.Pq.{Heap}
use ip_tcp.Tcp.Ring.{write_ring}
use ip_tcp.Tcp.ReadBuffer.{ring_dist, window}
use ip_tcp.Tcp.ReadBuffer.Queue.{IsValid}
use ip_tcp.Tcp.Segment.{TcpInfo, has_fin, has_ack}
use ip_tcp.Tcp.Socket.{NormalSocket, send, runs}
use ip_tcp.Tcp.Receive.{ack_packet, accept, receive}
use ip_tcp.Tcp.Receive.Branches.{receive-accept, early_loop-empty, on_payload-write_ring}

-- A segment whose last byte lies before `cumReadNXT`, such as one that is sent again because its
-- acknowledgement was late.
pub record IsOld (s : NormalSocket) (r : TcpInfo) : Type 0 where
  pub acks : has_ack r.flag ≡ true
  pub data_only : has_fin r.flag ≡ false
  pub no_fin : lookup r.ack_num s.unacked_fins ≡ none
  pub no_num : lookup r.ack_num s.unacked_nums ≡ none
  pub old : r.seq_num + length r.payload < s.cum_read_nxt
  pub room : window s.read_buffer ≢ 0
  pub valid : IsValid s.read_buffer
  pub cum_fits : IsU32 s.cum_read_nxt

-- The socket after the payload is written once more, from `NXT` on, as one that ends at `cum`.
abbrev pub rewound : NormalSocket → TcpInfo → ℕ → NormalSocket
rewound s r cum = record s {
  client_window_size = r.window_size;
  cum_read_nxt = cum;
  read_buffer = record s.read_buffer {
    buffer = write_ring s.read_buffer.buffer s.read_buffer.nxt r.payload;
    nxt = ring_dist cum s.base_ack;
  };
}

accept_old :
    (heap : Heap) (s : NormalSocket) (r : TcpInfo)
    → IsOld s r
    → s.early_pq ≡ []
    → let s' = rewound s r (add32 r.seq_num (length r.payload)) in
      accept heap (record s { client_window_size = r.window_size }) r
      ≡ runs s' (send (ack_packet s' r) ∷ [])
unfolding accept
accept_old heap s r o q = simp (
  o.data_only,
  ne→not_== (window s.read_buffer) 0 o.room,
  on_payload-write_ring noted r.seq_num r.payload [] o.valid,
  early_loop-empty heap (rewound s r (add32 r.seq_num (length r.payload))) [] q,
)
  where
    noted : NormalSocket
    noted = record s { client_window_size = r.window_size }

-- A segment with ACK and no FIN that ends before `cumReadNXT` takes `cumReadNXT` back to its own end,
-- if the advertised window is not 0, its acknowledgement number is neither in `unackedNums` nor in
-- `unackedFINs`, no early packet waits, and the read buffer's pointers are in range: the payload is
-- written once more, at `NXT`, `NXT` goes back too, and the acknowledgement sent takes back bytes
-- that were acknowledged.
pub receive_rewinds :
    (heap : Heap) (s : NormalSocket) (r : TcpInfo)
    → IsOld s r
    → s.early_pq ≡ []
    → let s' = rewound s r (r.seq_num + length r.payload) in
      (receive heap s r ≡ runs s' (send (ack_packet s' r) ∷ []))
      × (s'.cum_read_nxt < s.cum_read_nxt)
receive_rewinds heap s r o q = (
  receive-accept heap s r o.acks o.no_fin o.no_num (omega (arith, o.old))
      ∙ accept_old heap s r o q
      ∙ ap (λ cum. runs (rewound s r cum) (send (ack_packet (rewound s r cum) r) ∷ [])) no_wrap,
  o.old,
)
  where
    no_wrap : add32 r.seq_num (length r.payload) ≡ r.seq_num + length r.payload
    no_wrap = omega (arith, o.old, o.cum_fits)
