-- ===== src/Tcp/Exchange.antt =====
-- One payload from `slidingWindow` through the receivers of both sides and back.
use ip_tcp.Base.{
  ℕ, ◌+◌, ◌%◌, ◌≤◌, ◌<◌, ◌≡◌, ◌≢◌, refl, sym, ap, ◌∙◌, subst, true, false, ◌&&◌, List, [], ◌∷◌,
  ◌++◌, none, some, arith, length, take_all, take, ne→not_==, lt→ltb, le→not_ltb, ◌==◌, add32,
  sub32, IsU32,
}
use ip_tcp.Base.Table.{lookup, nat_eq, lookup-insert_self}
use ip_tcp.Netip.{Addr}
use ip_tcp.Pq.{Heap}
use ip_tcp.Tcp.Ring.{window_size}
use ip_tcp.Tcp.ReadBuffer.{ReadBuffer, window, insert_payload}
use ip_tcp.Tcp.ReadBuffer.Queue.{IsValid, unread}
use ip_tcp.Tcp.ReadBuffer.Refine.{Follows, insert_payload_refines}
use ip_tcp.Tcp.Segment.{TcpInfo, TcpPacket, has_ack, has_fin}
use ip_tcp.Tcp.Socket.{NormalSocket, send, to_ack_chan, runs}
use ip_tcp.Tcp.Wire.RoundTrip.{info_of}
use ip_tcp.Tcp.Receive.{receive, receive_ack, accept, ack_packet, on_payload, is_some}
use ip_tcp.Tcp.Receive.Branches.{early_loop-empty}
use ip_tcp.Tcp.Send.{Transfer, mss, start, seq_nxt, noted, send_tail, goes_on, sending}
use ip_tcp.Tcp.Send.Acks.{take_ack, advance, first_seen, times_seen}
use ip_tcp.Tcp.Send.Delivery.{IsReady}
use ip_tcp.Tcp.Send.Progress.{send_tail-sock, send_tail-kept}

-- Two sockets between which a payload can go: `a` has nothing in flight, the payload is one segment
-- within the window that `a` knows of, and `b` expects it and has room for it.
pub record CanSend (a b : NormalSocket) (payload : List ℕ) : Type 0 where
  pub ready : IsReady a
  pub not_empty : 0 < length payload
  pub one_segment : length payload ≤ mss
  pub in_window : length payload ≤ a.client_window_size
  pub fits : a.cum_write_una + length payload < 4294967296
  pub forth : b.cum_read_nxt ≡ a.cum_write_una
  pub a_fins : lookup (a.cum_write_una + length payload) a.unacked_fins ≡ none
  pub b_fins : lookup a.cum_read_nxt b.unacked_fins ≡ none
  pub b_in_order : b.early_pq ≡ []
  pub b_valid : IsValid b.read_buffer
  pub b_base : IsU32 b.base_ack
  pub b_follows : Follows b.read_buffer b.base_ack b.cum_read_nxt
  pub b_room : length payload ≤ window b.read_buffer

-- A payload that fits one segment is sent at once.
pub sending-start :
    (s : NormalSocket) (payload : List ℕ)
    → 0 < length payload
    → length payload ≤ mss
    → length payload ≤ s.client_window_size
    → sending (start s payload)
      ≡ goes_on (send_tail (start s payload)) ((start s payload).tail.packet ∷ [])
unfolding sending
sending-start s payload p m w =
    rw (lt→ltb 0 s.client_window_size (omega arith))
      (rw (lt→ltb 0 (start s payload).bytes_to_send (omega arith)) refl)

accept_in_order :
    (heap : Heap) (s : NormalSocket) (r : TcpInfo) (s' : NormalSocket)
    → has_fin r.flag ≡ false
    → window s.read_buffer ≢ 0
    → s'.early_pq ≡ []
    → on_payload s r.seq_num r.payload [] ≡ runs s' []
    → accept heap s r ≡ runs s' (send (ack_packet s' r) ∷ [])
unfolding accept
accept_in_order heap s r s' f w q o =
    simp (f, ne→not_== (window s.read_buffer) 0 w, o, early_loop-empty heap s' [] q)

-- A segment in order, with room in the buffer, is appended and acknowledged.
receive_in_order :
    (heap : Heap) (s : NormalSocket) (r : TcpInfo) (b : ReadBuffer)
    → has_ack r.flag ≡ true
    → has_fin r.flag ≡ false
    → 0 < length r.payload
    → r.seq_num ≤ s.cum_read_nxt
    → window s.read_buffer ≢ 0
    → lookup r.ack_num s.unacked_fins ≡ none
    → s.early_pq ≡ []
    → insert_payload s.read_buffer s.base_ack r.seq_num r.payload
      ≡ some (b, add32 r.seq_num (length r.payload))
    → let s' : NormalSocket = record s {
      client_window_size = r.window_size;
      read_buffer = b;
      cum_read_nxt = add32 r.seq_num (length r.payload);
    } in
      receive heap s r ≡ runs s' (send (ack_packet s' r) ∷ [])
unfolding receive receive_ack
receive_in_order heap s r b a f p h w n q e =
    simp (a, n, no_ack, le→not_ltb s.cum_read_nxt r.seq_num h)
      (accept_in_order heap (record s { client_window_size = r.window_size }) r _ f w q copied)
  where
    no_ack : (is_some (lookup r.ack_num s.unacked_nums) && length r.payload == 0) ≡ false
    no_ack = ground (arith, ne→not_== (length r.payload) 0 (λ z. omega arith))

    copied :
        on_payload (record s { client_window_size = r.window_size }) r.seq_num r.payload []
        ≡ runs
            (record s {
              client_window_size = r.window_size;
              read_buffer = b;
              cum_read_nxt = add32 r.seq_num (length r.payload);
            })
            []
    copied = unfold on_payload in rw (e, on_payload) refl

-- An acknowledgement without payload, of a number in `unackedNums`, goes to `slidingWindow`.
receive_acked :
    (heap : Heap) (s : NormalSocket) (r : TcpInfo) {n : ℕ}
    → has_ack r.flag ≡ true
    → r.payload ≡ []
    → lookup r.ack_num s.unacked_fins ≡ none
    → lookup r.ack_num s.unacked_nums ≡ some n
    → receive heap s r ≡ runs (record s { client_window_size = r.window_size }) (to_ack_chan r ∷ [])
unfolding receive receive_ack
receive_acked heap s r a p f n = simp (a, f, n, p)

-- A number that is acknowledged for the first time.
pub take_ack-first :
    (r : TcpInfo) (t : Transfer)
    → t.unacked_locked ≡ false
    → lookup r.ack_num t.sock.unacked_nums ≡ some 0
    → t.sock.cum_write_una < r.ack_num
    → take_ack r t ≡ some (advance r.ack_num (first_seen r t))
unfolding take_ack
take_ack-first r t l n h = simp (l, fresh, lt→ltb t.sock.cum_write_una r.ack_num h)
  where
    fresh : (times_seen t.sock r.ack_num == 0) ≡ true
    fresh = ap (λ o. elim o as (λ x. ℕ) [ none ↦ 0 | some k ↦ k ] == 0) n

-- A payload of one segment, not empty, that fits the window known to the sender, who has nothing in
-- flight, and the room of the other side, which expects it, has no early packets, and whose buffer
-- agrees with its sequence numbers: if no FIN of either
-- side waits for the number by which the other one acknowledges here (`unackedFINs`), and the
-- payload's sequence numbers do not wrap, it is sent at once;
-- the other side appends it to its unread bytes and acknowledges it; the acknowledgement gets
-- back to the call, which then has sent all, with nothing in flight, the next number being the
-- one that the other side expects, and knows its window.
pub exchange :
    (heap : Heap) (a b : NormalSocket) (payload : List ℕ) (ip_a ip_b : Addr)
    → CanSend a b payload
    → (t : Transfer) × (p : TcpPacket) × (sending (start a payload) ≡ goes_on t (p ∷ []))
      × (b' : NormalSocket) × (ack : TcpPacket) × (receive heap b (info_of ip_b p)
          ≡ runs b' (send ack ∷ []))
      × (unread b'.read_buffer ≡ unread b.read_buffer ++ payload)
      × (a' : NormalSocket) × (receive heap t.sock (info_of ip_a ack)
          ≡ runs a' (to_ack_chan (info_of ip_a ack) ∷ []))
      × (t' : Transfer) × (take_ack (info_of ip_a ack) (record t { sock = a' }) ≡ some t')
      × (t'.bytes_sent ≡ length payload)
      × (t'.sock.cum_write_una ≡ b'.cum_read_nxt)
      × (t'.sock.write_buffer.una ≡ t'.sock.write_buffer.nxt)
      × (t'.sock.client_window_size ≡ window b'.read_buffer)
unfolding advance
exchange heap a b payload ip_a ip_b c = (
  t,
  p,
  sending-start a payload c.not_empty c.one_segment c.in_window,
  b',
  ack,
  receive_in_order heap b (info_of ip_b p) rb refl refl (omega (arith, long, c.not_empty))
      (omega (arith, c.forth)) (λ z. omega (arith, c.b_room, c.not_empty)) c.b_fins c.b_in_order
      inserted,
  grown,
  a',
  receive_acked heap t.sock (info_of ip_a ack) refl refl
      (ap (λ (x : NormalSocket). lookup ack.ack_num x.unacked_fins) sk
        ∙ ap (λ k. lookup k a.unacked_fins) number
        ∙ c.a_fins)
      waited,
  advance (info_of ip_a ack).ack_num (first_seen (info_of ip_a ack) (record t { sock = a' })),
  take_ack-first (info_of ip_a ack) (record t { sock = a' }) (send_tail-kept (start a payload)).0
      waited (omega (arith, number, una_kept, c.not_empty)),
  omega (arith, (send_tail-kept (start a payload)).1, number, una_kept),
  refl,
  ap (λ (x : NormalSocket). add32 (sub32 ack.ack_num x.base_seq) window_size % window_size) sk
      ∙ omega (
        arith, number, c.ready.una, c.ready.nxt, c.ready.based, c.fits, c.one_segment, c.in_window,
      )
      ∙ sym (ap (λ (x : NormalSocket). x.write_buffer.nxt) sk),
  refl,
)
  where
    t : Transfer
    t = send_tail (start a payload)

    p : TcpPacket
    p = (start a payload).tail.packet

    whole : p.payload ≡ payload
    whole =
        ap (λ n. take n payload) (omega (arith, c.one_segment, c.in_window))
        ∙ take_all (length payload) payload (omega arith)

    long : length p.payload ≡ length payload
    long = ap (λ (l : List ℕ). length l) whole

    -- What the copy into the other side's buffer comes to.
    copied :
        (rb : ReadBuffer) × (insert_payload b.read_buffer b.base_ack b.cum_read_nxt payload
          ≡ some (rb, add32 b.cum_read_nxt (length payload)))
        × (unread rb ≡ unread b.read_buffer ++ payload)
        × IsValid rb
        × Follows rb b.base_ack (add32 b.cum_read_nxt (length payload))
    copied =
        insert_payload_refines b.read_buffer b.base_ack b.cum_read_nxt payload c.b_valid c.b_base
          (omega (arith, c.forth, c.fits)) c.b_follows c.b_room

    rb : ReadBuffer
    rb = copied.0

    grown : unread rb ≡ unread b.read_buffer ++ payload
    grown = copied.2

    inserted :
        insert_payload b.read_buffer b.base_ack a.cum_write_una p.payload
        ≡ some (rb, add32 a.cum_write_una (length p.payload))
    inserted =
        subst
          (λ q.
            insert_payload b.read_buffer b.base_ack a.cum_write_una q
            ≡ some (rb, add32 a.cum_write_una (length q)))
          (sym whole)
          (subst
            (λ k.
              insert_payload b.read_buffer b.base_ack k payload
              ≡ some (rb, add32 k (length payload)))
            c.forth copied.1)

    b' : NormalSocket
    b' = record b {
      client_window_size = (info_of ip_b p).window_size;
      read_buffer = rb;
      cum_read_nxt = add32 p.seq_num (length p.payload);
    }

    ack : TcpPacket
    ack = ack_packet b' (info_of ip_b p)

    a' : NormalSocket
    a' = record t.sock { client_window_size = (info_of ip_a ack).window_size }

    sk : t.sock ≡ noted (start a payload)
    sk = send_tail-sock (start a payload)

    number : ack.ack_num ≡ a.cum_write_una + length payload
    number = omega (arith, long, c.fits)

    una_kept : t.sock.cum_write_una ≡ a.cum_write_una
    una_kept = ap (λ (x : NormalSocket). x.cum_write_una) sk

    noted_number : ack.ack_num ≡ seq_nxt (noted (start a payload))
    noted_number =
        omega (
          arith, number, c.ready.una, c.ready.nxt, c.ready.based, c.fits, c.one_segment,
          c.in_window,
        )

    waited : lookup ack.ack_num t.sock.unacked_nums ≡ some 0
    waited =
        ap (λ (x : NormalSocket). lookup ack.ack_num x.unacked_nums) sk
        ∙ ap (λ k. lookup k (noted (start a payload)).unacked_nums) noted_number
        ∙ lookup-insert_self (seq_nxt (noted (start a payload))) 0 a.unacked_nums
