-- ===== src/Tcp/Close/FourWay.antt =====
-- Closing in both directions, one after the other.
use ip_tcp.Base.{
  ℕ, ◌≤◌, ◌≡◌, refl, sym, ap, ◌∙◌, Bool, true, false, List, [], ◌∷◌, none, some, ==_iff, add32,
  arith,
}
use ip_tcp.Base.Table.{lookup, insert, delete, nat_eq, lookup-insert_self, lookup-delete_self}
use ip_tcp.Netip.{Addr}
use ip_tcp.Pq.{Heap}
use ip_tcp.Tcp.State.{established, fin_wait_1, fin_wait_2, close_wait, last_ack, time_wait}
use ip_tcp.Tcp.Segment.{TcpInfo, TcpPacket, has_ack, has_fin}
use ip_tcp.Tcp.Socket.{NormalSocket, send, to_ack_chan, to_fin_chan, delete_later, runs}
use ip_tcp.Tcp.Wire.RoundTrip.{info_of}
use ip_tcp.Tcp.Receive.{receive, receive_ack, ack_packet}
use ip_tcp.Tcp.Receive.Fin.{IsFin, counted, receive_fin}
use ip_tcp.Tcp.Close.{fin_seq, fin_packet, fin_sent, closing, v_close, done, fin_acked, acked_in}

-- A segment that acknowledges a FIN goes to the goroutine of `VClose`.
receive_fin_ack :
    (heap : Heap) (s : NormalSocket) (r : TcpInfo) {b : Bool}
    → has_ack r.flag ≡ true
    → lookup r.ack_num s.unacked_fins ≡ some b
    → receive heap s r
      ≡ runs (record s { client_window_size = r.window_size }) (to_fin_chan r.ack_num ∷ [])
unfolding receive receive_ack
receive_fin_ack heap s r a f = simp (a, f)

-- A FIN that acknowledges a number in `unackedNums` is taken for an acknowledgement of data: the
-- connection's state and `cumReadNXT` stay, and no acknowledgement is sent. Such numbers are never
-- taken out of the map, so this is what a FIN is taken for once data was sent to its sender and the
-- last of it acknowledged. (No FIN of the socket itself waits for the number.)
pub receive_fin_swallowed :
    (heap : Heap) (s : NormalSocket) (r : TcpInfo) {n : ℕ}
    → has_ack r.flag ≡ true
    → has_fin r.flag ≡ true
    → r.payload ≡ []
    → lookup r.ack_num s.unacked_fins ≡ none
    → lookup r.ack_num s.unacked_nums ≡ some n
    → receive heap s r ≡ runs (record s { client_window_size = r.window_size }) (to_ack_chan r ∷ [])
unfolding receive receive_ack
receive_fin_swallowed heap s r a fin p f n = simp (a, f, n, p)

v_close-established :
    (s : NormalSocket)
    → s.state_locked ≡ false
    → s.state ≡ established
    → v_close s ≡ closing (fin_sent fin_wait_1 s) (fin_packet s)
unfolding v_close
v_close-established s l e = simp (l, e)

v_close-close_wait :
    (s : NormalSocket)
    → s.state_locked ≡ false
    → s.state ≡ close_wait
    → v_close s ≡ closing (fin_sent last_ack s) (fin_packet s)
unfolding v_close
v_close-close_wait s l e = simp (l, e)

lookup-empty : (n : ℕ) {t : List (ℕ × Bool)} → t ≡ [] → lookup n t ≡ none
unfolding lookup
lookup-empty n e = ap (lookup n) e

lookup-insert_at : {n m : ℕ} (t : List (ℕ × Bool)) → n ≡ m → lookup n (insert m true t) ≡ some true
lookup-insert_at {m = m} t e = ap (λ k. lookup k (insert m true t)) e ∙ lookup-insert_self m true t

fin_acked-in_state :
    (n m : ℕ) (s : NormalSocket)
    → m ≡ add32 n 1
    → s.state_locked ≡ false
    → fin_acked n s m ≡ acked_in s.state (record s { unacked_fins = delete m s.unacked_fins })
unfolding fin_acked
fin_acked-in_state n m s e l = simp (l, (==_iff m (add32 n 1)).1 e)

-- Two established sockets with nothing in flight: each expects the number that the other sends next,
-- and neither has closed.
pub record IsQuiet (a b : NormalSocket) : Type 0 where
  pub a_established : a.state ≡ established
  pub b_established : b.state ≡ established
  pub a_unlocked : a.state_locked ≡ false
  pub b_unlocked : b.state_locked ≡ false
  pub forth : fin_seq a ≡ b.cum_read_nxt
  pub back : fin_seq b ≡ a.cum_read_nxt
  pub a_in_order : a.early_pq ≡ []
  pub b_in_order : b.early_pq ≡ []
  pub a_fins : a.unacked_fins ≡ []
  pub b_fins : b.unacked_fins ≡ []

-- One side closes, then the other, and every segment arrives: each FIN is acknowledged and each
-- acknowledgement ends the wait for it. The side that closed first ends in TIME_WAIT, with its
-- deletion started; the other one ends in LAST_ACK and is deleted.
abbrev pub EndsBoth : Heap → NormalSocket → NormalSocket → Addr → Addr → Type 0
EndsBoth heap a b ip_a ip_b =
    (a₁ : NormalSocket) × (fin_a : TcpPacket) × (v_close a ≡ closing a₁ fin_a)
    × (b₁ : NormalSocket) × (ack_b : TcpPacket) × (receive heap b (info_of ip_b fin_a)
        ≡ runs b₁ (send ack_b ∷ []))
    × (b₁.state ≡ close_wait)
    × (a₂ : NormalSocket) × (n : ℕ) × (receive heap a₁ (info_of ip_a ack_b)
        ≡ runs a₂ (to_fin_chan n ∷ []))
    × (a₃ : NormalSocket) × (fin_acked fin_a.seq_num a₂ n ≡ done a₃ false)
    × (a₃.state ≡ fin_wait_2)
    × (b₂ : NormalSocket) × (fin_b : TcpPacket) × (v_close b₁ ≡ closing b₂ fin_b)
    × (a₄ : NormalSocket) × (ack_a : TcpPacket) × (receive heap a₃ (info_of ip_a fin_b)
        ≡ runs a₄ (delete_later ∷ send ack_a ∷ []))
    × (a₄.state ≡ time_wait)
    × (b₃ : NormalSocket) × (m : ℕ) × (receive heap b₂ (info_of ip_b ack_a)
        ≡ runs b₃ (to_fin_chan m ∷ []))
    × (b₄ : NormalSocket) × (fin_acked fin_b.seq_num b₃ m ≡ done b₄ true)
    × (b₄.state ≡ last_ack)

close_both :
    (heap : Heap) (a b : NormalSocket) (ip_a ip_b : Addr)
    → IsQuiet a b
    → lookup (add32 (fin_seq a) 1) a.unacked_nums ≡ none
    → lookup (fin_seq b) b.unacked_nums ≡ none
    → EndsBoth heap a b ip_a ip_b
close_both heap a b ip_a ip_b q a_nums b_nums = (
  _,
  _,
  v_close-established a q.a_unlocked q.a_established,
  _,
  _,
  (receive_fin heap b to_b b_fin q.b_in_order q.b_unlocked).0 q.b_established,
  refl,
  _,
  _,
  receive_fin_ack heap a₁ ack_b refl
      (lookup-insert_at a.unacked_fins (ap (λ n. add32 n 1) (sym q.forth))),
  _,
  fin_acked-in_state (fin_seq a) ack_b.ack_num a₂ (ap (λ n. add32 n 1) (sym q.forth)) q.a_unlocked,
  refl,
  _,
  _,
  v_close-close_wait b₁ q.b_unlocked refl,
  _,
  _,
  (receive_fin heap a₃ to_a a_fin q.a_in_order q.a_unlocked).1 refl,
  refl,
  _,
  _,
  receive_fin_ack heap b₂ ack_a refl
      (lookup-insert_at b.unacked_fins (ap (λ n. add32 n 1) (sym q.back))),
  _,
  fin_acked-in_state (fin_seq b) ack_a.ack_num b₃ (ap (λ n. add32 n 1) (sym q.back)) q.b_unlocked,
  refl,
)
  where
    leq : {n m : ℕ} → n ≡ m → n ≤ m
    leq e = omega arith

    to_b : TcpInfo
    to_b = info_of ip_b (fin_packet a)

    b₁ : NormalSocket
    b₁ = record (counted heap b to_b) { state = close_wait }

    a₁ : NormalSocket
    a₁ = fin_sent fin_wait_1 a

    ack_b : TcpInfo
    ack_b = info_of ip_a (ack_packet b₁ to_b)

    a₂ : NormalSocket
    a₂ = record a₁ { client_window_size = ack_b.window_size }

    a₃ : NormalSocket
    a₃ = record a₂ { state = fin_wait_2; unacked_fins = delete ack_b.ack_num a₂.unacked_fins }

    to_a : TcpInfo
    to_a = info_of ip_a (fin_packet b₁)

    b₂ : NormalSocket
    b₂ = fin_sent last_ack b₁

    ack_a : TcpInfo
    ack_a = info_of ip_b (ack_packet (record (counted heap a₃ to_a) { state = time_wait }) to_a)

    b₃ : NormalSocket
    b₃ = record b₂ { client_window_size = ack_a.window_size }

    b_fin : IsFin b to_b
    b_fin = record {
      acks = refl;
      ends = refl;
      no_fin = lookup-empty a.cum_read_nxt q.b_fins;
      no_num = ap (λ n. lookup n b.unacked_nums) (sym q.back) ∙ b_nums;
      in_order = leq q.forth;
    }

    a_fin : IsFin a₃ to_a
    a_fin = record {
      acks = refl;
      ends = refl;
      no_fin = lookup-delete_self ack_b.ack_num a₂.unacked_fins;
      no_num = ap (λ n. lookup (add32 n 1) a.unacked_nums) (sym q.forth) ∙ a_nums;
      in_order = leq q.back;
    }

-- Of two established sockets with nothing in flight and no early packets, each of which expects the
-- number that the other sends next, has its state's mutex free and waits for no FIN to be
-- acknowledged, one closes, then the other, and every segment arrives. If neither has in `unackedNums` the
-- number that the other's FIN acknowledges, each FIN is acknowledged and each acknowledgement ends
-- the wait for it; the side that closed first ends in TIME_WAIT, with its deletion started, and the
-- other one ends in LAST_ACK and is deleted. If the second side has that number, as it does once data
-- that it sent was acknowledged, since no number is taken out of the map, it takes the FIN for an
-- acknowledgement of data: it does not acknowledge it, and its state and `cumReadNXT` stay.
pub four_way_close :
    (heap : Heap) (a b : NormalSocket) (ip_a ip_b : Addr)
    → IsQuiet a b
    → (lookup (add32 (fin_seq a) 1) a.unacked_nums ≡ none
        → lookup (fin_seq b) b.unacked_nums ≡ none
        → EndsBoth heap a b ip_a ip_b)
      × ((n : ℕ)
          → lookup (fin_seq b) b.unacked_nums ≡ some n
          → (a₁ b₁ : NormalSocket) × (fin_a : TcpPacket) × (v_close a ≡ closing a₁ fin_a)
            × (receive heap b (info_of ip_b fin_a)
                ≡ runs b₁ (to_ack_chan (info_of ip_b fin_a) ∷ []))
            × (b₁.state ≡ b.state)
            × (b₁.cum_read_nxt ≡ b.cum_read_nxt))
four_way_close heap a b ip_a ip_b q = (
  close_both heap a b ip_a ip_b q,
  λ n waits. (
    _,
    record b { client_window_size = (info_of ip_b (fin_packet a)).window_size },
    _,
    v_close-established a q.a_unlocked q.a_established,
    receive_fin_swallowed heap b (info_of ip_b (fin_packet a)) refl refl refl
        (lookup-empty a.cum_read_nxt q.b_fins)
        (ap (λ k. lookup k b.unacked_nums) (sym q.back) ∙ waits),
    refl,
    refl,
  ),
)
