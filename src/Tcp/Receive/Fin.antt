-- ===== src/Tcp/Receive/Fin.antt =====
-- What an in-order FIN does to the connection's state and to the state's mutex.
use ip_tcp.Base.{
  ◌≤◌, ◌≡◌, ◌≢◌, refl, ◌∙◌, ◌++◌, true, false, List, [], ◌∷◌, none, ap, add32, if◌then◌else◌,
}
use ip_tcp.Base.Table.{lookup, nat_eq}
use ip_tcp.Pq.{Heap}
use ip_tcp.Tcp.State.{State, established, fin_wait_2, close_wait, time_wait}
use ip_tcp.Tcp.Segment.{TcpInfo, has_fin, has_ack}
use ip_tcp.Tcp.Socket.{NormalSocket, Effect, send, delete_later, Outcome, runs, blocked}
use ip_tcp.Tcp.Receive.Branches.{receive-accept, early_loop-empty}
use ip_tcp.Tcp.Receive.{fin_in_state, on_fin, ack_packet, accept, receive}

-- A segment with ACK and FIN, not behind `cumReadNXT`, whose acknowledgement number nothing waits
-- for.
pub record IsFin (s : NormalSocket) (r : TcpInfo) : Type 0 where
  pub acks : has_ack r.flag ≡ true
  pub ends : has_fin r.flag ≡ true
  pub no_fin : lookup r.ack_num s.unacked_fins ≡ none
  pub no_num : lookup r.ack_num s.unacked_nums ≡ none
  pub in_order : r.seq_num ≤ s.cum_read_nxt

module _ (heap : Heap) where
  -- The socket after the client's window is noted and the FIN is counted.
  abbrev pub counted : NormalSocket → TcpInfo → NormalSocket
  counted s r = record s {
    client_window_size = r.window_size;
    cum_read_nxt = add32 s.cum_read_nxt 1;
  }

  -- The socket whose state is `t` after an in-order FIN and the acknowledgement that is sent.
  abbrev pub after : NormalSocket → List Effect → TcpInfo → Outcome
  after s fx r = runs s (fx ++ send (ack_packet s r) ∷ [])

  accept_fin :
      (s : NormalSocket) (r : TcpInfo) (s' : NormalSocket) (fx : List Effect)
      → has_fin r.flag ≡ true
      → s'.early_pq ≡ []
      → on_fin (record s { cum_read_nxt = add32 s.cum_read_nxt 1 }) [] ≡ runs s' fx
      → accept heap s r ≡ after s' fx r
  unfolding accept
  accept_fin s r s' fx f q o = simp (f, o, early_loop-empty heap s' fx q)

  -- A segment with ACK and FIN, not behind `cumReadNXT`, whose acknowledgement number is neither in
  -- `unackedNums` nor in `unackedFINs`, with no early packets and the state's mutex free: the FIN is
  -- counted and acknowledged, whatever payload comes with it. It takes an
  -- established connection to CLOSE_WAIT and one in FIN_WAIT_2 to TIME_WAIT, where its socket's
  -- deletion is started, and frees the state's mutex; in every other state it leaves the mutex held.
  pub receive_fin :
      (s : NormalSocket) (r : TcpInfo)
      → IsFin s r
      → s.early_pq ≡ []
      → s.state_locked ≡ false
      → (s.state ≡ established
          → receive heap s r ≡ after (record (counted s r) { state = close_wait }) [] r)
        × (s.state ≡ fin_wait_2
            → receive heap s r
              ≡ after (record (counted s r) { state = time_wait }) (delete_later ∷ []) r)
        × (s.state ≢ established
            → s.state ≢ fin_wait_2
            → receive heap s r ≡ after (record (counted s r) { state_locked = true }) [] r)
  unfolding on_fin fin_in_state
  receive_fin s r i q l = (
    λ e.
        receive-accept heap s r i.acks i.no_fin i.no_num i.in_order
        ∙ accept_fin noted r _ [] i.ends q (simp (l, e)),
    λ e.
        receive-accept heap s r i.acks i.no_fin i.no_num i.in_order
        ∙ accept_fin noted r _ (delete_later ∷ []) i.ends q (simp (l, e)),
    λ a b.
        receive-accept heap s r i.acks i.no_fin i.no_num i.in_order
        ∙ accept_fin noted r _ [] i.ends q (
            ap (λ l. if l then blocked else fin_in_state s.state (counted s r) []) l
            ∙ others s.state (counted s r) a b),
  )
    where
      noted : NormalSocket
      noted = record s { client_window_size = r.window_size }

      others :
          (t : State) (s' : NormalSocket)
          → t ≢ established
          → t ≢ fin_wait_2
          → fin_in_state t s' [] ≡ runs (record s' { state_locked = true }) []
      others established s' a b = absurd (a refl)
      others fin_wait_2 s' a b = absurd (b refl)
      others _ s' a b = refl

  -- While the state's mutex is held, a round on an in-order FIN waits for it.
  pub receive_fin_blocked :
      (s : NormalSocket) (r : TcpInfo)
      → IsFin s r
      → s.state_locked ≡ true
      → receive heap s r ≡ blocked
  unfolding on_fin accept
  receive_fin_blocked s r i l =
      receive-accept heap s r i.acks i.no_fin i.no_num i.in_order ∙ simp (i.ends, l)
