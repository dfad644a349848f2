-- ===== src/Tcp/Receive/Reassembly/Segments.antt =====
-- What a whole round of `ReceiverThread` does with a segment of the stream.
use ip_tcp.Base.{
  ℕ, ◌+◌, ◌≤◌, ◌≡◌, ◌≢◌, sym, ◌∷◌, ap, subst, inl, inr, true, false, ◌&&◌, Bool-cases, ne→not_==,
  ==_iff, ℕ_discrete, ltb, not_ltb→le, le→not_ltb, ◌==◌, List, [], none, arith, length,
}
use ip_tcp.Base.Table.{lookup, nat_eq}
use native.Mathlib.Nat.{le_refl}
use mathlib.Core.List.{Memᴰ}
use ip_tcp.Base.Members.{every-Perm}
use ip_tcp.Pq.{EarlyPacket, Heap}
use ip_tcp.Tcp.ReadBuffer.{window}
use ip_tcp.Tcp.Segment.{TcpInfo, has_fin, has_ack}
use ip_tcp.Tcp.Socket.{NormalSocket, Outcome}
use ip_tcp.Tcp.Receive.{is_some, put_early, on_payload, accept, receive_ack, receive}
use ip_tcp.Tcp.Receive.Ends.{Ends, Ends->>=, Ends-map}
use ip_tcp.Tcp.Receive.Reassembly.{
  IsEarly-prop, Carries, IsEarly, Synced, Synced-same, on_payload-Synced, drain-Synced,
}

module _ (stream : ℕ → ℕ) (first : ℕ) (got : List ℕ) (heap : Heap) where
  -- In order, with room in the buffer: the payload is taken whole.
  accept_takes :
      (s : NormalSocket) (r : TcpInfo)
      → has_fin r.flag ≡ false
      → window s.read_buffer ≢ 0
      → s.cum_read_nxt ≡ r.seq_num
      → Carries stream first r.seq_num r.payload
      → r.seq_num + length r.payload ≤ s.cum_read_nxt + window s.read_buffer
      → Synced stream first got s.cum_read_nxt s
      → Ends (Synced stream first got (r.seq_num + length r.payload)) (accept heap s r)
  unfolding accept
  accept_takes s r f w e c fits y =
      rw (f, accept)
        (rw (ne→not_== (window s.read_buffer) 0 w) (
          Ends->>= Taken (Synced stream first got (r.seq_num + length r.payload))
            (on_payload s r.seq_num r.payload []) _
            (subst
              (λ k.
                Ends
                  (λ s'.
                    Synced stream first got (k + length r.payload) s' × (s'.early_pq ≡ s.early_pq))
                  (on_payload s k r.payload []))
              e taken)
            (λ s' fx h.
              drain-Synced stream first got heap (r.seq_num + length r.payload) s' r fx h.0)))
    where
      Taken : NormalSocket → Type 0
      Taken s' =
          Synced stream first got (r.seq_num + length r.payload) s' × (s'.early_pq ≡ s.early_pq)

      taken :
          Ends
            (λ s'.
              Synced stream first got (s.cum_read_nxt + length r.payload) s'
              × (s'.early_pq ≡ s.early_pq))
            (on_payload s s.cum_read_nxt r.payload [])
      taken =
          on_payload-Synced stream first got s.cum_read_nxt s r.payload [] y
            (subst (λ k. Carries stream first k r.payload) (sym e) c) (omega arith)

  weaker :
      (lo lo' : ℕ) (o : Outcome)
      → lo' ≤ lo
      → Ends (Synced stream first got lo) o
      → Ends (Synced stream first got lo') o
  weaker lo lo' o h e =
      Ends-map (Synced stream first got lo) (Synced stream first got lo') o e
        (λ s y. Synced-same stream first got lo lo' s s.state s.state_locked s.early_pq h y.early y)

  -- With no room the payload is not taken.
  accept-Synced :
      (s : NormalSocket) (r : TcpInfo)
      → has_fin r.flag ≡ false
      → s.cum_read_nxt ≡ r.seq_num
      → Carries stream first r.seq_num r.payload
      → r.seq_num + length r.payload ≤ s.cum_read_nxt + window s.read_buffer
      → Synced stream first got s.cum_read_nxt s
      → Ends (Synced stream first got s.cum_read_nxt) (accept heap s r)
  accept-Synced s r f e c fits y = elim (ℕ_discrete (window s.read_buffer) 0) [
    | yes z ↦ unfold accept in rw (f, accept) (rw ((==_iff (window s.read_buffer) 0).1 z) y)
    | no w ↦
        weaker (r.seq_num + length r.payload) s.cum_read_nxt (accept heap s r) (omega arith)
          (accept_takes s r f w e c fits y)
  ]

  -- A segment behind `cumReadNXT` joins the early packets.
  put_early-Synced :
      (s : NormalSocket) (r : TcpInfo)
      → Carries stream first r.seq_num r.payload
      → r.seq_num + length r.payload ≤ s.cum_read_nxt + window s.read_buffer
      → Synced stream first got s.cum_read_nxt s
      → Ends
          (Synced stream first got s.cum_read_nxt)
          (put_early heap s (record { priority = r.seq_num; flags = r.flag; payload = r.payload }))
  unfolding put_early
  put_early-Synced s r c fits y =
      let (q, added, perm) = heap.push_adds e s.early_pq in
      rw (added, put_early)
        (Synced-same stream first got _ s.cum_read_nxt s s.state s.state_locked q
          (le_refl s.cum_read_nxt)
          (every-Perm (IsEarly stream first s) (IsEarly-prop stream first s) perm among) y)
    where
      e : EarlyPacket
      e = record { priority = r.seq_num; flags = r.flag; payload = r.payload }

      among : (x : EarlyPacket) → Memᴰ x (e ∷ s.early_pq) → IsEarly stream first s x
      among x (Memᴰ.head same) =
          subst (IsEarly stream first s) (sym same) (record { carries = λ h. c; fits = λ h. fits })
      among x (Memᴰ.tail m) = y.early x m

  receive_ack-Synced :
      (s : NormalSocket) (r : TcpInfo)
      → has_fin r.flag ≡ false
      → s.cum_read_nxt ≤ r.seq_num
      → Carries stream first r.seq_num r.payload
      → r.seq_num + length r.payload ≤ s.cum_read_nxt + window s.read_buffer
      → Synced stream first got s.cum_read_nxt s
      → Ends (Synced stream first got s.cum_read_nxt) (receive_ack heap s r)
  unfolding receive_ack
  receive_ack-Synced s r f le c fits y =
      elim (Bool-cases (is_some (lookup r.ack_num s.unacked_fins))) [
        | inl t ↦ rw (t, receive_ack) y
        | inr n ↦
            elim (Bool-cases (is_some (lookup r.ack_num s.unacked_nums) && length r.payload == 0)) [
              | inl t ↦ rw (n, receive_ack) (rw t y)
              | inr m ↦ elim (Bool-cases (ltb s.cum_read_nxt r.seq_num)) [
                | inl t ↦ rw (n, receive_ack) (rw m (rw t (put_early-Synced s r c fits y)))
                | inr e ↦
                    rw (n, receive_ack)
                      (rw m (
                        rw e (
                          accept-Synced s r f (omega (arith, not_ltb→le s.cum_read_nxt r.seq_num e))
                            c fits y)))
              ]
            ]
      ]

  noted-Synced :
      (lo w : ℕ) (s : NormalSocket)
      → Synced stream first got lo s
      → Synced stream first got lo (record s { client_window_size = w })
  noted-Synced lo w s y = record {
    valid = y.valid;
    base_fits = y.base_fits;
    follows = y.follows;
    cum_fits = y.cum_fits;
    started = y.started;
    reached = y.reached;
    in_order = y.in_order;
    early = λ e m. record { carries = (y.early e m).carries; fits = (y.early e m).fits };
  }

  -- A segment of the peer's stream, with no FIN, that starts at `cumReadNXT` or behind it and ends
  -- within the advertised window: the round ends (or waits for the state's mutex), neither panics
  -- nor runs out of fuel, and the bytes read before, with those now unread, are again exactly the
  -- stream from its start up to `cumReadNXT`, which does not go back.
  pub receive-Synced :
      (s : NormalSocket) (r : TcpInfo)
      → has_fin r.flag ≡ false
      → s.cum_read_nxt ≤ r.seq_num
      → Carries stream first r.seq_num r.payload
      → r.seq_num + length r.payload ≤ s.cum_read_nxt + window s.read_buffer
      → Synced stream first got s.cum_read_nxt s
      → Ends (Synced stream first got s.cum_read_nxt) (receive heap s r)
  unfolding receive
  receive-Synced s r f le c fits y = elim (Bool-cases (has_ack r.flag)) [
    | inl a ↦
        rw (a, receive)
          (receive_ack-Synced s' r f le c fits (noted-Synced s.cum_read_nxt r.window_size s y))
    | inr n ↦ rw (n, receive) y
  ]
    where
      s' : NormalSocket
      s' = record s { client_window_size = r.window_size }

  -- The same for a segment with ACK and payload that starts at `cumReadNXT` while the buffer has
  -- room and no FIN of the socket waits for its acknowledgement number: `cumReadNXT` gets to the end
  -- of the payload at least.
  pub receive_takes :
      (s : NormalSocket) (r : TcpInfo)
      → has_ack r.flag ≡ true
      → has_fin r.flag ≡ false
      → lookup r.ack_num s.unacked_fins ≡ none
      → length r.payload ≢ 0
      → window s.read_buffer ≢ 0
      → s.cum_read_nxt ≡ r.seq_num
      → Carries stream first r.seq_num r.payload
      → r.seq_num + length r.payload ≤ s.cum_read_nxt + window s.read_buffer
      → Synced stream first got s.cum_read_nxt s
      → Ends (Synced stream first got (r.seq_num + length r.payload)) (receive heap s r)
  unfolding receive
  receive_takes s r a f n p w e c fits y =
      rw (a, receive)
        (unfold receive_ack in
          rw (ap is_some n, receive_ack)
            (rw (no_ack, le→not_ltb s.cum_read_nxt r.seq_num (omega arith))
              (accept_takes s' r f w e c fits (noted-Synced s.cum_read_nxt r.window_size s y))))
    where
      s' : NormalSocket
      s' = record s { client_window_size = r.window_size }

      no_ack : (is_some (lookup r.ack_num s.unacked_nums) && length r.payload == 0) ≡ false
      no_ack = ground (arith, ne→not_== (length r.payload) 0 p)
