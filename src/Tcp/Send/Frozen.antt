-- ===== src/Tcp/Send/Frozen.antt =====
-- What a duplicate acknowledgement does to a call of `slidingWindow` for good.
use ip_tcp.Base.{
  ℕ, suc, ◌≡◌, ◌≢◌, refl, sym, ap, ◌∙◌, subst, Bool, true, false, ◌&&◌, List, [], ◌∷◌, ◌++◌,
  append-nil, Option, none, some, some_inj, ne→not_==, ◌==◌, if◌then◌else◌, ltb,
}
use ip_tcp.Tcp.Segment.{TcpInfo, TcpPacket}
use ip_tcp.Tcp.Send.{
  WindowNode, Queue, from_dummy, from_head, gone, Transfer, Part, goes_on, blocked, panics,
  has_room, send_in_room, sending,
}
use ip_tcp.Tcp.Send.Acks.{times_seen, take_ack}
use ip_tcp.Tcp.Send.Retransmit.{
  Tick, idle, resent, gives_up, Resent, uncounted, counted, resend, resend_first, tick,
}
use ip_tcp.Tcp.Send.Steps.{Run, Step, sends, acks, receives, resends, Reach, here, next}

-- `unackedMtx` is held, and as much is acknowledged as `una` and `n` say.
abbrev Stuck : ℕ → ℕ → Transfer → Type 0
Stuck una n t = (t.unacked_locked ≡ true) × (t.sock.cum_write_una ≡ una) × (t.bytes_sent ≡ n)

-- With the mutex held the loop sends nothing.
abbrev Sends : ℕ → ℕ → Part → Type 0
Sends una n (goes_on t out) = Stuck una n t × (out ≡ [])
Sends una n blocked = Unit
Sends una n panics = Unit

sending-Stuck : (una n : ℕ) (t : Transfer) → Stuck una n t → Sends una n (sending t)
unfolding sending
sending-Stuck una n t s =
    elim (ltb 0 t.sock.client_window_size && ltb 0 t.bytes_to_send)
      as (λ b.
        Sends una n (if b then send_in_room t (has_room t.queue t.tail.index) else goes_on t [])) [
          | true ↦ in_room (has_room t.queue t.tail.index)
          | false ↦ (s, refl)
        ]
  where
    in_room : (o : Option Bool) → Sends una n (send_in_room t o)
    in_room none = tt
    in_room (some false) = (s, refl)
    in_room (some true) = rw (s.0) tt

-- The timer keeps the mutex and what is acknowledged.
abbrev Ticks : ℕ → ℕ → Tick → Type 0
Ticks una n idle = Unit
Ticks una n (resent t p last_index cnt) = Stuck una n t
Ticks una n gives_up = Unit

module _ (una n : ℕ) (t : Transfer) (s : Stuck una n t) (last_index cnt : ℕ) where
  uncounted-Stuck :
      (queue : List WindowNode → Queue) (o : Option Resent)
      → Ticks una n (uncounted t queue last_index cnt o)
  uncounted-Stuck queue none = tt
  uncounted-Stuck queue (some r) = s

  counted-Stuck : (o : Option Resent) → Ticks una n (counted t last_index cnt o)
  counted-Stuck none = tt
  counted-Stuck (some r) =
      let cnt' = if last_index == r.node.index then suc cnt else 1 in
      elim (cnt' == 10)
        as (λ b. Ticks una n (
          if b
          then gives_up
          else resent (record t { queue = from_head r.before; tail = r.tail }) r.node.packet
              r.node.index cnt')) [ true ↦ tt | false ↦ s ]

  resend_first-Stuck : (q : Queue) → Ticks una n (resend_first t last_index cnt q)
  resend_first-Stuck (from_dummy before) = uncounted-Stuck from_dummy (resend t.sock before t.tail)
  resend_first-Stuck (from_head []) =
      elim (t.tail.expected_ack == 0)
        as (λ b.
          Ticks una n (if b then idle else counted t last_index cnt (resend t.sock [] t.tail))) [
            | true ↦ tt
            | false ↦ counted-Stuck (resend t.sock [] t.tail)
          ]
  resend_first-Stuck (from_head (x ∷ before)) =
      elim (x.expected_ack == 0)
        as (λ b. Ticks una n (
          if b
          then uncounted t (λ l. from_head (x ∷ l)) last_index cnt (resend t.sock before t.tail)
          else counted t last_index cnt (resend t.sock (x ∷ before) t.tail))) [
            | true ↦ uncounted-Stuck (λ l. from_head (x ∷ l)) (resend t.sock before t.tail)
            | false ↦ counted-Stuck (resend t.sock (x ∷ before) t.tail)
          ]
  resend_first-Stuck gone = tt

  tick-Stuck : Ticks una n (tick t last_index cnt)
  unfolding tick
  tick-Stuck =
      elim (t.sock.client_window_size == 0)
        as (λ b. Ticks una n (if b then idle else resend_first t last_index cnt t.queue)) [
          | true ↦ tt
          | false ↦ resend_first-Stuck t.queue
        ]

-- A run whose mutex is held, and that sent nothing but `out` for the first time.
abbrev Frozen : ℕ → ℕ → List TcpPacket → Run → Type 0
Frozen una n out r = Stuck una n r.transfer × (r.sent ≡ out)

locked_waits : (ack : TcpInfo) (t : Transfer) → t.unacked_locked ≡ true → take_ack ack t ≡ none
unfolding take_ack
locked_waits ack t locked = rw (locked) refl

Step-Frozen :
    (una n : ℕ) (out : List TcpPacket) {r r' : Run}
    → Frozen una n out r
    → Step r r'
    → Frozen una n out r'
Step-Frozen una n out (stuck, same) (sends r t o e) =
    let (kept, nothing) = subst (Sends una n) e (sending-Stuck una n r.transfer stuck) in
    (kept, ap (λ l. r.sent ++ l) nothing ∙ append-nil r.sent ∙ same)
Step-Frozen una n out (stuck, same) (acks r ack k t known e) =
    absurd (unequal (sym (locked_waits ack r.transfer stuck.0) ∙ e))
  where
    unequal : {x : Transfer} → none ≡ some x → ⊥
    unequal h = cc
Step-Frozen una n out ((locked, acked, counted), same) (receives r s u) =
    ((locked, u.una_same ∙ acked, counted), same)
Step-Frozen una n out (stuck, same) (resends r l c t p l' c' e) =
    (subst (Ticks una n) e (tick-Stuck una n r.transfer stuck l c), same)

Reach-Frozen :
    (una n : ℕ) (out : List TcpPacket) {r r' : Run}
    → Frozen una n out r
    → Reach r r'
    → Frozen una n out r'
Reach-Frozen una n out f here = f
Reach-Frozen una n out f (next h step) = Step-Frozen una n out (Reach-Frozen una n out f h) step

-- Once a call has taken a duplicate acknowledgement, whatever the loop, the receiver and the
-- retransmission timer then do, in any order, as long as no zero window is probed: the call sends no
-- further segment for the first time, takes no further acknowledgement, and counts no byte more as
-- acknowledged.
pub duplicate_ack_freezes :
    (r : Run) (ack : TcpInfo) (t : Transfer) {r' : Run}
    → r.transfer.unacked_locked ≡ false
    → times_seen r.transfer.sock ack.ack_num ≢ 0
    → take_ack ack r.transfer ≡ some t
    → Reach (record r { transfer = t }) r'
    → (r'.sent ≡ r.sent)
      × ((a : TcpInfo) → take_ack a r'.transfer ≡ none)
      × (r'.transfer.sock.cum_write_una ≡ r.transfer.sock.cum_write_una)
      × (r'.transfer.bytes_sent ≡ r.transfer.bytes_sent)
unfolding take_ack
duplicate_ack_freezes r ack t {r'} free seen taken reach =
    let ((locked, acked, counted), same) =
      Reach-Frozen r.transfer.sock.cum_write_una r.transfer.bytes_sent r.sent
        (
          subst (Stuck r.transfer.sock.cum_write_una r.transfer.bytes_sent) held (refl, refl, refl),
          refl,
        )
        reach in
    (same, λ a. locked_waits a r'.transfer locked, acked, counted)
  where
    held : record r.transfer { unacked_locked = true } ≡ t
    held = some_inj (
        sym (rw free (rw (ne→not_== (times_seen r.transfer.sock ack.ack_num) 0 seen) refl)) ∙ taken)
