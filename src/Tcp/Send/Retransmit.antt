-- ===== src/Tcp/Send/Retransmit.antt =====
-- `retransThread`: what the end of the retransmission timer does.
use ip_tcp.Base.{ℕ, suc, true, List, [], ◌∷◌, Option, none, some, ◌==◌, if◌then◌else◌}
use ip_tcp.Tcp.ReadBuffer.{window}
use ip_tcp.Tcp.Segment.{TcpPacket}
use ip_tcp.Tcp.Socket.{NormalSocket}
use ip_tcp.Tcp.Send.{WindowNode, Queue, from_dummy, from_head, gone, Transfer}

-- A node with its packet brought up to date, and sent.
abbrev pub refreshed : NormalSocket → WindowNode → WindowNode
refreshed s x = record x {
  packet = record x.packet { ack_num = s.cum_read_nxt; window = window s.read_buffer };
  sent = true;
  retrans = true;
}

-- The nodes after a retransmission.
pub record Resent : Type 0 where
  pub before : List WindowNode
  pub tail : WindowNode
  pub node : WindowNode

-- The first node, sent again if it was sent.
abbrev pub resend : NormalSocket → List WindowNode → WindowNode → Option Resent
resend s [] tail =
    if tail.sent
    then some (record { before = []; tail = refreshed s tail; node = refreshed s tail })
    else none
resend s (x ∷ before) tail =
    if x.sent
    then some (record { before = refreshed s x ∷ before; tail = tail; node = refreshed s x })
    else none

-- The end of the timer: nothing is sent, or a packet with the index and the count of retransmissions
-- after it, or the connection is closed, with `winLock` held for good.
pub data Tick : Type 0 where
  idle : Tick
  resent : Transfer → TcpPacket → ℕ → ℕ → Tick
  gives_up : Tick

abbrev pub uncounted : Transfer → (List WindowNode → Queue) → ℕ → ℕ → Option Resent → Tick
uncounted t queue last_index cnt none = idle
uncounted t queue last_index cnt (some r) =
    resent (record t { queue = queue r.before; tail = r.tail }) r.node.packet last_index cnt

abbrev pub counted : Transfer → ℕ → ℕ → Option Resent → Tick
counted t last_index cnt none = idle
counted t last_index cnt (some r) =
    let cnt' = if last_index == r.node.index then suc cnt else 1 in
    if cnt' == 10
    then gives_up
    else resent (record t { queue = from_head r.before; tail = r.tail }) r.node.packet r.node.index
        cnt'

-- What is sent again: the head, or the node behind a head that expects 0. `last_index` is
-- `uint32(last_index)`.
abbrev pub resend_first : Transfer → ℕ → ℕ → Queue → Tick
resend_first t last_index cnt (from_dummy before) =
    uncounted t from_dummy last_index cnt (resend t.sock before t.tail)
resend_first t last_index cnt (from_head []) =
    if t.tail.expected_ack == 0 then idle else counted t last_index cnt (resend t.sock [] t.tail)
resend_first t last_index cnt (from_head (x ∷ before)) =
    if x.expected_ack == 0
    then uncounted t (λ b. from_head (x ∷ b)) last_index cnt (resend t.sock before t.tail)
    else counted t last_index cnt (resend t.sock (x ∷ before) t.tail)
resend_first t last_index cnt gone = idle

-- What `retransThread` does when its ticker fires.
unfoldable pub tick : Transfer → ℕ → ℕ → Tick
tick t last_index cnt =
    if t.sock.client_window_size == 0 then idle else resend_first t last_index cnt t.queue
