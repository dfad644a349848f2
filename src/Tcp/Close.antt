-- ===== src/Tcp/Close.antt =====
-- How a connection is closed: `VClose` of a connected socket and the goroutine that it starts.
pub mod FourWay
mod Tests
use ip_tcp.Base.{ℕ, ◌+◌, ◌≡◌, Bool, true, false, List, [], ◌∷◌, ◌==◌, if◌then◌else◌, add32}
use ip_tcp.Base.Table.{insert, delete, nat_eq}
use ip_tcp.Tcp.State.{State, established, fin_wait_1, fin_wait_2, close_wait, last_ack}
use ip_tcp.Tcp.ReadBuffer.{ring_dist, window}
use ip_tcp.Tcp.Segment.{TcpPacket, flag_fin_ack}
use ip_tcp.Tcp.Socket.{NormalSocket}

-- `seq`: the number behind the last byte sent.
abbrev pub fin_seq : NormalSocket → ℕ
fin_seq s = add32 (ring_dist s.write_buffer.nxt s.write_buffer.una) s.cum_write_una

-- The FIN.
abbrev pub fin_packet : NormalSocket → TcpPacket
fin_packet s = record {
  source_ip = s.key.local_addr;
  dest_ip = s.key.remote_addr;
  payload = [];
  flags = flag_fin_ack;
  source_port = s.key.local_port;
  dest_port = s.key.remote_port;
  seq_num = fin_seq s;
  ack_num = s.cum_read_nxt;
  window = window s.read_buffer;
}

-- What `VClose` comes to: the socket after it and the FIN sent, its error, or a wait for
-- `stateMtx`, which is held.
pub data CloseResult : Type 0 where
  closing : NormalSocket → TcpPacket → CloseResult
  invalid_state : CloseResult
  blocked : CloseResult

-- The socket in its new state, which waits for the acknowledgement of the FIN.
abbrev pub fin_sent : State → NormalSocket → NormalSocket
fin_sent state s = record s {
  state = state;
  unacked_fins = insert (add32 (fin_seq s) 1) true s.unacked_fins;
}

abbrev pub close_in : State → NormalSocket → CloseResult
close_in established s = closing (fin_sent fin_wait_1 s) (fin_packet s)
close_in close_wait s = closing (fin_sent last_ack s) (fin_packet s)
close_in _ s = invalid_state

-- `VClose`
unfoldable pub v_close : NormalSocket → CloseResult
v_close s = if s.state_locked then blocked else close_in s.state s

-- What a value of `finChan` does to the goroutine: it keeps waiting, is done, having deleted the
-- socket from the stack or not, or waits for `stateMtx`.
pub data FinAcked : Type 0 where
  keeps_waiting : FinAcked
  done : NormalSocket → Bool → FinAcked
  stuck : FinAcked

abbrev pub acked_in : State → NormalSocket → FinAcked
acked_in fin_wait_1 s = done (record s { state = fin_wait_2 }) false
acked_in last_ack s = done s true
acked_in _ s = done s false

-- A round of the goroutine of `VClose`, for a FIN with number `seq_num`.
unfoldable pub fin_acked : ℕ → NormalSocket → ℕ → FinAcked
fin_acked seq_num s received_ack =
    if received_ack == add32 seq_num 1
    then if s.state_locked
      then stuck
      else acked_in s.state (record s { unacked_fins = delete received_ack s.unacked_fins })
    else keeps_waiting
