-- ===== src/Tcp/Socket.antt =====
-- A connection's socket (`NormalSocket`), what its threads send to each other and to the network,
-- and its state's mutex.
use ip_tcp.Base.{ℕ, Bool, List}
use ip_tcp.Pq.{EarlyPriorityQueue}
use ip_tcp.Tcp.State.{State}
use ip_tcp.Tcp.ReadBuffer.{ReadBuffer}
use ip_tcp.Tcp.WriteBuffer.{WriteBuffer}
use ip_tcp.Tcp.Segment.{SocketTableKey, TcpInfo, TcpPacket}

-- `state_locked` is whether `stateMtx` is held when no step is running. Retransmission timing is
-- left out here.
pub record NormalSocket : Type 0 where
  pub sid : ℕ  -- uint16
  pub key : SocketTableKey
  pub state : State
  pub state_locked : Bool
  pub read_buffer : ReadBuffer
  pub write_buffer : WriteBuffer
  pub base_seq : ℕ  -- uint32
  pub base_ack : ℕ  -- uint32
  pub client_window_size : ℕ  -- uint16
  pub unacked_nums : List (ℕ × ℕ)
  pub unacked_fins : List (ℕ × Bool)
  pub early_pq : EarlyPriorityQueue
  pub cum_write_una : ℕ  -- uint32
  pub cum_read_nxt : ℕ  -- uint32

pub data Effect : Type 0 where
  -- `n.HandleSend(addr, packet, 6)`
  send : TcpPacket → Effect
  -- `ackChan <- received`
  to_ack_chan : TcpInfo → Effect
  -- `finChan <- ackNum`
  to_fin_chan : ℕ → Effect
  -- the goroutine that deletes the socket after 120 seconds
  delete_later : Effect

-- What a step of a thread ends in: a new socket with what it sent, or a wait for `stateMtx`, which is
-- held; `out_of_fuel` is a loop that did not end within its fuel, and `panics` a panic.
pub data Outcome : Type 0 where
  runs : NormalSocket → List Effect → Outcome
  blocked : Outcome
  out_of_fuel : Outcome
  panics : Outcome
