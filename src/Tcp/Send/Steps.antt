-- ===== src/Tcp/Send/Steps.antt =====
-- The steps of a call of `slidingWindow`, of the receiver and of the retransmission timer.
use ip_tcp.Base.{ℕ, ◌≡◌, List, [], ◌∷◌, ◌++◌, some}
use ip_tcp.Base.Table.{lookup, nat_eq}
use ip_tcp.Tcp.Segment.{TcpInfo, TcpPacket}
use ip_tcp.Tcp.Socket.{NormalSocket}
use ip_tcp.Tcp.Send.{Transfer, goes_on, sending}
use ip_tcp.Tcp.Send.Acks.{take_ack, unskip}
use ip_tcp.Tcp.Send.Retransmit.{resent, tick}

-- A call with the segments that it has sent, and those that were sent again.
pub record Run : Type 0 where
  pub transfer : Transfer
  pub sent : List TcpPacket
  pub again : List TcpPacket

-- What the other threads leave as it is.
pub record Undisturbed (s s' : NormalSocket) : Type 0 where
  pub write_buffer_same : s'.write_buffer ≡ s.write_buffer
  pub base_seq_same : s'.base_seq ≡ s.base_seq
  pub una_same : s'.cum_write_una ≡ s.cum_write_una
  pub nums_same : s'.unacked_nums ≡ s.unacked_nums

-- `sends` is the part of a round before `ackChan`. `acks` takes one acknowledgement from it, of a
-- number in `unackedNums`, since `ReceiverThread` puts no other there. `receives` is any work of that
-- thread; it may set the client's window to anything. `resends` is the timer.
pub data Step : Run → Run → Type 0 where
  sends :
      (r : Run) (t : Transfer) (out : List TcpPacket)
      → sending r.transfer ≡ goes_on t out
      → Step r (record r { transfer = unskip t; sent = r.sent ++ out })
  acks :
      (r : Run) (ack : TcpInfo) (k : ℕ) (t : Transfer)
      → lookup ack.ack_num r.transfer.sock.unacked_nums ≡ some k
      → take_ack ack r.transfer ≡ some t
      → Step r (record r { transfer = t })
  receives :
      (r : Run) (s : NormalSocket)
      → Undisturbed r.transfer.sock s
      → Step r (record r { transfer = record r.transfer { sock = s } })
  resends :
      (r : Run) (last_index cnt : ℕ) (t : Transfer) (p : TcpPacket) (last_index' cnt' : ℕ)
      → tick r.transfer last_index cnt ≡ resent t p last_index' cnt'
      → Step r (record r { transfer = t; again = r.again ++ p ∷ [] })

pub data Reach (r : Run) : Run → Type 0 where
  here : Reach r r
  next : {q q' : Run} → Reach r q → Step q q' → Reach r q'
