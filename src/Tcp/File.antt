-- ===== src/Tcp/File.antt =====
-- `SendFile` and `ReceiveFile`: files over a connection. What `os` reads and opens is a parameter.
pub mod Received
mod Tests
use ip_tcp.Base.{
  ℕ, ◌≡◌, Bool, true, false, List, [], ◌∷◌, ◌++◌, Option, none, some, ltb, if◌then◌else◌,
}
use ip_tcp.Netip.{Addr}
use ip_tcp.Tcp.State.{State, close_wait}
use ip_tcp.Tcp.ReadBuffer.{
  buffered, Sink, file, ReadResult, closed, blocked, write_failed, done, v_read,
}
use ip_tcp.Tcp.WriteBuffer as Write
use ip_tcp.Tcp.WriteBuffer.{v_write}
use ip_tcp.Tcp.Segment.{TcpInfo}
use ip_tcp.Tcp.Socket.{NormalSocket}
use ip_tcp.Tcp.Stack.{TcpStack, v_listen}
use ip_tcp.Tcp.Open.{
  Event, ConnectResult, no_port, connected, could_not_connect, connecting, v_connect, AcceptResult,
  awaits_syn, awaits_ack, accepted, v_accept,
}
use ip_tcp.Tcp.Close.{CloseResult, v_close}

abbrev pub is_close_wait : State → Bool
is_close_wait close_wait = true
is_close_wait _ = false

-- What a round of the loop of `ReceiveFile` comes to: a wait for a mutex, the end of the loop with
-- `VClose`, or the socket and the file's bytes after it.
pub data FileRound : Type 0 where
  waits : FileRound
  closes : CloseResult → FileRound
  keeps : NormalSocket → List ℕ → FileRound

-- An error of `VRead` is printed; the bytes of a `Write` that failed are taken not to be in the file.
abbrev pub after_read : NormalSocket → List ℕ → ReadResult → FileRound
after_read s f closed = keeps s f
after_read s f blocked = waits
after_read s f (write_failed out) = keeps s f
after_read s f (done out r) = keeps (record s { read_buffer = r }) (f ++ out)

-- A round of that loop, on a file that holds `f`; `ok` is whether `Write` succeeds.
unfoldable pub receive_round : Bool → NormalSocket → List ℕ → FileRound
receive_round ok s f =
    if s.state_locked
    then waits
    else if is_close_wait s.state
    then closes (v_close s)
    else if ltb 0 (buffered s.read_buffer)
    then after_read s f (v_read s.state s.read_buffer 65535 (file ok))
    else keeps s f

-- What `ReceiveFile` comes to before its loop: the error of `VListen`, a wait in `VAccept`, a file
-- that is not opened, or the socket and the empty file that the loop starts with.
pub data Receiving : Type 0 where
  cannot_listen : Receiving
  accepting : TcpStack → Receiving
  no_file : TcpStack → Receiving
  receiving : TcpStack → NormalSocket → List ℕ → Receiving

abbrev pub on_accept : TcpStack → Bool → AcceptResult → Receiving
on_accept t opens awaits_syn = accepting t
on_accept t opens (awaits_ack t' _) = accepting t'
on_accept t opens (accepted t' s _) = if opens then receiving t' s [] else no_file t'

-- `ReceiveFile` and its goroutine up to the loop; `opens` is whether `os.OpenFile` succeeds.
unfoldable pub receive_file : TcpStack → ℕ → Bool → List TcpInfo → Receiving
receive_file t port opens infos = elim (v_listen t port) [
  | none ↦ cannot_listen
  | some (t', lsock) ↦ on_accept t' opens (v_accept t' lsock infos)
]

-- What `SendFile` comes to.
pub data Sending : Type 0 where
  unreadable : Sending
  not_connected : ConnectResult → Sending
  write_refused : Sending
  writing : Sending
  closing : CloseResult → Sending

-- `VWrite` of the bytes of the file to the socket `s`, and then `VClose` of it as `at_close`, which
-- is what the socket's threads made of it meanwhile.
abbrev pub close_written : NormalSocket → Write.WriteResult → Sending
close_written at_close Write.closed = write_refused
close_written at_close (Write.waiting _ _ _) = writing
close_written at_close (Write.done _ _) = closing (v_close at_close)

abbrev pub send_bytes : List ℕ → List (ℕ × ℕ) → NormalSocket → NormalSocket → Sending
send_bytes bs acked s at_close = close_written at_close (v_write s.state acked s.write_buffer bs)

abbrev pub on_connect :
    List ℕ → List (ℕ × ℕ) → (NormalSocket → NormalSocket) → NormalSocket → ConnectResult → Sending
on_connect bs acked later at_close no_port = not_connected no_port
on_connect bs acked later at_close (connected t s sent) = send_bytes bs acked (later s) at_close
on_connect bs acked later at_close (could_not_connect t sent) =
    not_connected (could_not_connect t sent)
on_connect bs acked later at_close (connecting t sent) = not_connected (connecting t sent)

-- `SendFile`, with what `Stat` and `Read` give of the file; `later` is what the threads make of the
-- socket in the second before `VWrite`.
unfoldable pub send_file :
    Option (List ℕ)
    → TcpStack
    → Addr
    → ℕ
    → List ℕ
    → List Event
    → List (ℕ × ℕ)
    → (NormalSocket → NormalSocket)
    → NormalSocket
    → Sending
send_file contents t addr port draws events acked later at_close = elim contents [
  | none ↦ unreadable
  | some bs ↦ on_connect bs acked later at_close (v_connect t addr port draws events)
]
