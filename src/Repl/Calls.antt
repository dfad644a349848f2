-- ===== src/Repl/Calls.antt =====
-- What a command's call does to the node and the stack, and the goroutine of the command "a".
use ip_tcp.Base.{ℕ, List, [], ◌∷◌, Option, none, some}
use ip_tcp.Node.State.{Node, Name}
use ip_tcp.Node.Packets.{SendInterface, handle_send}
use ip_tcp.Node.Start.{Toggled, not_an_interface, nil_mutex, toggled, toggle_interface}
use ip_tcp.Tcp.Segment.{SocketTableKey, TcpInfo}
use ip_tcp.Tcp.Socket.{NormalSocket}
use ip_tcp.Tcp.Stack.{
  TcpStack, Socket, ListenSocket, listens, connects, normal, set_socket, delete_tcb, v_listen,
}
use ip_tcp.Tcp.Wire.{Netstack, marshall_tcp_packet}
use ip_tcp.Tcp.Open.{awaits_syn, awaits_ack, accepted, v_accept}
use ip_tcp.Tcp.Close.{CloseResult, closing, invalid_state, blocked, v_close}
use ip_tcp.Repl.{Call, prints, complains, nothing, panics, toggle, send, close}

-- What comes of a call: the next prompt, with the stack and what was sent on the channels of the
-- interfaces; a panic, which ends the program; or a wait for a socket's state. `goes_on` are the
-- calls that are the stack's alone: `VListen` and `VAccept`, `VConnect`, `VWrite`, `VRead`,
-- `SendFile` and `ReceiveFile`.
pub data Done : Type 0 where
  prompts : TcpStack → List (Name × SendInterface) → Done
  crashes : Done
  waits : Done
  goes_on : Call → Done

module _ (ns : Netstack) where
  -- `VClose` of the connected socket under a key, its FIN sent.
  unfoldable pub close_normal : Node → TcpStack → SocketTableKey → CloseResult → Done
  close_normal node t sk (closing s p) =
      elim (handle_send ns.checksum_sum node s.key.remote_addr (marshall_tcp_packet ns p) 6) [
        | none ↦ crashes
        | some sent ↦ prompts (set_socket t sk (normal s)) sent
      ]
  close_normal node t sk invalid_state = prompts t []
  close_normal node t sk blocked = waits

  abbrev pub close_socket : Node → TcpStack → SocketTableKey → Socket → Done
  close_socket node t sk (listens l) = prompts (delete_tcb t l.sid) []
  close_socket node t sk (connects _ _) = crashes
  close_socket node t sk (normal s) = close_normal node t sk (v_close s)

  abbrev pub after_toggle : TcpStack → Toggled → Done
  after_toggle t not_an_interface = prompts t []
  after_toggle t nil_mutex = crashes
  after_toggle t (toggled _) = prompts t []

  unfoldable pub perform : Node → TcpStack → Call → Done
  unfolding close_normal
  perform node t (prints _) = prompts t []
  perform node t (complains _) = prompts t []
  perform node t nothing = prompts t []
  perform node t panics = crashes
  perform node t (toggle name b) = after_toggle t (toggle_interface node name b)
  perform node t (send addr message) = elim (handle_send ns.checksum_sum node addr message 0) [
    | none ↦ crashes
    | some sent ↦ prompts t sent
  ]
  perform node t (close sk socket) = close_socket node t sk socket
  perform node t call = goes_on call

-- A round of the loop of `listenAndAccept`, on what comes from `listenChan`: the threads of the
-- socket are started, or it waits. `VAccept` returns no error.
abbrev pub Accepting : Type 0
Accepting = Option (TcpStack × NormalSocket)

abbrev pub accept_round : TcpStack → ListenSocket → List TcpInfo → Accepting
accept_round t lsock infos = elim (v_accept t lsock infos) [
  | awaits_syn ↦ none
  | awaits_ack _ _ ↦ none
  | accepted t' s _ ↦ some (t', s)
]

-- `listenAndAccept`, with what comes from `listenChan` in each round: the stack and the sockets whose
-- threads are started, or the error of `VListen`.
unfoldable pub accept_rounds :
    TcpStack → ListenSocket → List (List TcpInfo) → TcpStack × List NormalSocket
accept_rounds t lsock [] = (t, [])
accept_rounds t lsock (infos ∷ more) = elim (accept_round t lsock infos) [
  | none ↦ (t, [])
  | some (t', s) ↦ let rest = accept_rounds t' lsock more in (rest.0, s ∷ rest.1)
]

unfoldable pub listen_and_accept :
    TcpStack → ℕ → List (List TcpInfo) → Option (TcpStack × List NormalSocket)
unfolding accept_rounds
listen_and_accept t port rounds = elim (v_listen t port) [
  | none ↦ none
  | some (t', lsock) ↦ some (accept_rounds t' lsock rounds)
]
