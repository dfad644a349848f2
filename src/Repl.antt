-- ===== src/Repl.antt =====
-- The terminal of a node: pkg/repl/repl.go, one line of input at a time. What is printed is a value,
-- without its text.
pub mod Words
pub mod Calls
pub mod Text
pub mod Flaws
mod Tests
use ip_tcp.Base.{ℕ, ◌≡◌, Bool, true, false, List, [], ◌∷◌, Option, none, some, if◌then◌else◌}
use ip_tcp.Base.Table.{◌=?◌, lookup, nat_eq}
use ip_tcp.Netip.{Addr}
use ip_tcp.Node.State.{Node, Name, name_eq}
use ip_tcp.Node.Routes.{find_next}
use ip_tcp.Node.Packets.{SendInterface, handle_send}
use ip_tcp.Node.Start.{Toggled, not_an_interface, nil_mutex, toggled, toggle_interface}
use ip_tcp.Lnxconfig.{split}
use ip_tcp.Tcp.Segment.{SocketTableKey, key_eq}
use ip_tcp.Tcp.Socket.{NormalSocket}
use ip_tcp.Tcp.Stack.{TcpStack, Socket, ListenSocket, listens, connects, normal}
use ip_tcp.Repl.Words.{Number, parse_uint16, join, clean_input}

-- The tables that `li`, `ln`, `lr` and `ls` print.
pub data Listing : Type 0 where
  interfaces neighbors routes sockets : Listing

-- What a command prints when it cannot do its work.
pub data Complaint : Type 0 where
  usage bad_number no_socket no_match no_file : Complaint

-- The call that a command makes. A socket comes with the key it stands under.
pub data Call : Type 0 where
  prints : Listing → Call
  complains : Complaint → Call
  nothing : Call
  panics : Call
  toggle : Name → Bool → Call
  send : Addr → List ℕ → Call
  -- `go listenAndAccept(port, t, n)`; the second one after a complaint on the number.
  accept_on : ℕ → Call
  complain_and_accept_on : ℕ → Call
  connect : Addr → ℕ → Call
  write : SocketTableKey → NormalSocket → List ℕ → Call
  -- `VRead(num, nil)`
  read : SocketTableKey → NormalSocket → ℕ → Call
  close : SocketTableKey → Socket → Call
  send_file : Name → Addr → ℕ → Call
  receive_file : Name → ℕ → Call

-- A command on the socket of an identifier.
abbrev pub on_found : TcpStack → Option SocketTableKey → (SocketTableKey → Socket → Call) → Call
on_found t none act = complains no_socket
on_found t (some sk) act = elim (lookup sk t.socket_table) [
  | none ↦ complains no_socket
  | some socket ↦ act sk socket
]

unfoldable pub on_socket : TcpStack → Number → (SocketTableKey → Socket → Call) → Call
on_socket t sock act =
    if sock.is_ok then on_found t (lookup sock.value t.sid_to_sk) act else complains bad_number

-- `socket.(*tcpstack.NormalSocket)` panics on a listening socket, and a socket in SYN_SENT has no
-- buffers yet.
abbrev pub as_normal : (SocketTableKey → NormalSocket → Call) → SocketTableKey → Socket → Call
as_normal act sk (listens l) = panics
as_normal act sk (connects _ _) = panics
as_normal act sk (normal s) = act sk s

-- `VClose` of a socket without buffers panics, too.
abbrev pub close_any : SocketTableKey → Socket → Call
close_any sk (listens l) = close sk (listens l)
close_any sk (connects _ _) = panics
close_any sk (normal s) = close sk (normal s)

abbrev pub toggle_words : Bool → List Name → Call
toggle_words b (name ∷ []) = toggle name b
toggle_words b _ = complains usage

abbrev pub send_to : Node → Option Addr → Name → Call
send_to node none message = panics
send_to node (some addr) message = elim (find_next node addr) [
  | none ↦ complains no_match
  | some _ ↦ send addr message
]

abbrev pub accept_words : List Name → Call
accept_words (port ∷ []) =
    let n = parse_uint16 port in
    if n.is_ok then accept_on n.value else complain_and_accept_on n.value
accept_words _ = complains usage

abbrev pub connect_to : Option Addr → ℕ → Call
connect_to none port = panics
connect_to (some addr) port = connect addr port

abbrev pub write_words : TcpStack → List Name → Call
write_words t (sock ∷ w ∷ ws) =
    on_socket t (parse_uint16 sock) (as_normal (λ sk s. write sk s (join (w ∷ ws))))
write_words t _ = complains usage

abbrev pub read_words : TcpStack → List Name → Call
read_words t (sock ∷ num ∷ []) =
    let id = parse_uint16 sock in
    let n = parse_uint16 num in
    if id.is_ok
    then if n.is_ok
      then on_socket t id (as_normal (λ sk s. read sk s n.value))
      else complains bad_number
    else complains bad_number
read_words t _ = complains usage

abbrev pub close_words : TcpStack → List Name → Call
close_words t (sock ∷ _) = on_socket t (parse_uint16 sock) close_any
close_words t [] = complains usage

abbrev pub send_file_to : Name → Option Addr → ℕ → Call
send_file_to file none port = panics
send_file_to file (some addr) port = send_file file addr port

abbrev pub receive_file_words : List Name → Call
receive_file_words (file ∷ port ∷ _) =
    let n = parse_uint16 port in if n.is_ok then receive_file file n.value else complains bad_number
receive_file_words _ = complains usage

-- `parse_addr` is that of net/netip, whose `MustParseAddr` panics where it is `none`; `opens` is
-- whether `os.Open` finds a file.
module _ (parse_addr : Name → Option Addr) (opens : Name → Bool) where
  abbrev pub send_words : Node → List Name → Call
  send_words node (vip ∷ w ∷ ws) = send_to node (parse_addr vip) (join (w ∷ ws))
  send_words node _ = complains usage

  abbrev pub connect_words : List Name → Call
  connect_words (vip ∷ port ∷ []) =
      let n = parse_uint16 port in
      if n.is_ok then connect_to (parse_addr vip) n.value else complains bad_number
  connect_words _ = complains usage

  abbrev pub send_file_words : List Name → Call
  send_file_words (file ∷ vip ∷ port ∷ _) =
      let n = parse_uint16 port in
      if opens file
      then if n.is_ok then send_file_to file (parse_addr vip) n.value else complains bad_number
      else complains no_file
  send_file_words _ = complains usage

  -- The `switch` of `REPL` on the first word.
  unfoldable pub command : Node → TcpStack → Name → List Name → Call
  command node t head args =
      if head =? (b'l' ∷ b'i' ∷ [])
      then prints interfaces
      else if head =? (b'l' ∷ b'n' ∷ [])
      then prints neighbors
      else if head =? (b'l' ∷ b'r' ∷ [])
      then prints routes
      else if head =? (b'd' ∷ b'o' ∷ b'w' ∷ b'n' ∷ [])
      then toggle_words false args
      else if head =? (b'u' ∷ b'p' ∷ [])
      then toggle_words true args
      else if head =? (b's' ∷ b'e' ∷ b'n' ∷ b'd' ∷ [])
      then send_words node args
      else if head =? (b'a' ∷ [])
      then accept_words args
      else if head =? (b'c' ∷ [])
      then connect_words args
      else if head =? (b'l' ∷ b's' ∷ [])
      then prints sockets
      else if head =? (b's' ∷ [])
      then write_words t args
      else if head =? (b'r' ∷ [])
      then read_words t args
      else if head =? (b'c' ∷ b'l' ∷ [])
      then close_words t args
      else if head =? (b's' ∷ b'f' ∷ [])
      then send_file_words args
      else if head =? (b'r' ∷ b'f' ∷ [])
      then receive_file_words args
      else nothing

  abbrev pub command_of : Node → TcpStack → List Name → Call
  command_of node t [] = nothing
  command_of node t (head ∷ args) = command node t head args

  -- A round of the loop of `REPL`, up to the call.
  unfoldable pub repl_line : Node → TcpStack → Name → Call
  unfolding command
  repl_line node t text = command_of node t (split (clean_input text))
