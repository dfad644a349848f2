-- ===== src/Tcp/Stack.antt =====
-- The TCP stack's tables (`TCPStack`), and where segments go.
pub mod Invariant
pub mod Dispatch
mod Tests
use ip_tcp.Base.{
  ℕ, zero, suc, ◌+◌, ◌-◌, ◌≡◌, Bool, true, false, ◌&&◌, List, [], ◌∷◌, ◌++◌, Option, none, some,
  ◌==◌, if◌then◌else◌, replicate, u16, add32, sub32,
}
use ip_tcp.Base.Table.{lookup, insert, delete, nat_eq}
use ip_tcp.Netip.{Addr, invalid}
use ip_tcp.Tcp.State.{State, syn_sent, syn_received, established}
use ip_tcp.Tcp.ReadBuffer.{new_read}
use ip_tcp.Tcp.WriteBuffer.{new_write}
use ip_tcp.Tcp.Segment.{
  SocketTableKey, key_eq, flip_socket_key_fields, TcpInfo, TcpPacket, flag_syn, flag_ack,
  flag_syn_ack,
}
use ip_tcp.Tcp.Socket.{NormalSocket}

pub record ListenSocket : Type 0 where
  pub local_port : ℕ  -- uint16
  pub sid : ℕ  -- uint16

-- A socket in the table. `connects` is a `NormalSocket` in SYN_SENT, whose buffers are nil until its
-- SYN is answered.
pub data Socket : Type 0 where
  listens : ListenSocket → Socket
  connects : SocketTableKey → ℕ → Socket
  normal : NormalSocket → Socket

-- `getSID`
abbrev pub get_sid : Socket → ℕ
get_sid (listens l) = l.sid
get_sid (connects sk sid) = sid
get_sid (normal s) = s.sid

-- The table holds the sockets themselves: what a thread changes in a socket, it changes there.
pub record TcpStack : Type 0 where
  pub socket_table : List (SocketTableKey × Socket)
  pub ip : Addr
  pub sid_to_sk : List (ℕ × SocketTableKey)
  pub sid : ℕ  -- uint16

-- `Initialize`
abbrev pub initialize : Addr → TcpStack
initialize ip = record { socket_table = []; ip = ip; sid_to_sk = []; sid = 0 }

-- A key of which only `LocalPort` is set.
abbrev pub listen_key : ℕ → SocketTableKey
listen_key port = record {
  local_addr = invalid;
  local_port = port;
  remote_addr = invalid;
  remote_port = 0;
}

-- A socket with the next SID goes into both tables.
unfoldable pub add_socket : TcpStack → SocketTableKey → Socket → TcpStack
add_socket t sk sock = record t {
  socket_table = insert sk sock t.socket_table;
  sid_to_sk = insert t.sid sk t.sid_to_sk;
  sid = u16 (t.sid + 1);
}

-- A change of the socket that stands under a key.
abbrev pub set_socket : TcpStack → SocketTableKey → Socket → TcpStack
set_socket t sk sock = record t { socket_table = insert sk sock t.socket_table }

-- `SID_to_sk[sid]`, the zero key if it is missing.
abbrev pub key_of_sid : TcpStack → ℕ → SocketTableKey
key_of_sid t sid = elim (lookup sid t.sid_to_sk) [ none ↦ listen_key 0 | some sk ↦ sk ]

-- `deleteTCB` of a socket with this SID.
unfoldable pub delete_tcb : TcpStack → ℕ → TcpStack
delete_tcb t sid = record t {
  socket_table = delete (key_of_sid t sid) t.socket_table;
  sid_to_sk = delete sid t.sid_to_sk;
}

-- `VListen`; `none` is its error.
unfoldable pub v_listen : TcpStack → ℕ → Option (TcpStack × ListenSocket)
v_listen t port = elim (lookup (listen_key port) t.socket_table) [
  | some _ ↦ none
  | none ↦
      let lsock : ListenSocket = record { local_port = port; sid = t.sid } in
      some (add_socket t (listen_key port) (listens lsock), lsock)
]

-- Where the goroutine of `Initialize` puts a segment; `panics` is a type assertion that fails.
pub data Dispatched : Type 0 where
  to_normal_chan : SocketTableKey → Dispatched
  to_listen_chan : ListenSocket → Dispatched
  ignored : Dispatched
  panics : Dispatched

-- With what the table has under the key of the port alone.
abbrev pub to_listener_in : Option Socket → Dispatched
to_listener_in none = ignored
to_listener_in (some (listens l)) = to_listen_chan l
to_listener_in (some (connects _ _)) = panics
to_listener_in (some (normal _)) = panics

abbrev pub to_listener : TcpStack → TcpInfo → Dispatched
to_listener t received =
    to_listener_in (lookup (listen_key received.key.remote_port) t.socket_table)

abbrev pub is_syn_received : State → Bool
is_syn_received syn_received = true
is_syn_received _ = false

-- With what the table has under the connection's key; `otherwise` is where it goes if it is not for
-- that connection.
abbrev pub to_connection : SocketTableKey → Dispatched → Option Socket → Dispatched
to_connection key otherwise none = otherwise
to_connection key otherwise (some (listens _)) = panics
to_connection key otherwise (some (connects _ _)) = to_normal_chan key
to_connection key otherwise (some (normal s)) =
    if is_syn_received s.state then otherwise else to_normal_chan key

unfoldable pub dispatch : TcpStack → TcpInfo → Dispatched
dispatch t received =
    let key = flip_socket_key_fields received.key in
    to_connection key (to_listener t received) (lookup key t.socket_table)
