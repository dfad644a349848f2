-- ===== src/Tcp/Stack/Tests.antt =====
-- A stack with one connection and a socket that listens.
use ip_tcp.Base.{ℕ, ◌≡◌, ◌≢◌, refl, true, false, [], ◌∷◌, none, some, arith}
use ip_tcp.Base.Table.{lookup, nat_eq}
use ip_tcp.Tcp.Samples.{key, socket}
use ip_tcp.Tcp.Segment.{SocketTableKey, TcpInfo, key_eq, flip_socket_key_fields, flag_ack}
use ip_tcp.Tcp.Socket.{NormalSocket}
use ip_tcp.Tcp.Stack.{
  ListenSocket, Socket, listens, connects, normal, TcpStack, initialize, listen_key, add_socket,
  to_normal_chan, to_listen_chan, ignored, panics, to_listener, is_syn_received, dispatch,
}
use ip_tcp.Tcp.Stack.Invariant.{IsStack, initialize-IsStack, add_socket-IsStack}
use ip_tcp.Tcp.Stack.Dispatch.{dispatch_outcomes}

abbrev listener : ListenSocket
listener = record { local_port = 9999; sid = 1 }

abbrev connected : TcpStack
connected = add_socket (initialize key.local_addr) key (normal socket)

abbrev stack : TcpStack
stack = add_socket connected (listen_key 9999) (listens listener)

connected-IsStack : IsStack connected
connected-IsStack =
    add_socket-IsStack (initialize key.local_addr) key (normal socket)
      (initialize-IsStack key.local_addr) (omega arith) refl (λ e. absurd cc)

stack-IsStack : IsStack stack
unfolding add_socket
stack-IsStack =
    add_socket-IsStack connected (listen_key 9999) (listens listener) connected-IsStack
      (omega arith) refl refl

abbrev segment : TcpInfo
segment = record {
  key = flip_socket_key_fields key;
  flag = flag_ack;
  seq_num = 5001;
  ack_num = 6001;
  window_size = 65535;
  payload = 137 ∷ [];
}

dispatch_outcomes_example :
    let k = flip_socket_key_fields segment.key in
    let port = listen_key segment.key.remote_port in
    ((s : NormalSocket)
      → lookup k stack.socket_table ≡ some (normal s)
      → (is_syn_received s.state ≡ false → dispatch stack segment ≡ to_normal_chan k)
        × (is_syn_received s.state ≡ true → dispatch stack segment ≡ to_listener stack segment))
    × ((sk : SocketTableKey) (n : ℕ)
        → lookup k stack.socket_table ≡ some (connects sk n)
        → dispatch stack segment ≡ to_normal_chan k)
    × (lookup k stack.socket_table ≡ none → dispatch stack segment ≡ to_listener stack segment)
    × (lookup port stack.socket_table ≡ none → to_listener stack segment ≡ ignored)
    × ((s : Socket)
        → lookup port stack.socket_table ≡ some s
        → (l : ListenSocket) × (s ≡ listens l)
          × (l.local_port ≡ segment.key.remote_port)
          × (to_listener stack segment ≡ to_listen_chan l))
    × (dispatch stack segment ≢ panics)
dispatch_outcomes_example =
    dispatch_outcomes stack segment stack-IsStack (unfold flip_socket_key_fields in λ e. absurd cc)
