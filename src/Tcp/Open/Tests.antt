-- ===== src/Tcp/Open/Tests.antt =====
-- A handshake between two concrete stacks.
use ip_tcp.Base.{◌≡◌, ◌≢◌, refl, [], ◌∷◌, ◌++◌, some, arith, All, replicate}
use ip_tcp.Base.Table.{lookup, insert, nat_eq}
use ip_tcp.Netip.{Addr, ip4, invalid}
use ip_tcp.Tcp.Segment.{
  SocketTableKey, TcpInfo, key_eq, flip_socket_key_fields, flag_syn, flag_ack, flag_syn_ack,
}
use ip_tcp.Tcp.Socket.{NormalSocket}
use ip_tcp.Tcp.Stack.{
  ListenSocket, add_socket, listens, delete_tcb, normal, TcpStack, initialize, listen_key, v_listen,
}
use ip_tcp.Tcp.Stack.Invariant.{IsStack}
use ip_tcp.Tcp.Wire.RoundTrip.{info_of}
use ip_tcp.Tcp.Open.{
  timeout, arrives, draw_port, connect_key, bare_packet, connected, v_connect, accepted, v_accept,
}
use ip_tcp.Tcp.Open.Tables.{here, next, listen, accept, close, after_accept, Reach-IsStack}
use ip_tcp.Tcp.Open.Handshake.{Agree, handshake}

abbrev server_ip : Addr
server_ip = ip4 0x0a010002

abbrev client : TcpStack
client = initialize (ip4 0x0a000001)

-- The server once a socket listens on port 9999.
abbrev server : TcpStack
server = record {
  socket_table = (listen_key 9999, listens (record { local_port = 9999; sid = 0 })) ∷ [];
  ip = server_ip;
  sid_to_sk = (0, listen_key 9999) ∷ [];
  sid = 1;
}

abbrev lsock : ListenSocket
lsock = record { local_port = 9999; sid = 0 }

abbrev sk : SocketTableKey
sk = connect_key client server_ip 9999 32345

abbrev syn : TcpInfo
syn = info_of server_ip (bare_packet sk flag_syn 5000 0)

handshake_example :
    let syn_ack = bare_packet (flip_socket_key_fields sk) flag_syn_ack 6000 5001 in
    let ack = bare_packet sk flag_ack 5001 6001 in
    (client' : TcpStack) × (a : NormalSocket) × (server' : TcpStack) × (b : NormalSocket)
    × (v_connect client server_ip 9999
          (12345 ∷ [])
          (replicate 1 timeout ++ arrives (info_of client.ip syn_ack) ∷ [])
        ≡ connected client' a (replicate 2 (bare_packet sk flag_syn 5000 0) ++ ack ∷ []))
    × (v_accept server lsock (syn ∷ replicate 1 syn ++ info_of server_ip ack ∷ [])
        ≡ accepted server' b syn_ack)
    × (lookup sk client'.socket_table ≡ some (normal a))
    × (lookup (flip_socket_key_fields sk) server'.socket_table ≡ some (normal b))
    × Agree a b
handshake_example =
    handshake client server lsock (12345 ∷ []) 32345 1 (unfold draw_port in unfold lookup in refl)
      (omega arith)

-- Listening on a port, then an accepted connection, then closing the socket that listens.
Reach-IsStack_example :
    IsStack (delete_tcb (after_accept server (v_accept server lsock (syn ∷ []))) 0)
Reach-IsStack_example = Reach-IsStack {ip = server_ip} (
    next
      (next (next here (listen (initialize server_ip) server 9999 lsock (omega arith) listened))
        (accept server lsock (syn ∷ []) (omega arith) from_client))
      (close _ 0))
  where
    listened : v_listen (initialize server_ip) 9999 ≡ some (server, lsock)
    listened = unfold v_listen add_socket insert lookup in refl

    from_client : All (λ (ci : TcpInfo). ci.key.remote_addr ≢ invalid) (syn ∷ [])
    from_client = (λ e. absurd cc, tt)
