-- ===== src/Tcp/Close/Tests.antt =====
-- Closing on a concrete connection.
use ip_tcp.Base.{ℕ, ◌≡◌, refl, [], ◌∷◌, none, some}
use ip_tcp.Base.Table.{lookup, nat_eq}
use ip_tcp.Pq.Least.{container_heap}
use ip_tcp.Tcp.Samples.{key, socket, peer}
use ip_tcp.Tcp.Segment.{TcpInfo, TcpPacket, flip_socket_key_fields, flag_fin_ack}
use ip_tcp.Tcp.Socket.{NormalSocket, to_ack_chan, runs}
use ip_tcp.Tcp.Wire.RoundTrip.{info_of}
use ip_tcp.Tcp.Receive.{receive}
use ip_tcp.Tcp.Close.{closing, v_close}
use ip_tcp.Tcp.Close.FourWay.{IsQuiet, EndsBoth, four_way_close}

quiet : IsQuiet socket peer
unfolding lookup flip_socket_key_fields
quiet = record {
  a_established = refl;
  b_established = refl;
  a_unlocked = refl;
  b_unlocked = refl;
  forth = refl;
  back = refl;
  a_in_order = refl;
  b_in_order = refl;
  a_fins = refl;
  b_fins = refl;
}

four_way_close_example :
    (lookup 6002 socket.unacked_nums ≡ none
      → lookup 5001 peer.unacked_nums ≡ none
      → EndsBoth container_heap socket peer key.remote_addr key.local_addr)
    × ((n : ℕ)
        → lookup 5001 peer.unacked_nums ≡ some n
        → (a₁ b₁ : NormalSocket) × (fin_a : TcpPacket) × (v_close socket ≡ closing a₁ fin_a)
          × (receive container_heap peer (info_of key.local_addr fin_a)
              ≡ runs b₁ (to_ack_chan (info_of key.local_addr fin_a) ∷ []))
          × (b₁.state ≡ peer.state)
          × (b₁.cum_read_nxt ≡ peer.cum_read_nxt))
four_way_close_example =
    four_way_close container_heap socket peer key.remote_addr key.local_addr quiet

-- Neither side has sent anything.
unsent_close : EndsBoth container_heap socket peer key.remote_addr key.local_addr
unfolding lookup
unsent_close =
    (four_way_close container_heap socket peer key.remote_addr key.local_addr quiet).0 refl refl

-- A socket that has sent its first byte and got it acknowledged.
abbrev sent : NormalSocket
sent = record socket { unacked_nums = (6002, 0) ∷ []; cum_write_una = 6002 }

abbrev fin : TcpInfo
fin = record {
  key = key;
  flag = flag_fin_ack;
  seq_num = 5001;
  ack_num = 6002;
  window_size = 65535;
  payload = [];
}
