-- ===== src/Tcp/Open/Handshake.antt =====
-- The three-way handshake between `VConnect` and `VAccept`.
use ip_tcp.Base.{
  ℕ, zero, suc, ◌+◌, ◌<◌, ◌≡◌, refl, ap, ◌∙◌, List, [], ◌∷◌, ◌++◌, Option, none, some, arith,
  replicate, ==_iff, ne→not_==,
}
use ip_tcp.Base.Table.{lookup, lookup-insert_self}
use ip_tcp.Tcp.State.{established}
use ip_tcp.Tcp.ReadBuffer.{new_read}
use ip_tcp.Tcp.WriteBuffer.{new_write}
use ip_tcp.Tcp.Segment.{
  SocketTableKey, key_eq, flip_socket_key_fields, TcpInfo, TcpPacket, flag_syn, flag_ack,
  flag_syn_ack,
}
use ip_tcp.Tcp.Socket.{NormalSocket}
use ip_tcp.Tcp.Stack.{ListenSocket, normal, TcpStack}
use ip_tcp.Tcp.Wire.RoundTrip.{info_of}
use ip_tcp.Tcp.Open.{
  timeout, arrives, answered, dial, draw_port, connect_key, connect_outcome, ConnectResult, no_port,
  connected, v_connect, await, accept_outcome, AcceptResult, awaits_syn, accepted, v_accept,
  bare_packet,
}

-- Two sockets agree on their connection: each has the other's key turned round, is established with
-- empty buffers, and expects the number that the other sends next.
pub record Agree (a b : NormalSocket) : Type 0 where
  pub keys : b.key ≡ flip_socket_key_fields a.key
  pub states : (a.state ≡ established) × (b.state ≡ established)
  pub read_buffers : (a.read_buffer ≡ new_read) × (b.read_buffer ≡ new_read)
  pub write_buffers : (a.write_buffer ≡ new_write) × (b.write_buffer ≡ new_write)
  pub forth : (a.cum_write_una ≡ b.cum_read_nxt) × (a.base_seq ≡ b.base_ack)
  pub back : (b.cum_write_una ≡ a.cum_read_nxt) × (b.base_seq ≡ a.base_ack)
  pub windows : (a.client_window_size ≡ 65535) × (b.client_window_size ≡ 65535)

dial-answered :
    (k i sent : ℕ) (ci : TcpInfo)
    → i + k < 3
    → ci.flag ≡ flag_syn_ack
    → dial i sent (replicate k timeout ++ arrives ci ∷ []) ≡ answered ci (suc sent + k)
unfolding dial
dial-answered zero i sent ci h f =
    rw ((==_iff ci.flag flag_syn_ack).1 f) (ap (answered ci) (omega arith))
dial-answered (suc k) i sent ci h f =
    rw (ne→not_== (suc i) 3 (omega arith))
      (dial-answered k (suc i) (suc sent) ci (omega arith) f ∙ ap (answered ci) (omega arith))

await-first :
    (flag port : ℕ) (ci : TcpInfo) (infos : List TcpInfo)
    → ci.flag ≡ flag
    → ci.key.remote_port ≡ port
    → await flag port (ci ∷ infos) ≡ some (ci, infos)
unfolding await
await-first flag port ci infos f p =
    rw ((==_iff ci.flag flag).1 f) (rw ((==_iff ci.key.remote_port port).1 p) refl)

await-skips :
    (k port : ℕ) (x y : TcpInfo)
    → x.flag ≡ flag_syn
    → y.flag ≡ flag_ack
    → y.key.remote_port ≡ port
    → await flag_ack port (replicate k x ++ y ∷ []) ≡ some (y, [])
unfolding await
await-skips zero port x y fx fy p = await-first flag_ack port y [] fy p
await-skips (suc k) port x y fx fy p =
    rw (ne→not_== x.flag flag_ack (omega arith)) (await-skips k port x y fx fy p)

-- `VConnect` and `VAccept` on what each other sends, when a port is drawn: if the first `k < 3`
-- SYNs are not answered in time and all arrive, the connection stands on both sides, under its
-- key in both tables, and the sockets agree.
pub handshake :
    (client server : TcpStack) (lsock : ListenSocket) (draws : List ℕ) (src_port k : ℕ)
    → draw_port client draws ≡ some src_port
    → k < 3
    → let sk = connect_key client server.ip lsock.local_port src_port in
      let syn = bare_packet sk flag_syn 5000 0 in
      let syn_ack = bare_packet (flip_socket_key_fields sk) flag_syn_ack 6000 5001 in
      let ack = bare_packet sk flag_ack 5001 6001 in
      (client' : TcpStack) × (a : NormalSocket) × (server' : TcpStack) × (b : NormalSocket)
      × (v_connect client server.ip lsock.local_port draws
            (replicate k timeout ++ arrives (info_of client.ip syn_ack) ∷ [])
          ≡ connected client' a (replicate (suc k) syn ++ ack ∷ []))
      × (v_accept server lsock (
            info_of server.ip syn ∷ replicate k (info_of server.ip syn)
            ++ info_of server.ip ack ∷ [])
          ≡ accepted server' b syn_ack)
      × (lookup sk client'.socket_table ≡ some (normal a))
      × (lookup (flip_socket_key_fields sk) server'.socket_table ≡ some (normal b))
      × Agree a b
unfolding v_connect v_accept connect_outcome accept_outcome flip_socket_key_fields
handshake client server lsock draws src_port k d h = (
  _,
  _,
  _,
  _,
  ap after_port d
      ∙ ap (connect_outcome client sk)
          (dial-answered k 0 0 (info_of client.ip syn_ack) (omega arith) refl)
      ∙ ap (λ n. connect_outcome client sk (answered (info_of client.ip syn_ack) n)) one_more,
  ap after_syn (await-first flag_syn lsock.local_port (info_of server.ip syn) _ refl refl)
      ∙ ap (accept_outcome server (info_of server.ip syn)) (
          await-skips k lsock.local_port (info_of server.ip syn) (info_of server.ip ack) refl refl
            refl),
  lookup-insert_self sk _ _,
  lookup-insert_self (flip_socket_key_fields sk) _ _,
  record {
    keys = refl;
    states = (refl, refl);
    read_buffers = (refl, refl);
    write_buffers = (refl, refl);
    forth = (refl, refl);
    back = (refl, refl);
    windows = (refl, refl);
  },
)
  where
    sk : SocketTableKey
    sk = connect_key client server.ip lsock.local_port src_port

    syn : TcpPacket
    syn = bare_packet sk flag_syn 5000 0

    syn_ack : TcpPacket
    syn_ack = bare_packet (flip_socket_key_fields sk) flag_syn_ack 6000 5001

    ack : TcpPacket
    ack = bare_packet sk flag_ack 5001 6001

    after_syn : Option (TcpInfo × List TcpInfo) → AcceptResult
    after_syn o = elim o [
      | none ↦ awaits_syn
      | some (ci, rest) ↦ accept_outcome server ci (await flag_ack lsock.local_port rest)
    ]

    after_port : Option ℕ → ConnectResult
    after_port o = elim o [
      | none ↦ no_port
      | some p ↦
          connect_outcome client (connect_key client server.ip lsock.local_port p)
            (dial 0 0 (replicate k timeout ++ arrives (info_of client.ip syn_ack) ∷ []))
    ]

    one_more : suc 0 + k ≡ suc k
    one_more = omega arith
