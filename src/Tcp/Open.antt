-- ===== src/Tcp/Open.antt =====
-- How connections are opened: `VConnect` and `VAccept`.
pub mod Tables
pub mod Handshake
mod Tests
use ip_tcp.Base.{
  ℕ, zero, suc, ◌+◌, ◌-◌, ◌≡◌, Bool, true, false, ◌&&◌, List, [], ◌∷◌, ◌++◌, Option, none, some,
  ◌==◌, if◌then◌else◌, replicate, u16, add32, sub32,
}
use ip_tcp.Base.Table.{lookup, nat_eq}
use ip_tcp.Netip.{Addr}
use ip_tcp.Tcp.State.{State, syn_received, established}
use ip_tcp.Tcp.ReadBuffer.{new_read}
use ip_tcp.Tcp.WriteBuffer.{new_write}
use ip_tcp.Tcp.Segment.{
  SocketTableKey, key_eq, flip_socket_key_fields, TcpInfo, TcpPacket, flag_syn, flag_ack,
  flag_syn_ack,
}
use ip_tcp.Tcp.Socket.{NormalSocket}
use ip_tcp.Tcp.Stack.{
  ListenSocket, connects, normal, TcpStack, listen_key, add_socket, set_socket, delete_tcb,
}

-- The loop that draws a port, on the values of `rand.Intn(45535)`; `none` is no end so far.
unfoldable pub draw_port : TcpStack → List ℕ → Option ℕ
draw_port t [] = none
draw_port t (d ∷ draws) =
    let rest = draw_port t draws in
    elim (lookup (listen_key (u16 (d + 20000))) t.socket_table) [
      | none ↦ some (u16 (d + 20000))
      | some _ ↦ rest
    ]

-- A segment with no payload.
abbrev pub bare_packet : SocketTableKey → ℕ → ℕ → ℕ → TcpPacket
bare_packet sk flags seq_num ack_num = record {
  source_ip = sk.local_addr;
  dest_ip = sk.remote_addr;
  payload = [];
  flags = flags;
  source_port = sk.local_port;
  dest_port = sk.remote_port;
  seq_num = seq_num;
  ack_num = ack_num;
  window = 65535;
}

-- What ends a wait of `VConnect`: a segment on `normalChan`, or three seconds.
pub data Event : Type 0 where
  timeout : Event
  arrives : TcpInfo → Event

-- What its loop comes to, with the number of times that the SYN was sent.
pub data Dialed : Type 0 where
  answered : TcpInfo → ℕ → Dialed
  gave_up : ℕ → Dialed
  waits : ℕ → Dialed

-- The loop, with `i` failures so far; `sent` is the number of SYNs before this round.
unfoldable pub dial : ℕ → ℕ → List Event → Dialed
dial i sent [] = waits (suc sent)
dial i sent (timeout ∷ es) =
    let rest = dial (suc i) (suc sent) es in if suc i == 3 then gave_up (suc sent) else rest
dial i sent (arrives ci ∷ es) =
    let rest = dial (suc i) (suc sent) es in
    if ci.flag == flag_syn_ack
    then answered ci (suc sent)
    else if suc i == 3
    then gave_up (suc sent)
    else rest

-- The socket once its SYN is answered by `ci`.
abbrev pub connected_socket : SocketTableKey → ℕ → TcpInfo → NormalSocket
connected_socket sk sid ci = record {
  sid = sid;
  key = sk;
  state = established;
  state_locked = false;
  read_buffer = new_read;
  write_buffer = new_write;
  base_seq = sub32 ci.ack_num 1;
  base_ack = ci.seq_num;
  client_window_size = ci.window_size;
  unacked_nums = [];
  unacked_fins = [];
  early_pq = [];
  cum_write_una = ci.ack_num;
  cum_read_nxt = add32 ci.seq_num 1;
}

-- What `VConnect` comes to: each has the stack after it, and all but `no_port` what was sent.
pub data ConnectResult : Type 0 where
  no_port : ConnectResult
  connected : TcpStack → NormalSocket → List TcpPacket → ConnectResult
  could_not_connect : TcpStack → List TcpPacket → ConnectResult
  connecting : TcpStack → List TcpPacket → ConnectResult

-- `VConnect` after its loop: `t` is the stack before the call, `sk` the new key.
unfoldable pub connect_outcome : TcpStack → SocketTableKey → Dialed → ConnectResult
unfolding add_socket delete_tcb
connect_outcome t sk (waits n) =
    connecting (add_socket t sk (connects sk t.sid)) (replicate n (bare_packet sk flag_syn 5000 0))
connect_outcome t sk (gave_up n) =
    could_not_connect (delete_tcb (add_socket t sk (connects sk t.sid)) t.sid)
      (replicate n (bare_packet sk flag_syn 5000 0))
connect_outcome t sk (answered ci n) =
    let sock = connected_socket sk t.sid ci in
    connected (set_socket (add_socket t sk (connects sk t.sid)) sk (normal sock)) sock (
      replicate n (bare_packet sk flag_syn 5000 0)
      ++ bare_packet sk flag_ack ci.ack_num (add32 ci.seq_num 1) ∷ [])

-- The key of a connection to `dest_addr`.
abbrev pub connect_key : TcpStack → Addr → ℕ → ℕ → SocketTableKey
connect_key t dest_addr dest_port src_port = record {
  local_addr = t.ip;
  local_port = src_port;
  remote_addr = dest_addr;
  remote_port = dest_port;
}

-- `VConnect`
unfoldable pub v_connect : TcpStack → Addr → ℕ → List ℕ → List Event → ConnectResult
unfolding draw_port connect_outcome dial
v_connect t dest_addr dest_port draws events = elim (draw_port t draws) [
  | none ↦ no_port
  | some src_port ↦ connect_outcome t (connect_key t dest_addr dest_port src_port) (dial 0 0 events)
]

-- The two loops of `VAccept` on what comes from `listenChan`: the first segment with exactly these
-- flags for the port, and what comes after it.
unfoldable pub await : ℕ → ℕ → List TcpInfo → Option (TcpInfo × List TcpInfo)
await flag port [] = none
await flag port (ci ∷ infos) =
    let rest = await flag port infos in
    if ci.flag == flag && ci.key.remote_port == port then some (ci, infos) else rest

-- The socket that a SYN makes.
abbrev pub accepted_socket : ℕ → TcpInfo → NormalSocket
accepted_socket sid ci = record {
  sid = sid;
  key = flip_socket_key_fields ci.key;
  state = syn_received;
  state_locked = false;
  read_buffer = new_read;
  write_buffer = new_write;
  base_seq = 6000;
  base_ack = ci.seq_num;
  client_window_size = 65535;
  unacked_nums = [];
  unacked_fins = [];
  early_pq = [];
  cum_write_una = 6001;
  cum_read_nxt = add32 ci.seq_num 1;
}

-- What `VAccept` comes to.
pub data AcceptResult : Type 0 where
  awaits_syn : AcceptResult
  awaits_ack : TcpStack → TcpPacket → AcceptResult
  accepted : TcpStack → NormalSocket → TcpPacket → AcceptResult

-- `VAccept` on a SYN and what its second loop finds.
unfoldable pub accept_outcome : TcpStack → TcpInfo → Option (TcpInfo × List TcpInfo) → AcceptResult
unfolding add_socket
accept_outcome t ci none =
    let sock = accepted_socket t.sid ci in
    awaits_ack (add_socket t sock.key (normal sock))
      (bare_packet sock.key flag_syn_ack 6000 (add32 ci.seq_num 1))
accept_outcome t ci (some (ack, _)) =
    let sock = accepted_socket t.sid ci in
    let sock' : NormalSocket = record sock {
      state = established;
      client_window_size = ack.window_size;
    } in
    accepted (set_socket (add_socket t sock.key (normal sock)) sock.key (normal sock')) sock'
      (bare_packet sock.key flag_syn_ack 6000 (add32 ci.seq_num 1))

-- `VAccept` of a listening socket.
unfoldable pub v_accept : TcpStack → ListenSocket → List TcpInfo → AcceptResult
unfolding accept_outcome await
v_accept t lsock infos = elim (await flag_syn lsock.local_port infos) [
  | none ↦ awaits_syn
  | some (ci, rest) ↦ accept_outcome t ci (await flag_ack lsock.local_port rest)
]
