-- ===== src/Tcp/Samples.antt =====
-- A connection and a heap for concrete runs.
use ip_tcp.Base.{false, []}
use ip_tcp.Base.Table.{nat_eq}
use ip_tcp.Netip.{ip4}
use ip_tcp.Tcp.State.{established}
use ip_tcp.Tcp.ReadBuffer.{new_read}
use ip_tcp.Tcp.WriteBuffer.{new_write}
use ip_tcp.Tcp.Segment.{SocketTableKey, flip_socket_key_fields}
use ip_tcp.Tcp.Socket.{NormalSocket}

abbrev pub key : SocketTableKey
key = record {
  local_addr = ip4 0x0a000001;
  local_port = 20000;
  remote_addr = ip4 0x0a010002;
  remote_port = 9999;
}

-- An established connection whose peer started at sequence number 5000.
abbrev pub socket : NormalSocket
socket = record {
  sid = 0;
  key = key;
  state = established;
  state_locked = false;
  read_buffer = new_read;
  write_buffer = new_write;
  base_seq = 6000;
  base_ack = 5000;
  client_window_size = 65535;
  unacked_nums = [];
  unacked_fins = [];
  early_pq = [];
  cum_write_una = 6001;
  cum_read_nxt = 5001;
}

-- The other side of the connection.
abbrev pub peer : NormalSocket
peer = record socket {
  key = flip_socket_key_fields key;
  base_seq = 5000;
  base_ack = 6000;
  cum_write_una = 5001;
  cum_read_nxt = 6001;
}
