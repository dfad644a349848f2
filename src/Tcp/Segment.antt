-- ===== src/Tcp/Segment.antt =====
-- Socket keys and segments: `SocketTableKey` and `TCPInfo` of pkg/node/node.go, `TCPPacket` and
-- `flipSocketKeyFields` of pkg/tcpstack/tcpstack.go.
use ip_tcp.Base.{ℕ, ◌/◌, ◌%◌, ◌≡◌, ◌↔◌, Bool, true, ◌&&◌, List, ◌==◌, arith}
use ip_tcp.Base.Table.{Eq}
use ip_tcp.Netip.{Addr, addr_beq, addr_beq_iff}

pub record SocketTableKey : Type 0 where
  pub local_addr : Addr
  pub local_port : ℕ  -- uint16
  pub remote_addr : Addr
  pub remote_port : ℕ  -- uint16

abbrev pub key_beq : SocketTableKey → SocketTableKey → Bool
key_beq a b =
    addr_beq a.local_addr b.local_addr
    && a.local_port == b.local_port
    && addr_beq a.remote_addr b.remote_addr
    && a.remote_port == b.remote_port

pub key_beq_iff : (a b : SocketTableKey) → (key_beq a b ≡ true) ↔ (a ≡ b)
key_beq_iff a b = (
  λ h.
      ground
        (arith, addr_beq_iff a.local_addr b.local_addr, addr_beq_iff a.remote_addr b.remote_addr),
  λ h.
      ground
        (arith, addr_beq_iff a.local_addr b.local_addr, addr_beq_iff a.remote_addr b.remote_addr),
)

instance abbrev pub key_eq : Eq SocketTableKey
key_eq = record { beq = key_beq; beq_iff = key_beq_iff }

-- `flipSocketKeyFields`
unfoldable pub flip_socket_key_fields : SocketTableKey → SocketTableKey
flip_socket_key_fields sk = record {
  local_addr = sk.remote_addr;
  local_port = sk.remote_port;
  remote_addr = sk.local_addr;
  remote_port = sk.local_port;
}

-- `TCPInfo`
pub record TcpInfo : Type 0 where
  pub key : SocketTableKey
  pub flag : ℕ  -- uint8
  pub seq_num : ℕ  -- uint32
  pub ack_num : ℕ  -- uint32
  pub window_size : ℕ  -- uint16
  pub payload : List ℕ

-- `TCPPacket`
pub record TcpPacket : Type 0 where
  pub source_ip : Addr
  pub dest_ip : Addr
  pub payload : List ℕ
  pub flags : ℕ
  pub source_port : ℕ
  pub dest_port : ℕ
  pub seq_num : ℕ
  pub ack_num : ℕ
  pub window : ℕ

-- The control bits of a TCP header, and the tests `flags & bit > 0`.
abbrev pub flag_fin : ℕ
flag_fin = 1

abbrev pub flag_syn : ℕ
flag_syn = 2

abbrev pub flag_ack : ℕ
flag_ack = 16

abbrev pub flag_fin_ack : ℕ
flag_fin_ack = 17

abbrev pub flag_syn_ack : ℕ
flag_syn_ack = 18

abbrev pub has_fin : ℕ → Bool
has_fin f = f % 2 == 1

abbrev pub has_ack : ℕ → Bool
has_ack f = f / 16 % 2 == 1
