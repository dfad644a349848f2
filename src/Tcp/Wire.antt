-- ===== src/Tcp/Wire.antt =====
-- Segments as bytes: `marshallTCPPacket` of pkg/tcpstack/tcpstack.go, `ParseTCPHeader` and
-- `ComputeTCPChecksum` of pkg/iptcp_utils/iptcp_utils.go, `protocol6` of pkg/node/node.go, over the
-- TCP header of the package netstack.
pub mod RoundTrip
pub mod Network
mod Tests
use ip_tcp.Base.{
  ℕ, ◌+◌, ◌-◌, ◌%◌, ◌<◌, ◌≡◌, Bool, true, false, List, [], ◌∷◌, ◌++◌, Option, none, some, leb, ◌==◌,
  if◌then◌else◌, length, take, drop, u16, be16, IsU8, IsU16, IsU32,
}
use ip_tcp.Base.Slices.{◌>>=◌}
use ip_tcp.Netip.{Addr, as_slice}
use ip_tcp.Ipv4.{Ipv4Header}
use ip_tcp.Tcp.Segment.{SocketTableKey, TcpInfo, TcpPacket}

-- netstack's `header.TCPFields`.
pub record TcpFields : Type 0 where
  pub src_port : ℕ
  pub dst_port : ℕ
  pub seq_num : ℕ
  pub ack_num : ℕ
  pub data_offset : ℕ
  pub flags : ℕ
  pub window_size : ℕ
  pub checksum : ℕ
  pub urgent_pointer : ℕ

-- What the program calls of netstack: `Encode` into 20 bytes, the accessors of `header.TCP` (`none`
-- is a panic on a slice that is too short), and `Checksum`.
pub record Netstack : Type 0 where
  pub encode : TcpFields → List ℕ
  pub source_port : List ℕ → Option ℕ
  pub destination_port : List ℕ → Option ℕ
  pub sequence_number : List ℕ → Option ℕ
  pub ack_number : List ℕ → Option ℕ
  pub data_offset : List ℕ → Option ℕ
  pub flags : List ℕ → Option ℕ
  pub window_size : List ℕ → Option ℕ
  pub checksum_field : List ℕ → Option ℕ
  pub checksum_sum : List ℕ → ℕ → ℕ

-- Fields that fit a TCP header; the data offset is a number of words there.
pub record FitsHeader (f : TcpFields) : Type 0 where
  pub src_port_fits : IsU16 f.src_port
  pub dst_port_fits : IsU16 f.dst_port
  pub seq_num_fits : IsU32 f.seq_num
  pub ack_num_fits : IsU32 f.ack_num
  pub offset_short : f.data_offset < 64
  pub offset_words : f.data_offset % 4 ≡ 0
  pub flags_fit : IsU8 f.flags
  pub window_size_fits : IsU16 f.window_size
  pub checksum_fits : IsU16 f.checksum

-- What netstack documents: `Encode` fills the 20 bytes of a header, and each accessor returns its field
-- of them, whatever lies behind.
pub record IsNetstack (ns : Netstack) : Type 0 where
  pub length_encode : (f : TcpFields) → length (ns.encode f) ≡ 20
  pub source_port_encode :
      (f : TcpFields) (b : List ℕ)
      → FitsHeader f
      → ns.source_port (ns.encode f ++ b) ≡ some f.src_port
  pub destination_port_encode :
      (f : TcpFields) (b : List ℕ)
      → FitsHeader f
      → ns.destination_port (ns.encode f ++ b) ≡ some f.dst_port
  pub sequence_number_encode :
      (f : TcpFields) (b : List ℕ)
      → FitsHeader f
      → ns.sequence_number (ns.encode f ++ b) ≡ some f.seq_num
  pub ack_number_encode :
      (f : TcpFields) (b : List ℕ)
      → FitsHeader f
      → ns.ack_number (ns.encode f ++ b) ≡ some f.ack_num
  pub data_offset_encode :
      (f : TcpFields) (b : List ℕ)
      → FitsHeader f
      → ns.data_offset (ns.encode f ++ b) ≡ some f.data_offset
  pub flags_encode :
      (f : TcpFields) (b : List ℕ) → FitsHeader f → ns.flags (ns.encode f ++ b) ≡ some f.flags
  pub window_size_encode :
      (f : TcpFields) (b : List ℕ)
      → FitsHeader f
      → ns.window_size (ns.encode f ++ b) ≡ some f.window_size
  pub checksum_field_encode :
      (f : TcpFields) (b : List ℕ)
      → FitsHeader f
      → ns.checksum_field (ns.encode f ++ b) ≡ some f.checksum

-- `TcpHeaderLen`
abbrev pub tcp_header_len : ℕ
tcp_header_len = 20

-- Four bytes of `make`, over which `copy` puts the first four of the address.
abbrev pub pseudo_addr : Addr → List ℕ
pseudo_addr a = take 4 (as_slice a ++ (0 ∷ 0 ∷ 0 ∷ 0 ∷ []))

-- `pseudoHeaderBytes`
abbrev pub pseudo_header : Addr → Addr → List ℕ → List ℕ
pseudo_header source_ip dest_ip payload =
    pseudo_addr source_ip
    ++ (pseudo_addr dest_ip ++ (0 ∷ 6 ∷ be16 (u16 (tcp_header_len + length payload))))

-- `b[i:]`
abbrev pub slice_from : ℕ → List ℕ → Option (List ℕ)
slice_from i b = if leb i (length b) then some (drop i b) else none

-- What `protocol6` does with a segment.
pub data Passed : Type 0 where
  ignored : Passed
  to_tcp_chan : TcpInfo → Passed
  panics : Passed

module _ (ns : Netstack) where
  -- `ComputeTCPChecksum`
  unfoldable pub compute_tcp_checksum : TcpFields → Addr → Addr → List ℕ → ℕ
  compute_tcp_checksum tcp_hdr source_ip dest_ip payload =
      let pseudo_header_checksum = ns.checksum_sum (pseudo_header source_ip dest_ip payload) 0 in
      let header_checksum = ns.checksum_sum (ns.encode tcp_hdr) pseudo_header_checksum in
      65535 - ns.checksum_sum payload header_checksum

  -- The fields that `marshallTCPPacket` encodes, with the checksum in.
  abbrev pub fields_of : TcpPacket → ℕ → TcpFields
  fields_of p checksum = record {
    src_port = p.source_port;
    dst_port = p.dest_port;
    seq_num = p.seq_num;
    ack_num = p.ack_num;
    data_offset = 20;
    flags = p.flags;
    window_size = p.window;
    checksum = checksum;
    urgent_pointer = 0;
  }

  -- `marshallTCPPacket`
  unfoldable pub marshall_tcp_packet : TcpPacket → List ℕ
  marshall_tcp_packet p =
      let checksum = compute_tcp_checksum (fields_of p 0) p.source_ip p.dest_ip p.payload in
      ns.encode (fields_of p checksum) ++ p.payload

  -- `ParseTCPHeader`; the urgent pointer is left at 0.
  unfoldable pub parse_tcp_header : List ℕ → Option TcpFields
  parse_tcp_header b = ns.source_port b >>= (λ src_port. ns.destination_port b >>= (λ dst_port.
      ns.sequence_number b >>= (λ seq_num. ns.ack_number b >>= (λ ack_num.
        ns.data_offset b >>= (λ data_offset. ns.flags b >>= (λ flags.
          ns.window_size b >>= (λ window_size. ns.checksum_field b >>= (λ checksum. some (record {
            src_port = src_port;
            dst_port = dst_port;
            seq_num = seq_num;
            ack_num = ack_num;
            data_offset = data_offset;
            flags = flags;
            window_size = window_size;
            checksum = checksum;
            urgent_pointer = 0;
          })))))))))

  -- What `protocol6` sends on `TCPChan` for a header and the bytes behind the first 20.
  abbrev pub tcp_info : Addr → Ipv4Header → TcpFields → List ℕ → TcpInfo
  tcp_info ip_addr hdr tcp_hdr payload = record {
    key = record {
      local_addr = hdr.src;
      local_port = tcp_hdr.src_port;
      remote_addr = ip_addr;
      remote_port = tcp_hdr.dst_port;
    };
    flag = tcp_hdr.flags;
    seq_num = tcp_hdr.seq_num;
    ack_num = tcp_hdr.ack_num;
    window_size = tcp_hdr.window_size;
    payload = payload;
  }

  -- The end of `protocol6`: the segment is sent on if its checksum is that of its header.
  unfoldable pub check_segment : Addr → List ℕ → Ipv4Header → TcpFields → List ℕ → Passed
  check_segment ip_addr message hdr tcp_hdr tcp_payload =
      if compute_tcp_checksum (record tcp_hdr { checksum = 0 }) hdr.src hdr.dst tcp_payload
        == tcp_hdr.checksum
      then elim (slice_from 20 message) [
        | none ↦ panics
        | some payload ↦ to_tcp_chan (tcp_info ip_addr hdr tcp_hdr payload)
      ]
      else ignored

  -- `protocol6` of a node with address `ip_addr`.
  unfoldable pub protocol6 : Addr → List ℕ → Ipv4Header → Passed
  unfolding check_segment
  protocol6 ip_addr message hdr = elim (parse_tcp_header message) [
    | none ↦ panics
    | some tcp_hdr ↦ elim (slice_from tcp_hdr.data_offset message) [
      | none ↦ panics
      | some tcp_payload ↦ check_segment ip_addr message hdr tcp_hdr tcp_payload
    ]
  ]
