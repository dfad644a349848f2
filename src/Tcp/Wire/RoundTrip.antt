-- ===== src/Tcp/Wire/RoundTrip.antt =====
-- A segment through its bytes.
use ip_tcp.Base.{
  le→leb, ℕ, ◌≡◌, refl, sym, ap, ◌∙◌, List, ◌++◌, none, some, if◌then◌else◌, length-append, drop,
  drop-append, arith, ==_iff, IsU8, IsU16, IsU32,
}
use ip_tcp.Netip.{Addr}
use ip_tcp.Ipv4.{Ipv4Header}
use ip_tcp.Tcp.Segment.{TcpInfo, TcpPacket}
use ip_tcp.Tcp.Wire.{
  TcpFields, Netstack, FitsHeader, IsNetstack, slice_from, to_tcp_chan, compute_tcp_checksum,
  fields_of, marshall_tcp_packet, parse_tcp_header, check_segment, protocol6,
}

-- A segment whose numbers fit their types.
pub record FitsSegment (p : TcpPacket) : Type 0 where
  pub source_port_fits : IsU16 p.source_port
  pub dest_port_fits : IsU16 p.dest_port
  pub seq_num_fits : IsU32 p.seq_num
  pub ack_num_fits : IsU32 p.ack_num
  pub flags_fit : IsU8 p.flags
  pub window_fits : IsU16 p.window

-- What a segment arrives as at a node of address `ip_addr`.
abbrev pub info_of : Addr → TcpPacket → TcpInfo
info_of ip_addr p = record {
  key = record {
    local_addr = p.source_ip;
    local_port = p.source_port;
    remote_addr = ip_addr;
    remote_port = p.dest_port;
  };
  flag = p.flags;
  seq_num = p.seq_num;
  ack_num = p.ack_num;
  window_size = p.window;
  payload = p.payload;
}

module _ (ns : Netstack) (law : IsNetstack ns) where
  fits_header : (p : TcpPacket) (c : ℕ) → FitsSegment p → IsU16 c → FitsHeader (fields_of ns p c)
  fits_header p c w h = record {
    src_port_fits = w.source_port_fits;
    dst_port_fits = w.dest_port_fits;
    seq_num_fits = w.seq_num_fits;
    ack_num_fits = w.ack_num_fits;
    offset_short = omega arith;
    offset_words = refl;
    flags_fit = w.flags_fit;
    window_size_fits = w.window_fits;
    checksum_fits = h;
  }

  parse_tcp_header-encode :
      (p : TcpPacket) (c : ℕ) (b : List ℕ)
      → FitsSegment p
      → IsU16 c
      → parse_tcp_header ns (ns.encode (fields_of ns p c) ++ b) ≡ some (fields_of ns p c)
  unfolding parse_tcp_header
  parse_tcp_header-encode p c b w h =
      let f = fields_of ns p c in
      let fits = fits_header p c w h in
      simp (
        law.source_port_encode f b fits,
        law.destination_port_encode f b fits,
        law.sequence_number_encode f b fits,
        law.ack_number_encode f b fits,
        law.data_offset_encode f b fits,
        law.flags_encode f b fits,
        law.window_size_encode f b fits,
        law.checksum_field_encode f b fits,
      )

  slice_encode : (f : TcpFields) (b : List ℕ) → slice_from 20 (ns.encode f ++ b) ≡ some b
  slice_encode f b =
      ap (λ t. if t then some (drop 20 (ns.encode f ++ b)) else none)
        (le→leb 20 _ (omega (arith, length-append (ns.encode f) b, law.length_encode f)))
      ∙ ap (λ (n : ℕ). some (drop n (ns.encode f ++ b))) (sym (law.length_encode f))
      ∙ ap (λ (x : List ℕ). some x) (drop-append (ns.encode f) b)

  computed_fits :
      (p : TcpPacket)
      → IsU16 (compute_tcp_checksum ns (fields_of ns p 0) p.source_ip p.dest_ip p.payload)
  unfolding compute_tcp_checksum
  computed_fits p = omega arith

  -- `protocol6` takes the bytes that `marshallTCPPacket` makes of a segment as that segment: the
  -- checksum passes, and flags, numbers, window and payload are those of the sender. This is if the
  -- numbers fit their types and the IP header has the segment's addresses.
  pub protocol6-marshall_tcp_packet :
      (ip_addr : Addr) (p : TcpPacket) (hdr : Ipv4Header)
      → FitsSegment p
      → hdr.src ≡ p.source_ip
      → hdr.dst ≡ p.dest_ip
      → protocol6 ns ip_addr (marshall_tcp_packet ns p) hdr ≡ to_tcp_chan (info_of ip_addr p)
  unfolding protocol6 marshall_tcp_packet
  protocol6-marshall_tcp_packet ip_addr p hdr w es ed =
      rw (parse_tcp_header-encode p c p.payload w fits, protocol6)
        (rw (slice_encode (fields_of ns p c) p.payload) (checked hdr es ed))
    where
      c : ℕ
      c = compute_tcp_checksum ns (fields_of ns p 0) p.source_ip p.dest_ip p.payload

      fits : IsU16 c
      fits = computed_fits p

      checked :
          (hdr : Ipv4Header)
          → hdr.src ≡ p.source_ip
          → hdr.dst ≡ p.dest_ip
          → check_segment ns ip_addr
              (ns.encode (fields_of ns p c) ++ p.payload)
              hdr
              (fields_of ns p c)
              p.payload
            ≡ to_tcp_chan (info_of ip_addr p)
      checked hdr es ed =
          rw (es, ed, check_segment)
            (rw ((==_iff c c).1 refl) (rw (slice_encode (fields_of ns p c) p.payload) (rw es refl)))
