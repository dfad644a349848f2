-- ===== src/Tcp/Wire/Tests.antt =====
-- A segment's bytes, by a header codec of this file in place of netstack's.
use ip_tcp.Base.{
  ℕ, true, false, ◌/◌, ◌*◌, ◌≡◌, refl, ap, List, [], ◌∷◌, ◌++◌, Option, none, some, arith, be16,
  be32, of_be16-be16, of_be32-be32, get_elem?, u8, drop, if◌then◌else◌, ◌==◌,
}
use mathlib.Core.Option
use ip_tcp.Base.Slices.{read16, read32}
use ip_tcp.Netip.{contains, Addr, AddrPort, ip4, Prefix}
use ip_tcp.Ipv4.{Ipv4Header, header_bytes}
use ip_tcp.Node.Routes.{check_dest, longest, find_next, neighbor_udp}
use ip_tcp.Base.Table.{lookup}
use ip_tcp.Node.State.{Node, Interface, local, static}
use ip_tcp.Node.Packets.Send.{SendsTo}
use ip_tcp.Node.Packets.{handle_send, written, delivered}
use ip_tcp.Node.Start.{routine_sends}
use ip_tcp.Node.Network.{Relays, travel}
use ip_tcp.Node.Samples.{here, router, far, host, link, link_route, udp, ones_sum, ones_sum_lem}
use ip_tcp.Tcp.Segment.{TcpPacket, flag_ack}
use ip_tcp.Tcp.Wire.{
  TcpFields, Netstack, IsNetstack, to_tcp_chan, marshall_tcp_packet, compute_tcp_checksum,
  protocol6,
}
use ip_tcp.Tcp.Wire.RoundTrip.{info_of}
use ip_tcp.Tcp.Wire.Network.{segment_arrives}

abbrev encode : TcpFields → List ℕ
encode f =
    be16 f.src_port
    ++ (be16 f.dst_port
        ++ (be32 f.seq_num
            ++ (be32 f.ack_num
                ++ (u8 (f.data_offset / 4 * 16) ∷ u8 f.flags ∷ be16 f.window_size
                    ++ (be16 f.checksum ++ be16 f.urgent_pointer)))))

abbrev at8 : ℕ → List ℕ → Option ℕ
at8 i b = get_elem? b i

abbrev at16 : ℕ → List ℕ → Option ℕ
at16 i b = elim (read16 (drop i b)) [ none ↦ none | some (n, _) ↦ some n ]

abbrev at32 : ℕ → List ℕ → Option ℕ
at32 i b = elim (read32 (drop i b)) [ none ↦ none | some (n, _) ↦ some n ]

abbrev stack : Netstack
stack = record {
  encode = encode;
  source_port = at16 0;
  destination_port = at16 2;
  sequence_number = at32 4;
  ack_number = at32 8;
  data_offset = λ b. Option.map (λ n. n / 16 * 4) (at8 12 b);
  flags = at8 13;
  window_size = at16 14;
  checksum_field = at16 16;
  checksum_sum = ones_sum;
}

stack_lem : IsNetstack stack
unfolding read16 read32
stack_lem = record {
  length_encode = λ f. refl;
  source_port_encode = λ f b w. ground (arith, of_be16-be16 f.src_port w.src_port_fits);
  destination_port_encode = λ f b w. ground (arith, of_be16-be16 f.dst_port w.dst_port_fits);
  sequence_number_encode = λ f b w. ground (arith, of_be32-be32 f.seq_num w.seq_num_fits);
  ack_number_encode = λ f b w. ground (arith, of_be32-be32 f.ack_num w.ack_num_fits);
  data_offset_encode = λ f b w. ap (λ (n : ℕ). some n) (omega arith);
  flags_encode = λ f b w. ap (λ (n : ℕ). some n) (omega arith);
  window_size_encode = λ f b w. ground (arith, of_be16-be16 f.window_size w.window_size_fits);
  checksum_field_encode = λ f b w. ground (arith, of_be16-be16 f.checksum w.checksum_fits);
}

-- Two bytes for 10.9.0.1 from 10.0.0.1.
abbrev segment : TcpPacket
segment = record {
  source_ip = here;
  dest_ip = far;
  payload = 104 ∷ 105 ∷ [];
  flags = flag_ack;
  source_port = 20000;
  dest_port = 80;
  seq_num = 5001;
  ack_num = 6001;
  window = 65535;
}

abbrev inter_at : Addr → Prefix → Interface
inter_at a pre = record {
  config = record { name = 105 ∷ []; assigned_ip = a; assigned_prefix = pre; udp_addr = udp };
  enabled = true;
  guarded = false;
}

-- The host, which knows the router.
abbrev sender : Node
sender = record host {
  interfaces = (105 ∷ [], inter_at here link) ∷ [];
  neighbor_table =
      (router, record { dest_addr = router; udp_addr = udp; interface_name = 105 ∷ [] }) ∷ [];
}

abbrev far_net : Prefix
far_net = record { addr = ip4 168361984; bits = 16 }

-- Where the segment's destination listens.
abbrev far_udp : AddrPort
far_udp = record { addr = ip4 2130706433; port = 5001 }

-- The router, with 10.9.0.0/16 behind it.
abbrev relay : Node
relay = record host {
  neighbors = record { dest_addr = far; udp_addr = far_udp; interface_name = 105 ∷ [] } ∷ [];
  interfaces = (105 ∷ [], inter_at router link) ∷ [];
  forwarding_table = (far_net, record link_route { next = (ip4 168361986); pre = far_net }) ∷ [];
}

abbrev destination : Node
destination = record host { interfaces = (105 ∷ [], inter_at far far_net) ∷ []; ip_addr = far }

abbrev network : AddrPort → Node × Interface
network u =
    if u.port == 5000 then (relay, inter_at router link) else (destination, inter_at far far_net)

sender-SendsTo : SendsTo sender far (inter_at here link) (105 ∷ []) router
unfolding find_next check_dest longest contains neighbor_udp lookup
sender-SendsTo = record {
  route_type = static;
  next = router;
  udp = udp;
  neighbor = record { dest_addr = router; udp_addr = udp; interface_name = 105 ∷ [] };
  routed = refl;
  hop_is = refl;
  known = refl;
  listed = refl;
  iface_is = refl;
  interfaces = (refl, tt, tt);
  found = refl;
}

relayed : Relays relay far far_udp
unfolding find_next check_dest longest contains neighbor_udp
relayed = ((ip4 168361986), local, refl, refl, refl)

segment_arrives_example :
    (q : List ℕ) × (h : Ipv4Header) × (handle_send ones_sum sender far
        (marshall_tcp_packet stack segment)
        6
      ≡ some ((105 ∷ [], record { pack = q; address = router }) ∷ []))
    × (routine_sends ones_sum sender (inter_at here link) (record { pack = q; address = router })
        ≡ written udp q)
    × (travel ones_sum network 16 udp q ≡ some (delivered 6 (marshall_tcp_packet stack segment) h))
    × (protocol6 stack far (marshall_tcp_packet stack segment) h
        ≡ to_tcp_chan (info_of far segment))
unfolding marshall_tcp_packet compute_tcp_checksum check_dest longest contains header_bytes
    neighbor_udp
segment_arrives_example =
    segment_arrives stack network segment sender destination (inter_at here link) (105 ∷ []) router
      (far_udp ∷ []) udp stack_lem ones_sum_lem (omega arith) sender-SendsTo refl refl refl
      (omega arith) (omega arith)
      (relayed, refl, omega arith, omega arith, (refl, refl, omega arith, omega arith, refl, refl))
