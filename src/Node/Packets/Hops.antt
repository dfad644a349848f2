-- ===== src/Node/Packets/Hops.antt =====
-- A packet that one node makes, at the next node.
use ip_tcp.Base.{
  ℕ, ◌+◌, ◌-◌, ◌≤◌, ◌≡◌, ◌≢◌, refl, sym, ap, ◌∙◌, ◌↔◌, true, false, List, ◌++◌, none, some, arith,
  length, take, drop, take-append, drop-append, if◌then◌else◌, ◌==◌, ==_iff, lt→ltb, ne→not_==,
  IsU8, IsU16,
}
use ip_tcp.Netip.{Addr, ip4, ip6, invalid, IsIp4, AddrPort}
use ip_tcp.Ipv4.{Ipv4Header, ok, err, header_bytes}
use ip_tcp.Ipv4.RoundTrip.{FitsWire, marshal-bytes, parse_header-bytes, length-header_bytes}
use ip_tcp.Node.State.{Node, RouteType}
use ip_tcp.Node.Routes.{check_dest, find_next, neighbor_udp}
use ip_tcp.Node.Packets.{
  packet_header, compute_checksum, validate_checksum, make_packet, handle_packets, dispatch, route,
  forward, next_hop, dropped, delivered, written, is_among, marshalled, is_valid_addr,
}
use ip_tcp.Node.Packets.Checksum.{IsOnesSum, validate_checksum_iff}

-- A packet whose fields fit its header.
pub record IsSendable (src dst : Addr) (protocol_num ttl : ℕ) (payload : List ℕ) : Type 0 where
  pub src_v4 : IsIp4 src
  pub dst_v4 : IsIp4 dst
  pub protocol_fits : IsU8 protocol_num
  pub ttl_fits : IsU8 ttl
  pub length_fits : IsU16 (20 + length payload)

pub fits_wire :
    {src dst : Addr} {protocol_num ttl : ℕ} {payload : List ℕ} (c : ℕ)
    → IsSendable src dst protocol_num ttl payload
    → IsU16 c
    → FitsWire (packet_header src dst protocol_num ttl payload c)
fits_wire c w hc = record {
  is_v4 = refl;
  len_counts = refl;
  words = refl;
  short = omega arith;
  tos_fits = omega arith;
  total_len_fits = w.length_fits;
  id_fits = omega arith;
  flags_fit = omega arith;
  frag_off_fits = omega arith;
  ttl_fits = w.ttl_fits;
  protocol_fits = w.protocol_fits;
  checksum_fits = hc;
  src_v4 = w.src_v4;
  dst_v4 = w.dst_v4;
}

valid : (a : Addr) → IsIp4 a → is_valid_addr a ≡ true
valid (ip4 n) h = refl
valid invalid h = absurd h
valid (ip6 n z) h = absurd h

module _ (sum : List ℕ → ℕ → ℕ) where
  -- A header that fits the wire, at a node: its time to live goes down, and it is routed if its
  -- checksum passes.
  handle_packets-bytes :
      (node : Node) (h : Ipv4Header) (payload : List ℕ)
      → FitsWire h
      → h.ttl ≢ 0
      → handle_packets sum node (header_bytes h ++ payload) ≡ (
          if validate_checksum sum (header_bytes h) h.checksum == h.checksum
          then route sum node (record h { ttl = h.ttl - 1 }) payload
          else dropped)
  unfolding handle_packets dispatch
  handle_packets-bytes node h payload w ht =
      rw (parse_header-bytes h payload w, handle_packets)
        (rw (ne→not_== h.ttl 0 ht) (rw (taken, dispatch) (rw (dropped_bytes) refl)))
    where
      taken : take h.len (header_bytes h ++ payload) ≡ header_bytes h
      taken =
          ap (λ n. take n (header_bytes h ++ payload)) (sym (length-header_bytes h w))
          ∙ take-append (header_bytes h) payload

      dropped_bytes : drop h.len (header_bytes h ++ payload) ≡ payload
      dropped_bytes =
          ap (λ n. drop n (header_bytes h ++ payload)) (sym (length-header_bytes h w))
          ∙ drop-append (header_bytes h) payload

  module _ (src dst : Addr) (protocol_num ttl : ℕ) (payload : List ℕ) where
    -- The checksum that `makePacket` writes.
    abbrev pub packet_checksum : ℕ
    packet_checksum =
        compute_checksum sum (header_bytes (packet_header src dst protocol_num ttl payload 0))

    pub make_packet-bytes :
        IsOnesSum sum
        → IsSendable src dst protocol_num ttl payload
        → make_packet sum src dst protocol_num ttl payload
          ≡ some (
              header_bytes (packet_header src dst protocol_num ttl payload packet_checksum)
              ++ payload)
    unfolding make_packet
    make_packet-bytes law w = simp (
      valid src w.src_v4,
      valid dst w.dst_v4,
      written_header 0 (omega arith) w,
      written_header packet_checksum (omega arith) w,
    )
      where
        written_header :
            (c : ℕ)
            → IsU16 c
            → IsSendable src dst protocol_num ttl payload
            → marshalled (packet_header src dst protocol_num ttl payload c)
              ≡ some (header_bytes (packet_header src dst protocol_num ttl payload c))
        written_header c hc w =
            ap (λ r. elim r [ ok b ↦ some b | err e ↦ none ])
              (marshal-bytes (packet_header src dst protocol_num ttl payload c) (fits_wire c w hc))

    -- A node routes the packet with its time to live one less, unless its checksum is 0.
    handle_packets-route :
        IsOnesSum sum
        → IsSendable src dst protocol_num ttl payload
        → ttl ≢ 0
        → (node : Node)
        → let h = packet_header src dst protocol_num ttl payload packet_checksum in
          let routed = packet_header src dst protocol_num (ttl - 1) payload packet_checksum in
          (packet_checksum ≢ 0
            → handle_packets sum node (header_bytes h ++ payload) ≡ route sum node routed payload)
          × (packet_checksum ≡ 0 → handle_packets sum node (header_bytes h ++ payload) ≡ dropped)
    handle_packets-route law w ht node = (
      λ nz.
          at_node
          ∙ ap (λ b. if b then route sum node (record h { ttl = ttl - 1 }) payload else dropped)
              ((==_iff _ _).1 (passes.1 nz)),
      λ z.
          at_node
          ∙ ap (λ b. if b then route sum node (record h { ttl = ttl - 1 }) payload else dropped)
              (ne→not_== _ _ (λ e. passes.0 e z)),
    )
      where
        h : Ipv4Header
        h = packet_header src dst protocol_num ttl payload packet_checksum

        fits : IsU16 packet_checksum
        fits = (validate_checksum_iff sum law src dst protocol_num ttl payload).0

        passes :
            (validate_checksum sum (header_bytes h) packet_checksum ≡ packet_checksum)
            ↔ (packet_checksum ≢ 0)
        passes = (validate_checksum_iff sum law src dst protocol_num ttl payload).1

        at_node : handle_packets sum node (header_bytes h ++ payload) ≡ (
            if validate_checksum sum (header_bytes h) packet_checksum == packet_checksum
            then route sum node (record h { ttl = ttl - 1 }) payload
            else dropped)
        at_node = handle_packets-bytes node h payload (fits_wire packet_checksum w fits) ht

    -- A packet made for a node that is its destination is handed to the handler of its protocol,
    -- with its payload and header, the time to live one less, if its checksum is not 0.
    pub make_packet_delivered :
        IsOnesSum sum
        → IsSendable src dst protocol_num ttl payload
        → ttl ≢ 0
        → packet_checksum ≢ 0
        → (node : Node) → check_dest node dst ≡ true
        → is_among protocol_num node.handlers ≡ true
        → (p : List ℕ) × (make_packet sum src dst protocol_num ttl payload ≡ some p)
          × (handle_packets sum node p
              ≡ delivered protocol_num payload
                  (packet_header src dst protocol_num (ttl - 1) payload packet_checksum))
    unfolding route
    make_packet_delivered law w ht nz node d m = (
      _,
      make_packet-bytes law w,
      (handle_packets-route law w ht node).0 nz ∙ ground (arith, d, m),
    )

    -- A packet whose computed header checksum is 0 is dropped by every node that it reaches.
    pub make_packet_dropped :
        IsOnesSum sum
        → IsSendable src dst protocol_num ttl payload
        → ttl ≢ 0
        → packet_checksum ≡ 0
        → (p : List ℕ) × (make_packet sum src dst protocol_num ttl payload ≡ some p)
          × ((node : Node) → handle_packets sum node p ≡ dropped)
    make_packet_dropped law w ht z =
        (_, make_packet-bytes law w, λ node. (handle_packets-route law w ht node).1 z)

  -- A node on the way writes to its next hop the packet that its maker would have made with a
  -- time to live one less: source, destination, protocol and payload stay. This is if the
  -- checksum is not 0, the time to live is 2 at least, and the next hop is a neighbor.
  pub make_packet_relayed :
      (src dst : Addr) (protocol_num ttl : ℕ) (payload : List ℕ)
      → IsOnesSum sum
      → IsSendable src dst protocol_num ttl payload
      → 2 ≤ ttl
      → packet_checksum src dst protocol_num ttl payload ≢ 0
      → (node : Node) (next : Addr) (t : RouteType) (udp : AddrPort) → check_dest node dst ≡ false
      → find_next node dst ≡ some (next, t)
      → neighbor_udp node.neighbors (next_hop t next dst) ≡ some udp
      → (p q : List ℕ) × (make_packet sum src dst protocol_num ttl payload ≡ some p)
        × (make_packet sum src dst protocol_num (ttl - 1) payload ≡ some q)
        × (handle_packets sum node p ≡ written udp q)
  unfolding route
  make_packet_relayed src dst protocol_num ttl payload law w ht nz node next t udp d f n =
      let again = make_packet-bytes src dst protocol_num (ttl - 1) payload law (later w) in
      (
        _,
        _,
        make_packet-bytes src dst protocol_num ttl payload law w,
        again,
        (handle_packets-route src dst protocol_num ttl payload law w (omega arith) node).0 nz
            ∙ sent _ again,
      )
    where
      later :
          IsSendable src dst protocol_num ttl payload
          → IsSendable src dst protocol_num (ttl - 1) payload
      later w = record {
        src_v4 = w.src_v4;
        dst_v4 = w.dst_v4;
        protocol_fits = w.protocol_fits;
        ttl_fits = omega arith;
        length_fits = w.length_fits;
      }

      sent :
          {q : List ℕ} (c : ℕ)
          → make_packet sum src dst protocol_num (ttl - 1) payload ≡ some q
          → route sum node (packet_header src dst protocol_num (ttl - 1) payload c) payload
            ≡ written udp q
      sent {q} c e =
          rw (d, route)
            (rw (lt→ltb 0 (ttl - 1) (omega arith)) (
              rw (f, forward)
                (rw e (ap (λ r. elim r [ none ↦ dropped | some u ↦ written u q ]) n))))
