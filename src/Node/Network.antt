-- ===== src/Node/Network.antt =====
-- Packets on their way over nodes that UDP connects: each datagram goes to the interface that
-- listens at its address.
use ip_tcp.Base.{
  ℕ, zero, suc, ◌+◌, ◌-◌, ◌≤◌, ◌≡◌, ◌≢◌, refl, sym, ap, ◌∙◌, true, false, List, [], ◌∷◌, Option,
  none, some, some_inj, arith, length, length-append, take, take_all, if◌then◌else◌,
}
use ip_tcp.Netip.{Addr, AddrPort}
use ip_tcp.Ipv4.{Ipv4Header, header_bytes}
use ip_tcp.Ipv4.RoundTrip.{length-header_bytes}
use ip_tcp.Node.State.{Node, Interface, RouteType}
use ip_tcp.Node.Routes.{check_dest, find_next, neighbor_udp}
use ip_tcp.Node.Packets.{
  Verdict, dropped, delivered, written, exits, make_packet, handle_packets, packet_header, next_hop,
  is_among, forward_packet,
}
use ip_tcp.Node.Packets.Checksum.{IsOnesSum, validate_checksum_iff}
use ip_tcp.Node.Packets.Hops.{
  IsSendable, packet_checksum, fits_wire, make_packet-bytes, make_packet_delivered,
  make_packet_relayed,
}
use ip_tcp.Node.Start.{max_message_size, routine_receives, routine_sends}

-- An enabled interface writes what its channel gets to the UDP address of the next hop.
pub routine_sends-written :
    (sum : List ℕ → ℕ → ℕ) (node : Node) (iface : Interface) (hop : Addr) (p : List ℕ)
    {udp : AddrPort}
    → iface.enabled ≡ true
    → neighbor_udp node.neighbors hop ≡ some udp
    → routine_sends sum node iface (record { pack = p; address = hop }) ≡ written udp p
routine_sends-written sum node iface hop p up known =
    ap (λ b. if b then forward_packet sum node hop p else dropped) up
    ∙ ap (λ o. elim o [ none ↦ dropped | some u ↦ written u p ]) known

-- The node sends a packet for `dst` on to the address `udp`.
abbrev pub Relays : Node → Addr → AddrPort → Type 0
Relays node dst udp =
    (next : Addr) × (t : RouteType) × (check_dest node dst ≡ false)
    × (find_next node dst ≡ some (next, t))
    × (neighbor_udp node.neighbors (next_hop t next dst) ≡ some udp)

module _ (sum : List ℕ → ℕ → ℕ) (network : AddrPort → Node × Interface) where
  -- What becomes of a datagram for the address `at` after as many nodes as given: the verdict of the
  -- last node, or none if its interface is disabled or it sends the packet on.
  unfoldable pub travel : ℕ → AddrPort → List ℕ → Option Verdict
  travel zero at q = none
  travel (suc n) at q = elim (routine_receives sum (network at).0 (network at).1 q) [
    | none ↦ none
    | some v ↦ elim v [
      | written udp p ↦ travel n udp p
      | dropped ↦ some dropped
      | delivered protocol_num payload h ↦ some (delivered protocol_num payload h)
      | exits ↦ some exits
    ]
  ]

  -- A datagram that fits the buffer of an enabled interface is handled whole.
  pub received :
      (node : Node) (iface : Interface) (q : List ℕ) {v : Verdict}
      → iface.enabled ≡ true
      → length q ≤ max_message_size
      → handle_packets sum node q ≡ v
      → routine_receives sum node iface q ≡ some v
  received node iface q up short handled =
      ap (λ b. if b then some (handle_packets sum node (take max_message_size q)) else none) up
      ∙ ap (λ d. some (handle_packets sum node d)) (take_all max_message_size q short)
      ∙ ap (λ v. some v) handled

  travel-written :
      (n : ℕ) (at udp : AddrPort) (q p : List ℕ)
      → (network at).1.enabled ≡ true
      → length q ≤ max_message_size
      → handle_packets sum (network at).0 q ≡ written udp p
      → travel (suc n) at q ≡ travel n udp p
  unfolding travel
  travel-written n at udp q p up short handled =
      rw (received (network at).0 (network at).1 q up short handled, travel) refl

  travel-delivered :
      (n : ℕ) (at : AddrPort) (q : List ℕ) {protocol_num : ℕ} {payload : List ℕ} {h : Ipv4Header}
      → (network at).1.enabled ≡ true
      → length q ≤ max_message_size
      → handle_packets sum (network at).0 q ≡ delivered protocol_num payload h
      → travel (suc n) at q ≡ some (delivered protocol_num payload h)
  unfolding travel
  travel-delivered n at q up short handled =
      rw (received (network at).0 (network at).1 q up short handled, travel) refl

  module _ (src dst : Addr) (protocol_num : ℕ) (payload : List ℕ) where
    -- From the address `at` on, the nodes with enabled interfaces send a packet on over the
    -- addresses given up to the node that it is for, which has a handler for it; the time to live
    -- is enough, and the header's checksum is 0 at none of them.
    abbrev pub Leads : List AddrPort → AddrPort → ℕ → Node → Type 0
    Leads [] at ttl node =
        ((network at).0 ≡ node)
        × ((network at).1.enabled ≡ true)
        × (1 ≤ ttl)
        × (packet_checksum sum src dst protocol_num ttl payload ≢ 0)
        × (check_dest node dst ≡ true)
        × (is_among protocol_num node.handlers ≡ true)
    Leads (udp ∷ ats) at ttl node =
        Relays (network at).0 dst udp
        × ((network at).1.enabled ≡ true)
        × (2 ≤ ttl)
        × (packet_checksum sum src dst protocol_num ttl payload ≢ 0)
        × Leads ats udp (ttl - 1) node

    pub length-make_packet :
        (ttl : ℕ) {p : List ℕ}
        → IsOnesSum sum
        → IsSendable src dst protocol_num ttl payload
        → make_packet sum src dst protocol_num ttl payload ≡ some p
        → length p ≡ 20 + length payload
    length-make_packet ttl {p} law w made =
        ap (λ (b : List ℕ). length b)
          (some_inj (sym made ∙ make_packet-bytes sum src dst protocol_num ttl payload law w))
        ∙ length-append (header_bytes h) payload
        ∙ ap (λ n. n + length payload)
            (length-header_bytes h
              (fits_wire c w (validate_checksum_iff sum law src dst protocol_num ttl payload).0))
      where
        c : ℕ
        c = packet_checksum sum src dst protocol_num ttl payload

        h : Ipv4Header
        h = packet_header src dst protocol_num ttl payload c

    -- A packet of at most 1400 bytes gets to its handler with its whole payload.
    pub make_packet_travels :
        (ats : List AddrPort) (at : AddrPort) (ttl : ℕ) (node : Node)
        → IsOnesSum sum
        → IsSendable src dst protocol_num ttl payload
        → length payload ≤ 1380
        → Leads ats at ttl node
        → (p : List ℕ) × (h : Ipv4Header) × (make_packet sum src dst protocol_num ttl payload
            ≡ some p)
          × (h.src ≡ src)
          × (h.dst ≡ dst)
          × (travel ttl at p ≡ some (delivered protocol_num payload h))
    make_packet_travels [] at zero node law w short (is, up, more, nz, here, handled) =
        absurd (omega (arith, more))
    make_packet_travels [] at (suc n) node law w short (is, up, more, nz, here, handled) =
        let (p, made, passed) =
          make_packet_delivered sum src dst protocol_num (suc n) payload law w (omega arith) nz node
            here handled in
        (
          p,
          _,
          made,
          refl,
          refl,
          travel-delivered n at p up (omega (arith, length-make_packet (suc n) law w made, short))
              (ap (λ x. handle_packets sum x p) is ∙ passed),
        )
    make_packet_travels (udp ∷ ats) at zero node law w short (relay, up, more, nz, leads) =
        absurd (omega (arith, more))
    make_packet_travels (udp ∷ ats) at (suc n) node law w short (relay, up, more, nz, leads) =
        let (next, t, other, route, known) = relay in
        let (p, q, made, again, wrote) =
          make_packet_relayed sum src dst protocol_num (suc n) payload law w more nz (network at).0
            next t udp other route known in
        let (q', h, made', from, for_dst, went) =
          make_packet_travels ats udp (suc n - 1) node law (later n w) short leads in
        (
          p,
          h,
          made,
          from,
          for_dst,
          travel-written n at udp p q up
                (omega (arith, length-make_packet (suc n) law w made, short)) wrote
              ∙ ap (λ k. travel k udp q) (omega arith)
              ∙ ap (travel (suc n - 1) udp) (some_inj (sym again ∙ made'))
              ∙ went,
        )
      where
        later :
            (n : ℕ)
            → IsSendable src dst protocol_num (suc n) payload
            → IsSendable src dst protocol_num (suc n - 1) payload
        later n w = record {
          src_v4 = w.src_v4;
          dst_v4 = w.dst_v4;
          protocol_fits = w.protocol_fits;
          ttl_fits = omega (arith, w.ttl_fits);
          length_fits = w.length_fits;
        }
