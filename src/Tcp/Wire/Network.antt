-- ===== src/Tcp/Wire/Network.antt =====
-- A segment on its way from one node over others to the TCP stack of its destination.
use ip_tcp.Base.{ℕ, ◌≤◌, ◌≡◌, ap, ◌∙◌, true, List, [], ◌∷◌, some, length}
use ip_tcp.Ipv4.{Ipv4Header}
use ip_tcp.Node.State.{Node, Interface, Name}
use ip_tcp.Netip.{Addr, AddrPort}
use ip_tcp.Node.Routes.{neighbor_udp}
use ip_tcp.Node.Start.{routine_sends}
use ip_tcp.Node.Network.{travel, Leads, make_packet_travels, routine_sends-written}
use ip_tcp.Node.Packets.{make_packet, handle_send, written, delivered}
use ip_tcp.Node.Packets.Checksum.{IsOnesSum}
use ip_tcp.Node.Packets.Hops.{IsSendable}
use ip_tcp.Node.Packets.Send.{SendsTo, handle_send-SendsTo}
use ip_tcp.Tcp.Segment.{TcpPacket}
use ip_tcp.Tcp.Wire.{Netstack, IsNetstack, to_tcp_chan, marshall_tcp_packet, protocol6}
use ip_tcp.Tcp.Wire.RoundTrip.{FitsSegment, info_of, protocol6-marshall_tcp_packet}

-- A segment that a node sends by `HandleSend`, from the address of the enabled interface to its next
-- hop: one packet goes to that interface, which writes it to the next hop's UDP address; and over
-- the nodes that send it on from there, it gets to the node of the segment's destination, whose
-- handler for TCP gets the segment's bytes and sends it on to the TCP stack, with the sender's flags,
-- numbers, window and payload. This is if the packet has at most 1400 bytes, its fields fit, the
-- interfaces on the way are enabled and at most 15 nodes send it on, and its header checksum is 0 at
-- none of the nodes.
pub segment_arrives :
    (ns : Netstack) (network : AddrPort → Node × Interface) (p : TcpPacket) (sender node : Node)
    (inter : Interface) (iface : Name) (hop : Addr) (ats : List AddrPort) (at : AddrPort)
    → IsNetstack ns
    → IsOnesSum ns.checksum_sum
    → FitsSegment p
    → SendsTo sender p.dest_ip inter iface hop
    → inter.config.assigned_ip ≡ p.source_ip
    → inter.enabled ≡ true
    → neighbor_udp sender.neighbors hop ≡ some at
    → IsSendable p.source_ip p.dest_ip 6 16 (marshall_tcp_packet ns p)
    → length (marshall_tcp_packet ns p) ≤ 1380
    → Leads ns.checksum_sum network p.source_ip p.dest_ip 6
        (marshall_tcp_packet ns p)
        ats
        at
        16
        node
    → (q : List ℕ) × (h : Ipv4Header) × (handle_send ns.checksum_sum sender p.dest_ip
          (marshall_tcp_packet ns p)
          6
        ≡ some ((iface, record { pack = q; address = hop }) ∷ []))
      × (routine_sends ns.checksum_sum sender inter (record { pack = q; address = hop })
          ≡ written at q)
      × (travel ns.checksum_sum network 16 at q ≡ some (delivered 6 (marshall_tcp_packet ns p) h))
      × (protocol6 ns node.ip_addr (marshall_tcp_packet ns p) h
          ≡ to_tcp_chan (info_of node.ip_addr p))
segment_arrives ns network p sender node inter iface hop ats at law sums w sends src up known
      sendable short leads =
    let (q, h, made, from, for_dst, went) =
      make_packet_travels ns.checksum_sum network p.source_ip p.dest_ip 6 (marshall_tcp_packet ns p)
        ats at 16 node sums sendable short leads in
    (
      q,
      h,
      handle_send-SendsTo ns.checksum_sum sender p.dest_ip (marshall_tcp_packet ns p) 6 sends (
          ap (λ a. make_packet ns.checksum_sum a p.dest_ip 6 16 (marshall_tcp_packet ns p)) src
          ∙ made),
      routine_sends-written ns.checksum_sum sender inter hop q up known,
      went,
      protocol6-marshall_tcp_packet ns law node.ip_addr p h w from for_dst,
    )
