-- ===== src/Node/Start/Request.antt =====
-- RIP messages on their way from one node to the handler of another: the request that `Initialize`
-- sends, and the responses of `sendRIP`.
use ip_tcp.Base.{ℕ, ◌≤◌, ◌≡◌, ◌≢◌, refl, true, List, some, arith, length}
use ip_tcp.Netip.{Addr, AddrPort}
use ip_tcp.Ipv4.{Ipv4Header}
use ip_tcp.Rip.{marshal_rip}
use ip_tcp.Node.State.{Node, Interface}
use ip_tcp.Node.Routes.{check_dest, neighbor_udp}
use ip_tcp.Node.Packets.{make_packet, delivered, written, is_among}
use ip_tcp.Node.Packets.Checksum.{IsOnesSum}
use ip_tcp.Node.Packets.Hops.{IsSendable, packet_checksum, make_packet_delivered}
use ip_tcp.Node.Protocol.{interface_of, assigned_ip_of}
use ip_tcp.Node.Start.{request, send_request, routine_sends, routine_receives}
use ip_tcp.Node.Network.{received, length-make_packet, routine_sends-written}

-- A payload can go as a RIP message from `sender` to its neighbor `dst`, an address of `node`: its
-- packet's fields fit, and the header checksum is not 0.
pub record Links (sum : List ℕ → ℕ → ℕ) (sender node : Node) (dst : Addr) (payload : List ℕ)
    : Type 0 where
  pub law : IsOnesSum sum
  pub sendable : IsSendable (assigned_ip_of sender (interface_of sender dst)) dst 200 16 payload
  pub unlike_zero :
      packet_checksum sum (assigned_ip_of sender (interface_of sender dst)) dst 200 16 payload ≢ 0
  pub own : check_dest node dst ≡ true
  pub handled : is_among 200 node.handlers ≡ true

module _ (sum : List ℕ → ℕ → ℕ) (sender node : Node) (dst : Addr) where
  -- A payload at the neighbor: the interface that reads the packet hands it to its handler.
  payload_arrives :
      (payload : List ℕ) (iface : Interface)
      → Links sum sender node dst payload
      → length payload ≤ 1380
      → iface.enabled ≡ true
      → let src = assigned_ip_of sender (interface_of sender dst) in
        (q : List ℕ) × (h : Ipv4Header) × (make_packet sum src dst 200 16 payload ≡ some q)
        × (h.src ≡ src)
        × (routine_receives sum node iface q ≡ some (delivered 200 payload h))
  payload_arrives payload iface l short up =
      let src = assigned_ip_of sender (interface_of sender dst) in
      let (q, made, passed) =
        make_packet_delivered sum src dst 200 16 payload l.law l.sendable (omega arith)
          l.unlike_zero node l.own l.handled in
      (
        q,
        _,
        made,
        refl,
        received sum (λ u. (node, iface)) node iface q up
            (omega (
              arith,
              length-make_packet sum (λ u. (node, iface)) src dst 200 payload 16 l.law l.sendable
                  made,
              short,
            ))
            passed,
      )

  -- The request is written to the neighbor's UDP address, and reaches its handler.
  pub request_arrives :
      (iface at : Interface) (udp : AddrPort)
      → Links sum sender node dst (marshal_rip request)
      → neighbor_udp sender.neighbors dst ≡ some udp
      → iface.enabled ≡ true
      → at.enabled ≡ true
      → (q : List ℕ) × (h : Ipv4Header) × (send_request sum sender dst
          ≡ some (interface_of sender dst, record { pack = q; address = dst }))
        × (h.src ≡ assigned_ip_of sender (interface_of sender dst))
        × (routine_sends sum sender iface (record { pack = q; address = dst }) ≡ written udp q)
        × (routine_receives sum node at q ≡ some (delivered 200 (marshal_rip request) h))
  unfolding send_request marshal_rip
  request_arrives iface at udp l known up up' =
      let (q, h, made, from, passed) =
        payload_arrives (marshal_rip request) at l (omega arith) up' in
      (
        q,
        h,
        rw (made, send_request) refl,
        from,
        routine_sends-written sum sender iface dst q up known,
        passed,
      )
