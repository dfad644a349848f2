-- ===== src/Node/Packets.antt =====
-- IP packets in a node: `makePacket`, `handlePackets`, `forwardPacket` and `HandleSend`.
pub mod Checksum
pub mod Hops
pub mod Send
use ip_tcp.Base.{
  ℕ, ◌+◌, ◌-◌, ◌≡◌, Bool, true, false, not, List, [], ◌∷◌, ◌++◌, Option, none, some, ltb, ◌==◌,
  if◌then◌else◌, length, take, drop,
}
use ip_tcp.Base.Slices.{◌>>=◌}
use ip_tcp.Base.Table.{◌=?◌, lookup, nat_eq}
use ip_tcp.Netip.{Addr, addr_eq, invalid, AddrPort}
use ip_tcp.Ipv4.{Ipv4Header, Result, ok, err, header_len, marshal, parse_header}
use ip_tcp.Node.State.{Interface, RouteType, local, NeighborConfig, Node, Name, name_eq}
use ip_tcp.Node.Routes.{check_dest, find_next, neighbor_udp}

-- `Src` and `Dst` are parsed from their printed form, which panics on the zero address.
abbrev pub is_valid_addr : Addr → Bool
is_valid_addr invalid = false
is_valid_addr _ = true

-- The header of `makePacket`, with `checksum` in its field.
abbrev pub packet_header : Addr → Addr → ℕ → ℕ → List ℕ → ℕ → Ipv4Header
packet_header src dst protocol_num ttl payload checksum = record {
  version = 4;
  len = 20;
  tos = 0;
  total_len = header_len + length payload;
  id = 0;
  flags = 0;
  frag_off = 0;
  ttl = ttl;
  protocol = protocol_num;
  checksum = checksum;
  src = src;
  dst = dst;
  options = [];
}

-- For a local route the next hop is the destination itself.
abbrev pub next_hop : RouteType → Addr → Addr → Addr
next_hop local next dst = dst
next_hop _ next dst = next

-- What becomes of a received packet. `delivered` is a call of the handler of a protocol number, on
-- a payload and a header; `written` is a packet written to a UDP address.
pub data Verdict : Type 0 where
  dropped : Verdict
  delivered : ℕ → List ℕ → Ipv4Header → Verdict
  written : AddrPort → List ℕ → Verdict
  exits : Verdict

-- The calls of the node: an interface's channel gets a packet and the address of the next hop.
pub record SendInterface : Type 0 where
  pub pack : List ℕ
  pub address : Addr

abbrev pub marshalled : Ipv4Header → Option (List ℕ)
marshalled h = elim (marshal h) [ ok b ↦ some b | err e ↦ none ]

abbrev pub is_among : ℕ → List ℕ → Bool
is_among n [] = false
is_among n (m ∷ ms) = if n == m then true else is_among n ms

-- `checksum_sum` is netstack's `header.Checksum`: the sum of the bytes as big-endian words, with
-- an initial value.
module _ (checksum_sum : List ℕ → ℕ → ℕ) where
  -- `ComputeChecksum`; the exclusive or with 0xffff is the complement of a uint16.
  abbrev pub compute_checksum : List ℕ → ℕ
  compute_checksum b = 65535 - checksum_sum b 0

  -- `ValidateChecksum`
  abbrev pub validate_checksum : List ℕ → ℕ → ℕ
  validate_checksum b from_header = checksum_sum b from_header

  -- `makePacket`; `none` is a panic or `log.Fatalln`.
  unfoldable pub make_packet : Addr → Addr → ℕ → ℕ → List ℕ → Option (List ℕ)
  make_packet src dst protocol_num ttl payload =
      if is_valid_addr src
      then if is_valid_addr dst
        then marshalled (packet_header src dst protocol_num ttl payload 0) >>= (λ b.
          marshalled (packet_header src dst protocol_num ttl payload (compute_checksum b))
          >>= (λ header_bytes. some (header_bytes ++ payload)))
        else none
      else none

  -- `forwardPacket`, where writing to the socket succeeds.
  abbrev pub forward_packet : Node → Addr → List ℕ → Verdict
  forward_packet node next_addr p = elim (neighbor_udp node.neighbors next_addr) [
    | none ↦ dropped
    | some udp ↦ written udp p
  ]

  -- What `handlePackets` does with a packet for another node.
  unfoldable pub forward : Node → Ipv4Header → List ℕ → Verdict
  forward node h payload = elim (find_next node h.dst) [
    | none ↦ dropped
    | some (next, t) ↦ elim (make_packet h.src h.dst h.protocol h.ttl payload) [
      | none ↦ exits
      | some p ↦ forward_packet node (next_hop t next h.dst) p
    ]
  ]

  -- A packet that passed the checks is delivered or sent on. A protocol without a handler is a call
  -- of nil.
  unfoldable pub route : Node → Ipv4Header → List ℕ → Verdict
  unfolding forward
  route node h payload =
      if check_dest node h.dst
      then if is_among h.protocol node.handlers then delivered h.protocol payload h else exits
      else if ltb 0 h.ttl
      then forward node h payload
      else dropped

  -- The header after `TTL--`, with its checksum checked.
  unfoldable pub dispatch : Node → Ipv4Header → List ℕ → Verdict
  unfolding route
  dispatch node h buffer =
      if validate_checksum (take h.len buffer) h.checksum == h.checksum
      then route node h (drop h.len buffer)
      else dropped

  -- `handlePackets`
  unfoldable pub handle_packets : Node → List ℕ → Verdict
  unfolding dispatch
  handle_packets node buffer = elim (parse_header buffer) [
    | err e ↦ dropped
    | ok h ↦ if h.ttl == 0 then dropped else dispatch node (record h { ttl = h.ttl - 1 }) buffer
  ]

  -- The loop of `HandleSend` over the interfaces, on those with the neighbor's name.
  abbrev send_from :
      List (Name × Interface)
      → Name
      → Addr
      → Addr
      → ℕ
      → List ℕ
      → Option (List (Name × SendInterface))
  send_from [] iface next_addr dst protocol_num payload = some []
  send_from ((k, inter) ∷ m) iface next_addr dst protocol_num payload =
      send_from m iface next_addr dst protocol_num payload >>= (λ rest.
        if inter.config.name =? iface
        then make_packet inter.config.assigned_ip dst protocol_num 16 payload
          >>= (λ p. some ((iface, record { pack = p; address = next_addr }) ∷ rest))
        else some rest)

  -- `HandleSend`: what is sent on the channels of the interfaces; `none` is a panic or exit.
  unfoldable pub handle_send : Node → Addr → List ℕ → ℕ → Option (List (Name × SendInterface))
  handle_send node dst payload protocol_num = elim (find_next node dst) [
    | none ↦ some []
    | some (next, t) ↦ elim (neighbor_udp node.neighbors (next_hop t next dst)) [
      | none ↦ some []
      | some udp ↦ elim (lookup (next_hop t next dst) node.neighbor_table) [
        | none ↦ send_from node.interfaces [] (next_hop t next dst) dst protocol_num payload
        | some neighbor ↦
            send_from node.interfaces neighbor.interface_name (next_hop t next dst) dst protocol_num
              payload
      ]
    ]
  ]
