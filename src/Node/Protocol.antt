-- ===== src/Node/Protocol.antt =====
-- `sendRIP` and `protocol200` whole: the messages that are sent, on the channels of the interfaces.
pub mod Exchange
use ip_tcp.Base.{
  ℕ, ◌≡◌, Bool, true, false, List, [], ◌∷◌, ◌++◌, Option, none, some, ◌==◌, if◌then◌else◌, length,
}
use ip_tcp.Base.Slices.{◌>>=◌}
use ip_tcp.Base.Table.{lookup}
use ip_tcp.Netip.{Addr, addr_eq, invalid, Prefix}
use ip_tcp.Ipv4.{Ipv4Header}
use ip_tcp.Rip.{RipPacket, marshal_rip, extract_rip}
use ip_tcp.Node.State.{Node, Name, name_eq, NeighborConfig, Interface}
use ip_tcp.Node.Packets.{SendInterface, make_packet}
use ip_tcp.Node.Rip.{Table, Update, advertise_all, response, update_entries}

-- The interface of a neighbor; a missing neighbor has the empty name.
abbrev pub interface_of : Node → Addr → Name
interface_of node dst = elim (lookup dst node.neighbor_table) [
  | none ↦ []
  | some n ↦ n.interface_name
]

-- `AssignedIP` of an interface; a missing one has the zero address.
abbrev pub assigned_ip_of : Node → Name → Addr
assigned_ip_of node name = elim (lookup name node.interfaces) [
  | none ↦ invalid
  | some i ↦ i.config.assigned_ip
]

module _ (checksum_sum : List ℕ → ℕ → ℕ) where
  -- `sendRIP`: the interface's name and what is sent on its channel; `none` is a panic or exit.
  unfoldable pub send_rip : Node → Addr → Table → Option (Name × SendInterface)
  send_rip node dst subset = advertise_all dst subset >>= (λ entries.
      let inter = interface_of node dst in
      make_packet checksum_sum (assigned_ip_of node inter) dst 200 16
        (marshal_rip (response entries))
      >>= (λ packet. some (inter, record { pack = packet; address = dst })))

  -- The loop over `ripNeighbors`.
  unfoldable pub send_all : Node → List Addr → Table → Option (List (Name × SendInterface))
  send_all node [] subset = some []
  send_all node (n ∷ ns) subset =
      let rest = send_all node ns subset in
      send_rip node n subset >>= (λ sent. rest >>= (λ more. some (sent ∷ more)))

  -- What `protocol200` does with an extracted packet.
  unfoldable pub take_packet :
      Node → ℕ → Ipv4Header → RipPacket → Option (Node × List (Name × SendInterface))
  take_packet node now h p =
      let u : Update =
        update_entries now h.src p.entries
          (record { table = node.forwarding_table; triggered = [] }) in
      let node' : Node = record node { forwarding_table = u.table } in
      if p.command == 1
      then send_rip node h.src node.forwarding_table >>= (λ sent. some (node, sent ∷ []))
      else if length u.triggered == 0
      then some (node', [])
      else send_all node' node'.rip_neighbors u.triggered >>= (λ sent. some (node', sent))

  -- `protocol200` at time `now`: the node after it, and what is sent. `spare` is what lies behind
  -- the message in its buffer.
  unfoldable pub protocol200 :
      Node → ℕ → List ℕ → List ℕ → Ipv4Header → Option (Node × List (Name × SendInterface))
  unfolding take_packet
  protocol200 node now message spare h = extract_rip message spare >>= take_packet node now h
