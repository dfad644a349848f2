-- ===== src/Node/Start.antt =====
-- `Initialize`, and the threads it starts: `interfaceRoutine`, `periodicUpdates` and
-- `garbageCollector`. Their loops are one round each; sockets and the clock are left out.
pub mod Static
pub mod Tables
pub mod Toggle
pub mod Request
pub mod Samples
mod Tests
use ip_tcp.Base.{
  ℕ, ◌≡◌, Bool, true, false, List, [], ◌∷◌, Option, none, some, ◌==◌, if◌then◌else◌, length, take,
}
use ip_tcp.Base.Slices.{◌>>=◌}
use ip_tcp.Base.Table.{lookup, insert}
use ip_tcp.Netip.{Addr, addr_eq, invalid, Prefix, prefix_eq}
use ip_tcp.Lnxconfig.{IpConfig}
use ip_tcp.Rip.{RipPacket, marshal_rip}
use ip_tcp.Node.State.{
  Node, Name, name_eq, InterfaceConfig, Interface, ForwardingInfo, local, static,
}
use ip_tcp.Node.Neighbors.{create_neighbor_table}
use ip_tcp.Node.Packets.{
  SendInterface, make_packet, Verdict, dropped, forward_packet, handle_packets,
}
use ip_tcp.Node.Rip.{Table, Update, collect}
use ip_tcp.Node.Protocol.{interface_of, assigned_ip_of, send_all}

abbrev pub static_route : Prefix → Addr → ForwardingInfo
static_route pre addr = record {
  route_type = static;
  next = addr;
  pre = pre;
  cost = 0;
  last_updated = 0;
  ifname = [];
}

abbrev pub local_route : InterfaceConfig → ForwardingInfo
local_route c = record {
  route_type = local;
  next = c.assigned_ip;
  pre = c.assigned_prefix;
  cost = 0;
  last_updated = 0;
  ifname = c.name;
}

-- The loop over the static routes.
unfoldable pub add_static_routes : List (Prefix × Addr) → Table → Table
add_static_routes [] t = t
add_static_routes ((pre, addr) ∷ rs) t = add_static_routes rs (insert pre (static_route pre addr) t)

abbrev pub new_interface : InterfaceConfig → Interface
new_interface c = record { config = c; enabled = true; guarded = false }

-- The loop over the interfaces.
unfoldable pub add_interfaces : List InterfaceConfig → Node → Node
add_interfaces [] node = node
add_interfaces (c ∷ cs) node = add_interfaces cs (record node {
  interfaces = insert c.name (new_interface c) node.interfaces;
  forwarding_table = insert c.assigned_prefix (local_route c) node.forwarding_table;
})

abbrev pub request : RipPacket
request = record { command = 1; num_entries = 0; entries = [] }

-- `MaxMessageSize`
abbrev pub max_message_size : ℕ
max_message_size = 1400

-- "if0"
abbrev pub if0 : Name
if0 = 105 ∷ 102 ∷ 48 ∷ []

-- The node before its interfaces.
abbrev pub with_routes : IpConfig → Node
with_routes c = record {
  neighbors = c.neighbors;
  interfaces = [];
  neighbor_table = create_neighbor_table c.neighbors;
  forwarding_table = add_static_routes c.static_routes [];
  handlers = [];
  rip_neighbors = [];
  ip_addr = invalid;
}

-- The node when `Initialize` returns, from the one with its interfaces.
abbrev pub finished : IpConfig → Node → Node
finished c node = record node {
  rip_neighbors = c.rip_neighbors;
  handlers = 0 ∷ 6 ∷ 200 ∷ [];
  ip_addr = assigned_ip_of node if0;
}

module _ (checksum_sum : List ℕ → ℕ → ℕ) where
  -- The request to a RIP neighbor: the interface's name and what is sent on its channel; `none` is
  -- a panic or exit.
  unfoldable pub send_request : Node → Addr → Option (Name × SendInterface)
  send_request node dst =
      let inter = interface_of node dst in
      make_packet checksum_sum (assigned_ip_of node inter) dst 200 16 (marshal_rip request)
      >>= (λ packet. some (inter, record { pack = packet; address = dst }))

  -- The loop over the RIP neighbors.
  unfoldable pub send_requests : Node → List Addr → Option (List (Name × SendInterface))
  send_requests node [] = some []
  send_requests node (n ∷ ns) =
      let rest = send_requests node ns in
      send_request node n >>= (λ sent. rest >>= (λ more. some (sent ∷ more)))

  -- `Initialize`: the node, and what is sent on the channels of its interfaces.
  unfoldable pub initialize : IpConfig → Option (Node × List (Name × SendInterface))
  initialize c =
      let node = add_interfaces c.interfaces (with_routes c) in
      send_requests node c.rip_neighbors >>= (λ sent. some (finished c node, sent))

  -- A round of `periodicUpdates`.
  unfoldable pub periodic_update : Node → Option (List (Name × SendInterface))
  periodic_update node = send_all checksum_sum node node.rip_neighbors node.forwarding_table

  -- A round of `garbageCollector` at time `now`: the node after it, and what is sent.
  unfoldable pub garbage_collector : Node → ℕ → Option (Node × List (Name × SendInterface))
  garbage_collector node now =
      let u : Update = collect now node.forwarding_table in
      let node' : Node = record node { forwarding_table = u.table } in
      if length u.triggered == 0
      then some (node', [])
      else send_all checksum_sum node' node'.rip_neighbors u.triggered
        >>= (λ sent. some (node', sent))

  -- `interfaceRoutine` with a datagram from the socket, of which the buffer takes the first 1400
  -- bytes: `none` waits for the interface to be enabled, and then reads the next one.
  abbrev pub routine_receives : Node → Interface → List ℕ → Option Verdict
  routine_receives node iface datagram =
      if iface.enabled
      then some (handle_packets checksum_sum node (take max_message_size datagram))
      else none

  -- The goroutine of `interfaceRoutine` for sends, with a packet from the channel.
  abbrev pub routine_sends : Node → Interface → SendInterface → Verdict
  routine_sends node iface received =
      if iface.enabled
      then forward_packet checksum_sum node received.address received.pack
      else dropped

-- The copy of an interface that `interfaceRoutine` works on: it is given by value.
abbrev pub routine_copy : Interface → Interface
routine_copy iface = record iface { guarded = true }

-- `ToggleInterface`: an error, a panic of the nil mutex, or the copy of the interface that was
-- toggled, which the node's table does not hold.
pub data Toggled : Type 0 where
  not_an_interface : Toggled
  nil_mutex : Toggled
  toggled : Interface → Toggled

unfoldable pub toggle_interface : Node → Name → Bool → Toggled
toggle_interface node name b = elim (lookup name node.interfaces) [
  | none ↦ not_an_interface
  | some iface ↦ if iface.guarded then toggled (record iface { enabled = b }) else nil_mutex
]
