-- ===== src/Node/Routes.antt =====
-- Where a packet goes: `checkDest`, `FindNext` and `neighborUDP`.
pub mod Longest
pub mod Prefixes
pub mod Search
use ip_tcp.Base.{ℕ, Bool, true, false, List, [], ◌∷◌, Option, none, some, ltb, ◌&&◌, if◌then◌else◌}
use ip_tcp.Base.Table.{◌=?◌}
use ip_tcp.Netip.{Addr, addr_eq, AddrPort, Prefix, contains}
use ip_tcp.Node.State.{Interface, ForwardingInfo, RouteType, local, NeighborConfig, Node, Name}

-- The loops of `checkDest` and `FindNext` over a map: `best` is what was found so far, and `len` is
-- its prefix's `Bits()`, or -1 while nothing was found.
module _ {A : Type 0} (pre : A → Prefix) where
  abbrev pub is_longer : A → Option A → Bool
  is_longer x none = true
  is_longer x (some b) = ltb (pre b).bits (pre x).bits

module _ {K A : Type 0} (pre : A → Prefix) (dst : Addr) where
  unfoldable pub longest : Option A → List (K × A) → Option A
  longest best [] = best
  longest best ((k, x) ∷ m) =
      longest (if contains (pre x) dst && is_longer pre x best then some x else best) m

abbrev pub interface_prefix : Interface → Prefix
interface_prefix i = i.config.assigned_prefix

abbrev pub route_prefix : ForwardingInfo → Prefix
route_prefix f = f.pre

-- `checkDest`
unfoldable pub check_dest : Node → Addr → Bool
check_dest node dst = elim (longest interface_prefix dst none node.interfaces) [
  | none ↦ false
  | some iface ↦ dst =? iface.config.assigned_ip
]

-- `FindNext`, where `none` is the answer `false` (its callers do not look at the rest then).
unfoldable pub find_next : Node → Addr → Option (Addr × RouteType)
find_next node dst = elim (check_dest node dst) [
  | true ↦ some (dst, local)
  | false ↦ elim (longest route_prefix dst none node.forwarding_table) [
    | none ↦ none
    | some info ↦ some (info.next, info.route_type)
  ]
]

-- `neighborUDP`, where `none` is the answer `false` with a dummy address.
unfoldable pub neighbor_udp : List NeighborConfig → Addr → Option AddrPort
neighbor_udp [] dst = none
neighbor_udp (n ∷ ns) dst = if n.dest_addr =? dst then some n.udp_addr else neighbor_udp ns dst
