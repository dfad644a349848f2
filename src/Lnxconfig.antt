-- ===== src/Lnxconfig.antt =====
-- The configuration files of nodes: pkg/lnxconfig/lnxconfig.go.
pub mod Kept
pub mod Sound
mod Tests
use ip_tcp.Base.{ℕ, Bool, true, false, List, [], ◌∷◌, ◌++◌, Option, none, some, ◌==◌, if◌then◌else◌}
use ip_tcp.Base.Table.{◌=?◌, insert}
use ip_tcp.Netip.{Addr, addr_eq, AddrPort, Prefix, prefix_eq, masked}
use ip_tcp.Node.State.{Name, name_eq, InterfaceConfig, NeighborConfig}

pub data RoutingMode : Type 0 where
  no_routing : RoutingMode
  static : RoutingMode
  rip : RoutingMode

pub record IpConfig : Type 0 where
  pub interfaces : List InterfaceConfig
  pub neighbors : List NeighborConfig
  pub originating_prefixes : List Prefix
  pub routing_mode : RoutingMode
  pub rip_neighbors : List Addr
  pub static_routes : List (Prefix × Addr)

-- What the parser calls of net/netip, and `Fscanf` of package fmt on its three formats; `none` is an
-- error.
pub record Scanner : Type 0 where
  pub parse_prefix : Name → Option Prefix
  pub parse_addr : Name → Option Addr
  pub parse_addr_port : Name → Option AddrPort
  pub scan_route : Name → Option (Name × Name)
  pub scan_interface : Name → Option (Name × Name × Name)
  pub scan_neighbor : Name → Option (Name × Name × Name)

-- A command's outcome; what an error says is left out.
pub data Parsed : Type 0 where
  parsed : IpConfig → Parsed
  failed : Parsed
  panics : Parsed

-- `strings.Split(line, " ")`
abbrev pub cons_first : ℕ → List Name → List Name
cons_first c [] = (c ∷ []) ∷ []
cons_first c (w ∷ ws) = (c ∷ w) ∷ ws

abbrev pub split : Name → List Name
split [] = [] ∷ []
split (c ∷ line) = let rest = split line in if c == 32 then [] ∷ rest else cons_first c rest

-- The words of the format: "rip", "route", "routing", "interface", "neighbor", "originate",
-- "advertise-to", "prefix" and "static".
abbrev pub w_rip : Name
w_rip = 114 ∷ 105 ∷ 112 ∷ []

abbrev pub w_route : Name
w_route = 114 ∷ 111 ∷ 117 ∷ 116 ∷ 101 ∷ []

abbrev pub w_routing : Name
w_routing = 114 ∷ 111 ∷ 117 ∷ 116 ∷ 105 ∷ 110 ∷ 103 ∷ []

abbrev pub w_interface : Name
w_interface = 105 ∷ 110 ∷ 116 ∷ 101 ∷ 114 ∷ 102 ∷ 97 ∷ 99 ∷ 101 ∷ []

abbrev pub w_neighbor : Name
w_neighbor = 110 ∷ 101 ∷ 105 ∷ 103 ∷ 104 ∷ 98 ∷ 111 ∷ 114 ∷ []

abbrev pub w_originate : Name
w_originate = 111 ∷ 114 ∷ 105 ∷ 103 ∷ 105 ∷ 110 ∷ 97 ∷ 116 ∷ 101 ∷ []

abbrev pub w_advertise_to : Name
w_advertise_to = 97 ∷ 100 ∷ 118 ∷ 101 ∷ 114 ∷ 116 ∷ 105 ∷ 115 ∷ 101 ∷ 45 ∷ 116 ∷ 111 ∷ []

abbrev pub w_prefix : Name
w_prefix = 112 ∷ 114 ∷ 101 ∷ 102 ∷ 105 ∷ 120 ∷ []

abbrev pub w_static : Name
w_static = 115 ∷ 116 ∷ 97 ∷ 116 ∷ 105 ∷ 99 ∷ []

-- The tests of the two loops below.
abbrev pub has_prefix : List InterfaceConfig → Prefix → Bool
has_prefix [] prefix = false
has_prefix (iface ∷ l) prefix =
    let rest = has_prefix l prefix in if iface.assigned_prefix =? prefix then true else rest

abbrev pub has_neighbor : List NeighborConfig → Addr → Bool
has_neighbor [] neighbor = false
has_neighbor (n ∷ l) neighbor =
    let rest = has_neighbor l neighbor in if n.dest_addr =? neighbor then true else rest

-- `addOriginatingPrefix`
abbrev pub add_originating_prefix : IpConfig → Prefix → Parsed
add_originating_prefix c prefix =
    if has_prefix c.interfaces prefix
    then parsed (record c { originating_prefixes = c.originating_prefixes ++ prefix ∷ [] })
    else failed

-- `addRipNeighbor`
abbrev pub add_rip_neighbor : IpConfig → Addr → Parsed
add_rip_neighbor c neighbor =
    if has_neighbor c.neighbors neighbor
    then parsed (record c { rip_neighbors = c.rip_neighbors ++ neighbor ∷ [] })
    else failed

module _ (sc : Scanner) where
  abbrev pub originate_prefix : IpConfig → Option Prefix → Parsed
  originate_prefix c none = failed
  originate_prefix c (some p) = add_originating_prefix c (masked p)

  -- "rip originate": the guard lets one token through if it is "prefix", and indexes none.
  abbrev pub parse_originate : List Name → IpConfig → Parsed
  parse_originate [] c = panics
  parse_originate (w ∷ []) c = if w =? w_prefix then panics else failed
  parse_originate (w ∷ v ∷ _) c = originate_prefix c (sc.parse_prefix v)

  abbrev pub advertise_addr : IpConfig → Option Addr → Parsed
  advertise_addr c none = failed
  advertise_addr c (some a) = add_rip_neighbor c a

  abbrev pub parse_advertise : List Name → IpConfig → Parsed
  parse_advertise [] c = failed
  parse_advertise (w ∷ _) c = advertise_addr c (sc.parse_addr w)

  -- `parseRip`
  abbrev pub parse_rip : List Name → IpConfig → Parsed
  parse_rip (_ ∷ cmd ∷ tokens) c =
      if cmd =? w_originate
      then parse_originate tokens c
      else if cmd =? w_advertise_to
      then parse_advertise tokens c
      else failed
  parse_rip _ c = failed

  -- `parseRouting`
  abbrev pub parse_routing : List Name → IpConfig → Parsed
  parse_routing (_ ∷ rt ∷ _) c =
      if rt =? w_static
      then parsed (record c { routing_mode = static })
      else if rt =? w_rip
      then parsed (record c { routing_mode = rip })
      else failed
  parse_routing _ c = failed

  abbrev pub add_route : IpConfig → Option Prefix → Option Addr → Parsed
  add_route c (some p) (some a) = parsed (record c { static_routes = insert p a c.static_routes })
  add_route c _ _ = failed

  abbrev pub route_of : IpConfig → Option (Name × Name) → Parsed
  route_of c none = failed
  route_of c (some (p, a)) = add_route c (sc.parse_prefix p) (sc.parse_addr a)

  -- An interface keeps the address of its prefix, and the prefix without its host bits.
  abbrev pub add_interface : IpConfig → Name → Option Prefix → Option AddrPort → Parsed
  add_interface c name (some p) (some udp) = parsed (record c {
    interfaces =
        c.interfaces
        ++ record { name = name; assigned_ip = p.addr; assigned_prefix = masked p; udp_addr = udp }
          ∷ [];
  })
  add_interface c name _ _ = failed

  abbrev pub interface_of_line : IpConfig → Option (Name × Name × Name) → Parsed
  interface_of_line c none = failed
  interface_of_line c (some (name, prefix, bind)) =
      add_interface c name (sc.parse_prefix prefix) (sc.parse_addr_port bind)

  abbrev pub add_neighbor : IpConfig → Option Addr → Option AddrPort → Name → Parsed
  add_neighbor c (some dest) (some udp) name = parsed (record c {
    neighbors =
        c.neighbors ++ record { dest_addr = dest; udp_addr = udp; interface_name = name } ∷ [];
  })
  add_neighbor c _ _ name = failed

  abbrev pub neighbor_of_line : IpConfig → Option (Name × Name × Name) → Parsed
  neighbor_of_line c none = failed
  neighbor_of_line c (some (dest, udp, name)) =
      add_neighbor c (sc.parse_addr dest) (sc.parse_addr_port udp) name

  -- The command of a line, by its first token.
  abbrev pub parse_command : Name → Name → IpConfig → Parsed
  parse_command head line c =
      if head =? w_interface
      then interface_of_line c (sc.scan_interface line)
      else if head =? w_neighbor
      then neighbor_of_line c (sc.scan_neighbor line)
      else if head =? w_routing
      then parse_routing (split line) c
      else if head =? w_route
      then route_of c (sc.scan_route line)
      else if head =? w_rip
      then parse_rip (split line) c
      else failed

  -- A line: an empty first token or a comment is skipped.
  abbrev pub parse_tokens : List Name → Name → IpConfig → Parsed
  parse_tokens [] line c = parsed c
  parse_tokens ([] ∷ _) line c = parsed c
  parse_tokens ((ch ∷ w) ∷ _) line c = if ch == 35 then parsed c else parse_command (ch ∷ w) line c

  -- The loop of `ParseConfig` over the lines of the file.
  unfoldable pub parse_lines : List Name → IpConfig → Parsed
  parse_lines [] c = parsed c
  parse_lines (line ∷ lines) c = elim (parse_tokens (split line) line c) [
    | parsed c' ↦ parse_lines lines c'
    | failed ↦ failed
    | panics ↦ panics
  ]

-- The configuration that `ParseConfig` starts from.
abbrev pub empty_config : IpConfig
empty_config = record {
  interfaces = [];
  neighbors = [];
  originating_prefixes = [];
  routing_mode = no_routing;
  rip_neighbors = [];
  static_routes = [];
}

-- `ParseConfig`, on the lines of the file.
abbrev pub parse_config : Scanner → List Name → Parsed
parse_config sc lines = parse_lines sc lines empty_config
