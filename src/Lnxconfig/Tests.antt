-- ===== src/Lnxconfig/Tests.antt =====
-- A configuration file of two interfaces' worth of lines.
use ip_tcp.Base.{◌≡◌, refl, List, [], ◌∷◌, ◌++◌, none, some, All}
use ip_tcp.Base.Table.{lookup}
use mathlib.Core.List.{Memᴰ}
use ip_tcp.Netip.{Addr, addr_eq, Prefix, masked}
use ip_tcp.Node.State.{Name, InterfaceConfig, NeighborConfig}
use ip_tcp.Node.Neighbors.{create_neighbor_table}
use ip_tcp.Node.Samples.{here, router, udp, link}
use ip_tcp.Lnxconfig.{
  IpConfig, Scanner, parsed, parse_config, parse_lines, w_interface, w_neighbor, w_rip, w_originate,
  w_advertise_to, w_prefix, w_routing, rip,
}
use ip_tcp.Lnxconfig.Kept.{IsMasked}
use ip_tcp.Lnxconfig.Sound.{parse_config_sound}

-- 10.0.0.1/24
abbrev own : Prefix
own = record { addr = here; bits = 24 }

abbrev scanner : Scanner
scanner = record {
  parse_prefix = λ w. some own;
  parse_addr = λ w. some router;
  parse_addr_port = λ w. some udp;
  scan_route = λ line. none;
  scan_interface = λ line. some (105 ∷ [], [], []);
  scan_neighbor = λ line. some ([], [], 105 ∷ []);
}

-- "interface i", "neighbor n", "# ", "routing rip", "rip advertise-to n" and "rip originate prefix p".
abbrev lines : List Name
lines =
    (w_interface ++ 32 ∷ 105 ∷ [])
    ∷ (w_neighbor ++ 32 ∷ 110 ∷ [])
    ∷ (35 ∷ 32 ∷ [])
    ∷ (w_routing ++ 32 ∷ w_rip)
    ∷ (w_rip ++ 32 ∷ w_advertise_to ++ 32 ∷ 110 ∷ [])
    ∷ (w_rip ++ 32 ∷ w_originate ++ 32 ∷ w_prefix ++ 32 ∷ 112 ∷ [])
    ∷ []

abbrev config : IpConfig
config = record {
  interfaces =
      record { name = 105 ∷ []; assigned_ip = here; assigned_prefix = link; udp_addr = udp } ∷ [];
  neighbors = record { dest_addr = router; udp_addr = udp; interface_name = 105 ∷ [] } ∷ [];
  originating_prefixes = link ∷ [];
  routing_mode = rip;
  rip_neighbors = router ∷ [];
  static_routes = [];
}

lines-parsed : parse_config scanner lines ≡ parsed config
unfolding parse_lines masked
lines-parsed = refl

parse_config_sound_example :
    All
      (λ (p : Prefix). (i : InterfaceConfig) × Memᴰ i config.interfaces × (i.assigned_prefix ≡ p))
      config.originating_prefixes
    × All
        (λ (a : Addr).
          (n : NeighborConfig) × (lookup a (create_neighbor_table config.neighbors) ≡ some n)
          × (n.dest_addr ≡ a))
        config.rip_neighbors
    × All IsMasked config.interfaces
parse_config_sound_example = parse_config_sound scanner lines lines-parsed
