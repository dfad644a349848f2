-- ===== src/Node/Start/Samples.antt =====
-- A configuration with one interface and a router behind it, and the node that `Initialize` returns.
use ip_tcp.Base.{◌≡◌, refl, ap, true, false, List, [], ◌∷◌, some, arith}
use ip_tcp.Base.Slices.{◌>>=◌}
use ip_tcp.Base.Table.{lookup, insert}
use ip_tcp.Netip.{addr_eq, prefix_eq, contains}
use ip_tcp.Ipv4.{header_bytes}
use ip_tcp.Rip.{marshal_rip}
use ip_tcp.Lnxconfig.{IpConfig, rip}
use ip_tcp.Node.State.{Node, Name, name_eq, InterfaceConfig}
use ip_tcp.Node.Neighbors.{add_neighbors}
use ip_tcp.Node.Routes.{check_dest, longest, neighbor_udp}
use ip_tcp.Node.Packets.{SendInterface}
use ip_tcp.Node.Protocol.{interface_of}
use ip_tcp.Node.Samples.{here, router, link, all, udp, host, ones_sum, ones_sum_lem}
use ip_tcp.Node.Start.{
  add_interfaces, new_interface, with_routes, finished, if0, request, send_request, send_requests,
  initialize,
}
use ip_tcp.Node.Start.Request.{Links, request_arrives}

abbrev pub config : IpConfig
config = record {
  interfaces =
      record { name = if0; assigned_ip = here; assigned_prefix = link; udp_addr = udp } ∷ [];
  neighbors = record { dest_addr = router; udp_addr = udp; interface_name = if0 } ∷ [];
  originating_prefixes = [];
  routing_mode = rip;
  rip_neighbors = router ∷ [];
  static_routes = (all, router) ∷ [];
}

abbrev pub started : Node
started = finished config (add_interfaces config.interfaces (with_routes config))

-- The router, which answers at 10.0.0.2.
abbrev pub other : Node
other = record host {
  neighbors = record { dest_addr = here; udp_addr = udp; interface_name = 105 ∷ [] } ∷ [];
  neighbor_table =
      (here, record { dest_addr = here; udp_addr = udp; interface_name = 105 ∷ [] }) ∷ [];
  interfaces =
      (
        105 ∷ [],
        record {
          config = record {
            name = 105 ∷ [];
            assigned_ip = router;
            assigned_prefix = link;
            udp_addr = udp;
          };
          enabled = true;
          guarded = false;
        },
      )
      ∷ [];
}

pub request-Links : Links ones_sum started other router (marshal_rip request)
unfolding add_interfaces add_neighbors insert lookup check_dest longest contains header_bytes
    marshal_rip
request-Links = record {
  law = ones_sum_lem;
  sendable = omega arith;
  unlike_zero = omega arith;
  own = refl;
  handled = refl;
}

abbrev pub here_config : InterfaceConfig
here_config = record { name = if0; assigned_ip = here; assigned_prefix = link; udp_addr = udp }

pub neighbor_known : neighbor_udp started.neighbors router ≡ some udp
unfolding add_interfaces neighbor_udp
neighbor_known = refl

-- With the request sent, `Initialize` returns.
pub config_starts :
    (sent : List (Name × SendInterface)) × (initialize ones_sum config ≡ some (started, sent))
unfolding initialize send_requests send_request
config_starts =
    let arrived =
      request_arrives ones_sum started other router (new_interface here_config)
        (new_interface here_config) udp request-Links neighbor_known refl refl in
    (
      (interface_of started router, record { pack = arrived.0; address = router }) ∷ [],
      ap (λ r. r >>= (λ s. some (started, s))) (ap (λ r. r >>= (λ s. some (s ∷ []))) arrived.2),
    )

pub started_interface : lookup if0 started.interfaces ≡ some (new_interface here_config)
unfolding add_interfaces insert lookup
started_interface = refl
