-- ===== src/Node/RipTests.antt =====
-- RIP at a node on concrete values.
use ip_tcp.Base.{List, ◌-◌, ◌<◌, ◌≤◌, ◌≡◌, ◌≢◌, ◌⊎◌, refl, [], ◌∷◌, some, none, arith}
use ip_tcp.Base.Table.{lookup}
use mathlib.Core.List.{Memᴰ}
use ip_tcp.Netip.{addr_eq, ip4, Prefix, prefix_eq, masked}
use ip_tcp.Rip.{RipUpdate}
use ip_tcp.Node.State.{ForwardingInfo, learned}
use ip_tcp.Node.Packets.{packet_header}
use ip_tcp.Node.Rip.{
  update_entries, Update, update_entry, entry_prefix, advertise, collect, popcount_loop, bit_and,
}
use ip_tcp.Ipv4.{Ipv4Header}
use ip_tcp.Node.Rip.Relax.{relaxed, IsFinite, lookup-update_entry}
use ip_tcp.Base.{ap}
use ip_tcp.Node.Rip.{advertise_all}
use ip_tcp.Node.Samples.{link_route}
use ip_tcp.Node.Rip.Learned.{IsRoutes, cost_at, routes_learned}
use ip_tcp.Node.Rip.Expiry.{collect_withdraws}
use ip_tcp.Node.Samples.{here, router, link, host}

-- The router advertises 10.9.0.0/16 at cost 2.
abbrev offer : RipUpdate
offer = record { cost = 2; address = 168361984; mask = 4294901760 }

abbrev no_update : Update
no_update = record { table = []; triggered = [] }

lookup-update_entry_example :
    (lookup (entry_prefix offer) (update_entry 7 router offer no_update).table
      ≡ relaxed 7 router (entry_prefix offer) 3 (lookup (entry_prefix offer) no_update.table))
    × ((pre : Prefix)
        → entry_prefix offer ≢ pre
        → lookup pre (update_entry 7 router offer no_update).table ≡ lookup pre no_update.table)
lookup-update_entry_example = lookup-update_entry 7 router offer no_update

offer_prefix : entry_prefix offer ≡ record { addr = ip4 168361984; bits = 16 }
unfolding entry_prefix popcount_loop bit_and
offer_prefix = refl

none_IsFinite : IsFinite no_update.table
unfolding lookup
none_IsFinite pre info h = absurd cc

-- A route through the host itself.
abbrev through_host : ForwardingInfo
through_host = record {
  route_type = learned;
  next = here;
  pre = link;
  cost = 1;
  last_updated = 3;
  ifname = [];
}

abbrev poisoned : RipUpdate
poisoned = record { cost = 16; address = 167772160; mask = 4294967040 }

poisoned_offer : advertise here link through_host ≡ some poisoned
unfolding advertise
poisoned_offer = refl

-- The header of a packet from the router.
abbrev from_router : Ipv4Header
from_router = packet_header router here 200 16 [] 0

abbrev far_route : ForwardingInfo
far_route = record {
  route_type = learned;
  next = router;
  pre = record { addr = ip4 168361984; bits = 16 };
  cost = 2;
  last_updated = 3;
  ifname = [];
}

-- The router's table: the link, and 10.9.0.0/16 behind it.
abbrev table : List (Prefix × ForwardingInfo)
table = (link, link_route) ∷ (record { addr = ip4 168361984; bits = 16 }, far_route) ∷ []

table-IsRoutes : IsRoutes table
unfolding masked
table-IsRoutes = (
  (refl, record { v4 = omega arith; short = omega arith; is_masked = refl }),
  (λ h. absurd (omega (arith, ap (λ (p : Prefix). p.bits) h)), tt),
  ((refl, record { v4 = omega arith; short = omega arith; is_masked = refl }), tt, tt),
)

routes_learned_example :
    (es : List RipUpdate) × (advertise_all here table ≡ some es)
    × (lookup
          (record { addr = ip4 168361984; bits = 16 })
          (update_entries 7 router es
            (record { table = host.forwarding_table; triggered = [] })).table
        ≡ relaxed 7 router
            (record { addr = ip4 168361984; bits = 16 })
            (cost_at here far_route)
            (lookup (record { addr = ip4 168361984; bits = 16 }) host.forwarding_table))
routes_learned_example =
    routes_learned 7 router here table host.forwarding_table
      (record { addr = ip4 168361984; bits = 16 }) far_route table-IsRoutes
      (Memᴰ.tail (Memᴰ.head refl))

abbrev far_net : Prefix
far_net = record { addr = ip4 168361984; bits = 16 }

-- After 20 seconds the route to 10.9.0.0/16 goes, at the router and at the host.
collect_withdraws_example :
    ((far_route.route_type ≢ learned) ⊎ (20000000000 - 3 < 12000000000)
      → lookup far_net (collect 20000000000 table).table ≡ some far_route)
    × (far_route.route_type ≡ learned
        → 12000000000 ≤ 20000000000 - 3
        → (lookup far_net (collect 20000000000 table).table ≡ none)
          × (es : List RipUpdate) × (advertise_all here (collect 20000000000 table).triggered
              ≡ some es)
          × (lookup far_net
                (update_entries 7 router es
                  (record { table = (far_net, far_route) ∷ []; triggered = [] })).table
              ≡ none))
unfolding lookup
collect_withdraws_example =
    collect_withdraws 20000000000 7 router here table ((far_net, far_route) ∷ []) far_net far_route
      far_route table-IsRoutes (Memᴰ.tail (Memᴰ.head refl)) refl refl (omega arith)
