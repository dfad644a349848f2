-- ===== src/Node/Samples.antt =====
-- A host with one interface, and a checksum, as concrete values.
use ip_tcp.Base.{ℕ, ◌+◌, ◌-◌, ◌%◌, true, false, List, [], ◌∷◌, arith, ◌==◌, if◌then◌else◌}
use ip_tcp.Netip.{addr_eq, Addr, ip4, AddrPort, Prefix, prefix_eq}
use ip_tcp.Node.State.{Node, ForwardingInfo, local, static}
use ip_tcp.Node.Packets.Checksum.{words, IsOnesSum}

-- 10.0.0.1, 10.0.0.2 and 10.9.0.1
abbrev pub here : Addr
here = ip4 167772161

abbrev pub router : Addr
router = ip4 167772162

abbrev pub far : Addr
far = ip4 168361985

abbrev pub link : Prefix
link = record { addr = ip4 167772160; bits = 24 }

abbrev pub all : Prefix
all = record { addr = ip4 0; bits = 0 }

abbrev pub udp : AddrPort
udp = record { addr = ip4 2130706433; port = 5000 }

abbrev pub link_route : ForwardingInfo
link_route = record {
  route_type = local;
  next = here;
  pre = link;
  cost = 0;
  last_updated = 0;
  ifname = 105 ∷ [];
}

abbrev pub default_route : ForwardingInfo
default_route = record {
  route_type = static;
  next = router;
  pre = all;
  cost = 0;
  last_updated = 0;
  ifname = [];
}

abbrev pub host : Node
host = record {
  neighbors = record { dest_addr = router; udp_addr = udp; interface_name = 105 ∷ [] } ∷ [];
  interfaces =
      (
        105 ∷ [],
        record {
          config = record {
            name = 105 ∷ [];
            assigned_ip = here;
            assigned_prefix = link;
            udp_addr = udp;
          };
          enabled = true;
          guarded = false;
        },
      )
      ∷ [];
  neighbor_table = [];
  forwarding_table = (all, default_route) ∷ (link, link_route) ∷ [];
  handlers = 0 ∷ 6 ∷ 200 ∷ [];
  rip_neighbors = [];
  ip_addr = here;
}

-- The sum of RFC 1071 on numbers.
abbrev pub ones_sum : List ℕ → ℕ → ℕ
ones_sum b init = if words b + init == 0 then 0 else (words b + init - 1) % 65535 + 1

pub ones_sum_lem : IsOnesSum ones_sum
ones_sum_lem = record {
  fits = λ b init h. ground arith;
  congruent = λ b init h. ground arith;
  zero_only = λ b init h. ground arith;
}
