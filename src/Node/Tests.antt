-- ===== src/Node/Tests.antt =====
-- A node, its packets and its forwarding table on concrete values.
use ip_tcp.Base.{
  ℕ, ◌≡◌, refl, sym, ap, ◌∙◌, subst, Bool, true, false, List, [], ◌∷◌, Option, none, some, arith,
  if◌then◌else◌,
}
use ip_tcp.Base.Table.{lookup}
use mathlib.Core.List.{Memᴰ}
use ip_tcp.Netip.{addr_eq, ip4, Prefix, prefix_eq, prefix_beq, prefix_beq_iff, contains, masked}
use ip_tcp.Ipv4.{header_bytes}
use ip_tcp.Node.State.{Node, ForwardingInfo, local, static}
use ip_tcp.Node.Routes.{longest, check_dest, find_next, neighbor_udp, route_prefix}
use ip_tcp.Node.Routes.Longest.{IsLongest}
use ip_tcp.Node.Routes.Prefixes.{IsKey}
use ip_tcp.Node.Routes.Search.{find_next-IsLongest, find_next-order, IsTable, answer}
use ip_tcp.Node.Packets.{make_packet, handle_packets, dropped, written}
use ip_tcp.Node.Packets.Hops.{make_packet_relayed, make_packet_dropped}
use ip_tcp.Node.Samples.{
  here, router, far, link, all, udp, link_route, default_route, host, ones_sum, ones_sum_lem,
}

find_next-IsLongest_example :
    (check_dest host far ≡ true → find_next host far ≡ some (far, local))
    × (check_dest host far ≡ false
        → (r : Option ForwardingInfo) × (find_next host far ≡ answer r)
          × IsLongest route_prefix far host.forwarding_table r)
find_next-IsLongest_example = find_next-IsLongest host far

far_by_default : find_next host far ≡ some (router, static)
unfolding find_next check_dest longest contains
far_by_default = refl

make_packet_relayed_example :
    (p q : List ℕ) × (make_packet ones_sum router far 6 16 (1 ∷ []) ≡ some p)
    × (make_packet ones_sum router far 6 15 (1 ∷ []) ≡ some q)
    × (handle_packets ones_sum host p ≡ written udp q)
unfolding find_next check_dest longest contains header_bytes neighbor_udp
make_packet_relayed_example =
    make_packet_relayed ones_sum router far 6 16 (1 ∷ []) ones_sum_lem (omega arith) (omega arith)
      (omega arith) host router static udp refl refl refl

-- 10.0.164.234 makes the header's words sum up to 0xffff.
make_packet_dropped_example :
    (p : List ℕ) × (make_packet ones_sum here (ip4 167814378) 0 2 [] ≡ some p)
    × ((node : Node) → handle_packets ones_sum node p ≡ dropped)
unfolding header_bytes
make_packet_dropped_example =
    make_packet_dropped ones_sum here (ip4 167814378) 0 2 [] ones_sum_lem (omega arith)
      (omega arith) refl

-- The two routes of the host, in the other order.
abbrev turned : List (Prefix × ForwardingInfo)
turned = (link, link_route) ∷ (all, default_route) ∷ []

link-IsKey : IsKey link
unfolding masked
link-IsKey = record { v4 = omega arith; short = omega arith; is_masked = refl }

all-IsKey : IsKey all
unfolding masked
all-IsKey = record { v4 = omega arith; short = omega arith; is_masked = refl }

host-IsTable : IsTable host.forwarding_table
unfolding lookup
host-IsTable = record { keyed = ((refl, all-IsKey), ((refl, link-IsKey), tt)); single = single }
  where
    single :
        (k : Prefix) (x : ForwardingInfo)
        → Memᴰ (k, x) host.forwarding_table
        → lookup k host.forwarding_table ≡ some x
    single k x (Memᴰ.head e) =
        subst (λ (z : Prefix × ForwardingInfo). lookup z.0 host.forwarding_table ≡ some z.1) (sym e)
          refl
    single k x (Memᴰ.tail (Memᴰ.head e)) =
        subst (λ (z : Prefix × ForwardingInfo). lookup z.0 host.forwarding_table ≡ some z.1) (sym e)
          refl
    single k x (Memᴰ.tail (Memᴰ.tail h)) = elim h [ ]

turned-IsTable : IsTable turned
unfolding lookup
turned-IsTable = record { keyed = ((refl, link-IsKey), ((refl, all-IsKey), tt)); single = single }
  where
    single : (k : Prefix) (x : ForwardingInfo) → Memᴰ (k, x) turned → lookup k turned ≡ some x
    single k x (Memᴰ.head e) =
        subst (λ (z : Prefix × ForwardingInfo). lookup z.0 turned ≡ some z.1) (sym e) refl
    single k x (Memᴰ.tail (Memᴰ.head e)) =
        subst (λ (z : Prefix × ForwardingInfo). lookup z.0 turned ≡ some z.1) (sym e) refl
    single k x (Memᴰ.tail (Memᴰ.tail h)) = elim h [ ]

same_routes : (k : Prefix) → lookup k host.forwarding_table ≡ lookup k turned
unfolding lookup
same_routes k =
    swapped (prefix_beq all k) (prefix_beq link k)
      (λ s t. no_prefix (sym ((prefix_beq_iff link k).0 t ∙ sym ((prefix_beq_iff all k).0 s))))
  where
    no_prefix : all ≡ link → ⊥
    no_prefix e = omega (arith, ap (λ (p : Prefix). p.bits) e)

    swapped :
        (s t : Bool)
        → (s ≡ true → t ≡ true → ⊥)
        → (if s then some default_route else if t then some link_route else none)
          ≡ (if t then some link_route else if s then some default_route else none)
    swapped true true h = absurd (h refl refl)
    swapped true false h = refl
    swapped false true h = refl
    swapped false false h = refl

find_next-order_example :
    find_next host far ≡ find_next (record host { forwarding_table = turned }) far
find_next-order_example = find_next-order host far turned host-IsTable turned-IsTable same_routes
