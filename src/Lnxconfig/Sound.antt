-- ===== src/Lnxconfig/Sound.antt =====
-- What holds of a configuration that was parsed.
use ip_tcp.Base.{◌≡◌, refl, subst, true, List, [], ◌∷◌, some, All, All-map, Bool-cases, inl, inr}
use ip_tcp.Base.Table.{lookup}
use mathlib.Core.List.{Memᴰ}
use ip_tcp.Netip.{Addr, addr_eq, addr_beq, AddrPort, Prefix, prefix_eq, prefix_beq, prefix_beq_iff}
use ip_tcp.Node.State.{Name, name_eq, InterfaceConfig, NeighborConfig}
use ip_tcp.Node.Routes.{neighbor_udp}
use ip_tcp.Node.Neighbors.{create_neighbor_table, neighbor_udp-create_neighbor_table}
use ip_tcp.Lnxconfig.{
  IpConfig, Scanner, parsed, has_prefix, has_neighbor, empty_config, parse_config,
}
use ip_tcp.Lnxconfig.Kept.{IsMasked, IsConfig, Sound, parse_lines-Sound, empty-IsConfig}

has_prefix-Mem :
    (l : List InterfaceConfig) (p : Prefix)
    → has_prefix l p ≡ true
    → (i : InterfaceConfig) × Memᴰ i l × (i.assigned_prefix ≡ p)
has_prefix-Mem [] p h = absurd cc
has_prefix-Mem (i ∷ l) p h = elim (Bool-cases (prefix_beq i.assigned_prefix p)) [
  | inl e ↦ (i, Memᴰ.head refl, (prefix_beq_iff i.assigned_prefix p).0 e)
  | inr e ↦ let (j, m, q) = has_prefix-Mem l p (rw e at h) in (j, Memᴰ.tail m, q)
]

has_neighbor-neighbor_udp :
    (l : List NeighborConfig) (a : Addr)
    → has_neighbor l a ≡ true
    → (udp : AddrPort) × (neighbor_udp l a ≡ some udp)
unfolding neighbor_udp
has_neighbor-neighbor_udp [] a h = absurd cc
has_neighbor-neighbor_udp (n ∷ l) a h = elim (Bool-cases (addr_beq n.dest_addr a)) [
  | inl e ↦ (n.udp_addr, rw e refl)
  | inr e ↦ let (u, q) = has_neighbor-neighbor_udp l a (rw e at h) in (u, rw e q)
]

-- In every configuration that `ParseConfig` returns, an originating prefix is the prefix of one of
-- the interfaces, a RIP neighbor is found under its address in the neighbor table that the node makes
-- of the neighbors, and the prefix of an interface is that of its address.
pub parse_config_sound :
    (sc : Scanner) (lines : List Name) {c : IpConfig}
    → parse_config sc lines ≡ parsed c
    → All
        (λ (p : Prefix). (i : InterfaceConfig) × Memᴰ i c.interfaces × (i.assigned_prefix ≡ p))
        c.originating_prefixes
      × All
          (λ (a : Addr).
            (n : NeighborConfig) × (lookup a (create_neighbor_table c.neighbors) ≡ some n)
            × (n.dest_addr ≡ a))
          c.rip_neighbors
      × All IsMasked c.interfaces
unfolding Sound
parse_config_sound sc lines {c} e =
    let i : IsConfig c = subst Sound e (parse_lines-Sound sc lines empty_config empty-IsConfig) in
    (
      All-map _ _ c.originating_prefixes (has_prefix-Mem c.interfaces) i.originating,
      All-map _ _ c.rip_neighbors
          (λ a h.
            neighbor_udp-create_neighbor_table c.neighbors a
              (has_neighbor-neighbor_udp c.neighbors a h).1)
          i.rip,
      i.masks,
    )
