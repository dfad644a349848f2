-- ===== src/Node/Neighbors.antt =====
-- The neighbor table of a node (`createNeighborTable`).
use ip_tcp.Base.{
  differ, ◌≡◌, inl, inr, refl, sym, ap, ◌∙◌, Bool, true, false, List, [], ◌∷◌, some, Bool-cases,
  if◌then◌else◌,
}
use ip_tcp.Base.Table.{◌=?◌, lookup, insert, lookup-insert_self, lookup-insert_ne}
use ip_tcp.Netip.{Addr, addr_eq, addr_beq, addr_beq_iff, AddrPort}
use ip_tcp.Node.State.{NeighborConfig}
use ip_tcp.Node.Routes.{neighbor_udp}

-- The loop of `createNeighborTable`.
unfoldable pub add_neighbors :
    List NeighborConfig → List (Addr × NeighborConfig) → List (Addr × NeighborConfig)
add_neighbors [] m = m
add_neighbors (n ∷ ns) m = add_neighbors ns (insert n.dest_addr n m)

abbrev pub create_neighbor_table : List NeighborConfig → List (Addr × NeighborConfig)
create_neighbor_table ns = add_neighbors ns []

-- The table has a neighbor for the address, and it is one of that address.
abbrev HasOwn : Addr → List (Addr × NeighborConfig) → Type 0
HasOwn dst m = (n : NeighborConfig) × (lookup dst m ≡ some n) × (n.dest_addr ≡ dst)

HasOwn-insert_own :
    (dst : Addr) (n : NeighborConfig) (m : List (Addr × NeighborConfig))
    → n.dest_addr ≡ dst
    → HasOwn dst (insert n.dest_addr n m)
HasOwn-insert_own dst n m e =
    (n, ap (λ a. lookup a (insert n.dest_addr n m)) (sym e) ∙ lookup-insert_self n.dest_addr n m, e)

HasOwn-insert :
    (dst : Addr) (n : NeighborConfig) (m : List (Addr × NeighborConfig))
    → HasOwn dst m
    → HasOwn dst (insert n.dest_addr n m)
HasOwn-insert dst n m (o, l, e) = elim (Bool-cases (addr_beq n.dest_addr dst)) [
  | inl t ↦ HasOwn-insert_own dst n m ((addr_beq_iff n.dest_addr dst).0 t)
  | inr f ↦ (
    o,
    lookup-insert_ne n.dest_addr dst n m (λ s. differ ((addr_beq_iff n.dest_addr dst).1 s) f) ∙ l,
    e,
  )
]

add_neighbors-HasOwn :
    (dst : Addr) (ns : List NeighborConfig) (m : List (Addr × NeighborConfig))
    → HasOwn dst m
    → HasOwn dst (add_neighbors ns m)
unfolding add_neighbors
add_neighbors-HasOwn dst [] m h = h
add_neighbors-HasOwn dst (n ∷ ns) m h =
    add_neighbors-HasOwn dst ns (insert n.dest_addr n m) (HasOwn-insert dst n m h)

in_any :
    (dst : Addr) (l : List NeighborConfig) (m : List (Addr × NeighborConfig)) {udp : AddrPort}
    → neighbor_udp l dst ≡ some udp
    → HasOwn dst (add_neighbors l m)
unfolding neighbor_udp add_neighbors
in_any dst [] m h = absurd cc
in_any dst (n ∷ l) m {udp} h =
    by_test (n.dest_addr =? dst) refl (λ k. in_any dst l (insert n.dest_addr n m) k) h
  where
    by_test :
        (b : Bool)
        → (n.dest_addr =? dst) ≡ b
        → (neighbor_udp l dst ≡ some udp → HasOwn dst (add_neighbors l (insert n.dest_addr n m)))
        → (if b then some n.udp_addr else neighbor_udp l dst) ≡ some udp
        → HasOwn dst (add_neighbors l (insert n.dest_addr n m))
    by_test true t rest h =
        add_neighbors-HasOwn dst l (insert n.dest_addr n m)
          (HasOwn-insert_own dst n m ((addr_beq_iff n.dest_addr dst).0 t))
    by_test false t rest h = rest h

-- Whatever address `neighborUDP` knows, the neighbor table has a neighbor of that address for it,
-- as `HandleSend` relies on.
pub neighbor_udp-create_neighbor_table :
    (ns : List NeighborConfig) (dst : Addr) {udp : AddrPort}
    → neighbor_udp ns dst ≡ some udp
    → (n : NeighborConfig) × (lookup dst (create_neighbor_table ns) ≡ some n) × (n.dest_addr ≡ dst)
neighbor_udp-create_neighbor_table ns dst h = in_any dst ns [] h
