-- ===== src/Node/Packets/Send.antt =====
-- `HandleSend`: what a node sends itself.
use ip_tcp.Base.{
  ℕ, ◌≡◌, ◌≢◌, refl, sym, ap, ◌∙◌, List, [], ◌∷◌, Option, none, some, some_inj, All, Bool-cases,
  differ, inl, inr,
}
use ip_tcp.Base.Table.{lookup, beq_false}
use ip_tcp.Netip.{Addr, addr_eq, AddrPort}
use ip_tcp.Node.State.{
  Interface, RouteType, NeighborConfig, Node, Name, name_eq, name_beq, name_beq_iff,
}
use ip_tcp.Node.Routes.{find_next, neighbor_udp}
use ip_tcp.Node.Packets.{SendInterface, next_hop, make_packet, send_from, handle_send}

-- The table of interfaces as the node makes it: each stands under its name, and no name stands twice.
abbrev pub IsInterfaces : List (Name × Interface) → Type 0
IsInterfaces [] = Unit
IsInterfaces ((k, inter) ∷ m) =
    (inter.config.name ≡ k) × All (λ (x : Name × Interface). x.0 ≢ k) m × IsInterfaces m

module _ (sum : List ℕ → ℕ → ℕ) (iface : Name) (hop dst : Addr) (protocol_num : ℕ)
    (payload : List ℕ) where
  send_from-other :
      (m : List (Name × Interface))
      → IsInterfaces m
      → All (λ (x : Name × Interface). x.0 ≢ iface) m
      → send_from sum m iface hop dst protocol_num payload ≡ some []
  send_from-other [] w o = refl
  send_from-other ((k, inter) ∷ m) (e, _, w) (h, o) =
      rw (send_from-other m w o, beq_false inter.config.name iface (λ z. h (sym e ∙ z))) refl

  -- The interface of a name sends one packet, and no other sends any.
  send_from-one :
      (m : List (Name × Interface)) {inter : Interface} {p : List ℕ}
      → IsInterfaces m
      → lookup iface m ≡ some inter
      → make_packet sum inter.config.assigned_ip dst protocol_num 16 payload ≡ some p
      → send_from sum m iface hop dst protocol_num payload
        ≡ some ((iface, record { pack = p; address = hop }) ∷ [])
  unfolding lookup
  send_from-one [] w l e = cc
  send_from-one ((k, i) ∷ m) {inter} {p} (c, o, w) l e = elim (Bool-cases (name_beq k iface)) [
    | inl t ↦
        let same = (name_beq_iff k iface).0 t in
        let here : i ≡ inter = some_inj (rw t at l) in
        rw
          (
            send_from-other m w (away same m o),
            (name_beq_iff i.config.name iface).1 (c ∙ same),
            ap (λ (x : Interface). make_packet sum x.config.assigned_ip dst protocol_num 16 payload)
                  here
                ∙ e,
          )
          refl
    | inr f ↦
        rw
          (
            send_from-one m w (rw f at l) e,
            beq_false i.config.name iface
                (λ z. absurd (differ ((name_beq_iff k iface).1 (sym c ∙ z)) f)),
          )
          refl
  ]
    where
      away :
          {j : Name}
          → j ≡ iface
          → (l : List (Name × Interface)) → All (λ (x : Name × Interface). x.0 ≢ j) l
          → All (λ (x : Name × Interface). x.0 ≢ iface) l
      away z [] h = tt
      away z (x ∷ l) (g, h) = (λ q. g (q ∙ sym z), away z l h)

-- A node that sends to an address, as its tables have it: the route, the neighbor that is the next
-- hop, and the interface to that neighbor.
pub record SendsTo (node : Node) (dst : Addr) (inter : Interface) (iface : Name) (hop : Addr)
    : Type 0 where
  pub route_type : RouteType
  pub next : Addr
  pub udp : AddrPort
  pub neighbor : NeighborConfig
  pub routed : find_next node dst ≡ some (next, route_type)
  pub hop_is : hop ≡ next_hop route_type next dst
  pub known : neighbor_udp node.neighbors hop ≡ some udp
  pub listed : lookup hop node.neighbor_table ≡ some neighbor
  pub iface_is : neighbor.interface_name ≡ iface
  pub interfaces : IsInterfaces node.interfaces
  pub found : lookup iface node.interfaces ≡ some inter

-- What such a node sends is one packet, from the address of that interface, to the next hop.
pub handle_send-SendsTo :
    (sum : List ℕ → ℕ → ℕ) (node : Node) (dst : Addr) (payload : List ℕ) (protocol_num : ℕ)
    {inter : Interface} {iface : Name} {hop : Addr} {p : List ℕ}
    → SendsTo node dst inter iface hop
    → make_packet sum inter.config.assigned_ip dst protocol_num 16 payload ≡ some p
    → handle_send sum node dst payload protocol_num
      ≡ some ((iface, record { pack = p; address = hop }) ∷ [])
unfolding handle_send
handle_send-SendsTo sum node dst payload protocol_num {inter} {iface} {hop} {p} s e =
    ap by_route s.routed
    ∙ ap (λ h. by_udp h (neighbor_udp node.neighbors h)) (sym s.hop_is)
    ∙ ap (by_udp hop) s.known
    ∙ ap (by_neighbor hop) s.listed
    ∙ ap (λ i. send_from sum node.interfaces i hop dst protocol_num payload) s.iface_is
    ∙ send_from-one sum iface hop dst protocol_num payload node.interfaces s.interfaces s.found e
  where
    by_neighbor : Addr → Option NeighborConfig → Option (List (Name × SendInterface))
    by_neighbor h o = elim o [
      | none ↦ send_from sum node.interfaces [] h dst protocol_num payload
      | some n ↦ send_from sum node.interfaces n.interface_name h dst protocol_num payload
    ]

    by_udp : Addr → Option AddrPort → Option (List (Name × SendInterface))
    by_udp h o = elim o [ none ↦ some [] | some _ ↦ by_neighbor h (lookup h node.neighbor_table) ]

    by_route : Option (Addr × RouteType) → Option (List (Name × SendInterface))
    by_route o = elim o [
      | none ↦ some []
      | some (next, t) ↦
          by_udp (next_hop t next dst) (neighbor_udp node.neighbors (next_hop t next dst))
    ]
