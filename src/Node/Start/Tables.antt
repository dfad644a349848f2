-- ===== src/Node/Start/Tables.antt =====
-- The tables of a node when `Initialize` returns.
use ip_tcp.Base.{
  ℕ, ◌≡◌, ◌≢◌, ◌⊎◌, inl, inr, refl, sym, ap, ◌∙◌, subst, true, false, Bool-cases, differ, List, [],
  ◌∷◌, none, some, some_inj, Option, arith, All,
}
use ip_tcp.Base.Slices.{>>=-eq-some}
use ip_tcp.Base.Table.{lookup, insert, lookup-insert_self, lookup-insert_ne, lookup-insert_cases}
use mathlib.Core.List.{Memᴰ}
use ip_tcp.Netip.{Addr, Prefix, prefix_eq, prefix_beq, prefix_beq_iff}
use ip_tcp.Lnxconfig.{IpConfig, has_prefix}
use ip_tcp.Node.State.{
  Node, Name, name_eq, name_beq, name_beq_iff, InterfaceConfig, Interface, ForwardingInfo,
}
use ip_tcp.Node.Neighbors.{create_neighbor_table}
use ip_tcp.Node.Packets.{SendInterface, is_among}
use ip_tcp.Node.Packets.Send.{IsInterfaces}
use ip_tcp.Node.Rip.{Table}
use ip_tcp.Node.Rip.Relax.{IsFinite}
use ip_tcp.Node.Start.Static.{StaticFrom, add_static_routes-StaticFrom}
use ip_tcp.Node.Start.{
  static_route, local_route, add_static_routes, new_interface, add_interfaces, with_routes,
  finished, send_requests, initialize,
}

-- An interface as `Initialize` made it.
abbrev pub IsNew : Name × Interface → Type 0
IsNew x = x.1 ≡ new_interface x.1.config

-- Every route stands under its own prefix, at cost 0.
abbrev pub IsOwn : Table → Type 0
IsOwn t =
    (pre : Prefix) (info : ForwardingInfo)
    → lookup pre t ≡ some info
    → (info.pre ≡ pre) × (info.cost ≡ 0)

IsOwn-insert :
    (k : Prefix) (r : ForwardingInfo) (t : Table)
    → r.pre ≡ k
    → r.cost ≡ 0
    → IsOwn t
    → IsOwn (insert k r t)
IsOwn-insert k r t e c own pre info h = elim (lookup-insert_cases k pre r t h) [
  | inl (same, r_is) ↦ (
    ap (λ (x : ForwardingInfo). x.pre) (sym r_is) ∙ e ∙ same,
    ap (λ (x : ForwardingInfo). x.cost) (sym r_is) ∙ c,
  )
  | inr (ne, old) ↦ own pre info old
]

add_static_routes-IsOwn :
    (rs : List (Prefix × Addr)) (t : Table) → IsOwn t → IsOwn (add_static_routes rs t)
unfolding add_static_routes
add_static_routes-IsOwn [] t own = own
add_static_routes-IsOwn ((pre, a) ∷ rs) t own =
    add_static_routes-IsOwn rs (insert pre (static_route pre a) t)
      (IsOwn-insert pre (static_route pre a) t refl refl own)

All-insert :
    (P : Name × Interface → Type 0) (k : Name) (v : Interface) (m : List (Name × Interface))
    → P (k, v)
    → All P m
    → All P (insert k v m)
unfolding insert
All-insert P k v [] p a = (p, tt)
All-insert P k v ((j, w) ∷ m) p (q, a) = elim (Bool-cases (name_beq j k)) [
  | inl t ↦ rw t (subst (λ n. P (n, v)) (sym ((name_beq_iff j k).0 t)) p, a)
  | inr f ↦ rw f (q, All-insert P k v m p a)
]

IsInterfaces-insert :
    (k : Name) (v : Interface) (m : List (Name × Interface))
    → v.config.name ≡ k
    → IsInterfaces m
    → IsInterfaces (insert k v m)
unfolding insert
IsInterfaces-insert k v [] e w = (e, tt, tt)
IsInterfaces-insert k v ((j, i) ∷ m) e (c, o, w) = elim (Bool-cases (name_beq j k)) [
  | inl t ↦ rw t (e ∙ sym ((name_beq_iff j k).0 t), o, w)
  | inr f ↦
      let ne = λ (s : k ≡ j). differ ((name_beq_iff j k).1 (sym s)) f in
      rw f (
        c,
        All-insert (λ (x : Name × Interface). x.0 ≢ j) k v m ne o,
        IsInterfaces-insert k v m e w,
      )
]

-- A node with some of its interfaces.
pub record IsStarted (node : Node) : Type 0 where
  pub interfaces : IsInterfaces node.interfaces
  pub fresh : All IsNew node.interfaces
  pub routes : IsOwn node.forwarding_table

add_interfaces-IsStarted :
    (cs : List InterfaceConfig) (node : Node) → IsStarted node → IsStarted (add_interfaces cs node)
unfolding add_interfaces
add_interfaces-IsStarted [] node s = s
add_interfaces-IsStarted (c ∷ cs) node s = add_interfaces-IsStarted cs _ (record {
  interfaces = IsInterfaces-insert c.name (new_interface c) node.interfaces refl s.interfaces;
  fresh = All-insert IsNew c.name (new_interface c) node.interfaces refl s.fresh;
  routes = IsOwn-insert c.assigned_prefix (local_route c) node.forwarding_table refl refl s.routes;
})

-- With the neighbors, handlers and interfaces of its configuration; the other fields are those
-- before its interfaces came.
initialize_inv :
    (sum : List ℕ → ℕ → ℕ) (c : IpConfig) {node : Node} {sent : List (Name × SendInterface)}
    → initialize sum c ≡ some (node, sent)
    → node ≡ finished c (add_interfaces c.interfaces (with_routes c))
unfolding initialize
initialize_inv sum c {node} {sent} e =
    let started = add_interfaces c.interfaces (with_routes c) in
    let (more, made, last) = >>=-eq-some (send_requests sum started c.rip_neighbors) _ e in
    sym (ap (λ (x : Node × List (Name × SendInterface)). x.0) (some_inj last))

abbrev no_routes : Table
no_routes = []

no_route : (pre : Prefix) {info : ForwardingInfo} → lookup pre no_routes ≡ some info → ⊥
unfolding lookup
no_route pre h = cc

-- What the node's threads rely on.
abbrev pub IsReady : Node → Type 0
IsReady node =
    IsInterfaces node.interfaces
    × All IsNew node.interfaces
    × IsOwn node.forwarding_table
    × IsFinite node.forwarding_table
    × (is_among 0 node.handlers ≡ true)
    × (is_among 6 node.handlers ≡ true)
    × (is_among 200 node.handlers ≡ true)

-- When `Initialize` returns a node, the interfaces stand under their names, no name twice, each
-- enabled and with a nil mutex; each route of the table stands under its own prefix, at cost 0, so
-- that none is infinite; and packets for TCP and RIP, and test packets, have handlers.
pub initialize-IsReady :
    (sum : List ℕ → ℕ → ℕ) (c : IpConfig) {node : Node} {sent : List (Name × SendInterface)}
    → initialize sum c ≡ some (node, sent)
    → IsReady node
initialize-IsReady sum c {node} {sent} e =
    let none_yet : IsStarted (with_routes c) = record {
      interfaces = tt;
      fresh = tt;
      routes = add_static_routes-IsOwn c.static_routes [] (λ pre info h. absurd (no_route pre h));
    } in
    let s = add_interfaces-IsStarted c.interfaces (with_routes c) none_yet in
    subst IsReady (sym (initialize_inv sum c e)) (
      s.interfaces,
      s.fresh,
      s.routes,
      λ pre info h. omega (arith, (s.routes pre info h).1),
      refl,
      refl,
      refl,
    )

-- The route of a prefix after the loop over the interfaces `cs`, where it was `before`.
abbrev RouteFrom : List InterfaceConfig → Prefix → Option ForwardingInfo → Table → Type 0
RouteFrom cs pre before t =
    ((c : InterfaceConfig) × Memᴰ c cs
      × (c.assigned_prefix ≡ pre)
      × (lookup pre t ≡ some (local_route c)))
    ⊎ ((has_prefix cs pre ≡ false) × (lookup pre t ≡ before))

add_interfaces-RouteFrom :
    (cs : List InterfaceConfig) (node : Node) (pre : Prefix)
    → RouteFrom cs pre (lookup pre node.forwarding_table) (add_interfaces cs node).forwarding_table
unfolding add_interfaces
add_interfaces-RouteFrom [] node pre = inr (refl, refl)
add_interfaces-RouteFrom (c ∷ cs) node pre =
    let t = insert c.assigned_prefix (local_route c) node.forwarding_table in
    let next = record node {
      interfaces = insert c.name (new_interface c) node.interfaces;
      forwarding_table = t;
    } in
    elim (add_interfaces-RouteFrom cs next pre) [
      | inl (d, m, is, found) ↦ inl (d, Memᴰ.tail m, is, found)
      | inr (absent, kept) ↦ elim (Bool-cases (prefix_beq c.assigned_prefix pre)) [
        | inl same ↦
            let is = (prefix_beq_iff c.assigned_prefix pre).0 same in
            inl (
              c,
              Memᴰ.head refl,
              is,
              kept
                  ∙ ap (λ k. lookup k t) (sym is)
                  ∙ lookup-insert_self c.assigned_prefix (local_route c) node.forwarding_table,
            )
        | inr other ↦ inr (
          rw (other, absent) refl,
          kept
              ∙ lookup-insert_ne c.assigned_prefix pre (local_route c) node.forwarding_table
                  (λ s. differ ((prefix_beq_iff c.assigned_prefix pre).1 s) other),
        )
      ]
    ]

-- When `Initialize` returns a node, the route of a prefix is the local one of an interface that has
-- it; if no interface does, it is the static one, at cost 0, to the address of a static route of the
-- configuration for that prefix; and if there is none either, there is no route.
pub initialize-RouteFrom :
    (sum : List ℕ → ℕ → ℕ) (c : IpConfig) (pre : Prefix) {node : Node}
    {sent : List (Name × SendInterface)}
    → initialize sum c ≡ some (node, sent)
    → ((i : InterfaceConfig) × Memᴰ i c.interfaces
        × (i.assigned_prefix ≡ pre)
        × (lookup pre node.forwarding_table ≡ some (local_route i)))
      ⊎ ((has_prefix c.interfaces pre ≡ false)
          × StaticFrom c.static_routes pre none (lookup pre node.forwarding_table))
unfolding lookup
initialize-RouteFrom sum c pre {node} e = elim interfaces [
  | inl found ↦ inl found
  | inr (none_there, kept) ↦ inr (
    none_there,
    subst (StaticFrom c.static_routes pre none) (sym kept) (
        subst
          (λ o.
            StaticFrom c.static_routes pre o (lookup pre (add_static_routes c.static_routes [])))
          (lookup-no_routes pre) (add_static_routes-StaticFrom c.static_routes [] pre)),
  )
]
  where
    lookup-no_routes : (p : Prefix) → lookup p no_routes ≡ none
    lookup-no_routes p = refl

    interfaces :
        RouteFrom c.interfaces pre
          (lookup pre (add_static_routes c.static_routes []))
          node.forwarding_table
    interfaces =
        subst
          (λ (n : Node).
            RouteFrom c.interfaces pre (lookup pre (add_static_routes c.static_routes []))
              n.forwarding_table)
          (sym (initialize_inv sum c e)) (add_interfaces-RouteFrom c.interfaces (with_routes c) pre)

kept_neighbors :
    (cs : List InterfaceConfig) (node : Node)
    → (add_interfaces cs node).neighbor_table ≡ node.neighbor_table
unfolding add_interfaces
kept_neighbors [] node = refl
kept_neighbors (c ∷ cs) node = kept_neighbors cs _

-- The neighbors' table and the RIP neighbors are those of the configuration.
pub initialize-neighbors :
    (sum : List ℕ → ℕ → ℕ) (c : IpConfig) {node : Node} {sent : List (Name × SendInterface)}
    → initialize sum c ≡ some (node, sent)
    → (node.neighbor_table ≡ create_neighbor_table c.neighbors)
      × (node.rip_neighbors ≡ c.rip_neighbors)
initialize-neighbors sum c {node} {sent} e =
    let is = initialize_inv sum c e in
    (
      ap (λ (n : Node). n.neighbor_table) is ∙ kept_neighbors c.interfaces (with_routes c),
      ap (λ (n : Node). n.rip_neighbors) is,
    )
