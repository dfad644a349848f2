-- ===== src/Lnxconfig/Kept.antt =====
-- Every command of a configuration file keeps what holds of the configuration.
use ip_tcp.Base.{
  ◌≡◌, refl, Bool, true, false, List, [], ◌∷◌, ◌++◌, Option, none, some, All, All-append, All-map,
  arith, Bool-cases, inl, inr, ◌==◌, if◌then◌else◌,
}
use ip_tcp.Base.Table.{◌=?◌}
use ip_tcp.Netip.{Addr, addr_eq, AddrPort, Prefix, prefix_eq, masked}
use ip_tcp.Node.State.{Name, name_eq, InterfaceConfig, NeighborConfig}
use ip_tcp.Lnxconfig.{
  IpConfig, Scanner, Parsed, parsed, failed, panics, split, has_prefix, has_neighbor,
  add_originating_prefix, add_rip_neighbor, originate_prefix, parse_originate, advertise_addr,
  parse_advertise, parse_rip, parse_routing, add_route, route_of, add_interface, interface_of_line,
  add_neighbor, neighbor_of_line, parse_command, parse_tokens, parse_lines, empty_config, static,
  rip, w_prefix, w_originate, w_advertise_to, w_static, w_rip, w_route, w_routing, w_interface,
  w_neighbor,
}

-- An interface's prefix is that of its address.
abbrev pub IsMasked : InterfaceConfig → Type 0
IsMasked i =
    i.assigned_prefix ≡ masked (record { addr = i.assigned_ip; bits = i.assigned_prefix.bits })

pub record IsConfig (c : IpConfig) : Type 0 where
  pub originating : All (λ p. has_prefix c.interfaces p ≡ true) c.originating_prefixes
  pub rip : All (λ a. has_neighbor c.neighbors a ≡ true) c.rip_neighbors
  pub masks : All IsMasked c.interfaces

unfoldable pub Sound : Parsed → Type 0
Sound (parsed c) = IsConfig c
Sound failed = Unit
Sound panics = Unit

if-Sound : (b : Bool) (x y : Parsed) → Sound x → Sound y → Sound (if b then x else y)
if-Sound true x y p q = p
if-Sound false x y p q = q

has_prefix-append :
    (l m : List InterfaceConfig) (p : Prefix) → has_prefix l p ≡ true → has_prefix (l ++ m) p ≡ true
has_prefix-append [] m p h = absurd cc
has_prefix-append (i ∷ l) m p h = ground (arith, has_prefix-append l m p)

has_neighbor-append :
    (l m : List NeighborConfig) (a : Addr)
    → has_neighbor l a ≡ true
    → has_neighbor (l ++ m) a ≡ true
has_neighbor-append [] m a h = absurd cc
has_neighbor-append (n ∷ l) m a h = ground (arith, has_neighbor-append l m a)

add_originating_prefix-Sound :
    (c : IpConfig) (p : Prefix) → IsConfig c → Sound (add_originating_prefix c p)
unfolding Sound
add_originating_prefix-Sound c p i = elim (Bool-cases (has_prefix c.interfaces p)) [
  | inl e ↦ rw e (record {
    originating =
        All-append (λ q. has_prefix c.interfaces q ≡ true) c.originating_prefixes (p ∷ [])
          i.originating (e, tt);
    rip = i.rip;
    masks = i.masks;
  })
  | inr e ↦ rw e tt
]

add_rip_neighbor-Sound : (c : IpConfig) (a : Addr) → IsConfig c → Sound (add_rip_neighbor c a)
unfolding Sound
add_rip_neighbor-Sound c a i = elim (Bool-cases (has_neighbor c.neighbors a)) [
  | inl e ↦ rw e (record {
    originating = i.originating;
    rip =
        All-append (λ b. has_neighbor c.neighbors b ≡ true) c.rip_neighbors (a ∷ []) i.rip (e, tt);
    masks = i.masks;
  })
  | inr e ↦ rw e tt
]

add_interface-Sound :
    (sc : Scanner) (c : IpConfig) (name : Name) (p : Option Prefix) (udp : Option AddrPort)
    → IsConfig c
    → Sound (add_interface sc c name p udp)
unfolding Sound masked
add_interface-Sound sc c name none udp i = tt
add_interface-Sound sc c name (some p) none i = tt
add_interface-Sound sc c name (some p) (some udp) i = record {
  originating =
      All-map _ _ c.originating_prefixes (λ q. has_prefix-append c.interfaces _ q) i.originating;
  rip = i.rip;
  masks = All-append IsMasked c.interfaces (_ ∷ []) i.masks (refl, tt);
}

add_neighbor-Sound :
    (sc : Scanner) (c : IpConfig) (dest : Option Addr) (udp : Option AddrPort) (name : Name)
    → IsConfig c
    → Sound (add_neighbor sc c dest udp name)
unfolding Sound
add_neighbor-Sound sc c none udp name i = tt
add_neighbor-Sound sc c (some a) none name i = tt
add_neighbor-Sound sc c (some a) (some udp) name i = record {
  originating = i.originating;
  rip = All-map _ _ c.rip_neighbors (λ q. has_neighbor-append c.neighbors _ q) i.rip;
  masks = i.masks;
}

module _ (sc : Scanner) where
  originate_prefix-Sound :
      (c : IpConfig) (o : Option Prefix) → IsConfig c → Sound (originate_prefix sc c o)
  unfolding Sound
  originate_prefix-Sound c none i = tt
  originate_prefix-Sound c (some p) i = add_originating_prefix-Sound c (masked p) i

  parse_originate-Sound :
      (l : List Name) (c : IpConfig) → IsConfig c → Sound (parse_originate sc l c)
  unfolding Sound
  parse_originate-Sound [] c i = tt
  parse_originate-Sound (v ∷ []) c i = if-Sound (v =? w_prefix) panics failed tt tt
  parse_originate-Sound (v ∷ u ∷ l) c i = originate_prefix-Sound c (sc.parse_prefix u) i

  advertise_addr-Sound :
      (c : IpConfig) (o : Option Addr) → IsConfig c → Sound (advertise_addr sc c o)
  unfolding Sound
  advertise_addr-Sound c none i = tt
  advertise_addr-Sound c (some a) i = add_rip_neighbor-Sound c a i

  parse_advertise-Sound :
      (l : List Name) (c : IpConfig) → IsConfig c → Sound (parse_advertise sc l c)
  unfolding Sound
  parse_advertise-Sound [] c i = tt
  parse_advertise-Sound (v ∷ l) c i = advertise_addr-Sound c (sc.parse_addr v) i

  parse_rip-Sound : (tokens : List Name) (c : IpConfig) → IsConfig c → Sound (parse_rip sc tokens c)
  unfolding Sound
  parse_rip-Sound [] c i = tt
  parse_rip-Sound (w ∷ []) c i = tt
  parse_rip-Sound (w ∷ cmd ∷ tokens) c i =
      if-Sound (cmd =? w_originate) (parse_originate sc tokens c)
        (if cmd =? w_advertise_to then parse_advertise sc tokens c else failed)
        (parse_originate-Sound tokens c i)
        (if-Sound (cmd =? w_advertise_to) (parse_advertise sc tokens c) failed
          (parse_advertise-Sound tokens c i) tt)

  parse_routing-Sound :
      (tokens : List Name) (c : IpConfig) → IsConfig c → Sound (parse_routing sc tokens c)
  unfolding Sound
  parse_routing-Sound [] c i = tt
  parse_routing-Sound (w ∷ []) c i = tt
  parse_routing-Sound (w ∷ rt ∷ l) c i =
      if-Sound (rt =? w_static) (parsed (record c { routing_mode = static }))
        (if rt =? w_rip then parsed (record c { routing_mode = rip }) else failed)
        (record { originating = i.originating; rip = i.rip; masks = i.masks })
        (if-Sound (rt =? w_rip) (parsed (record c { routing_mode = rip })) failed
          (record { originating = i.originating; rip = i.rip; masks = i.masks }) tt)

  add_route-Sound :
      (c : IpConfig) (p : Option Prefix) (a : Option Addr) → IsConfig c → Sound (add_route sc c p a)
  unfolding Sound
  add_route-Sound c none a i = tt
  add_route-Sound c (some p) none i = tt
  add_route-Sound c (some p) (some a) i = record {
    originating = i.originating;
    rip = i.rip;
    masks = i.masks;
  }

  route_of-Sound : (c : IpConfig) (o : Option (Name × Name)) → IsConfig c → Sound (route_of sc c o)
  unfolding Sound
  route_of-Sound c none i = tt
  route_of-Sound c (some (p, a)) i = add_route-Sound c (sc.parse_prefix p) (sc.parse_addr a) i

  interface_of_line-Sound :
      (c : IpConfig) (o : Option (Name × Name × Name))
      → IsConfig c
      → Sound (interface_of_line sc c o)
  unfolding Sound
  interface_of_line-Sound c none i = tt
  interface_of_line-Sound c (some (name, prefix, bind)) i =
      add_interface-Sound sc c name (sc.parse_prefix prefix) (sc.parse_addr_port bind) i

  neighbor_of_line-Sound :
      (c : IpConfig) (o : Option (Name × Name × Name))
      → IsConfig c
      → Sound (neighbor_of_line sc c o)
  unfolding Sound
  neighbor_of_line-Sound c none i = tt
  neighbor_of_line-Sound c (some (dest, udp, name)) i =
      add_neighbor-Sound sc c (sc.parse_addr dest) (sc.parse_addr_port udp) name i

  parse_command-Sound :
      (head line : Name) (c : IpConfig) → IsConfig c → Sound (parse_command sc head line c)
  unfolding Sound
  parse_command-Sound head line c i =
      if-Sound (head =? w_interface) (interface_of_line sc c (sc.scan_interface line)) neighbor
        (interface_of_line-Sound c (sc.scan_interface line) i)
        (if-Sound (head =? w_neighbor) (neighbor_of_line sc c (sc.scan_neighbor line)) routing
          (neighbor_of_line-Sound c (sc.scan_neighbor line) i)
          (if-Sound (head =? w_routing) (parse_routing sc (split line) c) route
            (parse_routing-Sound (split line) c i)
            (if-Sound (head =? w_route) (route_of sc c (sc.scan_route line)) last
              (route_of-Sound c (sc.scan_route line) i)
              (if-Sound (head =? w_rip) (parse_rip sc (split line) c) failed
                (parse_rip-Sound (split line) c i) tt))))
    where
      last : Parsed
      last = if head =? w_rip then parse_rip sc (split line) c else failed

      route : Parsed
      route = if head =? w_route then route_of sc c (sc.scan_route line) else last

      routing : Parsed
      routing = if head =? w_routing then parse_routing sc (split line) c else route

      neighbor : Parsed
      neighbor =
          if head =? w_neighbor then neighbor_of_line sc c (sc.scan_neighbor line) else routing

  parse_tokens-Sound :
      (tokens : List Name) (line : Name) (c : IpConfig)
      → IsConfig c
      → Sound (parse_tokens sc tokens line c)
  unfolding Sound
  parse_tokens-Sound [] line c i = i
  parse_tokens-Sound ([] ∷ l) line c i = i
  parse_tokens-Sound ((ch ∷ w) ∷ l) line c i =
      if-Sound (ch == 35) (parsed c) (parse_command sc (ch ∷ w) line c) i
        (parse_command-Sound (ch ∷ w) line c i)

  pub parse_lines-Sound :
      (lines : List Name) (c : IpConfig) → IsConfig c → Sound (parse_lines sc lines c)
  unfolding parse_lines Sound
  parse_lines-Sound [] c i = i
  parse_lines-Sound (line ∷ lines) c i =
      next (λ c' j. parse_lines-Sound lines c' j) (parse_tokens sc (split line) line c)
        (parse_tokens-Sound (split line) line c i)
    where
      next :
          ((c' : IpConfig) → IsConfig c' → Sound (parse_lines sc lines c'))
          → (o : Parsed) → Sound o
          → Sound (elim o as (λ x. Parsed) [
            | parsed c' ↦ parse_lines sc lines c'
            | failed ↦ failed
            | panics ↦ panics
          ])
      next rest (parsed c') j = rest c' j
      next rest failed j = tt
      next rest panics j = tt

pub empty-IsConfig : IsConfig empty_config
empty-IsConfig = record { originating = tt; rip = tt; masks = tt }
