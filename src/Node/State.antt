-- ===== src/Node/State.antt =====
-- The tables of a node. The interfaces' sockets and channels are left out.
use ip_tcp.Base.{ℕ, ◌≡◌, ◌↔◌, refl, Bool, true, false, ◌&&◌, List, [], ◌∷◌, arith, ◌==◌}
use ip_tcp.Base.Table.{Eq}
use ip_tcp.Netip.{Addr, AddrPort, Prefix}

-- A Go string, as its bytes.
abbrev pub Name : Type 0
Name = List ℕ

abbrev pub name_beq : Name → Name → Bool
name_beq [] [] = true
name_beq (c ∷ n) (d ∷ m) = c == d && name_beq n m
name_beq _ _ = false

pub name_beq_iff : (a b : Name) → (name_beq a b ≡ true) ↔ (a ≡ b)
name_beq_iff [] [] = (λ h. refl, λ h. refl)
name_beq_iff (c ∷ n) (d ∷ m) =
    (λ h. ground (arith, name_beq_iff n m), λ h. ground (arith, name_beq_iff n m))
name_beq_iff [] (d ∷ m) = (λ h. cc, λ h. cc)
name_beq_iff (c ∷ n) [] = (λ h. cc, λ h. cc)

instance abbrev pub name_eq : Eq Name
name_eq = record { beq = name_beq; beq_iff = name_beq_iff }

-- The values of `route_type`: "L", "S" and "R".
pub data RouteType : Type 0 where
  local : RouteType
  static : RouteType
  learned : RouteType

-- `last_updated` is in nanoseconds; it is zero where the source leaves it out.
pub record ForwardingInfo : Type 0 where
  pub route_type : RouteType
  pub next : Addr
  pub pre : Prefix
  pub cost : ℕ
  pub last_updated : ℕ
  pub ifname : Name

pub record InterfaceConfig : Type 0 where
  pub name : Name
  pub assigned_ip : Addr
  pub assigned_prefix : Prefix
  pub udp_addr : AddrPort

pub record NeighborConfig : Type 0 where
  pub dest_addr : Addr
  pub udp_addr : AddrPort
  pub interface_name : Name

-- `guarded` is whether `enableMutex` and `enableCond` are set; they are nil until then.
pub record Interface : Type 0 where
  pub config : InterfaceConfig
  pub enabled : Bool
  pub guarded : Bool

-- `handlers` are the keys of `handlerTable`.
pub record Node : Type 0 where
  pub neighbors : List NeighborConfig
  pub interfaces : List (Name × Interface)
  pub neighbor_table : List (Addr × NeighborConfig)
  pub forwarding_table : List (Prefix × ForwardingInfo)
  pub handlers : List ℕ
  pub rip_neighbors : List Addr
  pub ip_addr : Addr
