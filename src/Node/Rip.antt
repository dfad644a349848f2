-- ===== src/Node/Rip.antt =====
-- RIP in a node: `protocol200`, `sendRIP`'s entries and `garbageCollector`, on the forwarding table.
pub mod Relax
pub mod Poison
pub mod Expiry
pub mod Masks
pub mod Learned
use ip_tcp.Base.{
  ℕ, zero, suc, ◌+◌, ◌-◌, ◌*◌, ◌/◌, ◌%◌, ◌^◌, ◌≡◌, Bool, true, false, not, ◌&&◌, List, [], ◌∷◌,
  ◌++◌, Option, none, some, ltb, leb, ◌==◌, if◌then◌else◌, length, min, add32, u16, u32,
}
use ip_tcp.Base.Table.{◌=?◌, lookup, insert, delete, nat_eq}
use ip_tcp.Netip.{Addr, ip4, ip6, invalid, addr_eq, Prefix, prefix_eq}
use ip_tcp.Rip.{RipUpdate, RipPacket}
use ip_tcp.Node.State.{ForwardingInfo, RouteType, local, static, learned}

-- `INFTY`
abbrev pub infty : ℕ
infty = 16

-- `popcount`; a uint32 is 0 after 32 halvings.
unfoldable pub popcount_loop : ℕ → ℕ → ℕ
popcount_loop zero num = 0
popcount_loop (suc fuel) num = num % 2 + popcount_loop fuel (num / 2)

abbrev pub popcount : ℕ → ℕ
popcount num = popcount_loop 32 num

-- The bitwise `&` of two numbers of `w` bits.
unfoldable pub bit_and : ℕ → ℕ → ℕ → ℕ
bit_and zero a b = 0
bit_and (suc w) a b = (a % 2) * (b % 2) + 2 * bit_and w (a / 2) (b / 2)

abbrev pub Table : Type 0
Table = List (Prefix × ForwardingInfo)

-- The prefix of an entry: its text always parses, since the address has four bytes and the mask 32
-- bits at most.
unfoldable pub entry_prefix : RipUpdate → Prefix
entry_prefix e = record { addr = ip4 (bit_and 32 e.address e.mask); bits = popcount e.mask }

-- `min(int(entry.Cost+1), INFTY)`, where the sum is that of uint32.
abbrev pub entry_cost : RipUpdate → ℕ
entry_cost e = min (add32 e.cost 1) infty

-- The routes in the table and those to be sent to all neighbors. Both maps hold pointers to the
-- same routes; every change of a route puts it into `triggered` too.
pub record Update : Type 0 where
  pub table : Table
  pub triggered : Table

abbrev pub learned_route : ℕ → Addr → Prefix → ℕ → ForwardingInfo
learned_route now hop pre cost = record {
  route_type = learned;
  next = hop;
  pre = pre;
  cost = cost;
  last_updated = now;
  ifname = [];
}

-- A route is put into both maps.
abbrev pub put : Prefix → ForwardingInfo → Update → Update
put pre info u = record { table = insert pre info u.table; triggered = insert pre info u.triggered }

-- What the loop's body does when the table has `info` for the prefix.
abbrev pub revise : ℕ → Addr → Prefix → ℕ → ForwardingInfo → Update → Update
revise now hop pre cost info u =
    if ltb cost info.cost
    then put pre (record info { cost = cost; next = hop; last_updated = now }) u
    else if ltb info.cost cost
    then if hop =? info.next
      then record {
        table = delete pre u.table;
        triggered = insert pre (record info { cost = cost; last_updated = now }) u.triggered;
      }
      else u
    else if hop =? info.next
    then put pre (record info { last_updated = now }) u
    else u

-- The body of the loop of `protocol200` over the entries of a response.
unfoldable pub update_entry : ℕ → Addr → RipUpdate → Update → Update
update_entry now hop e u = elim (lookup (entry_prefix e) u.table) [
  | none ↦
      if entry_cost e == infty
      then u
      else put (entry_prefix e) (learned_route now hop (entry_prefix e) (entry_cost e)) u
  | some info ↦ revise now hop (entry_prefix e) (entry_cost e) info u
]

-- That loop, at one time `now`.
unfoldable pub update_entries : ℕ → Addr → List RipUpdate → Update → Update
update_entries now hop [] u = u
update_entries now hop (e ∷ es) u = update_entries now hop es (update_entry now hop e u)

-- `net.CIDRMask(bits, 32)` as a number.
abbrev pub cidr_mask : ℕ → ℕ
cidr_mask bits = 2 ^ 32 - 2 ^ (32 - bits)

-- `pre.Addr().As4()` as a number: of an IPv4 address, or an IPv6 one that is mapped from one; it
-- panics on any other address.
abbrev pub address_of : Addr → Option ℕ
address_of (ip4 n) = some n
address_of (ip6 n zone) = if n / 2 ^ 32 == 65535 then some (n % 2 ^ 32) else none
address_of invalid = none

-- The entry of `sendRIP` for a route: with poisoned reverse.
unfoldable pub advertise : Addr → Prefix → ForwardingInfo → Option RipUpdate
advertise dst pre info = elim (address_of pre.addr) [
  | none ↦ none
  | some a ↦ some (record {
    cost = if dst =? info.next then infty else u32 info.cost;
    address = a;
    mask = cidr_mask info.pre.bits;
  })
]

-- The entries of `sendRIP`.
unfoldable pub advertise_all : Addr → Table → Option (List RipUpdate)
unfolding advertise
advertise_all dst [] = some []
advertise_all dst ((pre, info) ∷ m) =
    let rest = advertise_all dst m in
    elim (advertise dst pre info) [
      | none ↦ none
      | some e ↦ elim rest [ none ↦ none | some es ↦ some (e ∷ es) ]
    ]

-- The packet of `sendRIP`.
abbrev pub response : List RipUpdate → RipPacket
response es = record { command = 2; num_entries = u16 (length es); entries = es }

-- Whether `garbageCollector` takes a route out: learned, and 12 seconds old.
abbrev pub is_expired : ℕ → ForwardingInfo → Bool
is_expired now info = elim info.route_type [
  | local ↦ false
  | static ↦ false
  | learned ↦ leb 12000000000 (now - info.last_updated)
]

-- What the loop of `garbageCollector` does with a route, expired or not.
abbrev pub sort_out : Bool → Prefix → ForwardingInfo → Update → Update
sort_out true pre info u = record u { triggered = (pre, record info { cost = 16 }) ∷ u.triggered }
sort_out false pre info u = record u { table = (pre, info) ∷ u.table }

-- A pass of `garbageCollector`.
unfoldable pub collect : ℕ → Table → Update
collect now [] = record { table = []; triggered = [] }
collect now ((pre, info) ∷ m) = sort_out (is_expired now info) pre info (collect now m)
