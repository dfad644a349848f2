-- ===== src/Netip.antt =====
-- What the program uses of Go's net/netip: addresses, prefixes, and their bytes.
use ip_tcp.Base.{
  ℕ, ◌-◌, ◌/◌, ◌%◌, ◌^◌, ◌≡◌, ◌↔◌, refl, Bool, true, false, ◌&&◌, List, [], ◌++◌, arith, leb, ◌==◌,
  be32, of_be32, IsU32,
}
use ip_tcp.Base.Table.{Eq}

-- `netip.Addr`: the zero value, an IPv4 address, an IPv6 address with its zone's handle (0 for none).
pub data Addr : Type 0 where
  invalid : Addr
  ip4 : ℕ → Addr
  ip6 : ℕ → ℕ → Addr

abbrev pub addr_beq : Addr → Addr → Bool
addr_beq invalid invalid = true
addr_beq (ip4 a) (ip4 b) = a == b
addr_beq (ip6 a z) (ip6 b y) = a == b && z == y
addr_beq _ _ = false

pub addr_beq_iff : (a b : Addr) → (addr_beq a b ≡ true) ↔ (a ≡ b)
addr_beq_iff invalid invalid = (λ h. refl, λ h. refl)
addr_beq_iff (ip4 a) (ip4 b) = (λ h. ground arith, λ h. ground arith)
addr_beq_iff (ip6 a z) (ip6 b y) = (λ h. ground arith, λ h. ground arith)
addr_beq_iff _ _ = (λ h. cc, λ h. cc)

instance abbrev pub addr_eq : Eq Addr
addr_eq = record { beq = addr_beq; beq_iff = addr_beq_iff }

abbrev pub is4 : Addr → Bool
is4 (ip4 a) = true
is4 _ = false

-- `AsSlice`
abbrev pub as_slice : Addr → List ℕ
as_slice invalid = []
as_slice (ip4 a) = be32 a
as_slice (ip6 a z) = be32 (a / 2 ^ 96) ++ (be32 (a / 2 ^ 64) ++ (be32 (a / 2 ^ 32) ++ be32 a))

-- `AddrFromSlice` of four bytes.
abbrev pub addr_from4 : ℕ → ℕ → ℕ → ℕ → Addr
addr_from4 a b c d = ip4 (of_be32 a b c d)

-- `netip.Prefix`
pub record Prefix : Type 0 where
  pub addr : Addr
  pub bits : ℕ

abbrev pub prefix_beq : Prefix → Prefix → Bool
prefix_beq p q = addr_beq p.addr q.addr && p.bits == q.bits

pub prefix_beq_iff : (p q : Prefix) → (prefix_beq p q ≡ true) ↔ (p ≡ q)
prefix_beq_iff p q = (
  λ h. ground (arith, addr_beq_iff p.addr q.addr),
  λ h. ground (arith, addr_beq_iff p.addr q.addr),
)

instance abbrev pub prefix_eq : Eq Prefix
prefix_eq = record { beq = prefix_beq; beq_iff = prefix_beq_iff }

-- `Contains`: the families agree, no zone, and the leading bits are the same.
contains_in : Addr → ℕ → Addr → Bool
contains_in (ip4 p) bits (ip4 a) = leb bits 32 && p / 2 ^ (32 - bits) == a / 2 ^ (32 - bits)
contains_in (ip6 p y) bits (ip6 a z) =
    leb bits 128 && y == 0 && z == 0 && p / 2 ^ (128 - bits) == a / 2 ^ (128 - bits)
contains_in _ bits _ = false

unfoldable pub contains : Prefix → Addr → Bool
unfolding contains_in
contains p a = contains_in p.addr p.bits a

masked_addr : Addr → ℕ → Addr
masked_addr (ip4 a) bits = ip4 (a - a % 2 ^ (32 - bits))
masked_addr (ip6 a z) bits = ip6 (a - a % 2 ^ (128 - bits)) z
masked_addr invalid bits = invalid

-- `Masked`, on a valid prefix.
unfoldable pub masked : Prefix → Prefix
unfolding masked_addr
masked p = record p { addr = masked_addr p.addr p.bits }

-- An IPv4 address of 32 bits.
abbrev pub IsIp4 : Addr → Type 0
IsIp4 (ip4 a) = IsU32 a
IsIp4 _ = ⊥

pub IsIp4-ip4 : (a : Addr) → IsIp4 a → (n : ℕ) × (a ≡ ip4 n) × IsU32 n
IsIp4-ip4 (ip4 n) h = (n, refl, h)
IsIp4-ip4 invalid h = absurd h
IsIp4-ip4 (ip6 n z) h = absurd h

-- `netip.AddrPort`
pub record AddrPort : Type 0 where
  pub addr : Addr
  pub port : ℕ
