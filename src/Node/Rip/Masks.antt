-- ===== src/Node/Rip/Masks.antt =====
-- Prefixes through the address and mask of a RIP entry.
use ip_tcp.Base.{
  ℕ, zero, suc, ◌+◌, ◌-◌, ◌*◌, ◌/◌, ◌%◌, ◌^◌, ◌≤◌, ◌<◌, ◌≡◌, refl, sym, ap, ap₂, some, IsU32, ◌∙◌,
  Bool, true, false, ◌&&◌, arith, ◌==◌, ==_iff, ℕ_discrete,
}
use native.Mathlib.Nat.{mod-add-div, div-div-eq-div-mul, two-pow-succ, mul_assoc}
use ip_tcp.Netip.{Addr, ip4, Prefix, masked}
use ip_tcp.Rip.{RipUpdate}
use ip_tcp.Node.State.{ForwardingInfo}
use ip_tcp.Node.Rip.{bit_and, popcount_loop, popcount, cidr_mask, advertise, entry_prefix}

abbrev prefix_at : ℕ → ℕ → Prefix
prefix_at n b = record { addr = ip4 n; bits = b }

mod_double : (a p : ℕ) → a % (2 * p) ≡ a % 2 + 2 * (a / 2 % p)
mod_double a p = omega (
  arith,
  mod-add-div a (2 * p),
  mod-add-div (a / 2) p,
  ap (λ q. 2 * p * q) (div-div-eq-div-mul a 2 p),
  mul_assoc 2 p (a / 2 / p),
)

pow_pos : (k : ℕ) → 0 < 2 ^ k
pow_pos zero = omega arith
pow_pos (suc k) = omega (arith, pow_pos k, two-pow-succ k)

mod_pow : (a k : ℕ) → a % 2 ^ suc k ≡ a % 2 + 2 * (a / 2 % 2 ^ k)
mod_pow a k = ap (λ p. a % p) (omega (arith, two-pow-succ k)) ∙ mod_double a (2 ^ k)

bit_and-ones : (k a : ℕ) → bit_and k a (2 ^ k - 1) ≡ a % 2 ^ k
unfolding bit_and
bit_and-ones zero a = omega arith
bit_and-ones (suc k) a =
    ap (λ m. a % 2 * (m % 2) + 2 * bit_and k (a / 2) (m / 2)) (omega (arith, two-pow-succ k))
    ∙ step (2 ^ k) (pow_pos k) (bit_and-ones k (a / 2))
    ∙ sym (mod_pow a k)
  where
    step :
        (p : ℕ)
        → 0 < p
        → bit_and k (a / 2) (p - 1) ≡ a / 2 % p
        → a % 2 * ((2 * p - 1) % 2) + 2 * bit_and k (a / 2) ((2 * p - 1) / 2)
          ≡ a % 2 + 2 * (a / 2 % p)
    step p h e =
        ap (λ z. z + 2 * bit_and k (a / 2) ((2 * p - 1) / 2))
          (ap (λ b. a % 2 * b) odd ∙ omega arith)
        ∙ ap (λ m. a % 2 + 2 * bit_and k (a / 2) m) half
        ∙ ap (λ z. a % 2 + 2 * z) e
      where
        odd : (2 * p - 1) % 2 ≡ 1
        odd = omega arith

        half : (2 * p - 1) / 2 ≡ p - 1
        half = omega arith

-- The bits from `j` on.
bit_and-upper : (w j a : ℕ) → j ≤ w → bit_and w a (2 ^ w - 2 ^ j) ≡ a % 2 ^ w - a % 2 ^ j
unfolding bit_and
bit_and-upper w zero a h = bit_and-ones w a ∙ omega arith
bit_and-upper zero (suc j) a h = absurd (omega arith)
bit_and-upper (suc w) (suc j) a h =
    ap (λ m. a % 2 * (m % 2) + 2 * bit_and w (a / 2) (m / 2))
      (omega (arith, two-pow-succ w, two-pow-succ j))
    ∙ step (2 ^ w - 2 ^ j) (bit_and-upper w j (a / 2) (omega arith))
    ∙ omega (arith, mod_pow a w, mod_pow a j)
  where
    step :
        (p : ℕ)
        → bit_and w (a / 2) p ≡ a / 2 % 2 ^ w - a / 2 % 2 ^ j
        → a % 2 * (2 * p % 2) + 2 * bit_and w (a / 2) (2 * p / 2)
          ≡ 2 * (a / 2 % 2 ^ w - a / 2 % 2 ^ j)
    step p e =
        ap (λ b. a % 2 * b + 2 * bit_and w (a / 2) (2 * p / 2)) even
        ∙ ap (λ m. a % 2 * 0 + 2 * bit_and w (a / 2) m) half
        ∙ omega (arith, e)
      where
        even : 2 * p % 2 ≡ 0
        even = omega arith

        half : 2 * p / 2 ≡ p
        half = omega arith

-- A test that holds of all numbers below a bound.
abbrev all_below : (ℕ → Bool) → ℕ → Bool
all_below f zero = true
all_below f (suc n) = f n && all_below f n

both_left : (a b : Bool) → (a && b) ≡ true → a ≡ true
both_left true b h = refl
both_left false b h = h

both_right : (a b : Bool) → (a && b) ≡ true → b ≡ true
both_right true b h = h
both_right false b h = absurd cc

all_below_at : (f : ℕ → Bool) (n i : ℕ) → all_below f n ≡ true → i < n → f i ≡ true
all_below_at f zero i h l = absurd (omega arith)
all_below_at f (suc n) i h l = elim (ℕ_discrete i n) [
  | yes e ↦ ap f e ∙ both_left (f n) (all_below f n) h
  | no ne ↦ all_below_at f n i (both_right (f n) (all_below f n) h) (omega arith)
]

popcount-cidr_mask : (b : ℕ) → b ≤ 32 → popcount (cidr_mask b) ≡ b
unfolding popcount_loop
popcount-cidr_mask b h =
    (==_iff _ _).0 (all_below_at (λ i. popcount (cidr_mask i) == i) 33 b refl (omega arith))

ip4_inj : {n m : ℕ} → ip4 n ≡ ip4 m → n ≡ m
ip4_inj h = cc

-- The entry that `sendRIP` makes of a route under an IPv4 prefix, which is masked, is taken by
-- `protocol200` as one for the same prefix.
pub entry_prefix-advertise :
    (dst : Addr) (n b : ℕ) (info : ForwardingInfo)
    → IsU32 n
    → b ≤ 32
    → masked (record { addr = ip4 n; bits = b }) ≡ record { addr = ip4 n; bits = b }
    → info.pre ≡ record { addr = ip4 n; bits = b }
    → (e : RipUpdate) × (advertise dst (record { addr = ip4 n; bits = b }) info ≡ some e)
      × (entry_prefix e ≡ record { addr = ip4 n; bits = b })
unfolding advertise entry_prefix masked
entry_prefix-advertise dst n b info hn hb hm hp = (
  _,
  refl,
  ap₂ prefix_at
      (ap (λ (p : Prefix). bit_and 32 n (cidr_mask p.bits)) hp
        ∙ bit_and-upper 32 (32 - b) n (omega arith)
        ∙ kept)
      (ap (λ (p : Prefix). popcount (cidr_mask p.bits)) hp ∙ popcount-cidr_mask b hb),
)
  where
    kept : n % 2 ^ 32 - n % 2 ^ (32 - b) ≡ n
    kept = omega (arith, ip4_inj (ap (λ (p : Prefix). p.addr) hm))
