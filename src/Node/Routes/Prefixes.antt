-- ===== src/Node/Routes/Prefixes.antt =====
-- The prefixes of a forwarding table.
use ip_tcp.Base.{ℕ, ◌-◌, ◌*◌, ◌/◌, ◌%◌, ◌^◌, ◌≤◌, ◌∙◌, ◌≡◌, refl, sym, ap, ap₂, subst, true, arith}
use native.Mathlib.Nat.{mod-add-div', mod-le}
use ip_tcp.Netip.{Addr, ip4, ip6, invalid, Prefix, contains, masked, IsIp4}

-- Whether a prefix is as a routing table's key is: IPv4, no longer than 32 bits, masked.
pub record IsKey (p : Prefix) : Type 0 where
  pub v4 : IsIp4 p.addr
  pub short : p.bits ≤ 32
  pub is_masked : masked p ≡ p

abbrev prefix_of : Addr → ℕ → Prefix
prefix_of x k = record { addr = x; bits = k }

same_leading : (n m a d : ℕ) → n - n % d ≡ n → m - m % d ≡ m → n / d ≡ a / d → m / d ≡ a / d → n ≡ m
same_leading n m a d hn hm en em = sym (whole n hn) ∙ ap (λ z. z * d) (en ∙ sym em) ∙ whole m hm
  where
    whole : (k : ℕ) → k - k % d ≡ k → k / d * d ≡ k
    whole k h = omega (arith, mod-add-div' k d, mod-le k d)

ip4_inj : {n m : ℕ} → ip4 n ≡ ip4 m → n ≡ m
ip4_inj h = cc

-- What it means for a masked prefix to contain an address.
leading :
    (x : Addr) (b : ℕ) (dst : Addr)
    → IsKey (record { addr = x; bits = b })
    → contains (record { addr = x; bits = b }) dst ≡ true
    → (n : ℕ) × (a : ℕ) × (x ≡ ip4 n)
      × (dst ≡ ip4 a)
      × (n - n % 2 ^ (32 - b) ≡ n)
      × (n / 2 ^ (32 - b) ≡ a / 2 ^ (32 - b))
unfolding contains masked
leading (ip4 n) b (ip4 a) k c =
    (n, a, refl, refl, ip4_inj (ap (λ (q : Prefix). q.addr) k.is_masked), ground arith)
leading (ip4 n) b invalid k c = absurd cc
leading (ip4 n) b (ip6 _ _) k c = absurd cc
leading invalid b dst k c = absurd k.v4
leading (ip6 _ _) b dst k c = absurd k.v4

-- Two prefixes in a table that have one length and contain one address are one prefix.
pub same_prefix :
    (p q : Prefix) (dst : Addr)
    → IsKey p
    → IsKey q
    → contains p dst ≡ true
    → contains q dst ≡ true
    → p.bits ≡ q.bits
    → p ≡ q
same_prefix p q dst kp kq cp cq e =
    let (n, a, pn, da, hn, en) = leading p.addr p.bits dst kp cp in
    let (m, b, qm, db, hm, em) = leading q.addr q.bits dst kq cq in
    ap₂ prefix_of
      (pn
        ∙ ap ip4 (
            same_leading n m a (2 ^ (32 - p.bits)) hn
              (subst (λ k. m - m % 2 ^ (32 - k) ≡ m) (sym e) hm) en
              (subst (λ k. m / 2 ^ (32 - k) ≡ a / 2 ^ (32 - k)) (sym e)
                (em ∙ ap (λ z. z / 2 ^ (32 - q.bits)) (ip4_inj (sym db ∙ da)))))
        ∙ sym qm)
      e
