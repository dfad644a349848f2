-- ===== src/Node/Packets/Checksum.antt =====
-- The header checksum that a node computes and the one that it checks.
use ip_tcp.Base.{
  ℕ, ◌+◌, ◌-◌, ◌*◌, ◌%◌, ◌<◌, ◌≡◌, ◌≢◌, refl, ap, ◌∙◌, ◌↔◌, List, [], ◌∷◌, arith, IsU16,
}
use ip_tcp.Netip.{Addr}
use ip_tcp.Ipv4.{header_bytes}
use ip_tcp.Node.Packets.{packet_header, compute_checksum, validate_checksum}

-- The bytes as big-endian words, summed; an odd last byte is a word's upper half.
abbrev pub words : List ℕ → ℕ
words [] = 0
words (a ∷ []) = a * 256
words (a ∷ b ∷ rest) = a * 256 + b + words rest

-- What netstack documents of `Checksum`: the one's complement sum of RFC 1071, which is 0 only for
-- words that are all 0.
pub record IsOnesSum (sum : List ℕ → ℕ → ℕ) : Type 0 where
  pub fits : (b : List ℕ) (init : ℕ) → IsU16 init → IsU16 (sum b init)
  pub congruent :
      (b : List ℕ) (init : ℕ) → IsU16 init → sum b init % 65535 ≡ (words b + init) % 65535
  pub zero_only : (b : List ℕ) (init : ℕ) → IsU16 init → sum b init ≡ 0 → words b + init ≡ 0

-- The words of a packet's header, whatever its checksum field.
pub words-header_bytes :
    (src dst : Addr) (protocol_num ttl : ℕ) (payload : List ℕ) (c : ℕ)
    → IsU16 c
    → (words (header_bytes (packet_header src dst protocol_num ttl payload c))
        ≡ words (header_bytes (packet_header src dst protocol_num ttl payload 0)) + c)
      × (words (header_bytes (packet_header src dst protocol_num ttl payload 0)) ≢ 0)
unfolding header_bytes
words-header_bytes src dst protocol_num ttl payload c hc = (omega arith, omega arith)

complement :
    (s w t c : ℕ)
    → s < 65536
    → s % 65535 ≡ (w + 0) % 65535
    → s ≢ 0
    → c ≡ 65535 - s
    → t < 65536
    → t % 65535 ≡ (w + c + c) % 65535
    → t ≢ 0
    → (t ≡ c) ↔ (c ≢ 0)
complement s w t c hs es hs' ec ht et ht' = (λ h k. omega arith, λ h. omega arith)

module _ (sum : List ℕ → ℕ → ℕ) (law : IsOnesSum sum) where
  -- A header passes the check on its computed checksum exactly when that is not 0.
  pub validate_checksum_iff :
      (src dst : Addr) (protocol_num ttl : ℕ) (payload : List ℕ)
      → let c =
          compute_checksum sum (header_bytes (packet_header src dst protocol_num ttl payload 0)) in
        IsU16 c
        × ((validate_checksum sum
                (header_bytes (packet_header src dst protocol_num ttl payload c))
                c
              ≡ c)
            ↔ (c ≢ 0))
  validate_checksum_iff src dst protocol_num ttl payload =
      let (moved, some_bits) =
        words-header_bytes src dst protocol_num ttl payload c (omega arith) in
      (
        omega arith,
        complement (sum h₀ 0) (words h₀) (sum h c) c (law.fits h₀ 0 (omega arith))
            (law.congruent h₀ 0 (omega arith))
            (λ z. some_bits (omega (arith, law.zero_only h₀ 0 (omega arith) z))) refl
            (law.fits h c (omega arith))
            (law.congruent h c (omega arith) ∙ ap (λ n. (n + c) % 65535) moved)
            (λ z. some_bits (omega (arith, moved, law.zero_only h c (omega arith) z))),
      )
    where
      h₀ : List ℕ
      h₀ = header_bytes (packet_header src dst protocol_num ttl payload 0)

      c : ℕ
      c = compute_checksum sum h₀

      h : List ℕ
      h = header_bytes (packet_header src dst protocol_num ttl payload c)
