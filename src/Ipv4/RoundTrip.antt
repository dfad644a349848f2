-- ===== src/Ipv4/RoundTrip.antt =====
-- `ParseHeader` after `Marshal`, and the inputs that each refuses.
use ip_tcp.Base.{
  ℕ, ◌+◌, ◌-◌, ◌%◌, ◌≤◌, ◌<◌, ◌≡◌, ◌↔◌, refl, List, ◌∷◌, ◌++◌, arith, length, take, take-append,
  get_or, true, false, length-append, of_be32-be32, IsU8, IsU16,
}
use ip_tcp.Netip.{Addr, invalid, ip4, ip6, is4, IsIp4, IsIp4-ip4}
use ip_tcp.Ipv4.{
  Ipv4Header, ok, err, addr_bytes, header_bytes, marshal, parse_fields, parse_header, hdrlen_of,
  header_too_short, ext_header_too_short, missing_address, header_len,
}

-- A header that fits the wire format: version 4, a length that counts the options, whole words of
-- them, and every field within its bits.
pub record FitsWire (h : Ipv4Header) : Type 0 where
  pub is_v4 : h.version ≡ 4
  pub len_counts : h.len ≡ 20 + length h.options
  pub words : length h.options % 4 ≡ 0
  pub short : length h.options ≤ 40
  pub tos_fits : IsU8 h.tos
  pub total_len_fits : IsU16 h.total_len
  pub id_fits : IsU16 h.id
  pub flags_fit : h.flags < 8
  pub frag_off_fits : h.frag_off < 8192
  pub ttl_fits : IsU8 h.ttl
  pub protocol_fits : IsU8 h.protocol
  pub checksum_fits : IsU16 h.checksum
  pub src_v4 : IsIp4 h.src
  pub dst_v4 : IsIp4 h.dst

hdrlen_of-bytes :
    (h : Ipv4Header) (rest : List ℕ) → FitsWire h → hdrlen_of (header_bytes h ++ rest) ≡ h.len
unfolding header_bytes
hdrlen_of-bytes h rest w = omega arith

length-addr_bytes : (a : Addr) → length (addr_bytes a) ≡ 4
length-addr_bytes invalid = refl
length-addr_bytes (ip4 n) = refl
length-addr_bytes (ip6 n z) = refl

length_of_header_bytes : (h : Ipv4Header) → length (header_bytes h) ≡ 20 + length h.options
unfolding header_bytes
length_of_header_bytes h = omega (
  arith,
  length-addr_bytes h.src,
  length-addr_bytes h.dst,
  length-append (addr_bytes h.src) (addr_bytes h.dst ++ h.options),
  length-append (addr_bytes h.dst) h.options,
)

pub length-header_bytes : (h : Ipv4Header) → FitsWire h → length (header_bytes h) ≡ h.len
length-header_bytes h w = omega (arith, length_of_header_bytes h)

parse_fields-bytes :
    (h : Ipv4Header) (rest : List ℕ)
    → FitsWire h
    → parse_fields h.len (header_bytes h ++ rest) ≡ ok h
unfolding header_bytes parse_fields
parse_fields-bytes h rest w =
    let (s, es, hs) = IsIp4-ip4 h.src w.src_v4 in
    let (d, ed, hd) = IsIp4-ip4 h.dst w.dst_v4 in
    rw (es, ed) (ground (arith, options_back, of_be32-be32 s hs, of_be32-be32 d hd))
  where
    at_end : h.len - header_len ≡ length h.options
    at_end = omega arith

    options_back : take (h.len - header_len) (h.options ++ rest) ≡ h.options
    options_back = rw at_end (take-append h.options rest)

pub marshal-bytes : (h : Ipv4Header) → FitsWire h → marshal h ≡ ok (header_bytes h)
unfolding marshal
marshal-bytes h w = let (d, ed, hd) = IsIp4-ip4 h.dst w.dst_v4 in ground (arith, ed)

parse_fields_ok :
    (n : ℕ) (b : List ℕ)
    → 20 ≤ length b
    → (h : Ipv4Header) × (parse_fields n b ≡ ok h)
      × (h.len ≡ n)
      × (h.ttl ≡ get_or b 8 0)
      × (h.protocol ≡ get_or b 9 0)
unfolding parse_fields
parse_fields_ok n
      (b₀ ∷ b₁ ∷ b₂ ∷ b₃ ∷ b₄ ∷ b₅ ∷ b₆ ∷ b₇ ∷ b₈ ∷ b₉ ∷ b₁₀ ∷ b₁₁ ∷ b₁₂ ∷ b₁₃ ∷ b₁₄ ∷ b₁₅ ∷ b₁₆
        ∷ b₁₇ ∷ b₁₈ ∷ b₁₉ ∷ rest)
      h =
    (_, refl, refl, refl, refl)
parse_fields_ok n _ h = absurd (omega arith)

pub parse_header-bytes :
    (h : Ipv4Header) (payload : List ℕ)
    → FitsWire h
    → parse_header (header_bytes h ++ payload) ≡ ok h
unfolding parse_header
parse_header-bytes h payload w = ground (
  arith,
  hdrlen_of-bytes h payload w,
  length-append (header_bytes h) payload,
  length-header_bytes h w,
  parse_fields-bytes h payload w,
)

-- A header that fits the wire format is written as bytes of its own length, and `ParseHeader` reads
-- it back from them, whatever payload follows.
pub parse_header-marshal :
    (h : Ipv4Header) (payload : List ℕ)
    → FitsWire h
    → (b : List ℕ) × (marshal h ≡ ok b) × (length b ≡ h.len) × (parse_header (b ++ payload) ≡ ok h)
parse_header-marshal h payload w =
    (header_bytes h, marshal-bytes h w, length-header_bytes h w, parse_header-bytes h payload w)

-- The three outcomes of `ParseHeader`: fewer than 20 bytes, fewer bytes than the header length in
-- the first byte says, or a header with that length, the time to live of byte 8 and the protocol of
-- byte 9.
pub parse_header_outcomes :
    (b : List ℕ)
    → ((parse_header b ≡ err header_too_short) ↔ (length b < 20))
      × ((parse_header b ≡ err ext_header_too_short) ↔ ((20 ≤ length b) × (length b < hdrlen_of b)))
      × ((20 ≤ length b)
          → hdrlen_of b ≤ length b
          → (h : Ipv4Header) × (parse_header b ≡ ok h)
            × (h.len ≡ hdrlen_of b)
            × (h.ttl ≡ get_or b 8 0)
            × (h.protocol ≡ get_or b 9 0))
unfolding parse_header
parse_header_outcomes b = (
  (λ e. ground (arith, parse_fields_ok (hdrlen_of b) b), λ h. ground arith),
  (λ e. ground (arith, parse_fields_ok (hdrlen_of b) b), λ h. ground arith),
  λ h k. let (x, p, l, t, q) = parse_fields_ok (hdrlen_of b) b h in (x, ground (arith, p), l, t, q),
)

-- `Marshal` refuses a header length below 20, and else a destination that is no IPv4 address; on
-- every other header it writes 20 bytes and the options, the source as zeros if it is not IPv4.
pub marshal_outcomes :
    (h : Ipv4Header)
    → ((marshal h ≡ err header_too_short) ↔ (h.len < 20))
      × ((marshal h ≡ err missing_address) ↔ ((20 ≤ h.len) × (is4 h.dst ≡ false)))
      × ((20 ≤ h.len)
          → is4 h.dst ≡ true
          → (b : List ℕ) × (marshal h ≡ ok b) × (length b ≡ 20 + length h.options))
unfolding marshal
marshal_outcomes h = (
  (λ e. ground arith, λ k. ground arith),
  (λ e. ground arith, λ k. ground arith),
  λ k d. (header_bytes h, ground arith, length_of_header_bytes h),
)
