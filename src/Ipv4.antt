-- ===== src/Ipv4.antt =====
-- IPv4 headers (pkg/iptcp-headers/ipv4header.go): the struct, `Marshal`, `Parse` and `ParseHeader`.
pub mod RoundTrip
mod Tests
use ip_tcp.Base.{
  ℕ, zero, suc, ◌+◌, ◌-◌, ◌*◌, ◌/◌, ◌%◌, ◌^◌, ◌≡◌, ◌↔◌, refl, Bool, true, false, ◌&&◌, List, [],
  ◌∷◌, ◌++◌, Option, none, some, arith, leb, ltb, ◌==◌, if◌then◌else◌, be16, of_be16, u8, length,
  take, replicate,
}
use ip_tcp.Netip.{Addr, invalid, is4, as_slice, addr_from4}

pub data HeaderError : Type 0 where
  header_too_short ext_header_too_short missing_address : HeaderError

pub data Result (A : Type 0) : Type 0 where
  ok : A → Result A
  err : HeaderError → Result A

abbrev pub header_len : ℕ
header_len = 20

-- The `int` fields are natural numbers: the program puts no negative number into one before
-- `Marshal`, and `Parse` reads bytes.
pub record Ipv4Header : Type 0 where
  pub version : ℕ
  pub len : ℕ
  pub tos : ℕ
  pub total_len : ℕ
  pub id : ℕ
  pub flags : ℕ
  pub frag_off : ℕ
  pub ttl : ℕ
  pub protocol : ℕ
  pub checksum : ℕ
  pub src : Addr
  pub dst : Addr
  pub options : List ℕ

-- `b[0]`: the version 4, and the header length in words in the low four bits.
abbrev first_byte : ℕ → ℕ
first_byte hdrlen = u8 (64 + hdrlen / 4 % 16)

-- `(FragOff & 0x1fff) | int(Flags<<13)`, of which no bit is shared.
abbrev flags_and_frag_off : Ipv4Header → ℕ
flags_and_frag_off h = h.frag_off % 8192 + h.flags * 8192

-- Four bytes of `make`, which `copy` overwrites with an IPv4 address.
abbrev addr_bytes : Addr → List ℕ
addr_bytes a = if is4 a then as_slice a else 0 ∷ 0 ∷ 0 ∷ 0 ∷ []

-- The buffer `b`, written in the order of its offsets.
unfoldable pub header_bytes : Ipv4Header → List ℕ
header_bytes h =
    first_byte (header_len + length h.options) ∷ u8 h.tos ∷ be16 h.total_len
    ++ (be16 h.id
        ++ (be16 (flags_and_frag_off h)
            ++ (u8 h.ttl ∷ u8 h.protocol ∷ be16 h.checksum
                ++ (addr_bytes h.src ++ (addr_bytes h.dst ++ h.options)))))

-- The receiver is no nil pointer.
unfoldable pub marshal : Ipv4Header → Result (List ℕ)
unfolding header_bytes
marshal h =
    if ltb h.len header_len
    then err header_too_short
    else if is4 h.dst
    then ok (header_bytes h)
    else err missing_address

-- What `Parse` stores, once the header is known to lie within `b`. The fields start at zero, so
-- `Options` is made afresh; it keeps no byte if the header length is 20 or less.
parse_fields : ℕ → List ℕ → Result Ipv4Header
parse_fields hdrlen
      (b₀ ∷ b₁ ∷ b₂ ∷ b₃ ∷ b₄ ∷ b₅ ∷ b₆ ∷ b₇ ∷ b₈ ∷ b₉ ∷ b₁₀ ∷ b₁₁ ∷ b₁₂ ∷ b₁₃ ∷ b₁₄ ∷ b₁₅ ∷ b₁₆
        ∷ b₁₇ ∷ b₁₈ ∷ b₁₉ ∷ rest) =
    ok (record {
      version = b₀ / 16;
      len = hdrlen;
      tos = b₁;
      total_len = of_be16 b₂ b₃;
      id = of_be16 b₄ b₅;
      flags = of_be16 b₆ b₇ / 8192 % 8;
      frag_off = of_be16 b₆ b₇ % 8192;
      ttl = b₈;
      protocol = b₉;
      checksum = of_be16 b₁₀ b₁₁;
      src = addr_from4 b₁₂ b₁₃ b₁₄ b₁₅;
      dst = addr_from4 b₁₆ b₁₇ b₁₈ b₁₉;
      options = take (hdrlen - header_len) rest;
    })
parse_fields hdrlen _ = err header_too_short

-- `int(b[0]&0x0f) << 2`
abbrev pub hdrlen_of : List ℕ → ℕ
hdrlen_of [] = 0
hdrlen_of (b₀ ∷ _) = b₀ % 16 * 4

-- `ParseHeader`, which runs `Parse` on a new struct. `b` is no nil slice.
unfoldable pub parse_header : List ℕ → Result Ipv4Header
unfolding parse_fields
parse_header b =
    if ltb (length b) header_len
    then err header_too_short
    else if ltb (length b) (hdrlen_of b)
    then err ext_header_too_short
    else parse_fields (hdrlen_of b) b
