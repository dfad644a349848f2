-- ===== src/Ipv4/Tests.antt =====
-- The IPv4 header codec on concrete headers.
use ip_tcp.Base.{ℕ, ◌≡◌, refl, List, [], ◌∷◌, ◌++◌, arith, length}
use ip_tcp.Netip.{ip4}
use ip_tcp.Ipv4.{Ipv4Header, ok, marshal, parse_header}
use ip_tcp.Ipv4.RoundTrip.{parse_header-marshal}

-- From 10.0.0.1 to 10.1.0.2, with one word of options.
abbrev sample : Ipv4Header
sample = record {
  version = 4;
  len = 24;
  tos = 0;
  total_len = 30;
  id = 7;
  flags = 2;
  frag_off = 100;
  ttl = 16;
  protocol = 6;
  checksum = 0xbeef;
  src = ip4 0x0a000001;
  dst = ip4 0x0a010002;
  options = 1 ∷ 1 ∷ 1 ∷ 0 ∷ [];
}

sample_bytes_read :
    marshal sample
    ≡ ok (
        70 ∷ 0 ∷ 0 ∷ 30 ∷ 0 ∷ 7 ∷ 64 ∷ 100 ∷ 16 ∷ 6 ∷ 0xbe ∷ 0xef ∷ 10 ∷ 0 ∷ 0 ∷ 1 ∷ 10 ∷ 1 ∷ 0 ∷ 2
        ∷ 1 ∷ 1 ∷ 1 ∷ 0 ∷ [])
unfolding marshal
sample_bytes_read = refl

parse_header-marshal_example :
    (b : List ℕ) × (marshal sample ≡ ok b)
    × (length b ≡ 24)
    × (parse_header (b ++ (9 ∷ 9 ∷ [])) ≡ ok sample)
parse_header-marshal_example = parse_header-marshal sample (9 ∷ 9 ∷ []) (omega arith)
