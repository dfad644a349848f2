-- ===== src/Rip/Tests.antt =====
-- The RIP codec on concrete messages.
use ip_tcp.Base.{◌≡◌, refl, [], ◌∷◌, some, none, arith}
use ip_tcp.Base.Slices.{read16, read32}
use ip_tcp.Rip.{RipUpdate, RipPacket, marshal_rip, extract_rip}
use ip_tcp.Rip.RoundTrip.{extract_rip-marshal_rip}

abbrev route : RipUpdate
route = record { cost = 2; address = 0x0a010000; mask = 0xffffff00 }

abbrev response : RipPacket
response = record { command = 2; num_entries = 1; entries = route ∷ [] }

marshal_response :
    marshal_rip response ≡ 0 ∷ 2 ∷ 0 ∷ 1 ∷ 0 ∷ 0 ∷ 0 ∷ 2 ∷ 10 ∷ 1 ∷ 0 ∷ 0 ∷ 255 ∷ 255 ∷ 255 ∷ 0 ∷ []
unfolding marshal_rip
marshal_response = refl

extract_short : extract_rip (0 ∷ 2 ∷ 0 ∷ 1 ∷ []) [] ≡ none
unfolding extract_rip read16 read32
extract_short = refl

extract_rip-marshal_rip_example : extract_rip (marshal_rip response) (7 ∷ []) ≡ some response
extract_rip-marshal_rip_example =
    extract_rip-marshal_rip response (7 ∷ []) (omega arith) (omega arith) refl (omega arith)
