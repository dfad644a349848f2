-- ===== src/Rip/RoundTrip.antt =====
-- `ExtractRIP` after `MarshalRIP`, and the other way round.
use ip_tcp.Base.{
  ℕ, zero, suc, ◌≡◌, refl, ap, List, [], ◌∷◌, ◌++◌, some, be16, be32, arith, length, All, IsU8,
  IsU16, IsU32,
}
use ip_tcp.Base.Slices.{
  >>=-eq-some, read16-be16, read32-be32, read16_inv, read32_inv, read16, read32,
}
use ip_tcp.Rip.{
  RipUpdate, RipPacket, marshal_entries, marshal_rip, extract_entry, extract_entries, extract_rip,
}

pub record EntryInRange (e : RipUpdate) : Type 0 where
  pub cost_fits : IsU32 e.cost
  pub address_fits : IsU32 e.address
  pub mask_fits : IsU32 e.mask

pub extract_entry-marshal :
    (e : RipUpdate) (rest : List ℕ)
    → EntryInRange e
    → extract_entry (be32 e.cost ++ (be32 e.address ++ (be32 e.mask ++ rest))) ≡ some (e, rest)
unfolding extract_entry
extract_entry-marshal e rest h = rw (
  read32-be32 e.cost _ h.cost_fits,
  read32-be32 e.address _ h.address_fits,
  read32-be32 e.mask _ h.mask_fits,
)

extract_entries-marshal :
    (es : List RipUpdate) (rest : List ℕ)
    → All EntryInRange es
    → extract_entries (length es) (marshal_entries es ++ rest) ≡ some es
unfolding extract_entries marshal_entries
extract_entries-marshal [] rest h = refl
extract_entries-marshal (e ∷ es) rest h =
    rw (extract_entry-marshal e (marshal_entries es ++ rest) h.0)
      (rw (extract_entries-marshal es rest h.1))

-- `ExtractRIP` reads back the packet that `MarshalRIP` wrote, whatever lies behind the message, if
-- the count is that of the entries and all numbers fit their types.
pub extract_rip-marshal_rip :
    (p : RipPacket) (spare : List ℕ)
    → IsU16 p.command
    → IsU16 p.num_entries
    → p.num_entries ≡ length p.entries
    → All EntryInRange p.entries
    → extract_rip (marshal_rip p) spare ≡ some p
unfolding extract_rip marshal_rip
extract_rip-marshal_rip p spare hc hn he hes = rw (
  read16-be16 p.command (be16 p.num_entries ++ (marshal_entries p.entries ++ spare)) hc,
  read16-be16 p.num_entries (marshal_entries p.entries ++ spare) hn,
  he,
  extract_entries-marshal p.entries spare hes,
)

extract_entry_inv :
    (b : List ℕ) {e : RipUpdate} {rest : List ℕ}
    → All IsU8 b
    → extract_entry b ≡ some (e, rest)
    → EntryInRange e
      × (b ≡ be32 e.cost ++ (be32 e.address ++ (be32 e.mask ++ rest)))
      × All IsU8 rest
unfolding extract_entry
extract_entry_inv b hb h =
    let ((c, b₁), e₁, h₁) = >>=-eq-some (read32 b) _ h in
    let ((a, b₂), e₂, h₂) = >>=-eq-some (read32 b₁) _ h₁ in
    let ((m, b₃), e₃, h₃) = >>=-eq-some (read32 b₂) _ h₂ in
    let i₁ = read32_inv b hb e₁ in
    let i₂ = read32_inv b₁ i₁.2 e₂ in
    let i₃ = read32_inv b₂ i₂.2 e₃ in ground (arith, h₃, i₁, i₂, i₃)

extract_entries_inv :
    (n : ℕ) (b : List ℕ) {es : List RipUpdate}
    → All IsU8 b
    → extract_entries n b ≡ some es
    → (rest : List ℕ) × All EntryInRange es × (length es ≡ n) × (b ≡ marshal_entries es ++ rest)
unfolding extract_entries marshal_entries
extract_entries_inv zero b hb h = (b, ground arith, ground arith, ground arith)
extract_entries_inv (suc n) b hb h =
    let ((e, b₁), e₁, h₁) = >>=-eq-some (extract_entry b) _ h in
    let (es, e₂, h₂) = >>=-eq-some (extract_entries n b₁) _ h₁ in
    let i₁ = extract_entry_inv b hb e₁ in
    let i₂ = extract_entries_inv n b₁ i₁.2 e₂ in
    let p₁ = ap (λ t. be32 e.cost ++ (be32 e.address ++ (be32 e.mask ++ t))) i₂.3 in
    (i₂.0, ground (arith, h₂, i₁, i₂), ground (arith, h₂, i₂), ground (arith, h₂, i₁, p₁))

-- A message of bytes that `ExtractRIP` accepts holds exactly what `MarshalRIP` writes for the packet
-- returned, then bytes that are not read; the packet's count is that of its entries and its numbers
-- fit their types.
pub marshal_rip-extract_rip :
    (message spare : List ℕ) {p : RipPacket}
    → All IsU8 (message ++ spare)
    → extract_rip message spare ≡ some p
    → (rest : List ℕ) × (message ++ spare ≡ marshal_rip p ++ rest)
      × (p.num_entries ≡ length p.entries)
      × IsU16 p.command
      × All EntryInRange p.entries
unfolding extract_rip marshal_rip
marshal_rip-extract_rip message spare {p} hb h =
    let ((c, b₁), e₁, h₁) = >>=-eq-some (read16 (message ++ spare)) _ h in
    let ((n, b₂), e₂, h₂) = >>=-eq-some (read16 b₁) _ h₁ in
    let (es, e₃, h₃) = >>=-eq-some (extract_entries n b₂) _ h₂ in
    let i₁ = read16_inv (message ++ spare) hb e₁ in
    let i₂ = read16_inv b₁ i₁.2 e₂ in
    let i₃ = extract_entries_inv n b₂ i₂.2 e₃ in
    let q = ap (λ t. be16 c ++ (be16 n ++ t)) i₃.3 in
    (
      i₃.0,
      ground (arith, h₃, i₁, i₂, q),
      ground (arith, h₃, i₃),
      ground (arith, h₃, i₁),
      ground (arith, h₃, i₃),
    )
