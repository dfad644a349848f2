-- ===== src/Rip/Lengths.antt =====
-- How long a RIP message is, and which messages `ExtractRIP` gets through.
use ip_tcp.Base.{
  ℕ, zero, suc, ◌+◌, ◌*◌, ◌≤◌, ◌≡◌, ◌↔◌, refl, List, [], ◌∷◌, ◌++◌, some, arith, length, replicate,
  All, IsU16, be16,
}
use ip_tcp.Base.Slices.{◌>>=◌, >>=-eq-some, read32, read32_ok, read16-be16, length_of_read32}
use ip_tcp.Rip.{
  RipUpdate, RipPacket, marshal_entries, marshal_rip, extract_entry, extract_entries, extract_rip,
}
use ip_tcp.Rip.RoundTrip.{EntryInRange, extract_entry-marshal}

length-marshal_entries : (es : List RipUpdate) → length (marshal_entries es) ≡ 12 * length es
unfolding marshal_entries
length-marshal_entries [] = refl
length-marshal_entries (e ∷ es) = omega (arith, length-marshal_entries es)

-- A RIP message takes four bytes and twelve for each entry.
pub length-marshal_rip : (p : RipPacket) → length (marshal_rip p) ≡ 4 + 12 * length p.entries
unfolding marshal_rip
length-marshal_rip p = omega (arith, length-marshal_entries p.entries)

extract_entry_ok :
    (b : List ℕ)
    → 12 ≤ length b
    → (e : RipUpdate) × (rest : List ℕ) × (extract_entry b ≡ some (e, rest))
      × (length b ≡ 12 + length rest)
unfolding extract_entry
extract_entry_ok b h =
    let (c, b₁, e₁, l₁) = read32_ok b (omega arith) in
    let (a, b₂, e₂, l₂) = read32_ok b₁ (omega arith) in
    let (m, b₃, e₃, l₃) = read32_ok b₂ (omega arith) in
    (record { cost = c; address = a; mask = m }, b₃, rw (e₁, e₂, e₃), omega arith)

extract_entries_ok :
    (n : ℕ) (b : List ℕ)
    → 12 * n ≤ length b
    → (es : List RipUpdate) × (extract_entries n b ≡ some es)
unfolding extract_entries
extract_entries_ok zero b h = ([], refl)
extract_entries_ok (suc n) b h =
    let (e, rest, p, l) = extract_entry_ok b (omega arith) in
    let (es, q) = extract_entries_ok n rest (omega arith) in (e ∷ es, rw (p, q))

length_of_extract_entry :
    (b : List ℕ) {e : RipUpdate} {rest : List ℕ}
    → extract_entry b ≡ some (e, rest)
    → length b ≡ 12 + length rest
unfolding extract_entry
length_of_extract_entry b h =
    let ((c, b₁), e₁, h₁) = >>=-eq-some (read32 b) _ h in
    let ((a, b₂), e₂, h₂) = >>=-eq-some (read32 b₁) _ h₁ in
    let ((m, b₃), e₃, h₃) = >>=-eq-some (read32 b₂) _ h₂ in
    ground (arith, h₃, length_of_read32 b e₁, length_of_read32 b₁ e₂, length_of_read32 b₂ e₃)

length_of_extract_entries :
    (n : ℕ) (b : List ℕ) {es : List RipUpdate} → extract_entries n b ≡ some es → 12 * n ≤ length b
unfolding extract_entries
length_of_extract_entries zero b h = omega arith
length_of_extract_entries (suc n) b h =
    let ((e, b₁), e₁, h₁) = >>=-eq-some (extract_entry b) _ h in
    let (es, e₂, h₂) = >>=-eq-some (extract_entries n b₁) _ h₁ in
    omega (arith, length_of_extract_entry b e₁, length_of_extract_entries n b₁ e₂)

-- After a command and a count `n`, `ExtractRIP` returns a packet exactly when `n` entries of twelve
-- bytes lie within the capacity of the slice; on any shorter one it panics.
pub extract_rip_ok_iff :
    (c n : ℕ) (body spare : List ℕ)
    → IsU16 c
    → IsU16 n
    → ((p : RipPacket) × (extract_rip (be16 c ++ (be16 n ++ body)) spare ≡ some p))
      ↔ (12 * n ≤ length (body ++ spare))
unfolding extract_rip
extract_rip_ok_iff c n body spare hc hn =
    rw (read16-be16 c (be16 n ++ (body ++ spare)) hc, read16-be16 n (body ++ spare) hn) (fits, runs)
  where
    fits :
        ((p : RipPacket) × ((extract_entries n (body ++ spare) >>= λ es.
        some (record { command = c; num_entries = n; entries = es }))
            ≡ some p))
        → 12 * n ≤ length (body ++ spare)
    fits (p, h) =
        let (es, e, _) = >>=-eq-some (extract_entries n (body ++ spare)) _ h in
        length_of_extract_entries n (body ++ spare) e

    runs :
        12 * n ≤ length (body ++ spare)
        → (p : RipPacket) × ((extract_entries n (body ++ spare) >>= λ es.
              some (record { command = c; num_entries = n; entries = es }))
            ≡ some p)
    runs h =
        let (es, e) = extract_entries_ok n (body ++ spare) h in
        (record { command = c; num_entries = n; entries = es }, rw e)

abbrev pub zero_update : RipUpdate
zero_update = record { cost = 0; address = 0; mask = 0 }

extract_entries_past_end :
    (es : List RipUpdate) (more : List ℕ)
    → All EntryInRange es
    → extract_entries (suc (length es)) (marshal_entries es ++ (replicate 12 0 ++ more))
      ≡ some (es ++ zero_update ∷ [])
unfolding extract_entries marshal_entries
extract_entries_past_end [] more h = rw (extract_entry-marshal zero_update more (omega arith))
extract_entries_past_end (e ∷ es) more h = rw (
  extract_entry-marshal e (marshal_entries es ++ (replicate 12 0 ++ more)) h.0,
  extract_entries_past_end es more h.1,
)

-- A message whose count names one entry more than it carries is accepted when the backing array
-- holds twelve zero bytes behind it: the packet has an extra entry with cost, address and mask 0.
pub extract_rip_past_end :
    (p : RipPacket) (more : List ℕ)
    → IsU16 p.command
    → IsU16 p.num_entries
    → p.num_entries ≡ suc (length p.entries)
    → All EntryInRange p.entries
    → extract_rip (marshal_rip p) (replicate 12 0 ++ more)
      ≡ some (record p { entries = p.entries ++ zero_update ∷ [] })
unfolding extract_rip marshal_rip
extract_rip_past_end p more hc hn he hes = rw (
  read16-be16 p.command
      (be16 p.num_entries ++ (marshal_entries p.entries ++ (replicate 12 0 ++ more))) hc,
  read16-be16 p.num_entries (marshal_entries p.entries ++ (replicate 12 0 ++ more)) hn,
  he,
  extract_entries_past_end p.entries more hes,
)
