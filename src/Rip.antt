-- ===== src/Rip.antt =====
-- RIP messages (pkg/rip/rip.go): the structs, `MarshalRIP` and `ExtractRIP`.
pub mod RoundTrip
pub mod Lengths
mod Tests
use ip_tcp.Base.{ℕ, zero, suc, List, [], ◌∷◌, ◌++◌, Option, none, some, be16, be32}
use ip_tcp.Base.Slices.{◌>>=◌, read16, read32}

pub record RipUpdate : Type 0 where
  pub cost : ℕ  -- uint32
  pub address : ℕ  -- uint32
  pub mask : ℕ  -- uint32

pub record RipPacket : Type 0 where
  pub command : ℕ  -- uint16
  pub num_entries : ℕ  -- uint16
  pub entries : List RipUpdate

marshal_entries : List RipUpdate → List ℕ
marshal_entries [] = []
marshal_entries (e ∷ es) = be32 e.cost ++ (be32 e.address ++ (be32 e.mask ++ marshal_entries es))

-- `binary.Write` of a fixed-size number into a `bytes.Buffer` returns no error, so neither does
-- this.
unfoldable pub marshal_rip : RipPacket → List ℕ
unfolding marshal_entries
marshal_rip p = be16 p.command ++ (be16 p.num_entries ++ marshal_entries p.entries)

pub extract_entry : List ℕ → Option (RipUpdate × List ℕ)
extract_entry b = do
  (cost, b₁) ← read32 b
  (address, b₂) ← read32 b₁
  (mask, b₃) ← read32 b₂
  some (record { cost = cost; address = address; mask = mask }, b₃)

-- The loop over `i < num_entries`: the list is what lies from `iter` on.
extract_entries : ℕ → List ℕ → Option (List RipUpdate)
extract_entries zero b = some []
extract_entries (suc n) b = do
  (e, rest) ← extract_entry b
  es ← extract_entries n rest
  some (e ∷ es)

-- Go slices `message[i:j]` up to the capacity of `message`, not its length: `spare` is what the
-- backing array holds behind the message. `none` is the panic past the capacity.
unfoldable pub extract_rip : List ℕ → List ℕ → Option RipPacket
unfolding extract_entries extract_entry
extract_rip message spare = do
  (command, b₁) ← read16 (message ++ spare)
  (num_entries, b₂) ← read16 b₁
  es ← extract_entries num_entries b₂
  some (record { command = command; num_entries = num_entries; entries = es })
