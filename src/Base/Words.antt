-- ===== src/Base/Words.antt =====
-- Unsigned machine words, and their big-endian bytes (encoding/binary's BigEndian).
use Prim.Native.Nat.{ℕ, ◌+◌, ◌-◌, ◌*◌, ◌/◌, ◌%◌, ◌<◌}
use mathlib.Core.Path.{◌≡◌}
use mathlib.Core.List.{List, [], ◌∷◌}
use native.Mathlib.Omega.{arith}

abbrev pub u8 : ℕ → ℕ
u8 n = n % 256

abbrev pub u16 : ℕ → ℕ
u16 n = n % 65536

abbrev pub u32 : ℕ → ℕ
u32 n = n % 4294967296

abbrev pub IsU8 : ℕ → Type 0
IsU8 n = n < 256

abbrev pub IsU16 : ℕ → Type 0
IsU16 n = n < 65536

abbrev pub IsU32 : ℕ → Type 0
IsU32 n = n < 4294967296

-- uint32 addition and subtraction wrap.
abbrev pub add32 : ℕ → ℕ → ℕ
add32 a b = u32 (a + b)

abbrev pub sub32 : ℕ → ℕ → ℕ
sub32 a b = u32 (a + 4294967296 - b)

-- So does uint16 subtraction.
abbrev pub sub16 : ℕ → ℕ → ℕ
sub16 a b = u16 (a + 65536 - u16 b)

-- The bytes of `PutUint16` and `PutUint32`.
abbrev pub be16 : ℕ → List ℕ
be16 n = u8 (n / 256) ∷ u8 n ∷ []

abbrev pub be32 : ℕ → List ℕ
be32 n = u8 (n / 16777216) ∷ u8 (n / 65536) ∷ u8 (n / 256) ∷ u8 n ∷ []

-- `Uint16` and `Uint32`, on bytes.
abbrev pub of_be16 : ℕ → ℕ → ℕ
of_be16 a b = a * 256 + b

abbrev pub of_be32 : ℕ → ℕ → ℕ → ℕ → ℕ
of_be32 a b c d = a * 16777216 + b * 65536 + c * 256 + d

pub of_be16-be16 : (n : ℕ) → IsU16 n → of_be16 (u8 (n / 256)) (u8 n) ≡ n
of_be16-be16 n h = omega arith

pub of_be32-be32 :
    (n : ℕ) → IsU32 n → of_be32 (u8 (n / 16777216)) (u8 (n / 65536)) (u8 (n / 256)) (u8 n) ≡ n
of_be32-be32 n h = omega arith
