-- ===== src/Base/Slices.antt =====
-- Reading from the front of a byte slice: `b[i:i+2]` and `b[i:i+4]` on what is left from `i` on.
-- `none` is the panic of a slice that does not reach.
use Prim.Native.Nat.{ℕ, ◌+◌, ◌≤◌}
use mathlib.Core.Path.{◌≡◌, refl}
use mathlib.Core.List.{List, [], ◌∷◌, ◌++◌}
use mathlib.Core.Option.{Option, none, some}
use native.Mathlib.Omega.{arith}
use ip_tcp.Base.Lists.{length, All}
use ip_tcp.Base.Words.{of_be16, of_be32, be16, be32, IsU8, IsU16, IsU32, of_be16-be16, of_be32-be32}

infixl 5 ◌>>=◌
abbrev pub ◌>>=◌ {ℓ κ} : {A : Type ℓ} {B : Type κ} → Option A → (A → Option B) → Option B
none >>= f = none
some a >>= f = f a

-- A chain that succeeds has a first step that does.
pub >>=-eq-some {ℓ κ} :
    {A : Type ℓ} {B : Type κ} (m : Option A) (f : A → Option B) {b : B}
    → (m >>= f) ≡ some b
    → (a : A) × (m ≡ some a) × (f a ≡ some b)
>>=-eq-some none f h = cc
>>=-eq-some (some a) f h = (a, refl, h)

unfoldable pub read16 : List ℕ → Option (ℕ × List ℕ)
read16 (a ∷ b ∷ rest) = some (of_be16 a b, rest)
read16 _ = none

unfoldable pub read32 : List ℕ → Option (ℕ × List ℕ)
read32 (a ∷ b ∷ c ∷ d ∷ rest) = some (of_be32 a b c d, rest)
read32 _ = none

pub read16-be16 : (n : ℕ) (rest : List ℕ) → IsU16 n → read16 (be16 n ++ rest) ≡ some (n, rest)
unfolding read16
read16-be16 n rest h = ground (arith, of_be16-be16 n h)

pub read32-be32 : (n : ℕ) (rest : List ℕ) → IsU32 n → read32 (be32 n ++ rest) ≡ some (n, rest)
unfolding read32
read32-be32 n rest h = ground (arith, of_be32-be32 n h)

-- A read that succeeds took exactly the bytes that encode its value.
pub read16_inv :
    (b : List ℕ) {n : ℕ} {rest : List ℕ}
    → All IsU8 b
    → read16 b ≡ some (n, rest)
    → IsU16 n × (b ≡ be16 n ++ rest) × All IsU8 rest
unfolding read16
read16_inv [] h e = ground arith
read16_inv (a ∷ []) h e = ground arith
read16_inv (a ∷ b ∷ r) h e = ground arith

pub read32_inv :
    (b : List ℕ) {n : ℕ} {rest : List ℕ}
    → All IsU8 b
    → read32 b ≡ some (n, rest)
    → IsU32 n × (b ≡ be32 n ++ rest) × All IsU8 rest
unfolding read32
read32_inv [] h e = ground arith
read32_inv (a ∷ []) h e = ground arith
read32_inv (a ∷ b ∷ []) h e = ground arith
read32_inv (a ∷ b ∷ c ∷ []) h e = ground arith
read32_inv (a ∷ b ∷ c ∷ d ∷ r) h e = ground arith

-- A read fails exactly on a slice that is too short, and otherwise shortens it by its width.
pub read16_ok :
    (b : List ℕ)
    → 2 ≤ length b
    → (n : ℕ) × (rest : List ℕ) × (read16 b ≡ some (n, rest)) × (length b ≡ 2 + length rest)
unfolding read16
read16_ok [] h = absurd (omega arith)
read16_ok (a ∷ []) h = absurd (omega arith)
read16_ok (a ∷ b ∷ r) h = (_, r, refl, omega arith)

pub read32_ok :
    (b : List ℕ)
    → 4 ≤ length b
    → (n : ℕ) × (rest : List ℕ) × (read32 b ≡ some (n, rest)) × (length b ≡ 4 + length rest)
unfolding read32
read32_ok [] h = absurd (omega arith)
read32_ok (a ∷ []) h = absurd (omega arith)
read32_ok (a ∷ b ∷ []) h = absurd (omega arith)
read32_ok (a ∷ b ∷ c ∷ []) h = absurd (omega arith)
read32_ok (a ∷ b ∷ c ∷ d ∷ r) h = (_, r, refl, omega arith)

pub length_of_read16 :
    (b : List ℕ) {n : ℕ} {rest : List ℕ} → read16 b ≡ some (n, rest) → length b ≡ 2 + length rest
unfolding read16
length_of_read16 [] e = ground arith
length_of_read16 (a ∷ []) e = ground arith
length_of_read16 (a ∷ b ∷ r) e = ground arith

pub length_of_read32 :
    (b : List ℕ) {n : ℕ} {rest : List ℕ} → read32 b ≡ some (n, rest) → length b ≡ 4 + length rest
unfolding read32
length_of_read32 [] e = ground arith
length_of_read32 (a ∷ []) e = ground arith
length_of_read32 (a ∷ b ∷ []) e = ground arith
length_of_read32 (a ∷ b ∷ c ∷ []) e = ground arith
length_of_read32 (a ∷ b ∷ c ∷ d ∷ r) e = ground arith
