-- ===== src/Base/Members.antt =====
-- The members of a list: what a permutation keeps of them, and where they stand.
use Prim.Native.Nat.{ℕ, zero, suc, ◌<◌}
use mathlib.Core.Path.{◌≡◌, refl, sym, ap, ◌∙◌}
use mathlib.Core.Logic.{∥∥₁_elim}
use mathlib.Core.List.{List, [], ◌∷◌, Memᴰ, Perm, Permᴰ}
use mathlib.Core.List.Perm
use native.Mathlib.Nat.{ℕ_set}
use native.Mathlib.Omega.{arith}
use ip_tcp.Base.Lists.{length, get_or}

module _ {ℓ} {A : Type ℓ} where
  pub every-Perm :
      (P : A → Type 0) {xs ys : List A}
      → ((a : A) → IsProp (P a))
      → Perm ys xs
      → ((a : A) → Memᴰ a xs → P a)
      → (a : A) → Memᴰ a ys
      → P a
  every-Perm P prop perm h a m = ∥∥₁_elim ((Perm.mem_iff perm).0 ∣ m ∣₁) (prop a) (h a)

  length-Permᴰ : {xs ys : List A} → Permᴰ xs ys → length xs ≡ length ys
  length-Permᴰ Permᴰ.nil = refl
  length-Permᴰ (Permᴰ.cons x p) = ap suc (length-Permᴰ p)
  length-Permᴰ (Permᴰ.swap x y) = refl
  length-Permᴰ (Permᴰ.trans p q) = length-Permᴰ p ∙ length-Permᴰ q

  pub length-Perm : {xs ys : List A} → Perm xs ys → length xs ≡ length ys
  length-Perm p = ∥∥₁_elim p (ℕ_set _ _) length-Permᴰ

  pub position :
      (xs : List A) (d a : A) → Memᴰ a xs → (i : ℕ) × (i < length xs) × (get_or xs i d ≡ a)
  position [] d a m = elim m [ ]
  position (x ∷ xs) d a (Memᴰ.head e) = (zero, omega arith, sym e)
  position (x ∷ xs) d a (Memᴰ.tail m) = let (i, p, e) = position xs d a m in (suc i, omega arith, e)

  pub get_or-member : (xs : List A) (d : A) (i : ℕ) → i < length xs → Memᴰ (get_or xs i d) xs
  get_or-member [] d i h = absurd (omega arith)
  get_or-member (x ∷ xs) d zero h = Memᴰ.head refl
  get_or-member (x ∷ xs) d (suc i) h = Memᴰ.tail (get_or-member xs d i (omega arith))
