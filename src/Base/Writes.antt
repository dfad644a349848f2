-- ===== src/Base/Writes.antt =====
-- Writing to a slice at an index, and outcomes with a postcondition.
use Prim.Native.Nat.{ℕ, zero, suc, ◌<◌}
use mathlib.Core.Path.{◌≡◌, refl, ap}
use mathlib.Core.Bool.{Bool, true, false}
use mathlib.Core.List.{List, [], ◌∷◌, ◌++◌, Perm}
use mathlib.Core.List.Perm
use mathlib.Core.Option.{Option, none, some}
use native.Mathlib.Omega.{arith}
use ip_tcp.Base.Tests.{◌==◌, if◌then◌else◌}
use ip_tcp.Base.Lists.{length, get_elem?, get_or, take}
use ip_tcp.Base.Slices.{◌>>=◌}

module _ {ℓ} {A : Type ℓ} where
  abbrev pub set : List A → ℕ → A → List A
  set [] i v = []
  set (x ∷ xs) zero v = v ∷ xs
  set (x ∷ xs) (suc i) v = x ∷ set xs i v

  pub length-set : (xs : List A) (i : ℕ) (v : A) → length (set xs i v) ≡ length xs
  length-set [] i v = refl
  length-set (x ∷ xs) zero v = refl
  length-set (x ∷ xs) (suc i) v = ap suc (length-set xs i v)

  pub get_elem?-inside :
      (xs : List A) (i : ℕ) (d : A) → i < length xs → get_elem? xs i ≡ some (get_or xs i d)
  get_elem?-inside [] i d h = absurd (omega arith)
  get_elem?-inside (x ∷ xs) zero d h = refl
  get_elem?-inside (x ∷ xs) (suc i) d h = get_elem?-inside xs i d (omega arith)

  pub get_or-set :
      (xs : List A) (i k : ℕ) (v d : A)
      → i < length xs
      → get_or (set xs i v) k d ≡ (if i == k then v else get_or xs k d)
  get_or-set [] i k v d h = absurd (omega arith)
  get_or-set (x ∷ xs) zero zero v d h = refl
  get_or-set (x ∷ xs) zero (suc k) v d h = ground arith
  get_or-set (x ∷ xs) (suc i) zero v d h = ground arith
  get_or-set (x ∷ xs) (suc i) (suc k) v d h = ground (arith, get_or-set xs i k v d)

  pub get_or-append :
      (xs ys : List A) (k : ℕ) (d : A) → k < length xs → get_or (xs ++ ys) k d ≡ get_or xs k d
  get_or-append [] ys k d h = absurd (omega arith)
  get_or-append (x ∷ xs) ys zero d h = refl
  get_or-append (x ∷ xs) ys (suc k) d h = get_or-append xs ys k d (omega arith)

  pub get_or-take : (n k : ℕ) (xs : List A) (d : A) → k < n → get_or (take n xs) k d ≡ get_or xs k d
  get_or-take zero k xs d h = absurd (omega arith)
  get_or-take (suc n) k [] d h = refl
  get_or-take (suc n) zero (x ∷ xs) d h = refl
  get_or-take (suc n) (suc k) (x ∷ xs) d h = get_or-take n k xs d (omega arith)

  -- A slice is all but its last entry, and the last entry.
  pub take-last :
      (n : ℕ) (xs : List A) (d : A) → length xs ≡ suc n → take n xs ++ get_or xs n d ∷ [] ≡ xs
  take-last n [] d h = absurd (omega arith)
  take-last zero (x ∷ []) d h = refl
  take-last zero (x ∷ y ∷ xs) d h = absurd (omega arith)
  take-last (suc n) (x ∷ xs) d h = ap (λ t. x ∷ t) (take-last n xs d (omega arith))

  -- The value that is written takes the place of the one that stood there.
  pub set-Perm :
      (xs : List A) (i : ℕ) (v d : A) → i < length xs → Perm (get_or xs i d ∷ set xs i v) (v ∷ xs)
  set-Perm [] i v d h = absurd (omega arith)
  set-Perm (x ∷ xs) zero v d h = Perm.swap v x xs
  set-Perm (x ∷ xs) (suc i) v d h =
      Perm.trans (Perm.swap x (get_or xs i d) (set xs i v))
        (Perm.trans (Perm.cons x (set-Perm xs i v d (omega arith))) (Perm.swap v x xs))

  abbrev pub Gives : (A → Type 0) → Option A → Type 0
  Gives P none = ⊥
  Gives P (some a) = P a

-- The rules for it.
module _ {ℓ} {A : Type ℓ} where
  pub Gives-if :
      (P : A → Type 0) (b : Bool) (x y : Option A)
      → (b ≡ true → Gives P x)
      → (b ≡ false → Gives P y)
      → Gives P (if b then x else y)
  Gives-if P true x y p q = p refl
  Gives-if P false x y p q = q refl

  pub Gives-map :
      (P : A → Type 0) (Q : A → Type 0) (o : Option A)
      → Gives P o
      → ((a : A) → P a → Q a)
      → Gives Q o
  Gives-map P Q none h k = absurd h
  Gives-map P Q (some a) h k = k a h

  pub Gives->>= {ι} :
      {B : Type ι} (P : A → Type 0) (Q : B → Type 0) (o : Option A) (f : A → Option B)
      → Gives P o
      → ((a : A) → P a → Gives Q (f a))
      → Gives Q (o >>= f)
  Gives->>= P Q none f h k = absurd h
  Gives->>= P Q (some a) f h k = k a h

  pub Gives-some : (P : A → Type 0) (o : Option A) → Gives P o → (a : A) × (o ≡ some a) × P a
  Gives-some P none h = absurd h
  Gives-some P (some a) h = (a, refl, h)
