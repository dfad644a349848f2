-- ===== src/Base/Table.antt =====
-- Go maps as association lists. A key that is written takes its old place, or the end; an iteration
-- goes over the list, so a statement about every list is one about every order of iteration.
use Prim.Native.Nat.{ℕ}
use mathlib.Core.Path.{◌≡◌, refl, sym, ap, ◌∙◌}
use mathlib.Core.Logic.{◌↔◌, ◌≢◌, ◌⊎◌, inl, inr}
use mathlib.Core.Bool.{Bool, true, false}
use mathlib.Core.Option.{Option, none, some}
use mathlib.Core.List.{List, [], ◌∷◌}
use native.Mathlib.Omega.{arith}
use ip_tcp.Base.Tests.{if◌then◌else◌, Bool-cases, differ, some_inj, ◌==◌ as nat_beq, ==_iff}

-- Go's `==` on a comparable type.
pub record Eq (A : Type 0) : Type 0 where
  pub beq : A → A → Bool
  pub beq_iff : (a b : A) → (beq a b ≡ true) ↔ (a ≡ b)

infix 50 ◌=?◌
abbrev pub ◌=?◌ : {A : Type 0} ⦃e : Eq A⦄ → A → A → Bool
◌=?◌ ⦃e⦄ = e.beq

instance abbrev pub nat_eq : Eq ℕ
nat_eq = record { beq = nat_beq; beq_iff = ==_iff }

module _ {K : Type 0} ⦃e : Eq K⦄ where
  pub beq_refl : (k : K) → e.beq k k ≡ true
  beq_refl k = (e.beq_iff k k).1 refl

  pub beq_false : (j k : K) → j ≢ k → e.beq j k ≡ false
  beq_false j k h = elim (Bool-cases (e.beq j k)) [
    | inl t ↦ absurd (h ((e.beq_iff j k).0 t))
    | inr f ↦ f
  ]

module _ {K V : Type 0} ⦃e : Eq K⦄ where
  unfoldable pub lookup : K → List (K × V) → Option V
  lookup k [] = none
  lookup k ((j, v) ∷ m) = if e.beq j k then some v else lookup k m

  unfoldable pub insert : K → V → List (K × V) → List (K × V)
  insert k v [] = (k, v) ∷ []
  insert k v ((j, w) ∷ m) = if e.beq j k then (j, v) ∷ m else (j, w) ∷ insert k v m

  unfoldable pub delete : K → List (K × V) → List (K × V)
  delete k [] = []
  delete k ((j, w) ∷ m) = if e.beq j k then delete k m else (j, w) ∷ delete k m

  pub lookup-insert_self : (k : K) (v : V) (m : List (K × V)) → lookup k (insert k v m) ≡ some v
  unfolding lookup insert
  lookup-insert_self k v [] = ground (arith, beq_refl k)
  lookup-insert_self k v ((j, w) ∷ m) = ground (arith, lookup-insert_self k v m)

  pub lookup-insert_ne :
      (k j : K) (v : V) (m : List (K × V)) → k ≢ j → lookup j (insert k v m) ≡ lookup j m
  unfolding lookup insert
  lookup-insert_ne k j v [] h = ground (arith, beq_false k j h)
  lookup-insert_ne k j v ((i, w) ∷ m) h =
      ground (arith, lookup-insert_ne k j v m h, e.beq_iff i k, e.beq_iff i j)

  pub lookup-delete_self : (k : K) (m : List (K × V)) → lookup k (delete k m) ≡ none
  unfolding lookup delete
  lookup-delete_self k [] = refl
  lookup-delete_self k ((j, w) ∷ m) = ground (arith, lookup-delete_self k m)

  pub lookup-delete_ne : (k j : K) (m : List (K × V)) → k ≢ j → lookup j (delete k m) ≡ lookup j m
  unfolding lookup delete
  lookup-delete_ne k j [] h = refl
  lookup-delete_ne k j ((i, w) ∷ m) h =
      ground (arith, lookup-delete_ne k j m h, e.beq_iff i k, e.beq_iff i j)

  -- An entry found after an insertion is the new one or one that was there.
  pub lookup-insert_cases :
      (k j : K) (v : V) (m : List (K × V)) {w : V}
      → lookup j (insert k v m) ≡ some w
      → ((k ≡ j) × (v ≡ w)) ⊎ ((k ≢ j) × (lookup j m ≡ some w))
  lookup-insert_cases k j v m h = elim (Bool-cases (e.beq k j)) [
    | inl t ↦
        let same = (e.beq_iff k j).0 t in
        inl (
          same,
          some_inj (sym (lookup-insert_self k v m) ∙ ap (λ i. lookup i (insert k v m)) same ∙ h),
        )
    | inr f ↦
        let ne = λ (s : k ≡ j). differ ((e.beq_iff k j).1 s) f in
        inr (ne, sym (lookup-insert_ne k j v m ne) ∙ h)
  ]

  -- An entry found after a deletion was there, under another key.
  pub lookup-delete-some :
      (k j : K) (m : List (K × V)) {w : V}
      → lookup j (delete k m) ≡ some w
      → (k ≢ j) × (lookup j m ≡ some w)
  lookup-delete-some k j m h = elim (Bool-cases (e.beq k j)) [
    | inl t ↦ absurd (
        none_some (
          sym (lookup-delete_self k m) ∙ ap (λ i. lookup i (delete k m)) ((e.beq_iff k j).0 t) ∙ h))
    | inr f ↦
        let ne = λ (s : k ≡ j). differ ((e.beq_iff k j).1 s) f in
        (ne, sym (lookup-delete_ne k j m ne) ∙ h)
  ]
    where
      none_some : {w : V} → none ≡ some w → ⊥
      none_some h = cc
