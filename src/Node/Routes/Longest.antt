-- ===== src/Node/Routes/Longest.antt =====
-- Both loops find a longest matching prefix.
use ip_tcp.Base.{
  ◌≤◌, ◌≡◌, ◌⊎◌, inl, inr, refl, sym, ap, subst, some_inj, ltb→lt, not_ltb→le, true, false, ◌&&◌,
  List, [], ◌∷◌, Option, none, some, arith, All, ltb, if◌then◌else◌,
}
use mathlib.Core.List.{Memᴰ}
use ip_tcp.Netip.{Addr, Prefix, contains}
use ip_tcp.Node.Routes.{longest}

module _ {K A : Type 0} (pre : A → Prefix) (dst : Addr) where
  -- What a search ends in: nothing when no entry matches, else an entry that matches, no shorter
  -- than any other one that does.
  abbrev pub IsLongest : List (K × A) → Option A → Type 0
  IsLongest m none = All (λ (e : K × A). contains (pre e.1) dst ≡ false) m
  IsLongest m (some x) =
      (contains (pre x) dst ≡ true)
      × ((k : K) × Memᴰ (k, x) m)
      × All (λ (e : K × A). contains (pre e.1) dst ≡ true → (pre e.1).bits ≤ (pre x).bits) m

  -- The same for a search that starts with `best`.
  abbrev Extends : Option A → List (K × A) → Option A → Type 0
  Extends best m none = (best ≡ none) × All (λ (e : K × A). contains (pre e.1) dst ≡ false) m
  Extends best m (some x) =
      ((best ≡ some x) ⊎ ((contains (pre x) dst ≡ true) × ((k : K) × Memᴰ (k, x) m)))
      × All (λ (e : K × A). contains (pre e.1) dst ≡ true → (pre e.1).bits ≤ (pre x).bits) m
      × ((b : A) → best ≡ some b → (pre b).bits ≤ (pre x).bits)

  -- An entry found in the rest of a list is found in the list.
  found_later :
      (best : Option A) (x : A) (k : K) (y : A) (m : List (K × A))
      → (best ≡ some x) ⊎ ((contains (pre x) dst ≡ true) × ((j : K) × Memᴰ (j, x) m))
      → (best ≡ some x) ⊎ ((contains (pre x) dst ≡ true) × ((j : K) × Memᴰ (j, x) ((k, y) ∷ m)))
  found_later best x k y m (inl e) = inl e
  found_later best x k y m (inr (t, (j, mem))) = inr (t, (j, Memᴰ.tail mem))

  skip :
      (best : Option A) (k : K) (y : A) (m : List (K × A)) (r : Option A)
      → contains (pre y) dst ≡ false
      → Extends best m r
      → Extends best ((k, y) ∷ m) r
  skip best k y m none c (e, a) = (e, (c, a))
  skip best k y m (some x) c (from, a, b) =
      (found_later best x k y m from, ((λ t. absurd (cc)), a), b)

  keep :
      (b : A) (k : K) (y : A) (m : List (K × A)) (r : Option A)
      → (pre y).bits ≤ (pre b).bits
      → Extends (some b) m r
      → Extends (some b) ((k, y) ∷ m) r
  keep b k y m none h (e, a) = absurd (cc)
  keep b k y m (some x) h (from, a, f) =
      (found_later (some b) x k y m from, ((λ t. omega (arith, f b refl)), a), f)

  replace :
      (best : Option A) (k : K) (y : A) (m : List (K × A)) (r : Option A)
      → contains (pre y) dst ≡ true
      → ((b : A) → best ≡ some b → (pre b).bits ≤ (pre y).bits)
      → Extends (some y) m r
      → Extends best ((k, y) ∷ m) r
  replace best k y m none c h (e, a) = absurd (cc)
  replace best k y m (some x) c h (from, a, f) =
      (in_list from, ((λ t. f y refl), a), λ b e. omega (arith, f y refl, h b e))
    where
      in_list :
          (some y ≡ some x) ⊎ ((contains (pre x) dst ≡ true) × ((j : K) × Memᴰ (j, x) m))
          → (best ≡ some x) ⊎ ((contains (pre x) dst ≡ true) × ((j : K) × Memᴰ (j, x) ((k, y) ∷ m)))
      in_list (inl e) = inr (
        subst (λ z. contains (pre z) dst ≡ true) (some_inj e) c,
        (k, Memᴰ.head (ap (λ z. (k, z)) (sym (some_inj e)))),
      )
      in_list (inr (t, (j, mem))) = inr (t, (j, Memᴰ.tail mem))

  longest-Extends : (best : Option A) (m : List (K × A)) → Extends best m (longest pre dst best m)
  unfolding longest
  longest-Extends none [] = (refl, tt)
  longest-Extends (some b) [] =
      (inl refl, tt, λ c e. omega (arith, ap (λ z. (pre z).bits) (some_inj e)))
  longest-Extends none ((k, y) ∷ m) =
      elim (contains (pre y) dst)
          as (λ c.
            contains (pre y) dst ≡ c
            → Extends none ((k, y) ∷ m) (longest pre dst (if c && true then some y else none) m)) [
              | false ↦ λ f. skip none k y m _ f (longest-Extends none m)
              | true ↦ λ t. replace none k y m _ t (λ b e. absurd cc) (longest-Extends (some y) m)
            ]
        refl
  longest-Extends (some b) ((k, y) ∷ m) =
      elim (contains (pre y) dst)
          as (λ c.
            contains (pre y) dst ≡ c
            → Extends (some b) ((k, y) ∷ m) (
                longest pre dst (if c && ltb (pre b).bits (pre y).bits then some y else some b)
                  m)) [
                    | false ↦ λ f. skip (some b) k y m _ f (longest-Extends (some b) m)
                    | true ↦ λ t.
                        elim (ltb (pre b).bits (pre y).bits)
                            as (λ c.
                              ltb (pre b).bits (pre y).bits ≡ c
                              → Extends (some b) ((k, y) ∷ m)
                                  (longest pre dst (if c then some y else some b) m)) [
                                    | true ↦ λ l.
                                        replace (some b) k y m _ t
                                          (λ z e. omega (
                                            arith,
                                            ltb→lt _ _ l,
                                            ap (λ z. (pre z).bits) (some_inj e),
                                          ))
                                          (longest-Extends (some y) m)
                                    | false ↦ λ l.
                                        keep b k y m _ (not_ltb→le _ _ l)
                                          (longest-Extends (some b) m)
                                  ]
                          refl
                  ]
        refl

  pub longest-IsLongest : (m : List (K × A)) → IsLongest m (longest pre dst none m)
  longest-IsLongest m =
      elim (longest pre dst none m) as (λ r. Extends none m r → IsLongest m r) [
        | none ↦ λ (e, a). a
        | some x ↦ λ (from, a, f). found from a
      ]
        (longest-Extends none m)
    where
      found :
          {x : A}
          → (none ≡ some x) ⊎ ((contains (pre x) dst ≡ true) × ((j : K) × Memᴰ (j, x) m))
          → All (λ (e : K × A). contains (pre e.1) dst ≡ true → (pre e.1).bits ≤ (pre x).bits) m
          → IsLongest m (some x)
      found (inl e) a = absurd cc
      found (inr (t, mem)) a = (t, mem, a)
