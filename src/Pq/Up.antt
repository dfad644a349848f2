-- ===== src/Pq/Up.antt =====
-- `up`: one item may be less than its parent, and rises to its place.
use ip_tcp.Base.{ℕ, zero, suc, ◌≤◌, ◌<◌, ◌≡◌, ◌≢◌, refl, subst, arith, length, ltb, ◌==◌}
use ip_tcp.Base.Writes.{Gives, Gives-if, Gives-map}
use mathlib.Core.List.Perm
use ip_tcp.Pq.{EarlyPriorityQueue}
use ip_tcp.Pq.Queue.{priority_at, swapped, length-swapped, less-inside, swap-inside, entry-swapped}
use ip_tcp.Pq.Container.{parent, up}
use ip_tcp.Pq.Order.{IsHeap, Kept, swapped-Kept}

pub record IsHeapBut (q : EarlyPriorityQueue) (j : ℕ) : Type 0 where
  pub edges : (c : ℕ) → 0 < c → c < length q → c ≢ j → priority_at q (parent c) ≤ priority_at q c
  pub across :
      (c : ℕ)
      → 0 < c
      → c < length q
      → parent c ≡ j
      → 0 < j
      → priority_at q (parent j) ≤ priority_at q c

rise-IsHeapBut :
    (q : EarlyPriorityQueue) (j : ℕ)
    → j < length q
    → 0 < j
    → priority_at q j < priority_at q (parent j)
    → IsHeapBut q j
    → IsHeapBut (swapped q (parent j) j) (parent j)
rise-IsHeapBut q j hj pos below v =
    let at = entry-swapped q (parent j) j (omega arith) hj in
    let size = length-swapped q (parent j) j in
    record {
      edges = λ c p l ne.
          ground (arith, at c, at (parent c), v.edges c, v.across c, v.edges (parent j));
      across =
          λ c p l e r. ground (arith, at c, at (parent (parent j)), v.edges c, v.edges (parent j));
    }

-- The result `b` holds the same items, and is a heap if the item at `j` was all that kept the slice
-- from being one.
abbrev pub Raised : EarlyPriorityQueue → ℕ → EarlyPriorityQueue → Type 0
Raised q j b = Kept (length q) q b × (IsHeapBut q j → IsHeap b)

-- `up` ends on fuel that exceeds its index.
pub up_restores :
    (fuel : ℕ) (q : EarlyPriorityQueue) (j : ℕ)
    → j < fuel
    → j < length q
    → Gives (Raised q j) (up fuel q j)
unfolding up
up_restores zero q j f hj = absurd (omega arith)
up_restores (suc k) q j f hj =
    let hi : parent j < length q = omega arith in
    Gives-if _ (parent j == j) _ _ (λ root. (same, λ v c p l. v.edges c p l (ground arith)))
      (λ inner.
        rw (less-inside q j (parent j) hj hi, swap-inside q (parent j) j hi hj)
          (Gives-if _ (ltb (priority_at q j) (priority_at q (parent j))) _ _
            (λ below.
              Gives-map (Raised (swapped q (parent j) j) (parent j)) (Raised q j) _
                (up_restores k (swapped q (parent j) j) (parent j) (ground arith)
                  (omega (arith, length-swapped q (parent j) j)))
                (λ b h. (
                  swapped-Kept q (parent j) j hi hj (omega arith) (
                      subst (λ n. Kept n (swapped q (parent j) j) b) (length-swapped q (parent j) j)
                        h.0),
                  λ v. h.1 (rise-IsHeapBut q j hj (ground arith) (ground arith) v),
                )))
            (λ settled. (same, λ v c p l. ground (arith, v.edges c)))))
  where
    same : Kept (length q) q q
    same = record { items = Perm.rfl; size = refl; behind = λ c l. refl }
