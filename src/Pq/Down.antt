-- ===== src/Pq/Down.antt =====
-- `down`: one item may be greater than its children, and sinks to its place among the first `n`.
use ip_tcp.Base.{ℕ, zero, suc, ◌+◌, ◌-◌, ◌*◌, ◌≤◌, ◌<◌, ◌≡◌, ◌≢◌, ◌⊎◌, refl, arith, length, ltb}
use ip_tcp.Base.Writes.{Gives, Gives-if, Gives-map, Gives->>=}
use mathlib.Core.List.Perm
use ip_tcp.Pq.{EarlyPriorityQueue}
use ip_tcp.Pq.Queue.{priority_at, swapped, length-swapped, less-inside, swap-inside, entry-swapped}
use ip_tcp.Pq.Container.{parent, child, down}
use ip_tcp.Pq.Order.{IsHeapTo, Kept, swapped-Kept}

pub record IsHeapUnder (n : ℕ) (q : EarlyPriorityQueue) (i : ℕ) : Type 0 where
  pub edges : (c : ℕ) → 0 < c → c < n → parent c ≢ i → priority_at q (parent c) ≤ priority_at q c
  pub across :
      (c : ℕ) → 0 < c → c < n → parent c ≡ i → 0 < i → priority_at q (parent i) ≤ priority_at q c

-- `m` is a child of `i` before `n`, and no child is less.
record IsLeast (n : ℕ) (q : EarlyPriorityQueue) (i m : ℕ) : Type 0 where
  before : m < n
  below : (m ≡ 2 * i + 1) ⊎ (m ≡ 2 * i + 2)
  least : (c : ℕ) → 0 < c → c < n → parent c ≡ i → priority_at q m ≤ priority_at q c

child-IsLeast :
    (n : ℕ) (q : EarlyPriorityQueue) (i : ℕ)
    → 2 * i + 1 < n
    → n ≤ length q
    → Gives (IsLeast n q i) (child q i n)
unfolding child
child-IsLeast n q i h l = grind (arith, less-inside q (2 * i + 1 + 1) (2 * i + 1))

sink-IsHeapUnder :
    (n : ℕ) (q : EarlyPriorityQueue) (i m : ℕ)
    → n ≤ length q
    → IsLeast n q i m
    → priority_at q m < priority_at q i
    → IsHeapUnder n q i
    → IsHeapUnder n (swapped q i m) m
sink-IsHeapUnder n q i m l s below v =
    let at = entry-swapped q i m (omega (arith, s.before, s.below)) (omega (arith, s.before)) in
    record {
      edges =
          λ c p r t. ground (arith, at c, at (parent c), v.edges c, v.across m, s.least c, s.below);
      across = λ c p r t u. ground (arith, at c, at (parent m), v.edges c, s.below);
    }

-- The result `b` holds the same items, those from `n` on in place, and its first `n` are a heap if
-- only the item at `i` kept them from being one.
abbrev pub Sunk : ℕ → EarlyPriorityQueue → ℕ → EarlyPriorityQueue → Type 0
Sunk n q i b = Kept n q b × (IsHeapUnder n q i → IsHeapTo n b)

-- `down` ends on fuel that exceeds the distance from its index to `n`.
pub down_restores :
    (fuel n : ℕ) (q : EarlyPriorityQueue) (i : ℕ)
    → n - i < fuel
    → n ≤ length q
    → Gives (Sunk n q i) (down fuel q i n)
unfolding down
down_restores zero n q i f l = absurd (omega arith)
down_restores (suc k) n q i f l =
    Gives-if _ (ltb (2 * i + 1) n) _ _
      (λ inner.
        Gives->>= (IsLeast n q i) (Sunk n q i) (child q i n) _
          (child-IsLeast n q i (ground arith) l)
          (λ m s.
            let hi : i < length q = omega (arith, s.before, s.below) in
            let hm : m < length q = omega (arith, s.before) in
            rw (less-inside q m i hm hi, swap-inside q i m hi hm)
              (Gives-if _ (ltb (priority_at q m) (priority_at q i)) _ _
                (λ below.
                  Gives-map (Sunk n (swapped q i m) m) (Sunk n q i) _
                    (down_restores k n (swapped q i m) m (omega (arith, s.below))
                      (omega (arith, length-swapped q i m)))
                    (λ b h. (
                      swapped-Kept q i m (omega (arith, s.before, s.below)) s.before l h.0,
                      λ v. h.1 (sink-IsHeapUnder n q i m l s (ground arith) v),
                    )))
                (λ settled. (same, λ v c p r. ground (arith, v.edges c, s.least c))))))
      (λ leaf. (same, λ v c p r. ground (arith, v.edges c)))
  where
    same : Kept n q q
    same = record { items = Perm.rfl; size = refl; behind = λ c l. refl }
