-- ===== src/Pq/Order.antt =====
-- The order container/heap keeps: no item is less than its parent.
use ip_tcp.Base.{ℕ, zero, suc, ◌≤◌, ◌<◌, ◌≡◌, ◌∙◌, arith, length}
use mathlib.Core.List.{Perm}
use ip_tcp.Pq.{EarlyPriorityQueue}
use mathlib.Core.List.Perm
use ip_tcp.Pq.Queue.{priority_at, entry, swapped, length-swapped, entry-swapped, swapped-Perm}
use ip_tcp.Pq.Container.{parent}

-- Among the first `n` items.
abbrev pub IsHeapTo : ℕ → EarlyPriorityQueue → Type 0
IsHeapTo n q = (c : ℕ) → 0 < c → c < n → priority_at q (parent c) ≤ priority_at q c

abbrev pub IsHeap : EarlyPriorityQueue → Type 0
IsHeap q = IsHeapTo (length q) q

-- `b` holds the items of `a`, and those from `n` on have not moved.
pub record Kept (n : ℕ) (a b : EarlyPriorityQueue) : Type 0 where
  pub items : Perm b a
  pub size : length b ≡ length a
  pub behind : (k : ℕ) → n ≤ k → entry b k ≡ entry a k

-- So it does after a swap among them.
pub swapped-Kept :
    (q : EarlyPriorityQueue) (i j : ℕ) {n : ℕ} {b : EarlyPriorityQueue}
    → i < n
    → j < n
    → n ≤ length q
    → Kept n (swapped q i j) b
    → Kept n q b
swapped-Kept q i j hi hj hn k = record {
  items = Perm.trans k.items (swapped-Perm q i j (omega arith) (omega arith));
  size = k.size ∙ length-swapped q i j;
  behind = λ c l. k.behind c l ∙ ground (arith, entry-swapped q i j (omega arith) (omega arith) c);
}

least_under :
    (fuel n : ℕ) (q : EarlyPriorityQueue) (i : ℕ)
    → IsHeapTo n q
    → i < fuel
    → i < n
    → priority_at q 0 ≤ priority_at q i
least_under zero n q i h f p = absurd (omega arith)
least_under (suc k) n q i h f p = ground (arith, h i, least_under k n q (parent i) h)

-- The first item is a least one.
pub first_least :
    (q : EarlyPriorityQueue) (i : ℕ) → IsHeap q → i < length q → priority_at q 0 ≤ priority_at q i
first_least q i h p = least_under (suc i) (length q) q i h (omega arith) p
