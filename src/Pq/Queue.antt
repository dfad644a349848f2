-- ===== src/Pq/Queue.antt =====
-- The methods of `EarlyPriorityQueue`. An index out of range panics: `none`.
use ip_tcp.Base.{
  ℕ, ◌-◌, ◌<◌, ◌≡◌, Bool, [], ◌∷◌, ◌++◌, Option, some, arith, length, get_elem?, get_or, take, ltb,
  if◌then◌else◌, ◌==◌,
}
use ip_tcp.Base.Slices.{◌>>=◌}
use ip_tcp.Base.Writes.{set, length-set, get_elem?-inside, get_or-set, set-Perm}
use mathlib.Core.List.{Perm}
use mathlib.Core.List.Perm
use ip_tcp.Pq.{EarlyPacket, EarlyPriorityQueue}

abbrev pub len : EarlyPriorityQueue → ℕ
len q = length q

unfoldable pub less : EarlyPriorityQueue → ℕ → ℕ → Option Bool
less q i j = do x ← get_elem? q i; y ← get_elem? q j; some (ltb x.priority y.priority)

-- Both sides are read before either is written.
unfoldable pub swap : EarlyPriorityQueue → ℕ → ℕ → Option EarlyPriorityQueue
swap q i j = do y ← get_elem? q j; x ← get_elem? q i; some (set (set q i y) j x)

unfoldable pub push : EarlyPacket → EarlyPriorityQueue → EarlyPriorityQueue
push x q = q ++ x ∷ []

unfoldable pub pop : EarlyPriorityQueue → Option (EarlyPacket × EarlyPriorityQueue)
pop q = do x ← get_elem? q (length q - 1); some (x, take (length q - 1) q)

-- What an index out of range would read; no proof depends on it.
abbrev pub no_packet : EarlyPacket
no_packet = record { priority = 0; flags = 0; payload = [] }

abbrev pub entry : EarlyPriorityQueue → ℕ → EarlyPacket
entry q i = get_or q i no_packet

abbrev pub priority_at : EarlyPriorityQueue → ℕ → ℕ
priority_at q i = (entry q i).priority

-- A swap, once its indices are in range.
abbrev pub swapped : EarlyPriorityQueue → ℕ → ℕ → EarlyPriorityQueue
swapped q i j = set (set q i (entry q j)) j (entry q i)

pub length-swapped : (q : EarlyPriorityQueue) (i j : ℕ) → length (swapped q i j) ≡ length q
length-swapped q i j = rw (length-set, length-set)

module _ (q : EarlyPriorityQueue) (i j : ℕ) (hi : i < length q) (hj : j < length q) where
  pub less-inside : less q i j ≡ some (ltb (priority_at q i) (priority_at q j))
  unfolding less
  less-inside = rw (get_elem?-inside q i no_packet hi, get_elem?-inside q j no_packet hj)

  pub swap-inside : swap q i j ≡ some (swapped q i j)
  unfolding swap
  swap-inside = rw (get_elem?-inside q j no_packet hj, get_elem?-inside q i no_packet hi)

  pub entry-swapped :
      (k : ℕ)
      → entry (swapped q i j) k
        ≡ (if j == k then entry q i else if i == k then entry q j else entry q k)
  entry-swapped k = rw (
    get_or-set (set q i (entry q j)) j k (entry q i) no_packet (rw length-set hj),
    get_or-set q i k (entry q j) no_packet hi,
  )

  pub swapped-Perm : Perm (swapped q i j) q
  swapped-Perm =
      let half = set q i (entry q j) in
      let kept : entry half j ≡ entry q j =
        ground (arith, get_or-set q i j (entry q j) no_packet hi) in
      let second = rw kept at (set-Perm half j (entry q i) no_packet (rw length-set hj)) in
      Perm.cons_inv (Perm.trans second (set-Perm q i (entry q j) no_packet hi))
