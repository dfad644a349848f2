-- ===== src/Pq/Container.antt =====
-- `Push` and `Pop` of Go's container/heap over the queue's methods. `none` is a panic, or the end of
-- the fuel. An index and its child stay below twice the length plus two, so `int` does not overflow.
use ip_tcp.Base.{ℕ, zero, suc, ◌+◌, ◌-◌, ◌*◌, ◌/◌, Option, none, some, ltb, ◌==◌, if◌then◌else◌}
use ip_tcp.Base.Slices.{◌>>=◌}
use ip_tcp.Pq.{EarlyPacket, EarlyPriorityQueue}
use ip_tcp.Pq.Queue.{len, less, swap, push, pop}

abbrev pub parent : ℕ → ℕ
parent c = (c - 1) / 2

-- `up`: the loop ends at the root, or when the item is not less than its parent.
unfoldable pub up : ℕ → EarlyPriorityQueue → ℕ → Option EarlyPriorityQueue
up zero q j = none
up (suc k) q j =
    let rise = swap q (parent j) j >>= λ q'. up k q' (parent j) in
    if parent j == j
    then some q
    else less q j (parent j) >>= λ below. if below then rise else some q

-- The child of `i` that `down` goes on to, of those before `n`; the left one is.
unfoldable pub child : EarlyPriorityQueue → ℕ → ℕ → Option ℕ
child q i n =
    let right = 2 * i + 1 + 1 in
    if ltb right n
    then (do smaller ← less q right (2 * i + 1); some (if smaller then right else 2 * i + 1))
    else some (2 * i + 1)

unfoldable pub down : ℕ → EarlyPriorityQueue → ℕ → ℕ → Option EarlyPriorityQueue
unfolding child
down zero q i n = none
down (suc k) q i n =
    let sink = λ (j : ℕ). swap q i j >>= λ q'. down k q' j n in
    let step = child q i n >>= λ j. less q j i >>= λ below. if below then sink j else some q in
    if ltb (2 * i + 1) n then step else some q

-- The item rises at most once for each index from the last one down.
unfoldable pub heap_push : EarlyPacket → EarlyPriorityQueue → Option EarlyPriorityQueue
unfolding up
heap_push x q = let q' = push x q in up (len q') q' (len q' - 1)

unfoldable pub heap_pop : EarlyPriorityQueue → Option (EarlyPacket × EarlyPriorityQueue)
unfolding down
heap_pop q = let n = len q - 1 in swap q 0 n >>= λ q'. down (n + 1) q' 0 n >>= pop
