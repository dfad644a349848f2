-- ===== src/Pq.antt =====
-- The queue of early packets (pkg/pq/pq.go), a slice of pointers that container/heap orders through
-- its methods.
pub mod Queue
pub mod Container
pub mod Order
pub mod Up
pub mod Down
pub mod Least
mod Tests
use ip_tcp.Base.{ℕ, ◌≡◌, List, ◌∷◌, Option, some}
use mathlib.Core.List.{Perm}

-- `Index` is left out: the methods write it and nothing reads it.
pub record EarlyPacket : Type 0 where
  pub priority : ℕ  -- uint32
  pub flags : ℕ  -- uint8
  pub payload : List ℕ

abbrev pub EarlyPriorityQueue : Type 0
EarlyPriorityQueue = List EarlyPacket

-- What the receiver's bytes rely on in container/heap over these methods: `Push` adds an item, and
-- `Pop` takes out the first one of the slice and keeps the others. The order is Order's.
pub record Heap : Type 0 where
  pub push : EarlyPacket → EarlyPriorityQueue → Option EarlyPriorityQueue
  pub pop : EarlyPriorityQueue → Option (EarlyPacket × EarlyPriorityQueue)
  pub push_adds :
      (x : EarlyPacket) (q : EarlyPriorityQueue)
      → (q' : EarlyPriorityQueue) × (push x q ≡ some q') × Perm q' (x ∷ q)
  pub pop_first :
      (x : EarlyPacket) (q : EarlyPriorityQueue)
      → (rest : EarlyPriorityQueue) × (pop (x ∷ q) ≡ some (x, rest)) × Perm rest q
