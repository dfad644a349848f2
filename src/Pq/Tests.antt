-- ===== src/Pq/Tests.antt =====
-- Concrete runs of the heap of early packets.
use ip_tcp.Base.{ℕ, ◌≡◌, refl, [], ◌∷◌, some, arith}
use mathlib.Core.List.{Perm}
use ip_tcp.Pq.{EarlyPacket, EarlyPriorityQueue}
use ip_tcp.Pq.Queue.{less, swap, push, pop}
use ip_tcp.Pq.Container.{up, child, down, heap_push, heap_pop}
use ip_tcp.Pq.Order.{IsHeap}
use ip_tcp.Pq.Least.{NoneLess, push_pop_end, heap_push-IsHeap, heap_pop_least}

abbrev packet : ℕ → EarlyPacket
packet n = record { priority = n; flags = 16; payload = n ∷ [] }

abbrev three : EarlyPriorityQueue
three = packet 5005 ∷ packet 5009 ∷ packet 5007 ∷ []

-- The new item rises to the front.
push_rises :
    heap_push (packet 5001) three
    ≡ some (packet 5001 ∷ packet 5005 ∷ packet 5007 ∷ packet 5009 ∷ [])
unfolding heap_push up less swap push
push_rises = refl

-- The last item takes the first one's place, and sinks to the right child's.
pop_sinks : heap_pop three ≡ some (packet 5005, packet 5007 ∷ packet 5009 ∷ [])
unfolding heap_pop down child less swap pop
pop_sinks = refl

three-IsHeap : IsHeap three
three-IsHeap c p l = ground arith

push_pop_end_example :
    ((b : EarlyPriorityQueue) × (heap_push (packet 5001) three ≡ some b)
      × Perm b (packet 5001 ∷ three))
    × ((rest : EarlyPriorityQueue) × (heap_pop (packet 5001 ∷ three) ≡ some (packet 5001, rest))
        × Perm rest three)
push_pop_end_example = push_pop_end (packet 5001) three

heap_push-IsHeap_example :
    (b : EarlyPriorityQueue) × (heap_push (packet 5001) three ≡ some b)
    × Perm b (packet 5001 ∷ three)
    × IsHeap b
heap_push-IsHeap_example = heap_push-IsHeap (packet 5001) three three-IsHeap

abbrev others : EarlyPriorityQueue
others = packet 5009 ∷ packet 5007 ∷ []

heap_pop_least_example :
    (rest : EarlyPriorityQueue) × (heap_pop three ≡ some (packet 5005, rest))
    × Perm rest others
    × IsHeap rest
    × NoneLess (packet 5005) rest
heap_pop_least_example = heap_pop_least (packet 5005) others three-IsHeap
