-- ===== src/Pq/Least.antt =====
-- `Push` and `Pop` of the heap: the items they keep, the order they keep, and that a popped item is
-- a least one.
use ip_tcp.Base.{
  ℕ, suc, ◌+◌, ◌-◌, ◌≤◌, ◌<◌, ◌≡◌, sym, ap, ◌∙◌, subst, [], ◌∷◌, append-nil, some, arith, length,
  length-append, take, length-take,
}
use ip_tcp.Base.Slices.{◌>>=◌}
use ip_tcp.Base.Members.{every-Perm, position}
use ip_tcp.Base.Writes.{
  Gives->>=, get_elem?-inside, Gives, Gives-map, Gives-some, get_or-append, get_or-take, take-last,
}
use mathlib.Core.List.{Memᴰ, Perm, perm_middle}
use mathlib.Core.List.Perm
use native.Mathlib.Bridge.{le_prop}
use ip_tcp.Pq.{EarlyPacket, EarlyPriorityQueue, Heap}
use ip_tcp.Pq.Queue.{
  swap, push, pop, priority_at, entry, swapped, length-swapped, swap-inside, swapped-Perm,
  entry-swapped, no_packet,
}
use ip_tcp.Pq.Container.{parent, down, heap_push, heap_pop}
use ip_tcp.Pq.Order.{IsHeap, IsHeapTo, first_least}
use ip_tcp.Pq.Up.{Raised, IsHeapBut, up_restores}
use ip_tcp.Pq.Down.{Sunk, IsHeapUnder, down_restores}

length-push : (x : EarlyPacket) (q : EarlyPriorityQueue) → length (push x q) ≡ length q + 1
unfolding push
length-push x q = length-append q (x ∷ [])

priority-push :
    (x : EarlyPacket) (q : EarlyPriorityQueue) (c : ℕ)
    → c < length q
    → priority_at (push x q) c ≡ priority_at q c
unfolding push
priority-push x q c h =
    ap (λ (e : EarlyPacket). e.priority) (get_or-append q (x ∷ []) c no_packet h)

push-IsHeapBut :
    (x : EarlyPacket) (q : EarlyPriorityQueue)
    → IsHeap q
    → IsHeapBut (push x q) (length (push x q) - 1)
unfolding push
push-IsHeapBut x q v =
    let size = length-push x q in
    record {
      edges = λ c p l ne. omega (
        arith,
        v c p (omega (arith, size)),
        priority-push x q c (omega (arith, size)),
        priority-push x q (parent c) (omega (arith, size)),
      );
      across = λ c p l e r. absurd (omega (arith, size));
    }

-- What `Push` promises.
abbrev pub Pushed : EarlyPacket → EarlyPriorityQueue → EarlyPriorityQueue → Type 0
Pushed x q b = Perm b (x ∷ q) × (IsHeap q → IsHeap b)

-- `Push` ends, on any queue; it adds the item, and keeps the order of a heap.
pub heap_push-keeps :
    (x : EarlyPacket) (q : EarlyPriorityQueue) → Gives (Pushed x q) (heap_push x q)
unfolding heap_push push
heap_push-keeps x q =
    let size = length-push x q in
    Gives-map (Raised (push x q) (length (push x q) - 1)) (Pushed x q) _
      (up_restores (length (push x q)) (push x q) (length (push x q) - 1) (omega (arith, size))
        (omega (arith, size)))
      (λ b h. (
        Perm.trans h.0.items rw (append-nil q) at (perm_middle {a = x} q []),
        λ v. h.1 (push-IsHeapBut x q v),
      ))

abbrev pub NoneLess : EarlyPacket → EarlyPriorityQueue → Type 0
NoneLess x q = (e : EarlyPacket) → Memᴰ e q → x.priority ≤ e.priority

-- What `Pop` promises.
abbrev pub Popped : EarlyPacket → EarlyPriorityQueue → EarlyPacket × EarlyPriorityQueue → Type 0
Popped x q r = (r.0 ≡ x) × Perm r.1 q × (IsHeap (x ∷ q) → IsHeap r.1 × NoneLess x r.1)

pop-last : (q : EarlyPriorityQueue) (n : ℕ) → length q ≡ suc n → pop q ≡ some (entry q n, take n q)
unfolding pop
pop-last q n e =
    rw (get_elem?-inside q (length q - 1) no_packet (omega arith))
      (ap (λ k. some (entry q k, take k q)) (omega arith))

heap_pop-cons :
    (x : EarlyPacket) (q : EarlyPriorityQueue)
    → heap_pop (x ∷ q)
      ≡ (swap (x ∷ q) 0 (length q) >>= λ q'. down (length q + 1) q' 0 (length q) >>= pop)
unfolding heap_pop
heap_pop-cons x q = ap (λ n. swap (x ∷ q) 0 n >>= λ q'. down (n + 1) q' 0 n >>= pop) (omega arith)

-- Of a heap, no other item is less than the first.
pub others-least :
    (x : EarlyPacket) (q : EarlyPriorityQueue)
    → IsHeap (x ∷ q)
    → (e : EarlyPacket) → Memᴰ e q
    → x.priority ≤ e.priority
others-least x q v e m =
    let (i, p, at) = position q no_packet e m in
    subst (λ (t : EarlyPacket). x.priority ≤ t.priority) at
      (first_least (x ∷ q) (suc i) v (omega arith))

-- The last item in the first one's place is all that can keep the others from being a heap.
swapped-IsHeapUnder :
    (x : EarlyPacket) (q : EarlyPriorityQueue)
    → IsHeap (x ∷ q)
    → IsHeapUnder (length q) (swapped (x ∷ q) 0 (length q)) 0
swapped-IsHeapUnder x q v =
    let at = entry-swapped (x ∷ q) 0 (length q) (omega arith) (omega arith) in
    record {
      edges = λ c p l ne. ground (arith, at c, at (parent c), v c);
      across = λ c p l e r. absurd (omega arith);
    }

take-IsHeap : (n : ℕ) (q : EarlyPriorityQueue) → length q ≡ suc n → IsHeapTo n q → IsHeap (take n q)
take-IsHeap n q size v c p l =
    let inside : c < n = omega (arith, length-take n q) in
    omega (arith, v c p inside, at c inside, at (parent c) (omega arith))
  where
    at : (k : ℕ) → k < n → priority_at (take n q) k ≡ priority_at q k
    at k h = ap (λ (e : EarlyPacket). e.priority) (get_or-take n k q no_packet h)

pop-Popped :
    (x : EarlyPacket) (q d : EarlyPriorityQueue)
    → Sunk (length q) (swapped (x ∷ q) 0 (length q)) 0 d
    → Gives (Popped x q) (pop d)
pop-Popped x q d s =
    let size : length d ≡ suc (length q) = s.0.size ∙ length-swapped (x ∷ q) 0 (length q) in
    let last : entry d (length q) ≡ x =
      s.0.behind (length q) (omega arith)
      ∙ ground (arith, entry-swapped (x ∷ q) 0 (length q) (omega arith) (omega arith) (length q)) in
    let kept : Perm (take (length q) d) q = Perm.cons_inv (
      Perm.trans (Perm.symm (rw append-nil at (perm_middle {a = x} (take (length q) d) []))) (
        subst (λ t. Perm t (x ∷ q)) (sym (rw last at (take-last (length q) d no_packet size)))
          (Perm.trans s.0.items
            (swapped-Perm (x ∷ q) 0 (length q) (omega arith) (omega arith))))) in
    rw (pop-last d (length q) size) (
      last,
      kept,
      λ v. (
        take-IsHeap (length q) d size (s.1 (swapped-IsHeapUnder x q v)),
        every-Perm (λ (e : EarlyPacket). x.priority ≤ e.priority) (λ e. le_prop) kept
            (others-least x q v),
      ),
    )

-- `Pop` of a queue with a first item ends, and takes it out; what is left of a heap is one, without
-- an item that is less.
pub heap_pop-keeps :
    (x : EarlyPacket) (q : EarlyPriorityQueue) → Gives (Popped x q) (heap_pop (x ∷ q))
heap_pop-keeps x q =
    rw (heap_pop-cons x q, swap-inside (x ∷ q) 0 (length q) (omega arith) (omega arith))
      (Gives->>= (Sunk (length q) (swapped (x ∷ q) 0 (length q)) 0) (Popped x q) _ pop
        (down_restores (length q + 1) (length q) (swapped (x ∷ q) 0 (length q)) 0 (omega arith)
          (omega (arith, length-swapped (x ∷ q) 0 (length q))))
        (pop-Popped x q))

pub push_ends :
    (x : EarlyPacket) (q : EarlyPriorityQueue)
    → (b : EarlyPriorityQueue) × (heap_push x q ≡ some b) × Perm b (x ∷ q)
push_ends x q =
    let (b, pushed, keeps) = Gives-some (Pushed x q) (heap_push x q) (heap_push-keeps x q) in
    (b, pushed, keeps.0)

pub pop_ends :
    (x : EarlyPacket) (q : EarlyPriorityQueue)
    → (rest : EarlyPriorityQueue) × (heap_pop (x ∷ q) ≡ some (x, rest)) × Perm rest q
pop_ends x q =
    let (r, popped, keeps) = Gives-some (Popped x q) (heap_pop (x ∷ q)) (heap_pop-keeps x q) in
    (r.1, popped ∙ ap (λ y. some (y, r.1)) keeps.0, keeps.1)

-- On any slice, in order or not, the loops of `heap.Push` and `heap.Pop` end on their fuel and no
-- index is out of range. `Push` gives a permutation of the slice with the new item; `Pop` gives the
-- first item, and leaves a permutation of the others.
pub push_pop_end :
    (x : EarlyPacket) (q : EarlyPriorityQueue)
    → ((b : EarlyPriorityQueue) × (heap_push x q ≡ some b) × Perm b (x ∷ q))
      × ((rest : EarlyPriorityQueue) × (heap_pop (x ∷ q) ≡ some (x, rest)) × Perm rest q)
push_pop_end x q = (push_ends x q, pop_ends x q)

-- `heap.Push` of an item on a heap gives a heap, of the same items and the new one.
pub heap_push-IsHeap :
    (x : EarlyPacket) (q : EarlyPriorityQueue)
    → IsHeap q
    → (b : EarlyPriorityQueue) × (heap_push x q ≡ some b) × Perm b (x ∷ q) × IsHeap b
heap_push-IsHeap x q v =
    let (b, pushed, keeps) = Gives-some (Pushed x q) (heap_push x q) (heap_push-keeps x q) in
    (b, pushed, keeps.0, keeps.1 v)

-- `heap.Pop` of a heap takes out an item of least priority number, and what is left is a heap of the
-- other items.
pub heap_pop_least :
    (x : EarlyPacket) (q : EarlyPriorityQueue)
    → IsHeap (x ∷ q)
    → (rest : EarlyPriorityQueue) × (heap_pop (x ∷ q) ≡ some (x, rest))
      × Perm rest q
      × IsHeap rest
      × NoneLess x rest
heap_pop_least x q v =
    let (r, popped, keeps) = Gives-some (Popped x q) (heap_pop (x ∷ q)) (heap_pop-keeps x q) in
    (r.1, popped ∙ ap (λ y. some (y, r.1)) keeps.0, keeps.1, (keeps.2 v).0, (keeps.2 v).1)

-- container/heap over the queue's methods.
abbrev pub container_heap : Heap
container_heap = record {
  push = heap_push;
  pop = heap_pop;
  push_adds = λ x q.
      let (b, pushed, keeps) = Gives-some (Pushed x q) (heap_push x q) (heap_push-keeps x q) in
      (b, pushed, keeps.0);
  pop_first = pop_ends;
}
