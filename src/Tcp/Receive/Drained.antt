-- ===== src/Tcp/Receive/Drained.antt =====
-- `ReceiverThread` and the heap of early packets: after each segment none is left that was ready.
use ip_tcp.Base.{
  ℕ, zero, suc, ◌≤◌, ◌<◌, ◌≡◌, refl, sym, ap, ◌∙◌, subst, inl, inr, true, false, ltb, leb, ltb→lt,
  Bool, le→leb, List, [], ◌∷◌, arith, length, add32, ◌==◌, ◌&&◌, if◌then◌else◌,
}
use ip_tcp.Base.Table.{lookup, nat_eq}
use ip_tcp.Base.Members.{every-Perm, length-Perm}
use ip_tcp.Base.Writes.{Gives-some}
use mathlib.Core.List.{Memᴰ}
use native.Mathlib.Nat.{le_refl}
use native.Mathlib.Bridge.{le_prop}
use ip_tcp.Pq.{EarlyPacket, EarlyPriorityQueue}
use ip_tcp.Pq.Container.{heap_push, heap_pop}
use ip_tcp.Pq.Order.{IsHeap}
use ip_tcp.Pq.Least.{container_heap, Pushed, heap_push-keeps, Popped, heap_pop-keeps, others-least}
use ip_tcp.Tcp.State.{State, established, fin_wait_2}
use ip_tcp.Tcp.ReadBuffer.{window}
use ip_tcp.Tcp.ReadBuffer.Queue.{IsValid}
use ip_tcp.Tcp.Segment.{TcpInfo, has_fin, has_ack}
use ip_tcp.Tcp.Socket.{NormalSocket, Effect, Outcome, blocked}
use ip_tcp.Tcp.Receive.{
  ◌>>=◌, is_some, fin_in_state, on_fin, on_payload, ready_in, first_priority, early_round,
  early_loop, send_ack, put_early, accept, receive_ack, receive,
}
use ip_tcp.Tcp.Receive.Ends.{Ends, Ends->>=, Ends-map}
use ip_tcp.Tcp.Receive.Branches.{on_payload-write_ring}
use ip_tcp.Tcp.Receive.Reassembly.{queue-cases}

-- The rule for a test.
if-Ends :
    (P : NormalSocket → Type 0) (b : Bool) (x y : Outcome)
    → (b ≡ true → Ends P x)
    → (b ≡ false → Ends P y)
    → Ends P (if b then x else y)
if-Ends P true x y p q = p refl
if-Ends P false x y p q = q refl

pub record IsOrdered (s : NormalSocket) : Type 0 where
  pub heap : IsHeap s.early_pq
  pub valid : IsValid s.read_buffer

-- No early packet starts at `cumReadNXT` or before it.
pub record Drained (s : NormalSocket) : Type 0 where
  pub ordered : IsOrdered s
  pub ahead : (e : EarlyPacket) → Memᴰ e s.early_pq → s.cum_read_nxt < e.priority

-- A step that leaves the queue alone, and the buffer valid.
abbrev Untouched : EarlyPriorityQueue → NormalSocket → Type 0
Untouched q s = IsValid s.read_buffer × (s.early_pq ≡ q)

on_fin-Untouched :
    (s : NormalSocket) (fx : List Effect)
    → IsValid s.read_buffer
    → Ends (Untouched s.early_pq) (on_fin s fx)
unfolding on_fin fin_in_state
on_fin-Untouched s fx v =
    elim s.state_locked
      as (λ b. Ends (Untouched s.early_pq) (if b then blocked else fin_in_state s.state s fx)) [
        | true ↦ tt
        | false ↦ by_state s.state
      ]
  where
    by_state : (t : State) → Ends (Untouched s.early_pq) (fin_in_state t s fx)
    by_state established = (v, refl)
    by_state fin_wait_2 = (v, refl)
    by_state _ = (v, refl)

on_payload-Untouched :
    (s : NormalSocket) (seq : ℕ) (payload : List ℕ) (fx : List Effect)
    → IsValid s.read_buffer
    → Ends (Untouched s.early_pq) (on_payload s seq payload fx)
on_payload-Untouched s seq payload fx v =
    rw (on_payload-write_ring s seq payload fx v)
      (record { lbr_in = v.lbr_in; nxt_in = omega arith }, refl)

abbrev Shrunk : EarlyPriorityQueue → NormalSocket → Type 0
Shrunk q s = IsOrdered s × (length s.early_pq ≡ length q)

-- A round takes the first packet out of the heap.
early_round-Shrunk :
    (s : NormalSocket) (x : EarlyPacket) (q : EarlyPriorityQueue) (fx : List Effect)
    → s.early_pq ≡ x ∷ q
    → IsOrdered s
    → Ends (Shrunk q) (early_round container_heap s fx)
unfolding early_round
early_round-Shrunk s x q fx eq o =
    let (r, popped, keeps) = Gives-some (Popped x q) (heap_pop (x ∷ q)) (heap_pop-keeps x q) in
    let rest = r.1 in
    let ordered : IsHeap rest = (keeps.2 (subst IsHeap eq o.heap)).0 in
    let left : (t : NormalSocket) → Untouched rest t → Shrunk q t = λ t u. (
      record { heap = subst IsHeap (sym u.1) ordered; valid = u.0 },
      ap (λ (l : EarlyPriorityQueue). length l) u.1 ∙ length-Perm keeps.1,
    ) in
    let s' = record s { early_pq = rest } in
    rw (ap heap_pop eq ∙ popped, early_round)
      (three (Shrunk q) (ltb (first_priority s.early_pq) s.cum_read_nxt) (has_fin r.0.flags) _ _ _
        (left s' (o.valid, refl))
        (Ends-map (Untouched rest) (Shrunk q) _ (on_fin-Untouched s' fx o.valid) left)
        (Ends-map (Untouched rest) (Shrunk q) _
          (on_payload-Untouched s' r.0.priority r.0.payload fx o.valid) left))
  where
    three :
        (P : NormalSocket → Type 0) (b c : Bool) (x y z : Outcome)
        → Ends P x
        → Ends P y
        → Ends P z
        → Ends P (if b then x else if c then y else z)
    three P true c x y z a b' c' = a
    three P false true x y z a b' c' = b'
    three P false false x y z a b' c' = c'

not_leb→lt : (a b : ℕ) → leb a b ≡ false → b < a
not_leb→lt a b h = ground arith

-- A heap whose first item is not ready has none that is.
not_ready :
    (q : EarlyPriorityQueue) (cum : ℕ)
    → IsHeap q
    → ready_in q cum ≡ false
    → (e : EarlyPacket) → Memᴰ e q
    → cum < e.priority
not_ready [] cum h n e m = elim m [ ]
not_ready (x ∷ q) cum h n e (Memᴰ.head same) =
    omega (arith, not_leb→lt x.priority cum n, ap (λ (t : EarlyPacket). t.priority) same)
not_ready (x ∷ q) cum h n e (Memᴰ.tail m) =
    omega (arith, not_leb→lt x.priority cum n, others-least x q h e m)

-- The loop ends, and leaves no packet that is ready.
early_loop-Drained :
    (n : ℕ) (s : NormalSocket) (fx : List Effect)
    → length s.early_pq ≤ n
    → IsOrdered s
    → Ends Drained (early_loop container_heap n s fx)
unfolding early_loop
early_loop-Drained zero s fx h o = elim (queue-cases s.early_pq s.cum_read_nxt) [
  | inl e ↦ rw e (record { ordered = o; ahead = not_ready s.early_pq s.cum_read_nxt o.heap e })
  | inr (x, q, eq, le) ↦ absurd (omega (arith, ap (λ (t : EarlyPriorityQueue). length t) eq))
]
early_loop-Drained (suc n) s fx h o = elim (queue-cases s.early_pq s.cum_read_nxt) [
  | inl e ↦
      rw (e, early_loop)
        (record { ordered = o; ahead = not_ready s.early_pq s.cum_read_nxt o.heap e })
  | inr (x, q, eq, le) ↦
      rw (ap (λ t. ready_in t s.cum_read_nxt) eq ∙ le→leb x.priority s.cum_read_nxt le, early_loop)
        (Ends->>= (Shrunk q) Drained (early_round container_heap s fx) (early_loop container_heap n)
          (early_round-Shrunk s x q fx eq o)
          (λ s' fx' h'.
            early_loop-Drained n s' fx'
              (omega (arith, h'.1, ap (λ (t : EarlyPriorityQueue). length t) eq)) h'.0))
]

drain-Drained :
    (q : EarlyPriorityQueue) (o : Outcome) (r : TcpInfo)
    → IsHeap q
    → Ends (Untouched q) o
    → Ends Drained (o >>= λ s fx. early_loop container_heap (length s.early_pq) s fx >>= send_ack r)
drain-Drained q o r v h = Ends->>= (Untouched q) Drained o _ h (λ s fx u.
    Ends->>= Drained Drained (early_loop container_heap (length s.early_pq) s fx) (send_ack r)
      (early_loop-Drained (length s.early_pq) s fx (le_refl (length s.early_pq))
        (record { heap = subst IsHeap (sym u.1) v; valid = u.0 }))
      (λ s' fx' d. d))

accept-Drained :
    (s : NormalSocket) (r : TcpInfo) → Drained s → Ends Drained (accept container_heap s r)
unfolding accept
accept-Drained s r d =
    if-Ends Drained (has_fin r.flag) _ _
      (λ f.
        drain-Drained s.early_pq _ r d.ordered.heap (
          on_fin-Untouched (record s { cum_read_nxt = add32 s.cum_read_nxt 1 }) [] d.ordered.valid))
      (λ f.
        if-Ends Drained (window s.read_buffer == 0) _ _ (λ full. d)
          (λ room.
            drain-Drained s.early_pq _ r d.ordered.heap
              (on_payload-Untouched s r.seq_num r.payload [] d.ordered.valid)))

put_early-Drained :
    (s : NormalSocket) (e : EarlyPacket)
    → s.cum_read_nxt < e.priority
    → Drained s
    → Ends Drained (put_early container_heap s e)
unfolding put_early
put_early-Drained s e h d =
    let (q, pushed, keeps) =
      Gives-some (Pushed e s.early_pq) (heap_push e s.early_pq) (heap_push-keeps e s.early_pq) in
    rw (pushed, put_early)
      (record {
        ordered = record { heap = keeps.1 d.ordered.heap; valid = d.ordered.valid };
        ahead =
            every-Perm (λ (x : EarlyPacket). s.cum_read_nxt < x.priority) (λ x. le_prop) keeps.0
              among;
      })
  where
    among : (x : EarlyPacket) → Memᴰ x (e ∷ s.early_pq) → s.cum_read_nxt < x.priority
    among x (Memᴰ.head same) = omega (arith, h, ap (λ (t : EarlyPacket). t.priority) same)
    among x (Memᴰ.tail m) = d.ahead x m

-- Whatever segment arrives, a round of `ReceiverThread` over Go's heap neither panics nor runs out of
-- fuel, and if no early packet started at `cumReadNXT` or before, none does afterwards: all that
-- became ready are taken out. The queue stays a heap and the receive buffer valid.
pub receive-Drained :
    (s : NormalSocket) (r : TcpInfo) → Drained s → Ends Drained (receive container_heap s r)
unfolding receive_ack receive
receive-Drained s r d =
    let t = record s { client_window_size = r.window_size } in
    let noted : Drained t = record {
      ordered = record { heap = d.ordered.heap; valid = d.ordered.valid };
      ahead = d.ahead;
    } in
    if-Ends Drained (has_ack r.flag) _ _
      (λ a.
        if-Ends Drained (is_some (lookup r.ack_num s.unacked_fins)) _ _ (λ n. noted)
          (λ f.
            if-Ends Drained (is_some (lookup r.ack_num s.unacked_nums) && length r.payload == 0) _ _
              (λ n. noted)
              (λ n.
                if-Ends Drained (ltb s.cum_read_nxt r.seq_num) _ _
                  (λ h. put_early-Drained t e (ltb→lt s.cum_read_nxt r.seq_num h) noted)
                  (λ h. accept-Drained t r noted))))
      (λ a. d)
  where
    e : EarlyPacket
    e = record { priority = r.seq_num; flags = r.flag; payload = r.payload }
