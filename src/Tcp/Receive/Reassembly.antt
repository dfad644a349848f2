-- ===== src/Tcp/Receive/Reassembly.antt =====
-- Segments of one byte stream, in order or early, reach the reader in order.
pub mod Segments
use ip_tcp.Base.{
  ℕ, zero, suc, ◌+◌, ◌-◌, ◌≤◌, ◌<◌, ◌≡◌, refl, sym, ap, ap₂, subst, ◌∙◌, ◌⊎◌, inl, inr, true, false,
  Bool, if◌then◌else◌, Bool-cases, ltb, not_ltb→le, List, [], ◌∷◌, ◌++◌, append_assoc, some, arith,
  length, length-append, add32, leb, IsU32,
}
use mathlib.Core.List.{Memᴰ, Perm}
use native.Mathlib.Nat.{le_refl}
use native.Mathlib.Bridge.{le_prop}
use ip_tcp.Base.Members.{every-Perm, length-Perm}
use ip_tcp.Pq.{EarlyPacket, EarlyPriorityQueue, Heap}
use ip_tcp.Tcp.Ring.{Buffer, slice}
use ip_tcp.Tcp.State.{
  State, listen, syn_sent, syn_received, established, fin_wait_1, fin_wait_2, close_wait, last_ack,
  time_wait,
}
use ip_tcp.Tcp.ReadBuffer.{ReadBuffer, window, insert_payload}
use ip_tcp.Tcp.ReadBuffer.Queue.{IsValid, unread, unread-add-window}
use ip_tcp.Tcp.ReadBuffer.Refine.{Follows, insert_payload_refines}
use ip_tcp.Tcp.Segment.{TcpInfo, has_fin, has_ack}
use ip_tcp.Tcp.Socket.{NormalSocket, Effect, Outcome, runs, blocked}
use ip_tcp.Tcp.Receive.{
  ◌>>=◌, fin_in_state, on_fin, on_payload, ready_in, first_priority, early_round, early_loop,
  send_ack, accept, receive_ack, receive,
}
use ip_tcp.Tcp.Receive.Ends.{Ends, Ends->>=, Ends-map}

slice-add : (buf : Buffer) (p m n : ℕ) → slice buf p (m + n) ≡ slice buf p m ++ slice buf (p + m) n
unfolding slice
slice-add buf p zero n = ap₂ (slice buf) (omega arith) (omega arith)
slice-add buf p (suc m) n =
    ap (slice buf p) (suc_add m n)
    ∙ ap (λ t. buf p ∷ t)
        (slice-add buf (p + 1) m n ∙ ap (λ q. slice buf (p + 1) m ++ slice buf q n) (omega arith))
  where
    suc_add : (m n : ℕ) → suc m + n ≡ suc (m + n)
    suc_add m n = omega arith

-- The loop over early packets ends, or the first one starts at `cum` or before.
pub queue-cases :
    (q : EarlyPriorityQueue) (cum : ℕ)
    → (ready_in q cum ≡ false)
      ⊎ ((x : EarlyPacket) × (rest : EarlyPriorityQueue) × (q ≡ x ∷ rest) × (x.priority ≤ cum))
queue-cases [] cum = inl refl
queue-cases (x ∷ q) cum = elim (Bool-cases (leb x.priority cum)) [
  | inl t ↦ inr (x, q, refl, ground arith)
  | inr f ↦ inl f
]

-- The peer's stream gives every sequence number its byte; it does not wrap round.
module _ (stream : ℕ → ℕ) (first : ℕ) where
  -- A payload that starts at `seq` is the stream's.
  abbrev pub Carries : ℕ → List ℕ → Type 0
  Carries seq payload = (payload ≡ slice stream seq (length payload)) × IsU32 (seq + length payload)

  -- An early packet is the stream's, or a FIN, and fits the window that was advertised.
  pub record IsEarly (s : NormalSocket) (e : EarlyPacket) : Type 0 where
    pub carries : has_fin e.flags ≡ false → Carries e.priority e.payload
    pub fits :
        s.cum_read_nxt ≤ e.priority
        → e.priority + length e.payload ≤ s.cum_read_nxt + window s.read_buffer

  pub IsEarly-prop : (s : NormalSocket) (e : EarlyPacket) → IsProp (IsEarly s e)
  IsEarly-prop s e = hlevel (le_prop)

  -- With the bytes `got` read before, the reader has or will have the stream from `first` up to
  -- `cumReadNXT`, which is `lo` at least.
  pub record Synced (got : List ℕ) (lo : ℕ) (s : NormalSocket) : Type 0 where
    pub valid : IsValid s.read_buffer
    pub base_fits : IsU32 s.base_ack
    pub follows : Follows s.read_buffer s.base_ack s.cum_read_nxt
    pub cum_fits : IsU32 s.cum_read_nxt
    pub started : first ≤ s.cum_read_nxt
    pub reached : lo ≤ s.cum_read_nxt
    pub in_order : got ++ unread s.read_buffer ≡ slice stream first (s.cum_read_nxt - first)
    pub early : (e : EarlyPacket) → Memᴰ e s.early_pq → IsEarly s e

  module _ (got : List ℕ) where
    pub on_payload-Synced :
        (lo : ℕ) (s : NormalSocket) (payload : List ℕ) (fx : List Effect)
        → Synced got lo s
        → Carries s.cum_read_nxt payload
        → length payload ≤ window s.read_buffer
        → Ends
            (λ s'. Synced got (s.cum_read_nxt + length payload) s' × (s'.early_pq ≡ s.early_pq))
            (on_payload s s.cum_read_nxt payload fx)
    unfolding on_payload
    on_payload-Synced lo s payload fx y (c, u) fits =
        let (r, e, grown, valid, follows) =
          insert_payload_refines s.read_buffer s.base_ack s.cum_read_nxt payload y.valid y.base_fits
            y.cum_fits y.follows fits in
        rw (e, on_payload)
          (
            record {
              valid = valid;
              base_fits = y.base_fits;
              follows = follows;
              cum_fits = omega arith;
              started = omega (arith, y.started);
              reached = omega arith;
              in_order =
                  ap (λ t. got ++ t) grown
                  ∙ sym (append_assoc got (unread s.read_buffer) payload)
                  ∙ extended c u;
              early = λ e m. record {
                carries = (y.early e m).carries;
                fits = λ h. omega (
                  arith,
                  (y.early e m).fits (omega arith),
                  unread-add-window s.read_buffer y.valid,
                  unread-add-window r valid,
                  ap (λ (t : List ℕ). length t) grown,
                  length-append (unread s.read_buffer) payload,
                );
              };
            },
            refl,
          )
      where
        extended :
            payload ≡ slice stream s.cum_read_nxt (length payload)
            → IsU32 (s.cum_read_nxt + length payload)
            → (got ++ unread s.read_buffer) ++ payload
              ≡ slice stream first (add32 s.cum_read_nxt (length payload) - first)
        extended c u =
            ap₂ ◌++◌ y.in_order c
            ∙ ap
                (λ q.
                  slice stream first (s.cum_read_nxt - first) ++ slice stream q (length payload))
                (omega (arith, y.started))
            ∙ sym (slice-add stream first (s.cum_read_nxt - first) (length payload))
            ∙ ap (slice stream first) (omega (arith, y.started))

    -- Only the receive side of the socket counts, and the early packets may become fewer.
    pub Synced-same :
        (lo lo' : ℕ) (s : NormalSocket) (t : State) (l : Bool) (q : EarlyPriorityQueue)
        → lo' ≤ lo
        → ((e : EarlyPacket) → Memᴰ e q → IsEarly s e)
        → Synced got lo s
        → Synced got lo' (record s { state = t; state_locked = l; early_pq = q })
    Synced-same lo lo' s t l q h sub y = record {
      valid = y.valid;
      base_fits = y.base_fits;
      follows = y.follows;
      cum_fits = y.cum_fits;
      started = y.started;
      reached = omega (arith, y.reached);
      in_order = y.in_order;
      early = λ e m. record { carries = (sub e m).carries; fits = (sub e m).fits };
    }

    on_fin-Synced :
        (lo : ℕ) (s : NormalSocket) (fx : List Effect)
        → Synced got lo s
        → Ends (λ s'. Synced got lo s' × (s'.early_pq ≡ s.early_pq)) (on_fin s fx)
    unfolding on_fin fin_in_state
    on_fin-Synced lo s fx y =
        elim s.state_locked
          as (λ b.
            Ends (λ s'. Synced got lo s' × (s'.early_pq ≡ s.early_pq))
              (if b then blocked else fin_in_state s.state s fx)) [
                | true ↦ tt
                | false ↦ by_state s.state
              ]
      where
        kept : (t : State) (l : Bool) → Synced got lo (record s { state = t; state_locked = l })
        kept t l = Synced-same lo lo s t l s.early_pq (le_refl lo) y.early y

        by_state :
            (t : State)
            → Ends (λ s'. Synced got lo s' × (s'.early_pq ≡ s.early_pq)) (fin_in_state t s fx)
        by_state established = (kept close_wait s.state_locked, refl)
        by_state fin_wait_2 = (kept time_wait s.state_locked, refl)
        by_state _ = (kept s.state true, refl)

    -- The first early packet, at `cumReadNXT` or before it, once it is out of the queue.
    on_early-Synced :
        (lo p : ℕ) (s : NormalSocket) (x : EarlyPacket) (q rest : EarlyPriorityQueue)
        (fx : List Effect)
        → s.early_pq ≡ x ∷ q
        → p ≡ x.priority
        → p ≤ s.cum_read_nxt
        → Perm rest q
        → Synced got lo s
        → let s' = record s { early_pq = rest } in
          Ends
            (λ s''. Synced got lo s'' × (length s''.early_pq ≡ length q))
            (if ltb p s.cum_read_nxt
              then runs s' fx
              else if has_fin x.flags
              then on_fin s' fx
              else on_payload s' x.priority x.payload fx)
    on_early-Synced lo p s x q rest fx eq ep le perm y = elim (Bool-cases (ltb p s.cum_read_nxt)) [
      | inl t ↦ rw t (fewer, len)
      | inr t ↦ elim (Bool-cases (has_fin x.flags)) [
        | inl f ↦
            rw (t, f)
              (Ends-map (λ s''. Synced got lo s'' × (s''.early_pq ≡ rest)) _ _
                (on_fin-Synced lo s' fx fewer)
                (λ s'' h. (h.0, ap (λ (t : EarlyPriorityQueue). length t) h.1 ∙ len)))
        | inr f ↦ rw (t, f) (copied (omega (arith, not_ltb→le p s.cum_read_nxt t)) f)
      ]
    ]
      where
        s' : NormalSocket
        s' = record s { early_pq = rest }

        len : length rest ≡ length q
        len = length-Perm perm

        inside : (e : EarlyPacket) → Memᴰ e rest → IsEarly s e
        inside =
            every-Perm (IsEarly s) (IsEarly-prop s) perm
              (λ e m. y.early e (subst (Memᴰ e) (sym eq) (Memᴰ.tail m)))

        fewer : Synced got lo s'
        fewer = Synced-same lo lo s s.state s.state_locked rest (le_refl lo) inside y

        head : IsEarly s x
        head = y.early x (subst (Memᴰ x) (sym eq) (Memᴰ.head refl))

        copied :
            s.cum_read_nxt ≡ x.priority
            → has_fin x.flags ≡ false
            → Ends
                (λ s''. Synced got lo s'' × (length s''.early_pq ≡ length q))
                (on_payload s' x.priority x.payload fx)
        copied e f =
            subst
              (λ k.
                Ends (λ s''. Synced got lo s'' × (length s''.early_pq ≡ length q))
                  (on_payload s' k x.payload fx))
              e
              (Ends-map
                (λ s''. Synced got (s.cum_read_nxt + length x.payload) s'' × (s''.early_pq ≡ rest))
                _ _
                (on_payload-Synced lo s' x.payload fx fewer
                  (subst (λ k. Carries k x.payload) (sym e) (head.carries f))
                  (omega (arith, head.fits (omega arith))))
                (λ s'' h. (
                  Synced-same _ lo s'' s''.state s''.state_locked s''.early_pq
                      (omega (arith, y.reached)) h.0.early h.0,
                  ap (λ (t : EarlyPriorityQueue). length t) h.1 ∙ len,
                )))

    module _ (heap : Heap) where
      early_round-Synced :
          (lo : ℕ) (s : NormalSocket) (x : EarlyPacket) (q : EarlyPriorityQueue) (fx : List Effect)
          → s.early_pq ≡ x ∷ q
          → x.priority ≤ s.cum_read_nxt
          → Synced got lo s
          → Ends (λ s'. Synced got lo s' × (length s'.early_pq ≡ length q)) (early_round heap s fx)
      unfolding early_round
      early_round-Synced lo s x q fx eq le y =
          let (rest, popped, perm) = heap.pop_first x q in
          let at_head : heap.pop s.early_pq ≡ some (x, rest) = ap heap.pop eq ∙ popped in
          let same : first_priority s.early_pq ≡ x.priority = ap first_priority eq in
          rw (at_head, early_round)
            (on_early-Synced lo (first_priority s.early_pq) s x q rest fx eq same (omega arith) perm
              y)

      early_loop-Synced :
          (n lo : ℕ) (s : NormalSocket) (fx : List Effect)
          → length s.early_pq ≤ n
          → Synced got lo s
          → Ends (Synced got lo) (early_loop heap n s fx)
      unfolding early_loop
      early_loop-Synced zero lo s fx h y = elim (queue-cases s.early_pq s.cum_read_nxt) [
        | inl e ↦ rw e y
        | inr (x, q, eq, le) ↦ absurd (omega (arith, ap (λ (t : EarlyPriorityQueue). length t) eq))
      ]
      early_loop-Synced (suc n) lo s fx h y = elim (queue-cases s.early_pq s.cum_read_nxt) [
        | inl e ↦ rw (e, early_loop) y
        | inr (x, q, eq, le) ↦
            rw (ap (λ t. ready_in t s.cum_read_nxt) eq ∙ ready x q le, early_loop)
              (Ends->>= (λ s'. Synced got lo s' × (length s'.early_pq ≡ length q)) (Synced got lo)
                (early_round heap s fx) (early_loop heap n) (early_round-Synced lo s x q fx eq le y)
                (λ s' fx' h'.
                  early_loop-Synced n lo s' fx'
                    (omega (arith, h'.1, ap (λ (t : EarlyPriorityQueue). length t) eq)) h'.0))
      ]
        where
          ready :
              (x : EarlyPacket) (q : EarlyPriorityQueue)
              → x.priority ≤ s.cum_read_nxt
              → ready_in (x ∷ q) s.cum_read_nxt ≡ true
          ready x q le = ground arith

      -- The loop and the acknowledgement behind it.
      pub drain-Synced :
          (lo : ℕ) (s : NormalSocket) (r : TcpInfo) (fx : List Effect)
          → Synced got lo s
          → Ends (Synced got lo) (early_loop heap (length s.early_pq) s fx >>= send_ack r)
      drain-Synced lo s r fx y =
          Ends->>= (Synced got lo) (Synced got lo) (early_loop heap (length s.early_pq) s fx)
            (send_ack r)
            (early_loop-Synced (length s.early_pq) lo s fx (le_refl (length s.early_pq)) y)
            (λ s' fx' h. h)
