-- ===== src/Tcp/WriteBuffer/Stall.antt =====
-- When a round of `VWrite` makes no progress.
use ip_tcp.Base.{
  ℕ, ◌+◌, ◌-◌, ◌%◌, ◌<◌, ◌≡◌, ◌↔◌, refl, ap, sym, subst, ◌∙◌, true, false, List, [], ◌∷◌, ◌++◌,
  arith, length-take, drop, All,
}
use ip_tcp.Tcp.Ring.{window_size}
use ip_tcp.Tcp.WriteBuffer.{WriteBuffer, chunk_size, put_chunk, write_round, write_loop, waiting}
use ip_tcp.Tcp.WriteBuffer.Unsent.{IsValid}

-- On a message that is not empty, the first round of a call writes nothing exactly when `LBW` is the
-- last index, and a later round exactly when `UNA` is the index behind `LBW`.
pub chunk_size-eq_zero :
    (w : WriteBuffer) (x : ℕ) (xs : List ℕ)
    → IsValid w
    → ((chunk_size w true (x ∷ xs) ≡ 0) ↔ (w.lbw ≡ window_size - 1))
      × ((chunk_size w false (x ∷ xs) ≡ 0) ↔ (w.una ≡ (w.lbw + 1) % window_size))
chunk_size-eq_zero w x xs v =
    ((λ e. omega arith, λ e. omega arith), (λ e. omega arith, λ e. omega arith))

idle_round :
    (w : WriteBuffer) (x : ℕ) (xs : List ℕ)
    → w.lbw < window_size
    → w.una ≡ (w.lbw + 1) % window_size
    → ((write_round w false (x ∷ xs)).1 ≡ x ∷ xs) × ((write_round w false (x ∷ xs)).0.lbw ≡ w.lbw)
unfolding write_round put_chunk
idle_round w x xs hl e = (
  ap (λ n. drop n (x ∷ xs)) none_written,
  omega (arith, length-take (chunk_size w false (x ∷ xs)) (x ∷ xs)),
)
  where
    none_written : chunk_size w false (x ∷ xs) ≡ 0
    none_written = omega arith

-- Once everything that a call has written is acknowledged before its next round, the loop never
-- gets further: as long as no other thread moves `UNA` from the index behind `LBW`, any number of
-- rounds leaves the same rest of the message.
pub write_loop_stalls :
    (acked : List (ℕ × ℕ)) (w : WriteBuffer) (x : ℕ) (xs offered : List ℕ)
    → w.lbw < window_size
    → All (λ (p : ℕ × ℕ). p.0 ≡ (w.lbw + 1) % window_size) acked
    → (w' : WriteBuffer) × (offered' : List ℕ) × (write_loop acked w false (x ∷ xs) offered
        ≡ waiting w' (x ∷ xs) offered')
unfolding write_loop
write_loop_stalls [] w x xs offered hl h = (w, offered, refl)
write_loop_stalls ((una, nxt) ∷ acked) w x xs offered hl (e, h) =
    let now : WriteBuffer = record w { una = una; nxt = nxt } in
    let (same, kept) = idle_round now x xs hl e in
    let w' : WriteBuffer = (write_round now false (x ∷ xs)).0 in
    let (w'', o, p) =
      write_loop_stalls acked w' x xs (offered ++ w'.lbw ∷ []) (omega arith)
        (subst (λ l. All (λ (p : ℕ × ℕ). p.0 ≡ (l + 1) % window_size) acked) (sym kept) h) in
    (w'', o, ap (λ rest. write_loop acked w' false rest (offered ++ w'.lbw ∷ [])) same ∙ p)
