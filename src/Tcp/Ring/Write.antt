-- ===== src/Tcp/Ring/Write.antt =====
-- Writing: a copy that does not go round the end, and writes one behind the other.
use ip_tcp.Base.{
  take, drop, length-take, length-drop, take-append-drop, add32, dec_lt, ℕ, zero, suc, ◌+◌, ◌-◌,
  ◌%◌, ◌≤◌, ◌<◌, ◌≡◌, ◌≢◌, refl, sym, ap, ◌∙◌, List, [], ◌∷◌, ◌++◌, arith, length, get_or, ◌==◌,
  if◌then◌else◌,
}
use mathlib.Core.Path.{fun_ext}
use ip_tcp.Tcp.Ring.{window_size, Buffer, copy_at, update, write_ring}

-- Writing goes on where it stopped.
pub write_ring-append :
    (buf : Buffer) (p : ℕ) (xs ys : List ℕ)
    → write_ring buf p (xs ++ ys) ≡ write_ring (write_ring buf p xs) (p + length xs) ys
unfolding write_ring
write_ring-append buf p [] ys = ap (λ q. write_ring buf q ys) (omega arith)
write_ring-append buf p (x ∷ xs) ys =
    write_ring-append (update buf (p % window_size) x) (p + 1) xs ys
    ∙ ap (λ q. write_ring (write_ring (update buf (p % window_size) x) (p + 1) xs) q ys)
        (omega arith)

-- Only the position modulo `WINDOW_SIZE` counts.
pub write_ring-congr :
    (buf : Buffer) (p q : ℕ) (xs : List ℕ)
    → p % window_size ≡ q % window_size
    → write_ring buf p xs ≡ write_ring buf q xs
unfolding write_ring
write_ring-congr buf p q [] h = refl
write_ring-congr buf p q (x ∷ xs) h =
    ap (λ k. write_ring (update buf k x) (p + 1) xs) h
    ∙ write_ring-congr (update buf (q % window_size) x) (p + 1) (q + 1) xs (omega arith)

get_or-cons :
    (x : ℕ) (xs : List ℕ) (k : ℕ)
    → get_or (x ∷ xs) k 0 ≡ (if k == 0 then x else get_or xs (k - 1) 0)
get_or-cons x xs zero = refl
get_or-cons x xs (suc k) = ground (arith, ap (λ j. get_or xs j 0) (pred_suc k))
  where
    pred_suc : (k : ℕ) → suc k - 1 ≡ k
    pred_suc k = omega arith

copy_at-cons :
    (buf : Buffer) (at x : ℕ) (xs : List ℕ)
    → copy_at buf at (x ∷ xs) ≡ copy_at (update buf at x) (at + 1) xs
unfolding copy_at update
copy_at-cons buf at x xs = fun_ext (λ i. pointwise i)
  where
    pointwise : (i : ℕ) → copy_at buf at (x ∷ xs) i ≡ copy_at (update buf at x) (at + 1) xs i
    pointwise i =
        let step : get_or xs (i - at - 1) 0 ≡ get_or xs (i - (at + 1)) 0 =
          ap (λ k. get_or xs k 0) (omega arith) in
        ground (arith, get_or-cons x xs (i - at), step)

-- A copy within the buffer writes its bytes one by one.
pub copy_at-write_ring :
    (buf : Buffer) (at : ℕ) (xs : List ℕ)
    → at + length xs ≤ window_size
    → copy_at buf at xs ≡ write_ring buf at xs
unfolding write_ring
copy_at-write_ring buf at [] h = unfold copy_at in fun_ext (λ i. ground arith)
copy_at-write_ring buf at (x ∷ xs) h =
    copy_at-cons buf at x xs
    ∙ copy_at-write_ring (update buf at x) (at + 1) xs (omega arith)
    ∙ ap (λ k. write_ring (update buf k x) (at + 1) xs) (omega arith)

-- A write leaves every position that is not among its own.
pub write_ring_elsewhere :
    (buf : Buffer) (p i : ℕ) (xs : List ℕ)
    → ((k : ℕ) → k < length xs → (p + k) % window_size ≢ i)
    → write_ring buf p xs i ≡ buf i
unfolding write_ring update
write_ring_elsewhere buf p i [] h = refl
write_ring_elsewhere buf p i (x ∷ xs) h =
    write_ring_elsewhere (update buf (p % window_size) x) (p + 1) i xs (λ k hk. later k hk)
    ∙ ground (arith, h 0)
  where
    later : (k : ℕ) → k < length xs → (p + 1 + k) % window_size ≢ i
    later k hk e = h (suc k) (omega arith) (omega arith)

-- A first part that is copied, and the rest written round the buffer from behind it.
pub copy_then_write :
    (buf : Buffer) (nxt c : ℕ) (ys : List ℕ)
    → nxt + c ≤ window_size
    → c ≤ length ys
    → write_ring (copy_at buf nxt (take c ys)) (add32 nxt c % window_size) (drop c ys)
      ≡ write_ring buf nxt ys
copy_then_write buf nxt c ys hn hc =
    ap (λ b. write_ring b (add32 nxt c % window_size) (drop c ys))
      (copy_at-write_ring buf nxt (take c ys) (omega (arith, length-take c ys)))
    ∙ write_ring-congr (write_ring buf nxt (take c ys)) (add32 nxt c % window_size)
        (nxt + length (take c ys)) (drop c ys) (omega (arith, length-take c ys))
    ∙ sym (write_ring-append buf nxt (take c ys) (drop c ys))
    ∙ ap (write_ring buf nxt) (take-append-drop c ys)

write_ring-none :
    (buf : Buffer) (p q : ℕ) (ys : List ℕ)
    → length ys ≡ 0
    → write_ring buf p ys ≡ write_ring buf q ys
unfolding write_ring
write_ring-none buf p q [] h = refl
write_ring-none buf p q (y ∷ ys) h = absurd (omega arith)

-- A copy up to the end of the buffer and one of the rest from its start are one write round it.
pub copies-write_ring :
    (buf : Buffer) (p c : ℕ) (ys : List ℕ)
    → p + c ≤ window_size
    → c ≤ length ys
    → length ys ≤ window_size
    → (c < length ys → p + c ≡ window_size)
    → copy_at (copy_at buf p (take c ys)) 0 (drop c ys) ≡ write_ring buf p ys
copies-write_ring buf p c ys hp hc hl full =
    copy_at-write_ring (copy_at buf p (take c ys)) 0 (drop c ys) (omega (arith, length-drop c ys))
    ∙ wraps
    ∙ copy_then_write buf p c ys hp hc
  where
    wraps :
        write_ring (copy_at buf p (take c ys)) 0 (drop c ys)
        ≡ write_ring (copy_at buf p (take c ys)) (add32 p c % window_size) (drop c ys)
    wraps = elim (dec_lt c (length ys)) [
      | yes h ↦ write_ring-congr _ 0 _ (drop c ys) (omega (arith, full h))
      | no h ↦ write_ring-none _ 0 _ (drop c ys) (omega (arith, length-drop c ys))
    ]
