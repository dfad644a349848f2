-- ===== src/Tcp/Ring/Read.antt =====
-- Reading: a slice that does not go round the end, parts of a read, and reads after writes.
use ip_tcp.Base.{
  ℕ, zero, suc, ◌+◌, ◌-◌, ◌%◌, ◌≤◌, ◌<◌, ◌≡◌, refl, sym, ap, ap₂, subst, ◌∙◌, List, [], ◌∷◌, ◌++◌,
  arith, length, take, drop, min, dec_lt,
}
use ip_tcp.Tcp.Ring.{window_size, Buffer, slice, update, write_ring, read_ring}
use ip_tcp.Tcp.Ring.Write.{write_ring_elsewhere}

pub length-read_ring : (buf : Buffer) (p n : ℕ) → length (read_ring buf p n) ≡ n
unfolding read_ring
length-read_ring buf p zero = refl
length-read_ring buf p (suc n) = ap suc (length-read_ring buf (p + 1) n)

-- Only the position modulo `WINDOW_SIZE` counts.
pub read_ring-congr :
    (buf : Buffer) (p q n : ℕ)
    → p % window_size ≡ q % window_size
    → read_ring buf p n ≡ read_ring buf q n
unfolding read_ring
read_ring-congr buf p q zero h = refl
read_ring-congr buf p q (suc n) h =
    ap₂ ◌∷◌ (ap buf h) (read_ring-congr buf (p + 1) (q + 1) n (omega arith))

-- A read of no byte, wherever it starts.
pub read_ring-none :
    (buf : Buffer) (p q m n : ℕ) → m ≡ 0 → n ≡ 0 → read_ring buf p m ≡ read_ring buf q n
unfolding read_ring
read_ring-none buf p q m n hm hn = ap (read_ring buf p) hm ∙ sym (ap (read_ring buf q) hn)

-- A slice within the buffer reads its bytes one by one.
pub slice-read_ring :
    (buf : Buffer) (at n : ℕ) → at + n ≤ window_size → slice buf at n ≡ read_ring buf at n
unfolding slice read_ring
slice-read_ring buf at zero h = refl
slice-read_ring buf at (suc n) h =
    ap₂ ◌∷◌ (ap buf (omega arith)) (slice-read_ring buf (at + 1) n (omega arith))

-- Two reads, one behind the other.
pub read_ring-add :
    (buf : Buffer) (p m n : ℕ)
    → read_ring buf p (m + n) ≡ read_ring buf p m ++ read_ring buf (p + m) n
unfolding read_ring
read_ring-add buf p zero n = ap₂ (read_ring buf) (omega arith) (omega arith)
read_ring-add buf p (suc m) n =
    ap (read_ring buf p) (suc_add m n)
    ∙ ap (λ t. buf (p % window_size) ∷ t)
        (read_ring-add buf (p + 1) m n
          ∙ ap (λ q. read_ring buf (p + 1) m ++ read_ring buf q n) (omega arith))
  where
    suc_add : (m n : ℕ) → suc m + n ≡ suc (m + n)
    suc_add m n = omega arith

-- A slice up to the end of the buffer and one from its start are one read round it.
pub slices-read_ring :
    (buf : Buffer) (p first second : ℕ)
    → p + first ≤ window_size
    → second ≤ window_size
    → (0 < second → p + first ≡ window_size)
    → slice buf p first ++ slice buf 0 second ≡ read_ring buf p (first + second)
slices-read_ring buf p first second hf hs full =
    ap₂ ◌++◌ (slice-read_ring buf p first hf) (slice-read_ring buf 0 second (omega arith) ∙ wraps)
    ∙ sym (read_ring-add buf p first second)
  where
    wraps : read_ring buf 0 second ≡ read_ring buf (p + first) second
    wraps = elim (dec_lt 0 second) [
      | yes h ↦ read_ring-congr buf 0 (p + first) second (omega (arith, full h))
      | no h ↦ read_ring-none buf 0 (p + first) second second (omega arith) (omega arith)
    ]

-- The first bytes of a read, and what is left of it.
pub take-read_ring :
    (buf : Buffer) (m p n : ℕ) → take m (read_ring buf p n) ≡ read_ring buf p (min m n)
unfolding read_ring
take-read_ring buf zero p n = ap (read_ring buf p) (zero_min n)
  where
    zero_min : (n : ℕ) → 0 ≡ min 0 n
    zero_min n = omega arith
take-read_ring buf (suc m) p zero = ap (read_ring buf p) (min_zero (suc m))
  where
    min_zero : (m : ℕ) → 0 ≡ min m 0
    min_zero m = omega arith
take-read_ring buf (suc m) p (suc n) =
    ap (λ t. buf (p % window_size) ∷ t) (take-read_ring buf m (p + 1) n)
    ∙ ap (read_ring buf p) (suc_min m n)
  where
    suc_min : (m n : ℕ) → suc (min m n) ≡ min (suc m) (suc n)
    suc_min m n = omega arith

pub drop-read_ring :
    (buf : Buffer) (m p n : ℕ) → drop m (read_ring buf p n) ≡ read_ring buf (p + m) (n - m)
unfolding read_ring
drop-read_ring buf zero p n = ap₂ (read_ring buf) (omega arith) (omega arith)
drop-read_ring buf (suc m) p zero = ap (read_ring buf (p + suc m)) (zero_sub (suc m))
  where
    zero_sub : (m : ℕ) → 0 ≡ 0 - m
    zero_sub m = omega arith
drop-read_ring buf (suc m) p (suc n) =
    drop-read_ring buf m (p + 1) n ∙ ap₂ (read_ring buf) (omega arith) (omega arith)

-- Buffers that agree on the positions of a read.
read_ring-agree :
    (b c : Buffer) (p n : ℕ)
    → ((k : ℕ) → k < n → b ((p + k) % window_size) ≡ c ((p + k) % window_size))
    → read_ring b p n ≡ read_ring c p n
unfolding read_ring
read_ring-agree b c p zero h = refl
read_ring-agree b c p (suc n) h = ap₂ ◌∷◌ (subst (λ k. b k ≡ c k) (here p) (h 0 (omega arith))) (
    read_ring-agree b c (p + 1) n
      (λ k hk. subst (λ i. b i ≡ c i) (later p k) (h (suc k) (omega arith))))
  where
    here : (p : ℕ) → (p + 0) % window_size ≡ p % window_size
    here p = omega arith

    later : (p k : ℕ) → (p + suc k) % window_size ≡ (p + 1 + k) % window_size
    later p k = omega arith

-- Bytes that a write does not reach are read as before.
pub read_ring-write_ring_before :
    (buf : Buffer) (p n : ℕ) (xs : List ℕ)
    → n + length xs ≤ window_size
    → read_ring (write_ring buf (p + n) xs) p n ≡ read_ring buf p n
read_ring-write_ring_before buf p n xs h =
    read_ring-agree _ buf p n
      (λ k hk. write_ring_elsewhere buf (p + n) _ xs (λ j hj e. omega arith))

-- What was written is read back, unless it is longer than the buffer.
pub read_ring-write_ring :
    (buf : Buffer) (p : ℕ) (xs : List ℕ)
    → length xs ≤ window_size
    → read_ring (write_ring buf p xs) p (length xs) ≡ xs
unfolding read_ring write_ring update
read_ring-write_ring buf p [] h = refl
read_ring-write_ring buf p (x ∷ xs) h =
    ap₂ ◌∷◌ first (read_ring-write_ring (update buf (p % window_size) x) (p + 1) xs (omega arith))
  where
    first : write_ring (update buf (p % window_size) x) (p + 1) xs (p % window_size) ≡ x
    first =
        write_ring_elsewhere (update buf (p % window_size) x) (p + 1) (p % window_size) xs
          (λ k hk e. omega arith)
        ∙ ground arith

-- A read that goes on into what was written behind its start.
pub read_after_write :
    (buf : Buffer) (p n : ℕ) (xs : List ℕ)
    → n + length xs ≤ window_size
    → read_ring (write_ring buf (p + n) xs) p (n + length xs) ≡ read_ring buf p n ++ xs
read_after_write buf p n xs h =
    read_ring-add (write_ring buf (p + n) xs) p n (length xs)
    ∙ ap₂ ◌++◌ (read_ring-write_ring_before buf p n xs h)
        (read_ring-write_ring buf (p + n) xs (omega arith))
