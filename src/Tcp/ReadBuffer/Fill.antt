-- ===== src/Tcp/ReadBuffer/Fill.antt =====
-- The copying loop writes the payload round the buffer, within the fuel that it is given.
use ip_tcp.Base.{
  ℕ, zero, suc, ◌+◌, ◌%◌, ◌≤◌, ◌<◌, ◌≡◌, ap, ap₂, ◌∙◌, List, [], ◌∷◌, some, arith, length, drop,
  min, length-drop, sub32, add32,
}
use ip_tcp.Tcp.Ring.{window_size, Buffer, write_ring}
use ip_tcp.Tcp.Ring.Write.{copy_then_write}
use native.Mathlib.Nat.{le_refl}
use ip_tcp.Tcp.ReadBuffer.{ReadBuffer, ring_dist, fill, insert_payload}

-- Whatever its length, the payload goes to the positions from `nxt` on, and `NXT` ends behind it.
pub fill-write_ring :
    (fuel : ℕ) (buf : Buffer) (nxt : ℕ) (xs : List ℕ)
    → nxt < window_size
    → length xs ≤ fuel
    → fill fuel buf nxt xs ≡ some (write_ring buf nxt xs, (nxt + length xs) % window_size)
unfolding fill
fill-write_ring fuel buf nxt [] hn hf =
    unfold write_ring in ap (λ p. some (buf, p)) (no_move nxt hn)
  where
    no_move : (n : ℕ) → n < window_size → n ≡ (n + 0) % window_size
    no_move n h = omega arith
fill-write_ring zero buf nxt (x ∷ xs) hn hf = absurd (omega arith)
fill-write_ring (suc fuel) buf nxt (x ∷ xs) hn hf =
    fill-write_ring fuel _ _ (drop c (x ∷ xs)) (omega arith) (omega (arith, length-drop c (x ∷ xs)))
    ∙ ap₂ (λ (b : Buffer) (p : ℕ). some (b, p))
        (copy_then_write buf nxt c (x ∷ xs) (omega arith) (omega arith))
        (omega (arith, length-drop c (x ∷ xs)))
  where
    c : ℕ
    c = min (sub32 window_size nxt) (length (x ∷ xs))

pub insert_payload-write_ring :
    (r : ReadBuffer) (base_ack seq : ℕ) (payload : List ℕ)
    → r.nxt < window_size
    → insert_payload r base_ack seq payload
      ≡ some (
        record r {
          buffer = write_ring r.buffer r.nxt payload;
          nxt = ring_dist (add32 seq (length payload)) base_ack;
        },
        add32 seq (length payload),
      )
unfolding insert_payload
insert_payload-write_ring r base_ack seq payload h = rw (
  fill-write_ring (length payload) r.buffer r.nxt payload h (le_refl (length payload)),
  insert_payload,
)
