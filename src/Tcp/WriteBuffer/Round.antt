-- ===== src/Tcp/WriteBuffer/Round.antt =====
-- A round of `VWrite` appends its chunk to the unsent bytes.
use ip_tcp.Base.{
  ℕ, ◌+◌, ◌%◌, ◌≤◌, ◌<◌, ◌≡◌, refl, sym, ap, ◌∙◌, Bool, List, ◌++◌, arith, length, length-take,
  take, take-append-drop, add32,
}
use ip_tcp.Tcp.Ring.{window_size, write_ring, read_ring}
use ip_tcp.Tcp.Ring.Write.{copies-write_ring, write_ring-congr}
use ip_tcp.Tcp.Ring.Read.{length-read_ring, read_after_write}
use ip_tcp.Tcp.WriteBuffer.{
  WriteBuffer, max_chunk, chunk_size, put_chunk, write_round, amount_to_send,
}
use ip_tcp.Tcp.WriteBuffer.Unsent.{IsValid, unsent}

put_chunk-write_ring :
    (w : WriteBuffer) (chunk : List ℕ)
    → w.lbw < window_size
    → length chunk < window_size
    → (put_chunk w chunk).buffer ≡ write_ring w.buffer (w.lbw + 1) chunk
unfolding put_chunk
put_chunk-write_ring w chunk hl hc =
    copies-write_ring w.buffer (w.lbw + 1) _ chunk (omega arith) (omega arith) (omega arith)
      (λ h. omega arith)

amount_grows :
    (w : WriteBuffer) (n : ℕ)
    → IsValid w
    → amount_to_send w w.lbw + n < window_size
    → amount_to_send w (add32 w.lbw n % window_size) ≡ amount_to_send w w.lbw + n
amount_grows w n v h = omega arith

-- The bytes of a chunk are appended to the unsent ones, if they fit beside them.
pub put_chunk-unsent :
    (w : WriteBuffer) (chunk : List ℕ)
    → IsValid w
    → amount_to_send w w.lbw + length chunk < window_size
    → (unsent (put_chunk w chunk) ≡ unsent w ++ chunk) × IsValid (put_chunk w chunk)
unfolding put_chunk
put_chunk-unsent w chunk v h = (
  ap (λ b. read_ring b w.nxt (amount_to_send w moved))
        (put_chunk-write_ring w chunk v.lbw_in (omega arith))
      ∙ ap (read_ring (write_ring w.buffer (w.lbw + 1) chunk) w.nxt)
          (amount_grows w (length chunk) v h)
      ∙ ap (λ b. read_ring b w.nxt (amount_to_send w w.lbw + length chunk))
          (write_ring-congr w.buffer (w.lbw + 1) (w.nxt + amount_to_send w w.lbw) chunk
            (omega arith))
      ∙ read_after_write w.buffer w.nxt (amount_to_send w w.lbw) chunk (omega arith),
  record { una_in = v.una_in; nxt_in = v.nxt_in; lbw_in = omega arith },
)
  where
    moved : ℕ
    moved = add32 w.lbw (length chunk) % window_size

-- A round of `VWrite` splits off the front of the message that is left, at most 1360 bytes of it,
-- and appends it to the unsent bytes, when fewer than `WINDOW_SIZE - 1360` bytes are unsent.
pub write_round-unsent :
    (w : WriteBuffer) (first : Bool) (rest : List ℕ)
    → IsValid w
    → length (unsent w) + max_chunk < window_size
    → let (w', rest') = write_round w first rest in
      (chunk : List ℕ) × (rest ≡ chunk ++ rest')
      × (unsent w' ≡ unsent w ++ chunk)
      × (length chunk ≤ max_chunk)
      × (w'.una ≡ w.una)
      × (w'.nxt ≡ w.nxt)
      × IsValid w'
unfolding write_round put_chunk
write_round-unsent w first rest v h =
    let n = chunk_size w first rest in
    let (u, v') = put_chunk-unsent w (take n rest) v (
      omega
        (arith, length-take n rest, length-read_ring w.buffer w.nxt (amount_to_send w w.lbw))) in
    (
      take n rest,
      sym (take-append-drop n rest),
      u,
      omega (arith, length-take n rest),
      refl,
      refl,
      v',
    )
