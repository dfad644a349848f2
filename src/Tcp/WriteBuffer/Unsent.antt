-- ===== src/Tcp/WriteBuffer/Unsent.antt =====
-- The bytes between `NXT` and `LBW`: what the sender takes out.
use ip_tcp.Base.{ℕ, ◌<◌, ◌≡◌, ap, ◌∙◌, List, ◌++◌, some, arith, min, sub32}
use ip_tcp.Tcp.Ring.{window_size, slice, read_ring}
use ip_tcp.Tcp.Ring.Read.{slices-read_ring}
use ip_tcp.Tcp.WriteBuffer.{WriteBuffer, amount_to_send, sender_payload}

pub record IsValid (w : WriteBuffer) : Type 0 where
  pub una_in : w.una < window_size
  pub nxt_in : w.nxt < window_size
  pub lbw_in : w.lbw < window_size

-- The bytes that were written and not sent, oldest first.
abbrev pub unsent : WriteBuffer → List ℕ
unsent w = read_ring w.buffer w.nxt (amount_to_send w w.lbw)

-- Once everything sent is acknowledged, `SenderThread` takes exactly the unsent bytes when it gets
-- the current `LBW`.
pub sender_payload-unsent :
    (w : WriteBuffer) → IsValid w → w.una ≡ w.nxt → sender_payload w w.lbw ≡ some (unsent w)
unfolding sender_payload
sender_payload-unsent w v e = ground (arith, taken)
  where
    n : ℕ
    n = amount_to_send w w.lbw

    first : ℕ
    first = min (sub32 window_size w.nxt) n

    taken : slice w.buffer w.nxt first ++ slice w.buffer 0 (sub32 n first) ≡ unsent w
    taken =
        slices-read_ring w.buffer w.nxt first (sub32 n first) (omega arith) (omega arith)
          (λ h. omega arith)
        ∙ ap (read_ring w.buffer w.nxt) (omega arith)
