-- ===== src/Tcp/ReadBuffer/Queue.antt =====
-- What a receive buffer promises: a queue of at most `WINDOW_SIZE - 1` bytes, oldest first.
use ip_tcp.Base.{ℕ, ◌+◌, ◌-◌, ◌<◌, ◌≡◌, List, length, arith}
use ip_tcp.Tcp.Ring.{window_size, read_ring}
use ip_tcp.Tcp.Ring.Read.{length-read_ring}
use ip_tcp.Tcp.ReadBuffer.{ReadBuffer, window, buffered}

pub record IsValid (r : ReadBuffer) : Type 0 where
  pub lbr_in : r.lbr < window_size
  pub nxt_in : r.nxt < window_size

-- The bytes that are received and not read, from just behind `LBR` on.
abbrev pub unread : ReadBuffer → List ℕ
unread r = read_ring r.buffer (r.lbr + 1) (buffered r)

-- The advertised window is exactly the room that is left beside the unread bytes.
pub unread-add-window :
    (r : ReadBuffer) → IsValid r → length (unread r) + window r ≡ window_size - 1
unread-add-window r v = omega (arith, length-read_ring r.buffer (r.lbr + 1) (buffered r))
