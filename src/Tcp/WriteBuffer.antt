-- ===== src/Tcp/WriteBuffer.antt =====
-- The send buffer of a socket: `VWrite`, round by round, and what `SenderThread` takes out.
pub mod Unsent
pub mod Round
pub mod Stall
pub mod Pipe
mod Tests
use ip_tcp.Base.{
  ℕ, zero, suc, ◌+◌, ◌-◌, ◌%◌, ◌<◌, Bool, true, false, not, ◌||◌, List, [], ◌∷◌, ◌++◌, Option, none,
  some, leb, ltb, ◌==◌, if◌then◌else◌, length, take, drop, min, add32, sub32,
}
use ip_tcp.Tcp.Ring.{window_size, Buffer, copy_at, slice}
use ip_tcp.Tcp.State.{State, refuses_write}
use ip_tcp.Tcp.ReadBuffer.{ring_dist}

pub record WriteBuffer : Type 0 where
  pub buffer : Buffer
  pub una : ℕ  -- uint32
  pub nxt : ℕ  -- uint32
  pub lbw : ℕ  -- uint32

-- `&WriteBuffer{...}` of `VConnect` and `VAccept`.
abbrev pub new_write : WriteBuffer
new_write = record { buffer = λ i. 0; una = 1; nxt = 1; lbw = 0 }

-- `node.MaxMessageSize-40`
abbrev pub max_chunk : ℕ
max_chunk = 1360

-- `space`: the first round of a call looks only at the end of the buffer, whether the socket was
-- written before or not.
abbrev pub space : WriteBuffer → Bool → ℕ
space w first = if first then sub32 (window_size - 1) w.lbw else ring_dist (sub32 w.una 1) w.lbw

-- `to_write`, for the part of the message that is left.
abbrev pub chunk_size : WriteBuffer → Bool → List ℕ → ℕ
chunk_size w first rest = min (min (length rest) (space w first)) max_chunk

-- The two `copy` calls of a round, and the move of `LBW`.
unfoldable pub put_chunk : WriteBuffer → List ℕ → WriteBuffer
put_chunk w chunk =
    let first_seg = min (sub32 (sub32 window_size w.lbw) 1) (length chunk) in
    record w {
      buffer =
          copy_at (copy_at w.buffer (w.lbw + 1) (take first_seg chunk)) 0 (drop first_seg chunk);
      lbw = add32 w.lbw (length chunk) % window_size;
    }

-- One round of the loop: the buffer after it and the part of the message that is left. The new `LBW`
-- is then offered to `writeChan`.
unfoldable pub write_round : WriteBuffer → Bool → List ℕ → WriteBuffer × List ℕ
write_round w first rest =
    let n = chunk_size w first rest in (put_chunk w (take n rest), drop n rest)

pub data WriteResult : Type 0 where
  closed : WriteResult
  waiting : WriteBuffer → List ℕ → List ℕ → WriteResult
  done : WriteBuffer → List ℕ → WriteResult

-- The loop of `VWrite`. While a round waits for `SenderThread` to take its `LBW`, that thread moves
-- `UNA` and `NXT`: `acked` holds their values at the rounds to come. `offered` are the values given
-- to `writeChan`. A call that is not through when `acked` ends is `waiting`.
unfoldable pub write_loop : List (ℕ × ℕ) → WriteBuffer → Bool → List ℕ → List ℕ → WriteResult
write_loop acked w first [] offered = done w offered
write_loop [] w first (x ∷ xs) offered = waiting w (x ∷ xs) offered
write_loop ((una, nxt) ∷ acked) w first (x ∷ xs) offered =
    let (w', rest) = write_round (record w { una = una; nxt = nxt }) first (x ∷ xs) in
    write_loop acked w' false rest (offered ++ w'.lbw ∷ [])

-- `VWrite`
unfoldable pub v_write : State → List (ℕ × ℕ) → WriteBuffer → List ℕ → WriteResult
unfolding write_loop write_round put_chunk
v_write state acked w message =
    if refuses_write state then closed else write_loop acked w true message []

-- `(lbw - NXT + 1 + WINDOW_SIZE) % WINDOW_SIZE`
abbrev pub amount_to_send : WriteBuffer → ℕ → ℕ
amount_to_send w lbw = add32 (add32 (sub32 lbw w.nxt) 1) window_size % window_size

-- The payload that `SenderThread` gives to `slidingWindow` for a value of `writeChan`, if its test
-- of the distances from `UNA` passes.
unfoldable pub sender_payload : WriteBuffer → ℕ → Option (List ℕ)
sender_payload w lbw =
    let amount = amount_to_send w lbw in
    let first_seg = min (sub32 window_size w.nxt) amount in
    let second_seg = sub32 amount first_seg in
    if leb (sub32 w.nxt w.una % window_size) (sub32 lbw w.una % window_size)
    then some (slice w.buffer w.nxt first_seg ++ slice w.buffer 0 second_seg)
    else none
