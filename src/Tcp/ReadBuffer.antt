-- ===== src/Tcp/ReadBuffer.antt =====
-- The receive buffer of a socket: the pointers `LBR` and `NXT`, the window that is advertised, the
-- copying of a payload by `ReceiverThread`, and `VRead`.
pub mod Queue
pub mod Fill
pub mod Refine
pub mod Stream
mod Tests
use ip_tcp.Base.{
  ℕ, zero, suc, ◌+◌, ◌-◌, ◌%◌, ◌<◌, Bool, true, false, List, [], ◌∷◌, ◌++◌, Option, none, some, leb,
  ltb, ◌==◌, if◌then◌else◌, length, take, drop, min, add32, sub32, u16,
}
use ip_tcp.Tcp.Ring.{window_size, Buffer, copy_at, slice}
use ip_tcp.Tcp.State.{State, refuses_read}

pub record ReadBuffer : Type 0 where
  pub buffer : Buffer
  pub lbr : ℕ  -- uint32
  pub nxt : ℕ  -- uint32

-- `&ReadBuffer{...}` of `VConnect` and `VAccept`.
abbrev pub new_read : ReadBuffer
new_read = record { buffer = λ i. 0; lbr = 0; nxt = 1 }

-- `(a - b + WINDOW_SIZE) % WINDOW_SIZE` on uint32.
abbrev pub ring_dist : ℕ → ℕ → ℕ
ring_dist a b = add32 (sub32 a b) window_size % window_size

-- `uint16((LBR - NXT + WINDOW_SIZE) % WINDOW_SIZE)`
abbrev pub window : ReadBuffer → ℕ
window r = u16 (ring_dist r.lbr r.nxt)

-- `(NXT - 1 - LBR + WINDOW_SIZE) % WINDOW_SIZE`
abbrev pub buffered : ReadBuffer → ℕ
buffered r = ring_dist (sub32 r.nxt 1) r.lbr

-- The loop `for to_add > 0`, on the payload that is left. `none` means that the fuel ran out.
unfoldable pub fill : ℕ → Buffer → ℕ → List ℕ → Option (Buffer × ℕ)
fill fuel buf nxt [] = some (buf, nxt)
fill zero buf nxt (x ∷ xs) = none
fill (suc fuel) buf nxt (x ∷ xs) =
    let curr = min (sub32 window_size nxt) (length (x ∷ xs)) in
    fill fuel (copy_at buf nxt (take curr (x ∷ xs))) (add32 nxt curr % window_size)
      (drop curr (x ∷ xs))

-- The copying of a payload that starts at sequence number `seq`: the buffer and `cumReadNXT` after
-- it. The loop takes a byte at least in each round, so `length payload` rounds are enough.
unfoldable pub insert_payload : ReadBuffer → ℕ → ℕ → List ℕ → Option (ReadBuffer × ℕ)
insert_payload r base_ack seq payload =
    let cum_read_nxt = add32 seq (length payload) in
    elim (fill (length payload) r.buffer r.nxt payload) [
      | none ↦ none
      | some (buf, _) ↦
          some (record r { buffer = buf; nxt = ring_dist cum_read_nxt base_ack }, cum_read_nxt)
    ]

-- Where `VRead` puts what it reads: the terminal, or a file, whose `Write` succeeds or not.
pub data Sink : Type 0 where
  terminal : Sink
  file : Bool → Sink

pub data ReadResult : Type 0 where
  closed : ReadResult
  blocked : ReadResult
  write_failed : List ℕ → ReadResult
  done : List ℕ → ReadBuffer → ReadResult

abbrev pub accepts : Sink → Bool
accepts terminal = true
accepts (file ok) = ok

-- `toRead`, the `num_read` bytes behind `LBR`: up to the end of the buffer, then from its start.
unfoldable pub read_segments : ReadBuffer → ℕ → List ℕ
read_segments r num_read =
    let first_seg = min (add32 r.lbr num_read) (window_size - 1) in
    let second_seg = sub32 num_read (sub32 first_seg r.lbr) in
    slice r.buffer (r.lbr + 1) (first_seg - r.lbr) ++ slice r.buffer 0 second_seg

-- `VRead`; `blocked` where it waits for `readCond` with nothing to read.
unfoldable pub v_read : State → ReadBuffer → ℕ → Sink → ReadResult
v_read state r numbytes sink =
    let num_read = min (buffered r) numbytes in
    let to_read = read_segments r num_read in
    if refuses_read state
    then closed
    else if buffered r == 0
    then blocked
    else if accepts sink
    then done to_read (record r { lbr = add32 r.lbr num_read % window_size })
    else write_failed to_read
