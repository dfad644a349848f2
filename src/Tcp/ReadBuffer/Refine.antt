-- ===== src/Tcp/ReadBuffer/Refine.antt =====
-- The receive buffer behaves as the queue of its unread bytes.
use ip_tcp.Base.{
  ℕ, ◌+◌, ◌-◌, ◌%◌, ◌≤◌, ◌<◌, ◌≡◌, ◌≢◌, refl, sym, ap, ap₂, ◌∙◌, false, true, List, ◌++◌, some,
  arith, length, take, drop, min, sub32, add32, IsU32, u16, dec_lt,
}
use ip_tcp.Tcp.Ring.Write.{write_ring-congr}
use ip_tcp.Tcp.Ring.{window_size, write_ring, read_ring}
use ip_tcp.Tcp.Ring.Read.{
  read_ring-congr, read_ring-none, slices-read_ring, read_after_write, take-read_ring,
  drop-read_ring,
}
use ip_tcp.Tcp.State.{State, refuses_read}
use ip_tcp.Tcp.ReadBuffer.{
  ReadBuffer, ring_dist, window, buffered, insert_payload, Sink, accepts, done, write_failed,
  read_segments, v_read,
}
use ip_tcp.Tcp.ReadBuffer.Queue.{IsValid, unread}
use ip_tcp.Tcp.ReadBuffer.Fill.{insert_payload-write_ring}

-- `NXT` is where the byte with sequence number `seq` goes.
abbrev pub Follows : ReadBuffer → ℕ → ℕ → Type 0
Follows r base_ack seq = r.nxt ≡ ring_dist seq base_ack

nxt_moves :
    (seq base n : ℕ)
    → IsU32 base
    → IsU32 seq
    → ring_dist (add32 seq n) base ≡ (ring_dist seq base + n) % window_size
nxt_moves seq base n hb hs = omega arith

buffered_grows :
    (lbr nxt n : ℕ)
    → lbr < window_size
    → nxt < window_size
    → n ≤ u16 (ring_dist lbr nxt)
    → ring_dist (sub32 ((nxt + n) % window_size) 1) lbr ≡ ring_dist (sub32 nxt 1) lbr + n
buffered_grows lbr nxt n hl hn h = omega arith

-- A payload that starts at the next sequence number and fits the advertised window is appended to
-- the unread bytes, whole; the acknowledgement number moves behind it, `NXT` follows, and the
-- copying loop ends.
pub insert_payload_refines :
    (r : ReadBuffer) (base_ack seq : ℕ) (payload : List ℕ)
    → IsValid r
    → IsU32 base_ack
    → IsU32 seq
    → Follows r base_ack seq
    → length payload ≤ window r
    → (r' : ReadBuffer) × (insert_payload r base_ack seq payload
        ≡ some (r', add32 seq (length payload)))
      × (unread r' ≡ unread r ++ payload)
      × IsValid r'
      × Follows r' base_ack (add32 seq (length payload))
unfolding insert_payload
insert_payload_refines r base_ack seq payload v hb hs fo fits = (
  record r {
    buffer = write_ring r.buffer r.nxt payload;
    nxt = ring_dist (add32 seq (length payload)) base_ack;
  },
  insert_payload-write_ring r base_ack seq payload v.nxt_in,
  ap (read_ring (write_ring r.buffer r.nxt payload) (r.lbr + 1)) longer
      ∙ ap (λ b. read_ring b (r.lbr + 1) (buffered r + length payload))
          (write_ring-congr r.buffer r.nxt (r.lbr + 1 + buffered r) payload (omega arith))
      ∙ read_after_write r.buffer (r.lbr + 1) (buffered r) payload (omega arith),
  record { lbr_in = v.lbr_in; nxt_in = omega arith },
  refl,
)
  where
    longer :
        ring_dist (sub32 (ring_dist (add32 seq (length payload)) base_ack) 1) r.lbr
        ≡ buffered r + length payload
    longer =
        ap (λ n. ring_dist (sub32 n 1) r.lbr)
          (nxt_moves seq base_ack (length payload) hb hs
            ∙ ap (λ n. (n + length payload) % window_size) (sym fo))
        ∙ buffered_grows r.lbr r.nxt (length payload) v.lbr_in v.nxt_in fits

min_comm : (a b : ℕ) → min a b ≡ min b a
min_comm a b = omega arith

read_segments-read_ring :
    (r : ReadBuffer) (n : ℕ)
    → r.lbr < window_size
    → n < window_size
    → read_segments r n ≡ read_ring r.buffer (r.lbr + 1) n
unfolding read_segments
read_segments-read_ring r n hl hn =
    slices-read_ring r.buffer (r.lbr + 1) first (sub32 n (sub32 last r.lbr)) (omega arith)
      (omega arith) (λ h. omega arith)
    ∙ ap (read_ring r.buffer (r.lbr + 1)) (omega arith)
  where
    last : ℕ
    last = min (add32 r.lbr n) (window_size - 1)

    first : ℕ
    first = last - r.lbr

lbr_moves :
    (r : ReadBuffer) (n : ℕ)
    → IsValid r
    → n ≤ buffered r
    → unread (record r { lbr = add32 r.lbr n % window_size })
      ≡ read_ring r.buffer (r.lbr + 1 + n) (buffered r - n)
lbr_moves r n v h =
    ap (read_ring r.buffer (add32 r.lbr n % window_size + 1)) (omega arith)
    ∙ read_ring-congr r.buffer _ _ (buffered r - n) (omega arith)

-- What `VRead` does in a state that allows reading, with something to read: it takes the oldest
-- `numbytes` unread bytes, or all of them, and leaves the rest; only a failing `Write` keeps the
-- bytes unread.
pub v_read_refines :
    (state : State) (r : ReadBuffer) (numbytes : ℕ) (sink : Sink)
    → IsValid r
    → refuses_read state ≡ false
    → buffered r ≢ 0
    → let out = take numbytes (unread r) in
      ((accepts sink ≡ false) → v_read state r numbytes sink ≡ write_failed out)
      × ((accepts sink ≡ true)
          → (r' : ReadBuffer) × (v_read state r numbytes sink ≡ done out r')
            × (unread r' ≡ drop numbytes (unread r))
            × (r'.nxt ≡ r.nxt)
            × IsValid r')
unfolding v_read
v_read_refines state r numbytes sink v hr hb = (
  λ f. ground (arith, segments),
  λ t. (
    record r { lbr = add32 r.lbr n % window_size },
    ground (arith, segments),
    left,
    refl,
    record { lbr_in = omega arith; nxt_in = v.nxt_in },
  ),
)
  where
    n : ℕ
    n = min (buffered r) numbytes

    segments : read_segments r n ≡ take numbytes (unread r)
    segments =
        read_segments-read_ring r n v.lbr_in (omega arith)
        ∙ ap (read_ring r.buffer (r.lbr + 1)) (min_comm (buffered r) numbytes)
        ∙ sym (take-read_ring r.buffer numbytes (r.lbr + 1) (buffered r))

    rest :
        read_ring r.buffer (r.lbr + 1 + n) (buffered r - n)
        ≡ read_ring r.buffer (r.lbr + 1 + numbytes) (buffered r - numbytes)
    rest = elim (dec_lt numbytes (buffered r)) [
      | yes h ↦ ap₂ (read_ring r.buffer) (omega arith) (omega arith)
      | no h ↦ read_ring-none r.buffer _ _ _ _ (omega arith) (omega arith)
    ]

    left : unread (record r { lbr = add32 r.lbr n % window_size }) ≡ drop numbytes (unread r)
    left =
        lbr_moves r n v (omega arith)
        ∙ rest
        ∙ sym (drop-read_ring r.buffer numbytes (r.lbr + 1) (buffered r))
