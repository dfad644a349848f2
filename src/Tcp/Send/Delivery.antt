-- ===== src/Tcp/Send/Delivery.antt =====
-- Every interleaving of a call of `slidingWindow` with the receiver and the retransmission timer.
use ip_tcp.Base.{
  ℕ, ◌+◌, ◌-◌, ◌%◌, ◌≤◌, ◌<◌, ◌≡◌, ◌≢◌, refl, sym, ap, ◌∙◌, subst, List, [], ◌++◌, some, arith,
  append-nil, length, length-append, length-nil, length-take, take, drop, take-append-drop, min,
  All,
}
use ip_tcp.Base.Table.{lookup, nat_eq}
use ip_tcp.Tcp.Ring.{window_size}
use ip_tcp.Tcp.Socket.{NormalSocket}
use ip_tcp.Tcp.Send.{start, mss, panics, sending}
use ip_tcp.Tcp.Send.Segments.{payloads, IsSegment}
use ip_tcp.Tcp.Send.Progress.{Pointers, Inv, PartInv, sending-PartInv, seq_nxt-Pointers, total}
use ip_tcp.Tcp.Send.Steps.{Run, Reach}
use ip_tcp.Tcp.Send.Kept.{Holding, Reach-Inv}

-- A socket with nothing in flight: the pointers and the sequence numbers agree, and no number beyond
-- the next one waits for its acknowledgement.
pub record IsReady (s : NormalSocket) : Type 0 where
  pub based : s.base_seq ≤ s.cum_write_una
  pub una : s.write_buffer.una ≡ (s.cum_write_una - s.base_seq) % window_size
  pub nxt : s.write_buffer.nxt ≡ s.write_buffer.una
  pub keys : (k v : ℕ) → lookup k s.unacked_nums ≡ some v → k ≤ s.cum_write_una

abbrev pub starting : NormalSocket → List ℕ → Run
starting s payload = record { transfer = start s payload; sent = []; again = [] }

module _ (s : NormalSocket) (payload : List ℕ) (ready : IsReady s)
    (short : length payload < window_size)
    (fits : s.cum_write_una + length payload < 4294967296) where
  start-Pointers : Pointers s.base_seq s.cum_write_una s s.cum_write_una
  start-Pointers = record {
    base_kept = refl;
    una = ready.una;
    nxt = ready.nxt ∙ ready.una;
    lower = omega arith;
    upper = omega arith;
    keys = ready.keys;
  }

  start-Inv : Inv payload s.base_seq s.cum_write_una short fits ready.based (start s payload) [] []
  start-Inv = record {
    pending = take n payload;
    bytes = take-append-drop n payload;
    pending_size = omega (arith, length-take n payload);
    in_tail = λ h. (
      refl,
      omega (
        arith,
        seq_nxt-Pointers payload s.base_seq s.cum_write_una short fits ready.based s s.cum_write_una
            start-Pointers (omega arith),
      ),
      λ e. cc,
    );
    pointers = subst (Pointers s.base_seq s.cum_write_una s) (omega arith) start-Pointers;
    counts = omega arith;
    sent_hold = tt;
    again_hold = tt;
    tail_holds = record {
      before = [];
      after = drop n payload;
      bytes = take-append-drop n payload;
      numbered = omega arith;
    };
    nodes_hold = tt;
  }
    where
      n : ℕ
      n = min (min mss (length payload)) s.client_window_size

  -- While a payload is sent from a socket with nothing in flight, in whatever order the loop,
  -- acknowledgements, the receiver and the retransmission timer come, and whatever window the
  -- client announces, as long as no zero window is probed: every segment that is sent or sent
  -- again is a part of the payload, under the sequence number of its first byte; sending never
  -- panics; and when the loop ends, the segments that were sent make up the payload, in order,
  -- all of it is acknowledged, and `UNA` and `NXT` agree. The payload is shorter than the buffer
  -- and its sequence numbers do not wrap.
  pub Reach-delivered :
      {r : Run}
      → Reach (starting s payload) r
      → All (IsSegment payload s.cum_write_una) r.sent
        × All (IsSegment payload s.cum_write_una) r.again
        × (sending r.transfer ≢ panics)
        × (length payload ≤ r.transfer.bytes_sent
            → (payloads r.sent ≡ payload)
              × (r.transfer.sock.cum_write_una ≡ s.cum_write_una + length payload)
              × (r.transfer.sock.write_buffer.una ≡ r.transfer.sock.write_buffer.nxt))
  unfolding Holding PartInv
  Reach-delivered {r} reach = (
    i.sent_hold,
    i.again_hold,
    λ e.
        subst (PartInv payload s.base_seq s.cum_write_una short fits ready.based r.sent r.again) e (
          sending-PartInv payload s.base_seq s.cum_write_una short fits ready.based r.transfer
            r.sent r.again i),
    λ h. (
      sym (append-nil (payloads r.sent))
          ∙ ap (λ l. payloads r.sent ++ l)
              (sym (
                length-nil (i.pending ++ r.transfer.rest) (
                  omega (
                    arith,
                    length-append i.pending r.transfer.rest,
                    counted,
                    i.counts,
                    i.pointers.upper,
                  ))))
          ∙ i.bytes,
      omega (arith, counted, i.counts, i.pointers.upper),
      i.pointers.una
          ∙ ap (λ n. (n - s.base_seq) % window_size)
              (omega (arith, counted, i.counts, i.pointers.upper))
          ∙ sym i.pointers.nxt,
    ),
  )
    where
      i : Inv payload s.base_seq s.cum_write_una short fits ready.based r.transfer r.sent r.again
      i =
          unfold Holding in
          Reach-Inv payload s.base_seq s.cum_write_una short fits ready.based start-Inv reach

      counted :
          length (payloads r.sent) + length i.pending + length r.transfer.rest ≡ length payload
      counted =
          total payload s.base_seq s.cum_write_una short fits ready.based (payloads r.sent)
            i.pending r.transfer.rest i.bytes
