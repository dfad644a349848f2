-- ===== src/Tcp/Send/Progress.antt =====
-- What holds while `slidingWindow` sends a payload, whatever arrives and in whatever order.
use ip_tcp.Base.{
  All-append, ℕ, ◌+◌, ◌-◌, ◌%◌, ◌≤◌, ◌<◌, ◌≡◌, ◌≢◌, refl, sym, ap, ◌∙◌, subst, Bool, true, false,
  ◌&&◌, List, [], ◌∷◌, ◌++◌, Option, none, some, inl, inr, arith, append_assoc, append-nil, length,
  length-append, length-take, take, drop, take-append-drop, All, add32, ltb, if◌then◌else◌,
  Bool-cases,
}
use ip_tcp.Base.Table.{lookup, nat_eq, lookup-insert_cases}
use ip_tcp.Tcp.Ring.{window_size}
use ip_tcp.Tcp.Segment.{TcpPacket}
use ip_tcp.Tcp.Socket.{NormalSocket}
use ip_tcp.Tcp.Send.{
  WindowNode, Queue, from_dummy, from_head, gone, Transfer, seq_nxt, append_node, has_room, noted,
  next_size, sent_tail, send_tail, Part, goes_on, blocked, panics, send_in_room, sending,
}
use ip_tcp.Tcp.Send.Acks.{unskip}
use ip_tcp.Tcp.Send.Segments.{
  payloads, payloads-append, IsSegment, Holds, HoldAll, append_node-HoldAll,
}

pub send_tail-sock : (t : Transfer) → (send_tail t).sock ≡ noted t
unfolding send_tail
send_tail-sock t = elim (Bool-cases (ltb 0 (next_size t))) [ inl e ↦ rw e refl | inr e ↦ rw e refl ]

pub send_tail-kept :
    (t : Transfer)
    → ((send_tail t).unacked_locked ≡ t.unacked_locked) × ((send_tail t).bytes_sent ≡ t.bytes_sent)
unfolding send_tail
send_tail-kept t = elim (Bool-cases (ltb 0 (next_size t))) [
  | inl e ↦ rw e (refl, refl)
  | inr e ↦ rw e (refl, refl)
]

-- The next number to send, and the number that is acknowledged, give `NXT` and `UNA`.
pub record Pointers (base first : ℕ) (s : NormalSocket) (n : ℕ) : Type 0 where
  pub base_kept : s.base_seq ≡ base
  pub una : s.write_buffer.una ≡ (s.cum_write_una - base) % window_size
  pub nxt : s.write_buffer.nxt ≡ (n - base) % window_size
  pub lower : first ≤ s.cum_write_una
  pub upper : s.cum_write_una ≤ n
  -- No number beyond the next one waits for its acknowledgement.
  pub keys : (k v : ℕ) → lookup k s.unacked_nums ≡ some v → k ≤ n

module _ (payload : List ℕ) (base first : ℕ) (short : length payload < window_size)
    (fits : first + length payload < 4294967296) (based : base ≤ first) where
  pub record Inv (t : Transfer) (sent again : List TcpPacket) : Type 0 where
    pub pending : List ℕ
    pub bytes : payloads sent ++ (pending ++ t.rest) ≡ payload
    pub pending_size : length pending ≡ t.bytes_to_send
    pub in_tail :
        0 < t.bytes_to_send
        → (t.tail.packet.payload ≡ pending)
          × (t.tail.expected_ack ≡ first + length (payloads sent) + t.bytes_to_send)
          × (t.queue ≢ gone)
    pub pointers : Pointers base first t.sock (first + length (payloads sent))
    pub counts : t.bytes_sent + first ≡ t.sock.cum_write_una
    pub sent_hold : All (IsSegment payload first) sent
    pub again_hold : All (IsSegment payload first) again
    pub tail_holds : Holds payload first t.tail
    pub nodes_hold : HoldAll payload first t.queue

  pub total :
      (a b c : List ℕ) → a ++ (b ++ c) ≡ payload → length a + length b + length c ≡ length payload
  total a b c e =
      omega (arith, ap (λ (l : List ℕ). length l) e, length-append a (b ++ c), length-append b c)

  -- `distUNA + cumWriteUNA` is the next number.
  pub seq_nxt-Pointers :
      (s : NormalSocket) (n : ℕ)
      → Pointers base first s n
      → n ≤ first + length payload
      → seq_nxt s ≡ n
  seq_nxt-Pointers s n p h = omega (arith, p.una, p.nxt, p.lower, p.upper)

  noted-Pointers :
      (t : Transfer) (n : ℕ)
      → Pointers base first t.sock n
      → n + t.bytes_to_send ≤ first + length payload
      → Pointers base first (noted t) (n + t.bytes_to_send)
        × (seq_nxt (noted t) ≡ n + t.bytes_to_send)
  noted-Pointers t n p h = (
    record {
      base_kept = p.base_kept;
      una = p.una;
      nxt = moved.nxt;
      lower = p.lower;
      upper = moved.upper;
      keys = λ k v l. elim (lookup-insert_cases _ k 0 t.sock.unacked_nums l) [
        | inl (e, _) ↦ omega (arith, e, next)
        | inr (_, l') ↦ moved.keys k v l'
      ];
    },
    next,
  )
    where
      s : NormalSocket
      s = record t.sock {
        write_buffer = record t.sock.write_buffer {
          nxt = add32 t.sock.write_buffer.nxt t.bytes_to_send % window_size;
        };
      }

      moved : Pointers base first s (n + t.bytes_to_send)
      moved = record {
        base_kept = p.base_kept;
        una = p.una;
        nxt = omega (arith, p.nxt, p.lower, p.upper);
        lower = p.lower;
        upper = omega (arith, p.upper);
        keys = λ k v l. omega (arith, p.keys k v l);
      }

      next : seq_nxt s ≡ n + t.bytes_to_send
      next = seq_nxt-Pointers s (n + t.bytes_to_send) moved h

  append_node-alive : (q : Queue) (x : WindowNode) → q ≢ gone → append_node q x ≢ gone
  append_node-alive (from_dummy before) x h = λ e. cc
  append_node-alive (from_head before) x h = λ e. cc
  append_node-alive gone x h = absurd (h refl)

  send_tail-Inv :
      (t : Transfer) (sent again : List TcpPacket)
      → 0 < t.bytes_to_send
      → Inv t sent again
      → Inv (send_tail t) (sent ++ t.tail.packet ∷ []) again
  unfolding send_tail
  send_tail-Inv t sent again h i = elim (Bool-cases (ltb 0 (next_size t))) [
    | inl e ↦ rw e (record {
      pending = take (next_size t) t.rest;
      bytes = sent_bytes (take (next_size t) t.rest) _ (take-append-drop (next_size t) t.rest);
      pending_size = omega (arith, length-take (next_size t) t.rest);
      in_tail = λ p. (refl, expected, append_node-alive t.queue (sent_tail t) (i.in_tail h).2);
      pointers = pointers;
      counts = i.counts;
      sent_hold = sent_holds;
      again_hold = i.again_hold;
      tail_holds = record {
        before = payloads sent';
        after = drop (next_size t) t.rest;
        bytes = sent_bytes (take (next_size t) t.rest) _ (take-append-drop (next_size t) t.rest);
        numbered = noted_all.1 ∙ sym grown;
      };
      nodes_hold =
          append_node-HoldAll payload first t.queue (sent_tail t) i.nodes_hold i.tail_holds;
    })
    | inr e ↦ rw e (record {
      pending = [];
      bytes = sent_bytes [] t.rest refl;
      pending_size = refl;
      in_tail = λ p. absurd (omega arith);
      pointers = pointers;
      counts = i.counts;
      sent_hold = sent_holds;
      again_hold = i.again_hold;
      tail_holds = i.tail_holds;
      nodes_hold = i.nodes_hold;
    })
  ]
    where
      sent' : List TcpPacket
      sent' = sent ++ t.tail.packet ∷ []

      taken : payloads sent' ≡ payloads sent ++ i.pending
      taken =
          payloads-append sent (t.tail.packet ∷ [])
          ∙ ap (λ l. payloads sent ++ l) (append-nil t.tail.packet.payload ∙ (i.in_tail h).0)

      sent_bytes : (a b : List ℕ) → a ++ b ≡ t.rest → payloads sent' ++ (a ++ b) ≡ payload
      sent_bytes a b e =
          ap (λ l. l ++ (a ++ b)) taken
          ∙ append_assoc (payloads sent) i.pending (a ++ b)
          ∙ ap (λ l. payloads sent ++ (i.pending ++ l)) e
          ∙ i.bytes

      grown : first + length (payloads sent') ≡ first + length (payloads sent) + t.bytes_to_send
      grown = omega (
        arith,
        ap (λ (l : List ℕ). length l) taken,
        length-append (payloads sent) i.pending,
        i.pending_size,
      )

      noted_all :
          Pointers base first (noted t) (first + length (payloads sent) + t.bytes_to_send)
          × (seq_nxt (noted t) ≡ first + length (payloads sent) + t.bytes_to_send)
      noted_all =
          noted-Pointers t (first + length (payloads sent)) i.pointers
            (omega (arith, total (payloads sent) i.pending t.rest i.bytes, i.pending_size))

      pointers : Pointers base first (noted t) (first + length (payloads sent'))
      pointers = subst (Pointers base first (noted t)) (sym grown) noted_all.0

      expected :
          add32 (seq_nxt (noted t)) (next_size t) ≡ first + length (payloads sent') + next_size t
      expected = omega (
        arith,
        noted_all.1,
        grown,
        total (payloads sent) i.pending t.rest i.bytes,
        i.pending_size,
      )

      sent_holds : All (IsSegment payload first) sent'
      sent_holds =
          All-append (IsSegment payload first) sent (t.tail.packet ∷ []) i.sent_hold
            (i.tail_holds, tt)

  pub unskip-Inv :
      (t : Transfer) (sent again : List TcpPacket) → Inv t sent again → Inv (unskip t) sent again
  unskip-Inv t sent again i = record {
    pending = i.pending;
    bytes = i.bytes;
    pending_size = i.pending_size;
    in_tail = i.in_tail;
    pointers = i.pointers;
    counts = i.counts;
    sent_hold = i.sent_hold;
    again_hold = i.again_hold;
    tail_holds = i.tail_holds;
    nodes_hold = i.nodes_hold;
  }

  -- A part of a round that goes on keeps what holds, and none panics.
  unfoldable pub PartInv : List TcpPacket → List TcpPacket → Part → Type 0
  PartInv sent again (goes_on t out) = Inv t (sent ++ out) again
  PartInv sent again blocked = Unit
  PartInv sent again panics = ⊥

  nothing_sent :
      (t : Transfer) (sent again : List TcpPacket) → Inv t sent again → Inv t (sent ++ []) again
  nothing_sent t sent again i = subst (λ l. Inv t l again) (sym (append-nil sent)) i

  has_room-alive : (q : Queue) (n : ℕ) → q ≢ gone → has_room q n ≢ none
  has_room-alive (from_dummy []) n h = λ e. cc
  has_room-alive (from_dummy (x ∷ l)) n h = λ e. cc
  has_room-alive (from_head []) n h = λ e. cc
  has_room-alive (from_head (x ∷ [])) n h = λ e. cc
  has_room-alive (from_head (x ∷ y ∷ l)) n h = λ e. cc
  has_room-alive gone n h = absurd (h refl)

  send_in_room-PartInv :
      (t : Transfer) (sent again : List TcpPacket) (o : Option Bool)
      → o ≢ none
      → 0 < t.bytes_to_send
      → Inv t sent again
      → PartInv sent again (send_in_room t o)
  unfolding PartInv
  send_in_room-PartInv t sent again none a h i = absurd (a refl)
  send_in_room-PartInv t sent again (some false) a h i = nothing_sent t sent again i
  send_in_room-PartInv t sent again (some true) a h i =
      elim t.unacked_locked
        as (λ b.
          PartInv sent again (if b then blocked else goes_on (send_tail t) (t.tail.packet ∷ []))) [
            | true ↦ tt
            | false ↦ send_tail-Inv t sent again h i
          ]

  pub sending-PartInv :
      (t : Transfer) (sent again : List TcpPacket)
      → Inv t sent again
      → PartInv sent again (sending t)
  unfolding sending PartInv
  sending-PartInv t sent again i =
      elim (Bool-cases (ltb 0 t.sock.client_window_size && ltb 0 t.bytes_to_send)) [
        | inl e ↦ rw e (
            send_in_room-PartInv t sent again _
              (has_room-alive t.queue t.tail.index (i.in_tail (ground arith)).2) (ground arith) i)
        | inr e ↦ rw e (nothing_sent t sent again i)
      ]
