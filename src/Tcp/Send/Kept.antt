-- ===== src/Tcp/Send/Kept.antt =====
-- Every step of a call of `slidingWindow` keeps what holds of it.
use ip_tcp.Base.{
  All-append, ℕ, ◌+◌, ◌-◌, ◌%◌, ◌≤◌, ◌<◌, ◌≡◌, ◌≢◌, sym, ap, ◌∙◌, subst, true, false, List, [], ◌∷◌,
  ◌++◌, Option, none, some, inl, inr, arith, length, ltb, leb, ◌==◌, if◌then◌else◌, Bool-cases,
}
use ip_tcp.Base.Table.{lookup, nat_eq, lookup-insert_cases}
use ip_tcp.Tcp.Ring.{window_size}
use ip_tcp.Tcp.WriteBuffer.{WriteBuffer}
use ip_tcp.Tcp.Segment.{TcpInfo, TcpPacket}
use ip_tcp.Tcp.Socket.{NormalSocket}
use ip_tcp.Tcp.Send.{WindowNode, Queue, from_dummy, from_head, gone, Transfer}
use ip_tcp.Tcp.Send.Acks.{shrink_nodes, shrink, advance, times_seen, first_seen, take_ack}
use ip_tcp.Tcp.Send.Retransmit.{Tick, resent}
use ip_tcp.Tcp.Send.Segments.{payloads, IsSegment, shrink-HoldAll, HoldTick, tick-HoldTick}
use ip_tcp.Tcp.Send.Progress.{Inv, unskip-Inv, PartInv, sending-PartInv, total}
use ip_tcp.Tcp.Send.Steps.{
  Run, Undisturbed, Step, sends, acks, receives, resends, Reach, here, next,
}

shrink_nodes-alive :
    (ack : ℕ) (before : List WindowNode) (tail : WindowNode)
    → ack < tail.expected_ack
    → shrink_nodes ack before tail ≢ gone
shrink_nodes-alive ack [] tail h = elim (Bool-cases (leb tail.expected_ack ack)) [
  | inl e ↦ absurd (ground arith)
  | inr e ↦ rw e (λ q. cc)
]
shrink_nodes-alive ack (x ∷ before) tail h =
    elim (leb x.expected_ack ack)
      as (λ b. (if b then shrink_nodes ack before tail else from_head (x ∷ before)) ≢ gone) [
        | true ↦ shrink_nodes-alive ack before tail h
        | false ↦ λ q. cc
      ]

shrink-alive :
    (ack : ℕ) (q : Queue) (tail : WindowNode)
    → ack < tail.expected_ack
    → q ≢ gone
    → shrink ack q tail ≢ gone
shrink-alive ack (from_dummy before) tail h a = shrink_nodes-alive ack before tail h
shrink-alive ack (from_head before) tail h a = shrink_nodes-alive ack before tail h
shrink-alive ack gone tail h a = a

module _ (payload : List ℕ) (base first : ℕ) (short : length payload < window_size)
    (fits : first + length payload < 4294967296) (based : base ≤ first) where
  unfoldable pub Holding : Transfer → List TcpPacket → List TcpPacket → Type 0
  Holding t sent again = Inv payload base first short fits based t sent again

  first_seen-Inv :
      (r : TcpInfo) (t : Transfer) (sent again : List TcpPacket) {k : ℕ}
      → lookup r.ack_num t.sock.unacked_nums ≡ some k
      → Holding t sent again
      → Holding (first_seen r t) sent again
  unfolding Holding
  first_seen-Inv r t sent again {k} l i = record {
    pending = i.pending;
    bytes = i.bytes;
    pending_size = i.pending_size;
    in_tail = i.in_tail;
    pointers = record {
      base_kept = i.pointers.base_kept;
      una = i.pointers.una;
      nxt = i.pointers.nxt;
      lower = i.pointers.lower;
      upper = i.pointers.upper;
      keys = λ j v m. elim (lookup-insert_cases r.ack_num j 1 t.sock.unacked_nums m) [
        | inl (e, _) ↦ omega (arith, e, i.pointers.keys r.ack_num k l)
        | inr (_, m') ↦ i.pointers.keys j v m'
      ];
    };
    counts = i.counts;
    sent_hold = i.sent_hold;
    again_hold = i.again_hold;
    tail_holds = i.tail_holds;
    nodes_hold = i.nodes_hold;
  }

  advance-Inv :
      (ack : ℕ) (t : Transfer) (sent again : List TcpPacket)
      → ack ≤ first + length (payloads sent)
      → t.sock.cum_write_una < ack
      → Holding t sent again
      → Holding (advance ack t) sent again
  unfolding Holding advance
  advance-Inv ack t sent again h l i = record {
    pending = i.pending;
    bytes = i.bytes;
    pending_size = i.pending_size;
    in_tail = λ p.
        let (e, x, a) = i.in_tail p in (e, x, shrink-alive ack t.queue t.tail (omega (arith, x)) a);
    pointers = record {
      base_kept = i.pointers.base_kept;
      una = omega (
        arith,
        i.pointers.base_kept,
        i.pointers.lower,
        h,
        total payload base first short fits based (payloads sent) i.pending t.rest i.bytes,
      );
      nxt = i.pointers.nxt;
      lower = omega (arith, i.pointers.lower);
      upper = h;
      keys = i.pointers.keys;
    };
    counts = omega (arith, i.counts);
    sent_hold = i.sent_hold;
    again_hold = i.again_hold;
    tail_holds = i.tail_holds;
    nodes_hold = shrink-HoldAll payload first ack t.queue t.tail i.nodes_hold;
  }

  OptionHolding : List TcpPacket → List TcpPacket → Option Transfer → Type 0
  OptionHolding sent again none = Unit
  OptionHolding sent again (some t) = Holding t sent again

  locked-Holding :
      (t : Transfer) (sent again : List TcpPacket)
      → Holding t sent again
      → Holding (record t { unacked_locked = true }) sent again
  unfolding Holding
  locked-Holding t sent again i = record {
    pending = i.pending;
    bytes = i.bytes;
    pending_size = i.pending_size;
    in_tail = i.in_tail;
    pointers = i.pointers;
    counts = i.counts;
    sent_hold = i.sent_hold;
    again_hold = i.again_hold;
    tail_holds = i.tail_holds;
    nodes_hold = i.nodes_hold;
  }

  take_ack-Inv :
      (ack : TcpInfo) (t : Transfer) (sent again : List TcpPacket) {k : ℕ}
      → lookup ack.ack_num t.sock.unacked_nums ≡ some k
      → Holding t sent again
      → OptionHolding sent again (take_ack ack t)
  unfolding take_ack OptionHolding
  take_ack-Inv ack t sent again {k} l i =
      elim t.unacked_locked
        as (λ b. OptionHolding sent again (
          if b
          then none
          else if times_seen t.sock ack.ack_num == 0
          then if ltb t.sock.cum_write_una ack.ack_num
            then some (advance ack.ack_num (first_seen ack t))
            else some (first_seen ack t)
          else some (record t { unacked_locked = true }))) [
            | true ↦ tt
            | false ↦
                elim (times_seen t.sock ack.ack_num == 0)
                  as (λ b. OptionHolding sent again (
                    if b
                    then if ltb t.sock.cum_write_una ack.ack_num
                      then some (advance ack.ack_num (first_seen ack t))
                      else some (first_seen ack t)
                    else some (record t { unacked_locked = true }))) [
                      | true ↦ elim (Bool-cases (ltb t.sock.cum_write_una ack.ack_num)) [
                        | inl e ↦ rw e (
                            advance-Inv ack.ack_num (first_seen ack t) sent again (in_range i)
                              (ground arith) (first_seen-Inv ack t sent again l i))
                        | inr e ↦ rw e (first_seen-Inv ack t sent again l i)
                      ]
                      | false ↦ locked-Holding t sent again i
                    ]
          ]
    where
      in_range : Holding t sent again → ack.ack_num ≤ first + length (payloads sent)
      in_range i = unfold Holding in i.pointers.keys ack.ack_num k l

  receives-Inv :
      (t : Transfer) (s : NormalSocket) (sent again : List TcpPacket)
      → Undisturbed t.sock s
      → Holding t sent again
      → Holding (record t { sock = s }) sent again
  unfolding Holding
  receives-Inv t s sent again u i = record {
    pending = i.pending;
    bytes = i.bytes;
    pending_size = i.pending_size;
    in_tail = i.in_tail;
    pointers = record {
      base_kept = u.base_seq_same ∙ i.pointers.base_kept;
      una =
          ap (λ (w : WriteBuffer). w.una) u.write_buffer_same
          ∙ i.pointers.una
          ∙ ap (λ n. (n - base) % window_size) (sym u.una_same);
      nxt = ap (λ (w : WriteBuffer). w.nxt) u.write_buffer_same ∙ i.pointers.nxt;
      lower = omega (arith, u.una_same, i.pointers.lower);
      upper = omega (arith, u.una_same, i.pointers.upper);
      keys = λ k v m. i.pointers.keys k v (ap (lookup k) (sym u.nums_same) ∙ m);
    };
    counts = i.counts ∙ sym u.una_same;
    sent_hold = i.sent_hold;
    again_hold = i.again_hold;
    tail_holds = i.tail_holds;
    nodes_hold = i.nodes_hold;
  }

  resends-Inv :
      (t : Transfer) (sent again : List TcpPacket) (k : Tick) {t' : Transfer} {p : TcpPacket}
      {l c : ℕ}
      → HoldTick payload first t k
      → k ≡ resent t' p l c
      → Holding t sent again
      → Holding t' sent (again ++ p ∷ [])
  unfolding Holding
  resends-Inv t sent again k {p = p} h e i =
      let (seg, q, x, same, alive, nodes, tail) = subst (HoldTick payload first t) e h in
      subst (λ y. Inv payload base first short fits based y sent (again ++ p ∷ [])) (sym same)
        (record {
          pending = i.pending;
          bytes = i.bytes;
          pending_size = i.pending_size;
          in_tail = λ h.
              let (b, y, a) = i.in_tail h in (tail.payload_same ∙ b, tail.expected_same ∙ y, alive);
          pointers = i.pointers;
          counts = i.counts;
          sent_hold = i.sent_hold;
          again_hold = All-append (IsSegment payload first) again (p ∷ []) i.again_hold (seg, tt);
          tail_holds = record {
            before = i.tail_holds.before;
            after = i.tail_holds.after;
            bytes =
                ap (λ l. i.tail_holds.before ++ (l ++ i.tail_holds.after)) tail.payload_same
                ∙ i.tail_holds.bytes;
            numbered = tail.seq_num_same ∙ i.tail_holds.numbered;
          };
          nodes_hold = nodes;
        })

  abbrev pub RunHolding : Run → Type 0
  RunHolding r = Holding r.transfer r.sent r.again

  Step-Inv : {r r' : Run} → Step r r' → RunHolding r → RunHolding r'
  unfolding PartInv OptionHolding Holding
  Step-Inv (sends r t out e) i = unskip-Inv payload base first short fits based t _ r.again (
      subst (PartInv payload base first short fits based r.sent r.again) e
        (sending-PartInv payload base first short fits based r.transfer r.sent r.again i))
  Step-Inv (acks r ack k t l e) i =
      subst (OptionHolding r.sent r.again) e (take_ack-Inv ack r.transfer r.sent r.again l i)
  Step-Inv (receives r s u) i = receives-Inv r.transfer s r.sent r.again u i
  Step-Inv (resends r last_index cnt t p last_index' cnt' e) i =
      resends-Inv r.transfer r.sent r.again _
        (tick-HoldTick payload first r.transfer last_index cnt i.nodes_hold i.tail_holds) e i

  pub Reach-Inv : {r r' : Run} → RunHolding r → Reach r r' → RunHolding r'
  Reach-Inv i here = i
  Reach-Inv i (next r s) = Step-Inv s (Reach-Inv i r)
