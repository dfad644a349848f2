-- ===== src/Tcp/Send/Segments.antt =====
-- The segments of a payload, and the nodes that hold them.
use ip_tcp.Base.{
  ℕ, ◌+◌, ◌≡◌, ◌≢◌, refl, sym, ap, ◌∙◌, true, false, List, [], ◌∷◌, ◌++◌, Option, none, some, All,
  All-append, append_assoc, ◌==◌, suc, length, if◌then◌else◌, leb,
}
use ip_tcp.Tcp.Segment.{TcpPacket}
use ip_tcp.Tcp.Socket.{NormalSocket}
use ip_tcp.Tcp.Send.{WindowNode, Queue, from_dummy, from_head, gone, Transfer, append_node}
use ip_tcp.Tcp.Send.Acks.{shrink_nodes, shrink}
use ip_tcp.Tcp.Send.Retransmit.{
  Resent, resend, refreshed, Tick, resent, idle, gives_up, uncounted, counted, resend_first, tick,
}

-- The payloads of packets, one after the other.
abbrev pub payloads : List TcpPacket → List ℕ
payloads [] = []
payloads (p ∷ ps) = p.payload ++ payloads ps

pub payloads-append : (ps qs : List TcpPacket) → payloads (ps ++ qs) ≡ payloads ps ++ payloads qs
payloads-append [] qs = refl
payloads-append (p ∷ ps) qs =
    ap (λ t. p.payload ++ t) (payloads-append ps qs)
    ∙ sym (append_assoc p.payload (payloads ps) (payloads qs))

-- A packet whose payload is a part of `payload`, and whose sequence number is the number of its first
-- byte, the payload starting at `first`.
pub record IsSegment (payload : List ℕ) (first : ℕ) (p : TcpPacket) : Type 0 where
  pub before : List ℕ
  pub after : List ℕ
  pub bytes : before ++ (p.payload ++ after) ≡ payload
  pub numbered : p.seq_num ≡ first + length before

module _ (payload : List ℕ) (first : ℕ) where
  abbrev pub Holds : WindowNode → Type 0
  Holds x = IsSegment payload first x.packet

  -- Every node of the window holds a segment.
  abbrev pub HoldAll : Queue → Type 0
  HoldAll (from_dummy before) = All Holds before
  HoldAll (from_head before) = All Holds before
  HoldAll gone = Unit

  pub append_node-HoldAll :
      (q : Queue) (x : WindowNode) → HoldAll q → Holds x → HoldAll (append_node q x)
  append_node-HoldAll (from_dummy before) x h s = All-append Holds before (x ∷ []) h (s, tt)
  append_node-HoldAll (from_head before) x h s = All-append Holds before (x ∷ []) h (s, tt)
  append_node-HoldAll gone x h s = tt

  shrink_nodes-HoldAll :
      (ack : ℕ) (before : List WindowNode) (tail : WindowNode)
      → All Holds before
      → HoldAll (shrink_nodes ack before tail)
  shrink_nodes-HoldAll ack [] tail h =
      elim (leb tail.expected_ack ack) as (λ b. HoldAll (if b then gone else from_head [])) [
        | true ↦ tt
        | false ↦ tt
      ]
  shrink_nodes-HoldAll ack (x ∷ before) tail (s, h) =
      elim (leb x.expected_ack ack)
        as (λ b. HoldAll (if b then shrink_nodes ack before tail else from_head (x ∷ before))) [
          | true ↦ shrink_nodes-HoldAll ack before tail h
          | false ↦ (s, h)
        ]

  pub shrink-HoldAll :
      (ack : ℕ) (q : Queue) (tail : WindowNode) → HoldAll q → HoldAll (shrink ack q tail)
  shrink-HoldAll ack (from_dummy before) tail h = shrink_nodes-HoldAll ack before tail h
  shrink-HoldAll ack (from_head before) tail h = shrink_nodes-HoldAll ack before tail h
  shrink-HoldAll ack gone tail h = tt

  -- A node that differs only in what a retransmission changes.
  pub record Same (x y : WindowNode) : Type 0 where
    pub payload_same : x.packet.payload ≡ y.packet.payload
    pub seq_num_same : x.packet.seq_num ≡ y.packet.seq_num
    pub expected_same : x.expected_ack ≡ y.expected_ack

  HoldResent : WindowNode → Option Resent → Type 0
  HoldResent tail none = Unit
  HoldResent tail (some r) = All Holds r.before × Same r.tail tail × Holds r.node

  -- What a retransmission sends is a segment, and it changes nothing but nodes, which keep theirs.
  abbrev pub HoldTick : Transfer → Tick → Type 0
  HoldTick t idle = Unit
  HoldTick t gives_up = Unit
  HoldTick t (resent t' p l c) =
      IsSegment payload first p
      × (q : Queue) × (x : WindowNode) × (t' ≡ record t { queue = q; tail = x })
      × (q ≢ gone)
      × HoldAll q
      × Same x t.tail

  refreshed-Holds : (s : NormalSocket) (x : WindowNode) → Holds x → Holds (refreshed s x)
  refreshed-Holds s x h = record {
    before = h.before;
    after = h.after;
    bytes = h.bytes;
    numbered = h.numbered;
  }

  Same-refl : (x : WindowNode) → Same x x
  Same-refl x = record { payload_same = refl; seq_num_same = refl; expected_same = refl }

  resend-HoldResent :
      (s : NormalSocket) (before : List WindowNode) (tail : WindowNode)
      → All Holds before
      → Holds tail
      → HoldResent tail (resend s before tail)
  unfolding HoldResent
  resend-HoldResent s [] tail h l =
      elim tail.sent
        as (λ b. HoldResent tail (
          if b
          then some (record { before = []; tail = refreshed s tail; node = refreshed s tail })
          else none)) [
            | true ↦ (
              tt,
              record { payload_same = refl; seq_num_same = refl; expected_same = refl },
              refreshed-Holds s tail l,
            )
            | false ↦ tt
          ]
  resend-HoldResent s (x ∷ before) tail (g, h) l =
      elim x.sent
        as (λ b. HoldResent tail (
          if b
          then some (record { before = refreshed s x ∷ before; tail = tail; node = refreshed s x })
          else none)) [
            | true ↦ ((refreshed-Holds s x g, h), Same-refl tail, refreshed-Holds s x g)
            | false ↦ tt
          ]

  uncounted-HoldTick :
      (t : Transfer) (queue : List WindowNode → Queue) (l c : ℕ) (o : Option Resent)
      → ((b : List WindowNode) → All Holds b → (queue b ≢ gone) × HoldAll (queue b))
      → HoldResent t.tail o
      → HoldTick t (uncounted t queue l c o)
  unfolding HoldResent
  uncounted-HoldTick t queue l c none k h = tt
  uncounted-HoldTick t queue l c (some r) k (b, e, g) =
      (g, queue r.before, r.tail, refl, (k r.before b).0, (k r.before b).1, e)

  counted-HoldTick :
      (t : Transfer) (l c : ℕ) (o : Option Resent)
      → HoldResent t.tail o
      → HoldTick t (counted t l c o)
  unfolding HoldResent
  counted-HoldTick t l c none h = tt
  counted-HoldTick t l c (some r) (b, e, g) =
      elim (cnt == 10)
        as (λ x. HoldTick t (
          if x
          then gives_up
          else resent (record t { queue = from_head r.before; tail = r.tail }) r.node.packet
              r.node.index cnt)) [
                | true ↦ tt
                | false ↦ (g, from_head r.before, r.tail, refl, λ h. cc, b, e)
              ]
    where
      cnt : ℕ
      cnt = if l == r.node.index then suc c else 1

  resend_first-HoldTick :
      (t : Transfer) (l c : ℕ) (q : Queue)
      → HoldAll q
      → Holds t.tail
      → HoldTick t (resend_first t l c q)
  resend_first-HoldTick t l c (from_dummy before) h e =
      uncounted-HoldTick t from_dummy l c _ (λ b k. (λ h. cc, k))
        (resend-HoldResent t.sock before t.tail h e)
  resend_first-HoldTick t l c (from_head []) h e =
      elim (t.tail.expected_ack == 0)
        as (λ b. HoldTick t (if b then idle else counted t l c (resend t.sock [] t.tail))) [
          | true ↦ tt
          | false ↦ counted-HoldTick t l c _ (resend-HoldResent t.sock [] t.tail h e)
        ]
  resend_first-HoldTick t l c (from_head (x ∷ before)) (g, h) e =
      elim (x.expected_ack == 0)
        as (λ b. HoldTick t (
          if b
          then uncounted t (λ r. from_head (x ∷ r)) l c (resend t.sock before t.tail)
          else counted t l c (resend t.sock (x ∷ before) t.tail))) [
            | true ↦
                uncounted-HoldTick t (λ r. from_head (x ∷ r)) l c _ (λ b k. (λ h. cc, (g, k)))
                  (resend-HoldResent t.sock before t.tail h e)
            | false ↦
                counted-HoldTick t l c _ (resend-HoldResent t.sock (x ∷ before) t.tail (g, h) e)
          ]
  resend_first-HoldTick t l c gone h e = tt

  pub tick-HoldTick :
      (t : Transfer) (l c : ℕ) → HoldAll t.queue → Holds t.tail → HoldTick t (tick t l c)
  unfolding tick
  tick-HoldTick t l c h e =
      elim (t.sock.client_window_size == 0)
        as (λ b. HoldTick t (if b then idle else resend_first t l c t.queue)) [
          | true ↦ tt
          | false ↦ resend_first-HoldTick t l c t.queue h e
        ]
