-- ===== src/Tcp/ReadBuffer/Stream.antt =====
-- What a connection delivers to its reader over any sequence of in-order payloads and reads.
use ip_tcp.Base.{
  ℕ, ◌≤◌, ◌≡◌, ◌≢◌, refl, sym, ap, ◌∙◌, subst, true, false, List, [], ◌++◌, some, arith, length,
  take, take-append-drop, append_assoc, some_inj, add32, IsU32,
}
use ip_tcp.Tcp.State.{State, refuses_read}
use ip_tcp.Tcp.Ring.{read_ring}
use ip_tcp.Tcp.ReadBuffer.{
  ReadBuffer, new_read, window, buffered, insert_payload, Sink, accepts, done, v_read,
}
use ip_tcp.Tcp.ReadBuffer.Queue.{IsValid, unread}
use ip_tcp.Tcp.ReadBuffer.Refine.{Follows, insert_payload_refines, v_read_refines}

-- The states that a receive buffer goes through after a handshake with initial sequence number
-- `base_ack`: the buffer, the next sequence number, the bytes delivered by segments that fit the
-- advertised window, and the bytes that `VRead` has returned.
pub data Session (base_ack : ℕ) : ReadBuffer → ℕ → List ℕ → List ℕ → Type 0 where
  start : Session base_ack new_read (add32 base_ack 1) [] []
  deliver :
      {r r' : ReadBuffer} {seq seq' : ℕ} {sent got : List ℕ} (payload : List ℕ)
      → Session base_ack r seq sent got
      → length payload ≤ window r
      → insert_payload r base_ack seq payload ≡ some (r', seq')
      → Session base_ack r' seq' (sent ++ payload) got
  read :
      {r r' : ReadBuffer} {seq : ℕ} {sent got out : List ℕ} (state : State) (numbytes : ℕ)
      (sink : Sink)
      → Session base_ack r seq sent got
      → v_read state r numbytes sink ≡ done out r'
      → Session base_ack r' seq sent (got ++ out)

pub record Delivered (base_ack : ℕ) (r : ReadBuffer) (seq : ℕ) (sent got : List ℕ) : Type 0 where
  pub valid : IsValid r
  pub follows : Follows r base_ack seq
  pub seq_fits : IsU32 seq
  pub in_order : got ++ unread r ≡ sent

v_read_done :
    (state : State) (r : ReadBuffer) (numbytes : ℕ) (sink : Sink) {out : List ℕ} {r' : ReadBuffer}
    → v_read state r numbytes sink ≡ done out r'
    → (refuses_read state ≡ false) × (buffered r ≢ 0) × (accepts sink ≡ true)
unfolding v_read
v_read_done state r numbytes sink h = (ground arith, ground arith, ground arith)

start-Delivered :
    (base_ack : ℕ) → IsU32 base_ack → Delivered base_ack new_read (add32 base_ack 1) [] []
unfolding read_ring
start-Delivered base_ack hb = record {
  valid = omega arith;
  follows = omega arith;
  seq_fits = omega arith;
  in_order = refl;
}

deliver-Delivered :
    (base_ack : ℕ) {r r' : ReadBuffer} {seq seq' : ℕ} {sent got : List ℕ} (payload : List ℕ)
    → IsU32 base_ack
    → Delivered base_ack r seq sent got
    → length payload ≤ window r
    → insert_payload r base_ack seq payload ≡ some (r', seq')
    → Delivered base_ack r' seq' (sent ++ payload) got
deliver-Delivered base_ack {r} {seq = seq} {sent = sent} {got = got} payload hb d fits e =
    let (q, p, u, v, f) =
      insert_payload_refines r base_ack seq payload d.valid hb d.seq_fits d.follows fits in
    subst (λ z. Delivered base_ack z.0 z.1 (sent ++ payload) got) (some_inj (sym p ∙ e))
      (record {
        valid = v;
        follows = f;
        seq_fits = omega arith;
        in_order =
            ap (λ t. got ++ t) u
            ∙ sym (append_assoc got (unread r) payload)
            ∙ ap (λ t. t ++ payload) d.in_order;
      })

done-injective :
    {a c : List ℕ} {b d : ReadBuffer}
    → done a b ≡ done c d
    → ◌≡◌ {A = List ℕ × ReadBuffer} (a, b) (c, d)
done-injective h = ground arith

read-Delivered :
    (base_ack : ℕ) {r r' : ReadBuffer} {seq : ℕ} {sent got out : List ℕ} (state : State)
    (numbytes : ℕ) (sink : Sink)
    → Delivered base_ack r seq sent got
    → v_read state r numbytes sink ≡ done out r'
    → Delivered base_ack r' seq sent (got ++ out)
read-Delivered base_ack {r} {seq = seq} {sent = sent} {got = got} state numbytes sink d e =
    let (open_state, some_bytes, written) = v_read_done state r numbytes sink e in
    let (q, p, u, n, v) =
      (v_read_refines state r numbytes sink d.valid open_state some_bytes).1 written in
    subst (λ z. Delivered base_ack z.1 seq sent (got ++ z.0)) (done-injective (sym p ∙ e))
      (record {
        valid = v;
        follows = n ∙ d.follows;
        seq_fits = d.seq_fits;
        in_order =
            append_assoc got (take numbytes (unread r)) (unread q)
            ∙ ap (λ t. got ++ (take numbytes (unread r) ++ t)) u
            ∙ ap (λ t. got ++ t) (take-append-drop numbytes (unread r))
            ∙ d.in_order;
      })

-- Whatever payloads arrive in order within the window and whatever reads are made between them, in
-- any interleaving, the bytes that `VRead` returned, followed by those still unread, are exactly the
-- bytes delivered, in order; the pointers stay within the buffer, and `NXT` stays where the next
-- sequence number belongs.
pub Session-Delivered :
    {base_ack : ℕ} {r : ReadBuffer} {seq : ℕ} {sent got : List ℕ}
    → IsU32 base_ack
    → Session base_ack r seq sent got
    → Delivered base_ack r seq sent got
Session-Delivered {base_ack} hb start = start-Delivered base_ack hb
Session-Delivered {base_ack} hb (deliver payload s fits e) =
    deliver-Delivered base_ack payload hb (Session-Delivered hb s) fits e
Session-Delivered {base_ack} hb (read state numbytes sink s e) =
    read-Delivered base_ack state numbytes sink (Session-Delivered hb s) e
