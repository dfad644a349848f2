-- ===== src/Tcp/Send/Flaws.antt =====
-- What happens on a window smaller than the next segment, and after a probe.
use ip_tcp.Base.{
  ℕ, suc, ◌+◌, ◌-◌, ◌<◌, ◌≡◌, ◌≢◌, refl, sym, ap, ◌∙◌, true, false, List, [], ◌∷◌, drop, some,
  arith, length, ==_iff, ne→not_==, lt→ltb,
}
use ip_tcp.Base.Table.{lookup, nat_eq, lookup-insert_self}
use ip_tcp.Tcp.Ring.{window_size}
use ip_tcp.Tcp.Segment.{TcpInfo, TcpPacket}
use ip_tcp.Tcp.Socket.{NormalSocket}
use ip_tcp.Tcp.Send.{
  WindowNode, Queue, from_head, Transfer, seq_nxt, has_room, send_tail, noted, goes_on, sending,
}
use ip_tcp.Tcp.Send.Progress.{send_tail-sock}
use ip_tcp.Tcp.Send.Delivery.{IsReady}
use ip_tcp.Tcp.Send.Probe.{
  probe, probe_acked, resumes, probing, probed_in, probed_socket, Probed, strip, strip_queue,
}

-- When the client's window is smaller than the segment in the tail, but not 0, and the nodes leave
-- room, the segment is sent in full, and the window that is left wraps round.
pub window_wraps :
    (t : Transfer)
    → t.unacked_locked ≡ false
    → 0 < t.bytes_to_send
    → has_room t.queue t.tail.index ≡ some true
    → 0 < t.sock.client_window_size
    → t.sock.client_window_size < length t.tail.packet.payload
    → length t.tail.packet.payload < 65536
    → (t' : Transfer) × (sending t ≡ goes_on t' (t.tail.packet ∷ []))
      × (t'.sock.client_window_size
          ≡ t.sock.client_window_size + 65536 - length t.tail.packet.payload)
unfolding sending
window_wraps t l b h w s u = (
  send_tail t,
  rw (lt→ltb 0 t.sock.client_window_size w) (rw (lt→ltb 0 t.bytes_to_send b) (rw h (rw l refl))),
  ap (λ (x : NormalSocket). x.client_window_size) (send_tail-sock t) ∙ omega arith,
)

-- A probe of a call whose first segment is sent and acknowledged: `b` is the first byte of the
-- segment in the tail and `bs` the rest.
pub record IsProbed (t : Transfer) (r : TcpInfo) (b : ℕ) (bs : List ℕ) : Type 0 where
  pub ready : IsReady t.sock
  pub unlocked : t.unacked_locked ≡ false
  pub alone : t.queue ≡ from_head []
  pub later : t.tail.index ≢ 0
  pub first_sent : t.first_payload ≢ []
  pub in_tail : t.tail.packet.payload ≡ b ∷ bs
  pub numbered : t.tail.packet.seq_num ≡ t.sock.cum_write_una
  pub sized : t.bytes_to_send ≡ suc (length bs)
  pub acked : r.ack_num ≡ t.sock.cum_write_una + 1
  pub opened : 0 < r.window_size
  pub small : suc (length bs) < window_size
  pub fits : t.sock.cum_write_una + length bs + 2 < 4294967296

-- When a probe is acknowledged with a window that is not 0, after the first segment was sent and
-- acknowledged, and with nothing in flight, the segment in the tail is sent with the byte of the
-- probe still in it, from that byte's sequence number on, and the number that is noted for its
-- acknowledgement is one beyond the number behind its last byte.
pub probe_misnumbers :
    (t : Transfer) (r : TcpInfo) (b : ℕ) (bs : List ℕ)
    → IsProbed t r b bs
    → (t' : Transfer) × (probe_acked (probe t) r ≡ resumes t')
      × (t'' : Transfer) × (p : TcpPacket) × (sending t' ≡ goes_on t'' (p ∷ []))
      × (p.payload ≡ b ∷ bs)
      × (p.seq_num ≡ t.sock.cum_write_una)
      × (lookup (p.seq_num + length p.payload + 1) t''.sock.unacked_nums ≡ some 0)
unfolding probe probe_acked sending
probe_misnumbers t r b bs i = (
  t',
  rw ((==_iff r.ack_num (seq_nxt (probing t.sock))).1 expected)
      (rw (lt→ltb 0 r.window_size i.opened) (resumed t.first_payload refl)),
  send_tail t',
  t'.tail.packet,
  rw (lt→ltb 0 r.window_size i.opened)
      (rw (lt→ltb 0 t.bytes_to_send (omega (arith, i.sized))) (rw i.unlocked refl)),
  i.in_tail,
  i.numbered,
  ap
        (λ (x : NormalSocket).
          lookup (t.tail.packet.seq_num + length t.tail.packet.payload + 1) x.unacked_nums)
        (send_tail-sock t')
      ∙ ap (λ n. lookup n (noted t').unacked_nums)
          (omega (arith, after, i.numbered, ap (λ (l : List ℕ). length l) i.in_tail))
      ∙ lookup-insert_self (seq_nxt (noted t')) 0 t'.sock.unacked_nums,
)
  where
    expected : r.ack_num ≡ seq_nxt (probing t.sock)
    expected = omega (arith, i.acked, i.ready.nxt, i.ready.una, i.fits)

    t' : Transfer
    t' = record (probe t).transfer {
      sock = probed_socket r (probe t).transfer.sock;
      queue = from_head [];
      tail = t.tail;
      first_payload = drop 1 t.first_payload;
      bytes_sent = suc t.bytes_sent;
      skip_probe = true;
    }

    made : Queue → WindowNode → List ℕ → Probed
    made q y l = resumes (record t' { queue = q; tail = y; first_payload = l })

    unstripped : strip t.tail ≡ t.tail
    unstripped = rw (ne→not_== t.tail.index 0 i.later) refl

    resumed :
        (l : List ℕ) → t.first_payload ≡ l → probed_in r (probe t).transfer l t.rest ≡ resumes t'
    resumed [] e = absurd (i.first_sent e)
    resumed (x ∷ l) e =
        ap (λ q. made q (strip t.tail) l) (ap strip_queue i.alone)
        ∙ ap (λ y. made (from_head []) y l) unstripped
        ∙ ap (made (from_head []) t.tail) (sym (ap (drop 1) e))

    after : seq_nxt (noted t') ≡ t.sock.cum_write_una + length bs + 2
    after =
        omega (arith, i.acked, i.ready.nxt, i.ready.una, i.ready.based, i.sized, i.small, i.fits)
