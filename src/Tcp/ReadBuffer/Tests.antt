-- ===== src/Tcp/ReadBuffer/Tests.antt =====
-- The receive buffer on concrete bytes.
use ip_tcp.Base.{◌≡◌, refl, [], ◌∷◌, arith}
use ip_tcp.Tcp.Ring.{copy_at, slice, read_ring}
use ip_tcp.Tcp.State.{established}
use ip_tcp.Tcp.ReadBuffer.{
  ReadBuffer, new_read, window, fill, insert_payload, read_segments, terminal, v_read,
}
use ip_tcp.Tcp.ReadBuffer.Queue.{unread}
use ip_tcp.Tcp.ReadBuffer.Stream.{Session, start, deliver, read, Delivered, Session-Delivered}

-- Two bytes, 7 at the end of the buffer and 8 at its start, are unread.
abbrev wrapped : ReadBuffer
wrapped = record {
  buffer = copy_at (copy_at (λ i. 0) 65535 (7 ∷ [])) 0 (8 ∷ []);
  lbr = 65534;
  nxt = 1;
}

unread-wrapped : unread wrapped ≡ 7 ∷ 8 ∷ []
unfolding read_ring copy_at
unread-wrapped = refl

window-new : window new_read ≡ 65535
window-new = refl

-- A payload is delivered and one of its bytes is read.
abbrev received : ReadBuffer
received = record new_read { buffer = copy_at (λ i. 0) 1 (5 ∷ 6 ∷ []); nxt = 3 }

session : Session 5000 (record received { lbr = 1 }) 5003 (5 ∷ 6 ∷ []) (5 ∷ [])
unfolding insert_payload fill v_read read_segments slice copy_at
session = read established 1 terminal (deliver (5 ∷ 6 ∷ []) start (omega arith) refl) refl

Session-Delivered_example : Delivered 5000 (record received { lbr = 1 }) 5003 (5 ∷ 6 ∷ []) (5 ∷ [])
Session-Delivered_example = Session-Delivered (omega arith) session
