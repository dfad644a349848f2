-- ===== src/Tcp/Receive/Tests.antt =====
-- `ReceiverThread` on concrete segments.
use ip_tcp.Base.{ℕ, ◌<◌, ◌≡◌, ◌≢◌, refl, ap, true, [], ◌∷◌, ◌%◌, arith}
use ip_tcp.Base.Table.{lookup, nat_eq}
use mathlib.Core.List.{Memᴰ}
use ip_tcp.Pq.Least.{container_heap}
use ip_tcp.Tcp.Samples.{key, socket}
use ip_tcp.Pq.{EarlyPacket}
use ip_tcp.Tcp.Ring.{slice, read_ring}
use ip_tcp.Tcp.State.{established, fin_wait_1, fin_wait_2, close_wait, time_wait}
use ip_tcp.Tcp.ReadBuffer.{new_read}
use ip_tcp.Tcp.Segment.{TcpInfo, flag_ack, flag_fin_ack}
use ip_tcp.Tcp.Socket.{NormalSocket, send, delete_later, runs}
use ip_tcp.Tcp.Receive.{receive, ack_packet}
use ip_tcp.Tcp.Receive.Drained.{Drained, receive-Drained}
use ip_tcp.Tcp.Receive.Ends.{Ends}
use ip_tcp.Tcp.Receive.Reassembly.{Synced}
use ip_tcp.Tcp.Receive.Reassembly.Segments.{receive-Synced}
use ip_tcp.Tcp.Receive.Fin.{IsFin, after, counted, receive_fin}
use ip_tcp.Tcp.Receive.Rewind.{IsOld, rewound, receive_rewinds}

-- The byte with sequence number `n` is `n % 256`.
abbrev stream : ℕ → ℕ
stream n = n % 256

abbrev segment : TcpInfo
segment = record {
  key = key;
  flag = flag_ack;
  seq_num = 5001;
  ack_num = 6001;
  window_size = 65535;
  payload = 137 ∷ 138 ∷ [];
}

socket-Synced : Synced stream 5001 [] 5001 socket
unfolding read_ring slice
socket-Synced = record {
  valid = omega arith;
  base_fits = omega arith;
  follows = omega arith;
  cum_fits = omega arith;
  started = omega arith;
  reached = omega arith;
  in_order = refl;
  early = λ e m. absurd (not-nil m);
}
  where
    not-nil : {e : EarlyPacket} → Memᴰ e [] → ⊥
    not-nil m = elim m [ ]

receive-Synced_example : Ends (Synced stream 5001 [] 5001) (receive container_heap socket segment)
receive-Synced_example =
    receive-Synced stream 5001 [] container_heap socket segment refl (omega arith)
      (unfold slice in (refl, omega arith)) (omega arith) socket-Synced

abbrev fin : TcpInfo
fin = record segment { flag = flag_fin_ack; payload = [] }

fin-IsFin :
    (s : NormalSocket)
    → s.unacked_fins ≡ []
    → s.unacked_nums ≡ []
    → s.cum_read_nxt ≡ 5001
    → IsFin s fin
unfolding lookup
fin-IsFin s f n c = record {
  acks = refl;
  ends = refl;
  no_fin = rw f refl;
  no_num = rw n refl;
  in_order = omega arith;
}

abbrev fin_wait_1_socket : NormalSocket
fin_wait_1_socket = record socket { state = fin_wait_1 }

receive_fin_example :
    (fin_wait_1 ≡ established
      → receive container_heap fin_wait_1_socket fin
        ≡ after container_heap
            (record (counted container_heap fin_wait_1_socket fin) { state = close_wait })
            []
            fin)
    × (fin_wait_1 ≡ fin_wait_2
        → receive container_heap fin_wait_1_socket fin
          ≡ after container_heap
              (record (counted container_heap fin_wait_1_socket fin) { state = time_wait })
              (delete_later ∷ [])
              fin)
    × (fin_wait_1 ≢ established
        → fin_wait_1 ≢ fin_wait_2
        → receive container_heap fin_wait_1_socket fin
          ≡ after container_heap
              (record (counted container_heap fin_wait_1_socket fin) { state_locked = true })
              []
              fin)
receive_fin_example =
    receive_fin container_heap fin_wait_1_socket fin (fin-IsFin fin_wait_1_socket refl refl refl)
      refl refl

-- The segment again, after both of its bytes and 98 more were received.
abbrev ahead : NormalSocket
ahead = record socket { cum_read_nxt = 5101; read_buffer = record new_read { nxt = 101 } }

segment-IsOld : IsOld ahead segment
unfolding lookup
segment-IsOld = record {
  acks = refl;
  data_only = refl;
  no_fin = refl;
  no_num = refl;
  old = omega arith;
  room = omega arith;
  valid = omega arith;
  cum_fits = omega arith;
}

receive_rewinds_example :
    (receive container_heap ahead segment
      ≡ runs
          (rewound ahead segment 5003)
          (send (ack_packet (rewound ahead segment 5003) segment) ∷ []))
    × (5003 < 5101)
receive_rewinds_example = receive_rewinds container_heap ahead segment segment-IsOld refl

-- Two segments wait, behind a gap of two bytes.
abbrev waiting : NormalSocket
waiting = record socket {
  early_pq =
      record { priority = 5003; flags = flag_ack; payload = 139 ∷ [] }
      ∷ record { priority = 5004; flags = flag_ack; payload = 140 ∷ [] }
      ∷ [];
}

waiting-Drained : Drained waiting
waiting-Drained = record {
  ordered = record { heap = λ c p l. ground arith; valid = omega arith };
  ahead = λ e m. later e m;
}
  where
    later : (e : EarlyPacket) → Memᴰ e waiting.early_pq → waiting.cum_read_nxt < e.priority
    later e (Memᴰ.head same) = omega (arith, ap (λ (t : EarlyPacket). t.priority) same)
    later e (Memᴰ.tail (Memᴰ.head same)) = omega (arith, ap (λ (t : EarlyPacket). t.priority) same)
    later e (Memᴰ.tail (Memᴰ.tail m)) = elim m [ ]

receive-Drained_example : Ends Drained (receive container_heap waiting segment)
receive-Drained_example = receive-Drained waiting segment waiting-Drained
