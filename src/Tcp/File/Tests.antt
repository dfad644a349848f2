-- ===== src/Tcp/File/Tests.antt =====
-- A file that is received, on concrete values.
use ip_tcp.Base.{ℕ, ◌≡◌, refl, true, [], ◌∷◌, ◌%◌, ◌+◌, arith}
use ip_tcp.Pq.Least.{container_heap}
use ip_tcp.Tcp.ReadBuffer.{Sink, closed, v_read}
use ip_tcp.Tcp.ReadBuffer.Queue.{unread}
use ip_tcp.Tcp.Socket.{NormalSocket, send, runs}
use ip_tcp.Tcp.Samples.{key, socket}
use ip_tcp.Tcp.Close.{closing, fin_seq}
use ip_tcp.Tcp.Segment.{TcpInfo, TcpPacket, flag_fin_ack, flip_socket_key_fields}
use ip_tcp.Tcp.Receive.{receive}
use ip_tcp.Tcp.Receive.Fin.{IsFin}
use ip_tcp.Base.Table.{lookup, nat_eq}
use ip_tcp.Tcp.File.{closes, receive_round}
use ip_tcp.Tcp.File.Received.{fin_truncates_file}

abbrev stream : ℕ → ℕ
stream n = n % 256

-- The bytes 5001 and 5002 are in the buffer.
abbrev filled : NormalSocket
filled = record socket {
  read_buffer = record { buffer = λ p. (p + 136) % 256; lbr = 0; nxt = 3 };
  cum_read_nxt = 5003;
}

abbrev fin : TcpInfo
fin = record {
  key = flip_socket_key_fields key;
  flag = flag_fin_ack;
  seq_num = 5003;
  ack_num = 6001;
  window_size = 65535;
  payload = [];
}

filled-IsFin : IsFin filled fin
unfolding lookup
filled-IsFin = record {
  acks = refl;
  ends = refl;
  no_fin = refl;
  no_num = refl;
  in_order = omega arith;
}

fin_truncates_file_example :
    (s' s'' : NormalSocket) × (ack p : TcpPacket) × (receive container_heap filled fin
      ≡ runs s' (send ack ∷ []))
    × (ack.ack_num ≡ 5004)
    × (receive_round true s' (104 ∷ []) ≡ closes (closing s'' p))
    × (p.seq_num ≡ fin_seq filled)
    × (unread s''.read_buffer ≡ unread filled.read_buffer)
    × ((numbytes : ℕ) (sink : Sink) → v_read s''.state s''.read_buffer numbytes sink ≡ closed)
fin_truncates_file_example =
    fin_truncates_file container_heap filled fin true (104 ∷ []) filled-IsFin refl refl refl

abbrev emptied : NormalSocket
emptied = record filled { read_buffer = record filled.read_buffer { lbr = 2 } }
