-- ===== src/Tcp/File/Received.antt =====
-- What gets into the file that `ReceiveFile` writes.
use ip_tcp.Base.{
  ℕ, ◌+◌, ◌≤◌, ◌≡◌, refl, ap, ◌∙◌, Bool, false, List, [], ◌∷◌, add32, length, ltb, if◌then◌else◌,
}
use ip_tcp.Pq.{Heap}
use ip_tcp.Tcp.State.{established, close_wait, last_ack}
use ip_tcp.Tcp.ReadBuffer.{ReadBuffer, window, buffered, Sink, file, closed, v_read}
use ip_tcp.Tcp.ReadBuffer.Queue.{unread}
use ip_tcp.Tcp.Segment.{TcpInfo, TcpPacket, has_fin}
use ip_tcp.Tcp.Socket.{NormalSocket, Effect, send, runs}
use ip_tcp.Tcp.Receive.{receive, ack_packet}
use ip_tcp.Tcp.Receive.Fin.{IsFin, counted, receive_fin}
use ip_tcp.Tcp.Receive.Ends.{Ends}
use ip_tcp.Tcp.Receive.Reassembly.{Carries, Synced}
use ip_tcp.Tcp.Close.{fin_seq, closing, fin_sent, fin_packet, blocked, close_in, v_close}
use ip_tcp.Tcp.File.{FileRound, waits, closes, keeps, after_read, is_close_wait, receive_round}

-- In CLOSE_WAIT the loop ends and closes the connection.
receive_round-close_wait :
    (ok : Bool) (s : NormalSocket) (f : List ℕ)
    → s.state ≡ close_wait
    → s.state_locked ≡ false
    → receive_round ok s f ≡ closes (closing (fin_sent last_ack s) (fin_packet s))
unfolding receive_round v_close
receive_round-close_wait ok s f st unlocked =
    ap (λ b. if b then waits else by_state) unlocked
    ∙ ap (λ t. if is_close_wait t then closes (v_close s) else reading) st
    ∙ ap closes
        (ap (λ b. if b then blocked else close_in s.state s) unlocked ∙ ap (λ t. close_in t s) st)
  where
    reading : FileRound
    reading =
        if ltb 0 (buffered s.read_buffer)
        then after_read s f (v_read s.state s.read_buffer 65535 (file ok))
        else keeps s f

    by_state : FileRound
    by_state = if is_close_wait s.state then closes (v_close s) else reading

-- When the peer's FIN reaches an established connection whose reader has unread bytes, before the
-- next round of `ReceiveFile` reads them, those bytes never get into the file: the FIN is
-- acknowledged, the next round closes the connection whether or not `Write` would succeed, all of
-- the unread bytes are still in the buffer then, and `VRead` refuses to read in the state that is
-- left. The FIN is an ACK not behind `cumReadNXT` whose number is in neither map, no early packet waits, and the
-- state's mutex is free.
pub fin_truncates_file :
    (heap : Heap) (s : NormalSocket) (r : TcpInfo) (ok : Bool) (f : List ℕ)
    → IsFin s r
    → s.early_pq ≡ []
    → s.state_locked ≡ false
    → s.state ≡ established
    → (s' s'' : NormalSocket) × (ack fin : TcpPacket) × (receive heap s r ≡ runs s' (send ack ∷ []))
      × (ack.ack_num ≡ add32 s.cum_read_nxt 1)
      × (receive_round ok s' f ≡ closes (closing s'' fin))
      × (fin.seq_num ≡ fin_seq s)
      × (unread s''.read_buffer ≡ unread s.read_buffer)
      × ((numbytes : ℕ) (sink : Sink) → v_read s''.state s''.read_buffer numbytes sink ≡ closed)
unfolding v_read
fin_truncates_file heap s r ok f is q unlocked st =
    let s' : NormalSocket = record (counted heap s r) { state = close_wait } in
    (
      s',
      fin_sent last_ack s',
      ack_packet s' r,
      fin_packet s',
      (receive_fin heap s r is q unlocked).0 st,
      refl,
      receive_round-close_wait ok s' f refl unlocked,
      refl,
      refl,
      λ numbytes sink. refl,
    )

module _ (stream : ℕ → ℕ) (first : ℕ) where
  -- With the file's bytes read before, the socket is in step with the stream.
  abbrev KeepsSynced : ℕ → FileRound → Type 0
  KeepsSynced lo waits = Unit
  KeepsSynced lo (closes _) = Unit
  KeepsSynced lo (keeps s f) = Synced stream first f lo s

  module _ (heap : Heap) where
    -- The socket and the file, from a socket in step with the stream and an empty file on, after
    -- rounds of `ReceiverThread` and of the loop of `ReceiveFile` in any order. The segments are the
    -- stream's, in order or early, with no FIN, and fit the advertised window; writes may fail.
    pub data Reach : NormalSocket → List ℕ → Type 0 where
      begins : {s : NormalSocket} → Synced stream first [] s.cum_read_nxt s → Reach s []
      takes :
          {s s' : NormalSocket} {f : List ℕ} {fx : List Effect}
          → Reach s f
          → (r : TcpInfo) → has_fin r.flag ≡ false
          → s.cum_read_nxt ≤ r.seq_num
          → Carries stream first r.seq_num r.payload
          → r.seq_num + length r.payload ≤ s.cum_read_nxt + window s.read_buffer
          → receive heap s r ≡ runs s' fx
          → Reach s' f
      reads :
          {s s' : NormalSocket} {f f' : List ℕ}
          → Reach s f
          → (ok : Bool) → receive_round ok s f ≡ keeps s' f'
          → Reach s' f'
