-- ===== src/Tcp/Receive.antt =====
-- `ReceiverThread`: what one segment from `normalChan` does.
pub mod Ends
pub mod Branches
pub mod Reassembly
pub mod Fin
pub mod Rewind
pub mod Drained
mod Tests
use ip_tcp.Base.{
  ℕ, zero, suc, ◌%◌, ◌≡◌, Bool, true, false, not, ◌&&◌, List, [], ◌∷◌, ◌++◌, Option, none, some,
  leb, ltb, ◌==◌, if◌then◌else◌, length, add32,
}
use ip_tcp.Base.Table.{lookup, nat_eq}
use ip_tcp.Pq.{EarlyPacket, EarlyPriorityQueue, Heap}
use ip_tcp.Tcp.State.{State, established, fin_wait_2, close_wait, time_wait}
use ip_tcp.Tcp.ReadBuffer.{window, insert_payload}
use ip_tcp.Tcp.Segment.{TcpInfo, TcpPacket, flag_ack, has_fin, has_ack}
use ip_tcp.Tcp.Socket.{
  NormalSocket, Effect, send, to_ack_chan, to_fin_chan, delete_later, Outcome, runs, blocked,
  out_of_fuel, panics,
}

infixl 5 ◌>>=◌
abbrev pub ◌>>=◌ : Outcome → (NormalSocket → List Effect → Outcome) → Outcome
runs s fx >>= f = f s fx
blocked >>= f = blocked
out_of_fuel >>= f = out_of_fuel
panics >>= f = panics

abbrev pub is_some {ℓ} : {A : Type ℓ} → Option A → Bool
is_some none = false
is_some (some a) = true

-- The `if` on the state under `stateMtx`. Only the first two branches unlock it.
fin_in_state : State → NormalSocket → List Effect → Outcome
fin_in_state established s fx = runs (record s { state = close_wait }) fx
fin_in_state fin_wait_2 s fx = runs (record s { state = time_wait }) (fx ++ delete_later ∷ [])
fin_in_state _ s fx = runs (record s { state_locked = true }) fx

-- A FIN: `stateMtx.Lock()` waits if it is held.
unfoldable pub on_fin : NormalSocket → List Effect → Outcome
unfolding fin_in_state
on_fin s fx = if s.state_locked then blocked else fin_in_state s.state s fx

-- The copy of a payload that starts at sequence number `seq`.
unfoldable pub on_payload : NormalSocket → ℕ → List ℕ → List Effect → Outcome
on_payload s seq payload fx = elim (insert_payload s.read_buffer s.base_ack seq payload) [
  | none ↦ out_of_fuel
  | some (r, cum) ↦ runs (record s { read_buffer = r; cum_read_nxt = cum }) fx
]

-- The test of the loop over early packets: there is a first one, and it starts at `cumReadNXT` at
-- the latest.
abbrev pub ready_in : EarlyPriorityQueue → ℕ → Bool
ready_in [] cum = false
ready_in (x ∷ q) cum = leb x.priority cum

-- `sock.earlyPQ[0].Priority`, in a queue that has one.
abbrev first_priority : EarlyPriorityQueue → ℕ
first_priority [] = 0
first_priority (x ∷ q) = x.priority

-- A round of that loop. A FIN that was early does not move `cumReadNXT`.
unfoldable pub early_round : Heap → NormalSocket → List Effect → Outcome
early_round heap s fx = elim (heap.pop s.early_pq) [
  | none ↦ panics
  | some (e, q) ↦
      let s' = record s { early_pq = q } in
      if ltb (first_priority s.early_pq) s.cum_read_nxt
      then runs s' fx
      else if has_fin e.flags
      then on_fin s' fx
      else on_payload s' e.priority e.payload fx
]

-- The loop. A round takes one packet out of the queue, so its length is enough fuel.
unfoldable pub early_loop : Heap → ℕ → NormalSocket → List Effect → Outcome
early_loop heap zero s fx = if ready_in s.early_pq s.cum_read_nxt then out_of_fuel else runs s fx
early_loop heap (suc n) s fx = elim (ready_in s.early_pq s.cum_read_nxt) [
  | true ↦ early_round heap s fx >>= early_loop heap n
  | false ↦ runs s fx
]

-- The acknowledgement that is sent back.
abbrev pub ack_packet : NormalSocket → TcpInfo → TcpPacket
ack_packet s r = record {
  source_ip = r.key.remote_addr;
  dest_ip = r.key.local_addr;
  payload = [];
  flags = flag_ack;
  source_port = r.key.remote_port;
  dest_port = r.key.local_port;
  seq_num = r.ack_num;
  ack_num = s.cum_read_nxt;
  window = window s.read_buffer;
}

abbrev send_ack : TcpInfo → NormalSocket → List Effect → Outcome
send_ack r s fx = runs s (fx ++ send (ack_packet s r) ∷ [])

-- From the test for FIN on: the segment does not start behind `cumReadNXT`.
unfoldable pub accept : Heap → NormalSocket → TcpInfo → Outcome
accept heap s r =
    let drain = λ (s' : NormalSocket) (fx : List Effect).
      early_loop heap (length s'.early_pq) s' fx >>= send_ack r in
    if has_fin r.flag
    then on_fin (record s { cum_read_nxt = add32 s.cum_read_nxt 1 }) [] >>= drain
    else if window s.read_buffer == 0
    then runs s []
    else on_payload s r.seq_num r.payload [] >>= drain

-- `heap.Push` of a segment that is early.
unfoldable pub put_early : Heap → NormalSocket → EarlyPacket → Outcome
put_early heap s e = elim (heap.push e s.early_pq) [
  | none ↦ panics
  | some q ↦ runs (record s { early_pq = q }) []
]

-- A segment with ACK, once the client's window is noted.
unfoldable pub receive_ack : Heap → NormalSocket → TcpInfo → Outcome
receive_ack heap s r =
    if is_some (lookup r.ack_num s.unacked_fins)
    then runs s (to_fin_chan r.ack_num ∷ [])
    else if is_some (lookup r.ack_num s.unacked_nums) && length r.payload == 0
    then runs s (to_ack_chan r ∷ [])
    else if ltb s.cum_read_nxt r.seq_num
    then put_early heap s (record { priority = r.seq_num; flags = r.flag; payload = r.payload })
    else accept heap s r

-- One round of `ReceiverThread`.
unfoldable pub receive : Heap → NormalSocket → TcpInfo → Outcome
unfolding receive_ack put_early accept early_loop early_round on_payload on_fin
receive heap s r =
    if has_ack r.flag
    then receive_ack heap (record s { client_window_size = r.window_size }) r
    else runs s []
