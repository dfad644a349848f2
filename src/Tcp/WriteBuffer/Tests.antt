-- ===== src/Tcp/WriteBuffer/Tests.antt =====
-- The send buffer on concrete bytes.
use ip_tcp.Base.{ℕ, ◌≡◌, refl, true, false, List, [], ◌∷◌, ◌++◌, none, some, arith, replicate}
use ip_tcp.Tcp.Ring.{slice, copy_at, read_ring}
use ip_tcp.Tcp.State.{fin_wait_1}
use ip_tcp.Tcp.WriteBuffer.{
  WriteBuffer, new_write, put_chunk, write_round, write_loop, waiting, closed, v_write,
  sender_payload,
}
use ip_tcp.Tcp.WriteBuffer.Unsent.{unsent}
use ip_tcp.Tcp.WriteBuffer.Stall.{write_loop_stalls}
use ip_tcp.Tcp.WriteBuffer.Pipe.{Pipe, Reach, here, next, write, take, calling, Reach-message}

abbrev hello : List ℕ
hello = 104 ∷ 105 ∷ []

write_hello : (write_round new_write true hello).0.lbw ≡ 2
unfolding write_round put_chunk
write_hello = refl

write_closed : v_write fin_wait_1 [] new_write hello ≡ closed
unfolding v_write
write_closed = refl

abbrev written : WriteBuffer
written = (write_round new_write true hello).0

taken : sender_payload written 2 ≡ some hello
unfolding write_round put_chunk sender_payload slice copy_at
taken = refl

write_loop_stalls_example :
    (w : WriteBuffer) × (offered : List ℕ) × (write_loop
        (replicate 3 (1, 1))
        new_write
        false
        hello
        []
      ≡ waiting w hello offered)
write_loop_stalls_example =
    write_loop_stalls (replicate 3 (1, 1)) new_write 104 (105 ∷ []) [] (omega arith) (omega arith)

-- The message is written, and taken by the sender.
abbrev taken_pipe : Pipe
taken_pipe = record {
  wb = written;
  first = false;
  rest = [];
  offer = none;
  sending = some hello;
  sent = [];
}

after_take_reached : Reach (calling new_write hello) taken_pipe
unfolding write_round put_chunk sender_payload slice copy_at
after_take_reached =
    next (next here (write (calling new_write hello) (λ e. cc) refl))
      (take _ 2 hello refl refl refl)

Reach-message_example :
    ([] ++ (unsent written ++ []) ≡ hello)
    × (◌≡◌ {A = List ℕ} [] [] → taken_pipe.offer ≡ none → taken_pipe.sending ≡ none → [] ≡ hello)
Reach-message_example =
    Reach-message new_write hello (omega arith) refl (unfold read_ring in refl) after_take_reached
