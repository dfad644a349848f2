-- ===== src/Tcp/State.antt =====
-- The connection states of a socket, the constants `LISTEN` to `TIME_WAIT`.
use ip_tcp.Base.{Bool, true, false}

pub data State : Type 0 where
  listen syn_sent syn_received established fin_wait_1 fin_wait_2 close_wait last_ack time_wait :
      State

-- `VRead` refuses to read in these states,
abbrev pub refuses_read : State → Bool
refuses_read close_wait = true
refuses_read last_ack = true
refuses_read _ = false

-- and `VWrite` to write in these.
abbrev pub refuses_write : State → Bool
refuses_write fin_wait_1 = true
refuses_write fin_wait_2 = true
refuses_write time_wait = true
refuses_write _ = false
