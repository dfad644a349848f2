-- ===== src/Tcp/Open/Tables.antt =====
-- Listening, connecting, accepting and closing keep the stack's tables in agreement.
use ip_tcp.Base.{
  ℕ, ◌<◌, ◌≡◌, ◌≢◌, refl, ap, ◌∙◌, Bool, true, false, ◌&&◌, List, [], ◌∷◌, Option, none, some, All,
  if◌then◌else◌, ◌==◌, some_inj, subst,
}
use ip_tcp.Base.Table.{lookup, nat_eq, lookup-insert_self}
use ip_tcp.Netip.{Addr, invalid}
use ip_tcp.Tcp.Segment.{SocketTableKey, key_eq, flip_socket_key_fields, TcpInfo, flag_syn, flag_ack}
use ip_tcp.Tcp.Socket.{NormalSocket}
use ip_tcp.Tcp.Stack.{
  ListenSocket, Socket, listens, connects, normal, TcpStack, initialize, listen_key, add_socket,
  set_socket, delete_tcb, v_listen,
}
use ip_tcp.Tcp.Stack.Invariant.{
  IsStack, initialize-IsStack, add_socket-IsStack, set_socket-IsStack, delete_tcb-IsStack,
}
use ip_tcp.Tcp.Open.{
  Event, Dialed, answered, gave_up, waits, dial, draw_port, connect_key, connect_outcome,
  ConnectResult, no_port, connected, could_not_connect, connecting, v_connect, await,
  accept_outcome, AcceptResult, awaits_syn, awaits_ack, accepted, v_accept, connected_socket,
  accepted_socket,
}

-- The stack after a call, unless it has not begun to change it.
abbrev pub after_connect : TcpStack → ConnectResult → TcpStack
after_connect t no_port = t
after_connect t (connected t' _ _) = t'
after_connect t (could_not_connect t' _) = t'
after_connect t (connecting t' _) = t'

abbrev pub after_accept : TcpStack → AcceptResult → TcpStack
after_accept t awaits_syn = t
after_accept t (awaits_ack t' _) = t'
after_accept t (accepted t' _ _) = t'

-- What changes the tables; a SID is given out only below the last uint16. `work` is a thread that
-- changes its socket.
pub data Change : TcpStack → TcpStack → Type 0 where
  listen :
      (t t' : TcpStack) (port : ℕ) (l : ListenSocket)
      → t.sid < 65535
      → v_listen t port ≡ some (t', l)
      → Change t t'
  connect :
      (t : TcpStack) (dest_addr : Addr) (dest_port : ℕ) (draws : List ℕ) (events : List Event)
      → t.sid < 65535
      → t.ip ≢ invalid
      → Change t (after_connect t (v_connect t dest_addr dest_port draws events))
  accept :
      (t : TcpStack) (lsock : ListenSocket) (infos : List TcpInfo)
      → t.sid < 65535
      → All (λ (ci : TcpInfo). ci.key.remote_addr ≢ invalid) infos
      → Change t (after_accept t (v_accept t lsock infos))
  close : (t : TcpStack) (sid : ℕ) → Change t (delete_tcb t sid)
  work :
      (t : TcpStack) (k : SocketTableKey) (s s' : NormalSocket)
      → lookup k t.socket_table ≡ some (normal s)
      → s'.sid ≡ s.sid
      → Change t (set_socket t k (normal s'))

pub data Reach (t : TcpStack) : TcpStack → Type 0 where
  here : Reach t t
  next : {u v : TcpStack} → Reach t u → Change u v → Reach t v

added_sid :
    (t : TcpStack) (k : SocketTableKey) (s : Socket)
    → lookup t.sid (add_socket t k s).sid_to_sk ≡ some k
unfolding add_socket
added_sid t k s = lookup-insert_self t.sid k t.sid_to_sk

connect_outcome-IsStack :
    (t : TcpStack) (sk : SocketTableKey) (d : Dialed)
    → IsStack t
    → t.sid < 65535
    → sk.local_addr ≢ invalid
    → IsStack (after_connect t (connect_outcome t sk d))
unfolding connect_outcome
connect_outcome-IsStack t sk (waits n) v h i =
    add_socket-IsStack t sk (connects sk t.sid) v h refl i
connect_outcome-IsStack t sk (gave_up n) v h i =
    delete_tcb-IsStack _ t.sid (add_socket-IsStack t sk (connects sk t.sid) v h refl i)
connect_outcome-IsStack t sk (answered ci n) v h i =
    set_socket-IsStack (add_socket t sk (connects sk t.sid)) sk
      (normal (connected_socket sk t.sid ci))
      (add_socket-IsStack t sk (connects sk t.sid) v h refl i) (added_sid t sk (connects sk t.sid))
      i

accept_outcome-IsStack :
    (t : TcpStack) (ci : TcpInfo) (o : Option (TcpInfo × List TcpInfo))
    → IsStack t
    → t.sid < 65535
    → ci.key.remote_addr ≢ invalid
    → IsStack (after_accept t (accept_outcome t ci o))
unfolding accept_outcome flip_socket_key_fields
accept_outcome-IsStack t ci none v h i =
    add_socket-IsStack t _ (normal (accepted_socket t.sid ci)) v h refl i
accept_outcome-IsStack t ci (some (ack, _)) v h i =
    let sock = accepted_socket t.sid ci in
    set_socket-IsStack (add_socket t sock.key (normal sock)) sock.key _
      (add_socket-IsStack t sock.key (normal sock) v h refl i) (added_sid t sock.key (normal sock))
      i

await-All :
    (P : TcpInfo → Type 0) (flag port : ℕ) (infos : List TcpInfo) {ci : TcpInfo}
    {rest : List TcpInfo}
    → All P infos
    → await flag port infos ≡ some (ci, rest)
    → P ci
unfolding await
await-All P flag port [] a h = absurd cc
await-All P flag port (x ∷ infos) (p, a) h =
    by_test (x.flag == flag && x.key.remote_port == port) h (λ k. await-All P flag port infos a k)
  where
    by_test :
        (b : Bool) {ci : TcpInfo} {rest : List TcpInfo}
        → (if b then some (x, infos) else await flag port infos) ≡ some (ci, rest)
        → (await flag port infos ≡ some (ci, rest) → P ci)
        → P ci
    by_test true e later = subst P (ap first (some_inj e)) p
      where
        first : TcpInfo × List TcpInfo → TcpInfo
        first q = q.0
    by_test false e later = later e

v_listen-IsStack :
    (t : TcpStack) (port : ℕ) {t' : TcpStack} {l : ListenSocket}
    → IsStack t
    → t.sid < 65535
    → v_listen t port ≡ some (t', l)
    → IsStack t'
unfolding v_listen
v_listen-IsStack t port v h e = by_entry (lookup (listen_key port) t.socket_table) e
  where
    by_entry :
        (o : Option Socket) {t' : TcpStack} {l : ListenSocket}
        → elim o as (λ x. Option (TcpStack × ListenSocket)) [
          | some _ ↦ none
          | none ↦ some (
            add_socket t (listen_key port) (listens (record { local_port = port; sid = t.sid })),
            record { local_port = port; sid = t.sid },
          )
        ]
          ≡ some (t', l)
        → IsStack t'
    by_entry (some _) e = absurd cc
    by_entry none e =
        subst (λ (q : TcpStack × ListenSocket). IsStack q.0) (some_inj e)
          (add_socket-IsStack t (listen_key port)
            (listens (record { local_port = port; sid = t.sid })) v h refl refl)

v_connect-IsStack :
    (t : TcpStack) (dest_addr : Addr) (dest_port : ℕ) (draws : List ℕ) (events : List Event)
    → IsStack t
    → t.sid < 65535
    → t.ip ≢ invalid
    → IsStack (after_connect t (v_connect t dest_addr dest_port draws events))
unfolding v_connect
v_connect-IsStack t dest_addr dest_port draws events v h i =
    elim (draw_port t draws)
      as (λ o. IsStack (
        after_connect t (elim o as (λ x. ConnectResult) [
          | none ↦ no_port
          | some src_port ↦
              connect_outcome t (connect_key t dest_addr dest_port src_port) (dial 0 0 events)
        ]))) [
          | none ↦ v
          | some src_port ↦
              connect_outcome-IsStack t (connect_key t dest_addr dest_port src_port)
                (dial 0 0 events) v h i
        ]

v_accept-IsStack :
    (t : TcpStack) (lsock : ListenSocket) (infos : List TcpInfo)
    → IsStack t
    → t.sid < 65535
    → All (λ (ci : TcpInfo). ci.key.remote_addr ≢ invalid) infos
    → IsStack (after_accept t (v_accept t lsock infos))
unfolding v_accept
v_accept-IsStack t lsock infos v h i =
    elim (await flag_syn lsock.local_port infos)
        as (λ o.
          await flag_syn lsock.local_port infos ≡ o
          → IsStack (
              after_accept t (elim o as (λ x. AcceptResult) [
                | none ↦ awaits_syn
                | some (ci, rest) ↦ accept_outcome t ci (await flag_ack lsock.local_port rest)
              ]))) [
                | none ↦ λ e. v
                | some (ci, rest) ↦ λ e.
                    accept_outcome-IsStack t ci (await flag_ack lsock.local_port rest) v h (
                      await-All (λ (ci : TcpInfo). ci.key.remote_addr ≢ invalid) flag_syn
                        lsock.local_port infos i e)
              ]
      refl

Change-IsStack : {t t' : TcpStack} → Change t t' → IsStack t → IsStack t'
Change-IsStack (listen t t' port l h e) v = v_listen-IsStack t port v h e
Change-IsStack (connect t dest_addr dest_port draws events h i) v =
    v_connect-IsStack t dest_addr dest_port draws events v h i
Change-IsStack (accept t lsock infos h i) v = v_accept-IsStack t lsock infos v h i
Change-IsStack (close t sid) v = delete_tcb-IsStack t sid v
Change-IsStack (work t k s s' l e) v =
    set_socket-IsStack t k (normal s') v (ap (λ n. lookup n t.sid_to_sk) e ∙ v.owned k (normal s) l)
      (v.typed k (normal s) l)

-- Whatever sequence of listening, connecting, accepting, closing and work of the threads a stack
-- goes through, every socket stands under a key of its kind, its SID leads back to that key, and the
-- next SID is new, as long as no more than 65535 SIDs are given out and the addresses of the node
-- and of the segments that arrive are not the zero address.
pub Reach-IsStack : {ip : Addr} {t : TcpStack} → Reach (initialize ip) t → IsStack t
Reach-IsStack {ip} here = initialize-IsStack ip
Reach-IsStack (next r c) = Change-IsStack c (Reach-IsStack r)
