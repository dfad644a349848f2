-- ===== src/Tcp/Stack/Dispatch.antt =====
-- Where segments go, and what closing takes out, in a stack whose tables agree.
use ip_tcp.Base.{
  ℕ, ◌≡◌, ◌≢◌, refl, sym, ap, ◌∙◌, Bool, true, false, Option, none, some, subst, if◌then◌else◌,
}
use ip_tcp.Base.Table.{lookup, delete, nat_eq, lookup-delete_self, lookup-delete_ne}
use ip_tcp.Netip.{invalid}
use ip_tcp.Tcp.Segment.{SocketTableKey, key_eq, flip_socket_key_fields, TcpInfo}
use ip_tcp.Tcp.Socket.{NormalSocket}
use ip_tcp.Tcp.Stack.{
  ListenSocket, Socket, listens, connects, normal, get_sid, TcpStack, listen_key, delete_tcb,
  to_normal_chan, to_listen_chan, ignored, panics, to_listener_in, to_listener, to_connection,
  is_syn_received, dispatch,
}
use ip_tcp.Tcp.Stack.Invariant.{Fits, IsStack}

-- A segment for an address that is not the zero address, in a stack whose tables agree. It goes to
-- the socket of its connection, one in SYN_SENT included, unless that is still in SYN_RECEIVED; if
-- there is none, or it is in
-- that state, the segment goes to the socket that listens on its port, or nowhere. No type assertion
-- fails.
pub dispatch_outcomes :
    (t : TcpStack) (r : TcpInfo)
    → IsStack t
    → r.key.remote_addr ≢ invalid
    → let key = flip_socket_key_fields r.key in
      let port = listen_key r.key.remote_port in
      ((s : NormalSocket)
        → lookup key t.socket_table ≡ some (normal s)
        → (is_syn_received s.state ≡ false → dispatch t r ≡ to_normal_chan key)
          × (is_syn_received s.state ≡ true → dispatch t r ≡ to_listener t r))
      × ((sk : SocketTableKey) (n : ℕ)
          → lookup key t.socket_table ≡ some (connects sk n)
          → dispatch t r ≡ to_normal_chan key)
      × (lookup key t.socket_table ≡ none → dispatch t r ≡ to_listener t r)
      × (lookup port t.socket_table ≡ none → to_listener t r ≡ ignored)
      × ((s : Socket)
          → lookup port t.socket_table ≡ some s
          → (l : ListenSocket) × (s ≡ listens l)
            × (l.local_port ≡ r.key.remote_port)
            × (to_listener t r ≡ to_listen_chan l))
      × (dispatch t r ≢ panics)
unfolding dispatch flip_socket_key_fields
dispatch_outcomes t r v i = (
  λ s e. (
    λ f. found e ∙ ap (λ b. if b then to_listener t r else to_normal_chan key) f,
    λ f. found e ∙ ap (λ b. if b then to_listener t r else to_normal_chan key) f,
  ),
  λ sk n e. found e,
  found,
  ap to_listener_in,
  λ s e. listening s (v.typed (listen_key r.key.remote_port) s e) (ap to_listener_in e),
  safe (lookup key t.socket_table) refl,
)
  where
    key : SocketTableKey
    key = flip_socket_key_fields r.key

    found :
        {o : Option Socket}
        → lookup key t.socket_table ≡ o
        → dispatch t r ≡ to_connection key (to_listener t r) o
    found = ap (to_connection key (to_listener t r))

    listening :
        (s : Socket)
        → Fits (listen_key r.key.remote_port) s
        → to_listener t r ≡ to_listener_in (some s)
        → (l : ListenSocket) × (s ≡ listens l)
          × (l.local_port ≡ r.key.remote_port)
          × (to_listener t r ≡ to_listen_chan l)
    listening (listens l) f e = (l, refl, sym (ap (λ (k : SocketTableKey). k.local_port) f), e)
    listening (connects _ _) f e = absurd (f refl)
    listening (normal _) f e = absurd (f refl)

    listener_safe :
        (o : Option Socket)
        → lookup (listen_key r.key.remote_port) t.socket_table ≡ o
        → to_listener_in o ≢ panics
    listener_safe none e = λ h. cc
    listener_safe (some (listens l)) e = λ h. cc
    listener_safe (some (connects sk n)) e = absurd (v.typed _ (connects sk n) e refl)
    listener_safe (some (normal s)) e = absurd (v.typed _ (normal s) e refl)

    safe :
        (o : Option Socket)
        → lookup key t.socket_table ≡ o
        → to_connection key (to_listener t r) o ≢ panics
    safe none e = listener_safe _ refl
    safe (some (listens l)) e =
        absurd (i (ap (λ (k : SocketTableKey). k.local_addr) (v.typed key (listens l) e)))
    safe (some (connects _ _)) e = λ h. cc
    safe (some (normal s)) e = by_state (is_syn_received s.state)
      where
        by_state : (b : Bool) → (if b then to_listener t r else to_normal_chan key) ≢ panics
        by_state true = listener_safe _ refl
        by_state false = λ h. cc

-- Closing a socket takes it out of the table and leaves every other socket where it is.
pub delete_tcb-removes :
    (t : TcpStack) (k : SocketTableKey) (s : Socket)
    → IsStack t
    → lookup k t.socket_table ≡ some s
    → (lookup k (delete_tcb t (get_sid s)).socket_table ≡ none)
      × ((j : SocketTableKey)
          → k ≢ j
          → lookup j (delete_tcb t (get_sid s)).socket_table ≡ lookup j t.socket_table)
unfolding delete_tcb
delete_tcb-removes t k s v e =
    subst
      (λ x.
        (lookup k (delete x t.socket_table) ≡ none)
        × ((j : SocketTableKey)
            → k ≢ j
            → lookup j (delete x t.socket_table) ≡ lookup j t.socket_table))
      (sym (
        ap (λ o. elim o as (λ x. SocketTableKey) [ none ↦ listen_key 0 | some sk ↦ sk ])
          (v.owned k s e)))
      (lookup-delete_self k t.socket_table, λ j ne. lookup-delete_ne k j t.socket_table ne)
