-- ===== src/Tcp/Stack/Invariant.antt =====
-- The tables of the stack agree.
use ip_tcp.Base.{ℕ, ◌<◌, ◌≡◌, ◌≢◌, inl, inr, sym, ap, ◌∙◌, Option, none, some, arith, subst}
use ip_tcp.Base.Table.{
  lookup, insert, nat_eq, lookup-insert_self, lookup-insert_ne, lookup-delete_ne,
  lookup-insert_cases, lookup-delete-some,
}
use ip_tcp.Netip.{Addr, invalid}
use ip_tcp.Tcp.Segment.{SocketTableKey, key_eq}
use ip_tcp.Tcp.Stack.{
  Socket, listens, connects, normal, get_sid, TcpStack, initialize, listen_key, add_socket,
  set_socket, key_of_sid, delete_tcb,
}

-- The kind of key that a socket stands under.
abbrev pub Fits : SocketTableKey → Socket → Type 0
Fits k (listens l) = k ≡ listen_key l.local_port
Fits k (connects sk sid) = k.local_addr ≢ invalid
Fits k (normal s) = k.local_addr ≢ invalid

-- Each socket's SID leads back to its key, and the next SID is new.
pub record IsStack (t : TcpStack) : Type 0 where
  pub typed : (k : SocketTableKey) (s : Socket) → lookup k t.socket_table ≡ some s → Fits k s
  pub owned :
      (k : SocketTableKey) (s : Socket)
      → lookup k t.socket_table ≡ some s
      → lookup (get_sid s) t.sid_to_sk ≡ some k
  pub below : (n : ℕ) (k : SocketTableKey) → lookup n t.sid_to_sk ≡ some k → n < t.sid

pub initialize-IsStack : (ip : Addr) → IsStack (initialize ip)
unfolding lookup
initialize-IsStack ip = record {
  typed = λ k s h. absurd cc;
  owned = λ k s h. absurd cc;
  below = λ n k h. absurd cc;
}

pub add_socket-IsStack :
    (t : TcpStack) (k : SocketTableKey) (s : Socket)
    → IsStack t
    → t.sid < 65535
    → get_sid s ≡ t.sid
    → Fits k s
    → IsStack (add_socket t k s)
unfolding add_socket
add_socket-IsStack t k s v h e f = record {
  typed = λ j x l. elim (lookup-insert_cases k j s t.socket_table l) [
    | inl (ek, es) ↦ subst (λ y. Fits j y) es (subst (λ y. Fits y s) ek f)
    | inr (ne, l') ↦ v.typed j x l'
  ];
  owned = λ j x l. elim (lookup-insert_cases k j s t.socket_table l) [
    | inl (ek, es) ↦
        subst (λ y. lookup (get_sid y) (insert t.sid k t.sid_to_sk) ≡ some j) es
          (subst (λ n. lookup n (insert t.sid k t.sid_to_sk) ≡ some j) (sym e)
            (lookup-insert_self t.sid k t.sid_to_sk ∙ ap (λ y. some y) ek))
    | inr (ne, l') ↦
        lookup-insert_ne t.sid (get_sid x) k t.sid_to_sk
          (λ n. omega (arith, v.below (get_sid x) j (v.owned j x l')))
        ∙ v.owned j x l'
  ];
  below = λ n j l. elim (lookup-insert_cases t.sid n k t.sid_to_sk l) [
    | inl (en, ek) ↦ omega arith
    | inr (ne, l') ↦ omega (arith, v.below n j l')
  ];
}

-- A socket may change under its key, if its SID stays.
pub set_socket-IsStack :
    (t : TcpStack) (k : SocketTableKey) (s : Socket)
    → IsStack t
    → lookup (get_sid s) t.sid_to_sk ≡ some k
    → Fits k s
    → IsStack (set_socket t k s)
set_socket-IsStack t k s v o f = record {
  typed = λ j x l. elim (lookup-insert_cases k j s t.socket_table l) [
    | inl (ek, es) ↦ subst (λ y. Fits j y) es (subst (λ y. Fits y s) ek f)
    | inr (ne, l') ↦ v.typed j x l'
  ];
  owned = λ j x l. elim (lookup-insert_cases k j s t.socket_table l) [
    | inl (ek, es) ↦
        subst (λ y. lookup (get_sid y) t.sid_to_sk ≡ some j) es (o ∙ ap (λ y. some y) ek)
    | inr (ne, l') ↦ v.owned j x l'
  ];
  below = v.below;
}

pub delete_tcb-IsStack : (t : TcpStack) (n : ℕ) → IsStack t → IsStack (delete_tcb t n)
unfolding delete_tcb
delete_tcb-IsStack t n v = record {
  typed = λ j x l. v.typed j x (lookup-delete-some (key_of_sid t n) j t.socket_table l).1;
  owned = λ j x l.
      let (ne, l') = lookup-delete-some (key_of_sid t n) j t.socket_table l in
      lookup-delete_ne n (get_sid x) t.sid_to_sk
        (λ e. ne (ap key_or_zero (ap (λ i. lookup i t.sid_to_sk) e ∙ v.owned j x l')))
      ∙ v.owned j x l';
  below = λ m j l. v.below m j (lookup-delete-some n m t.sid_to_sk l).1;
}
  where
    key_or_zero : Option SocketTableKey → SocketTableKey
    key_or_zero o = elim o [ none ↦ listen_key 0 | some sk ↦ sk ]
