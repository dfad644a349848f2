-- ===== src/Repl/Flaws.antt =====
-- Lines that the terminal takes amiss.
use ip_tcp.Base.{
  ℕ, ◌+◌, ◌-◌, ◌*◌, ◌≡◌, ◌⊎◌, inl, inr, refl, ap, ◌∙◌, Bool, true, false, Bool-cases, differ, List,
  [], ◌∷◌, ◌++◌, Option, none, some, some_inj, subst, if◌then◌else◌, ltb, leb, ◌&&◌,
}
use ip_tcp.Base.Table.{lookup, nat_eq, lookup-insert_self}
use ip_tcp.Netip.{Addr}
use ip_tcp.Node.State.{Node, Name, name_eq, Interface}
use ip_tcp.Node.Packets.{SendInterface}
use ip_tcp.Node.Start.{initialize}
use ip_tcp.Node.Start.Toggle.{initialize_toggle_panics}
use ip_tcp.Lnxconfig.{IpConfig, split}
use ip_tcp.Tcp.Segment.{SocketTableKey, key_eq}
use ip_tcp.Tcp.Stack.{TcpStack, Socket, ListenSocket, listens, listen_key, add_socket, v_listen}
use ip_tcp.Tcp.Wire.{Netstack}
use ip_tcp.Repl.{
  Call, toggle, complain_and_accept_on, on_socket, command, command_of, repl_line, panics,
  complains, no_socket, accept_on, accept_words, toggle_words, write_words, as_normal, write,
}
use ip_tcp.Repl.Words.{
  parse_digits, parse_uint16, join, clean_input, IsWord, split-some, split-word, split-last,
}
use ip_tcp.Repl.Calls.{crashes, after_toggle, perform}

parse_digits-bad :
    (n : ℕ) (w : Name)
    → (parse_digits n w).is_ok ≡ false
    → ((parse_digits n w).value ≡ 0) ⊎ ((parse_digits n w).value ≡ 65535)
unfolding parse_digits
parse_digits-bad n [] h = absurd (differ refl h)
parse_digits-bad n (c ∷ w) h = elim (Bool-cases (leb 48 c && leb c 57)) [
  | inl d ↦ elim (Bool-cases (ltb 65535 (10 * n + (c - 48)))) [
    | inl big ↦ rw (d, big) (inr refl)
    | inr small ↦ rw (d, small) (parse_digits-bad (10 * n + (c - 48)) w (rw (d, small) at h))
  ]
  | inr d ↦ rw d (inl refl)
]

parse_uint16-bad :
    (w : Name)
    → (parse_uint16 w).is_ok ≡ false
    → ((parse_uint16 w).value ≡ 0) ⊎ ((parse_uint16 w).value ≡ 65535)
unfolding parse_uint16
parse_uint16-bad [] h = inl refl
parse_uint16-bad (c ∷ w) h = parse_digits-bad 0 (c ∷ w) h

-- A socket of `VListen` stands in both tables.
v_listen-adds :
    (t : TcpStack) (port : ℕ) {t' : TcpStack} {l : ListenSocket}
    → v_listen t port ≡ some (t', l)
    → (lookup l.sid t'.sid_to_sk ≡ some (listen_key port))
      × (lookup (listen_key port) t'.socket_table ≡ some (listens l))
unfolding v_listen add_socket
v_listen-adds t port {t'} {l} e = by_entry (lookup (listen_key port) t.socket_table) e
  where
    made : ListenSocket
    made = record { local_port = port; sid = t.sid }

    by_entry :
        (o : Option Socket)
        → (elim o as (λ _. Option (TcpStack × ListenSocket)) [
          | some _ ↦ none
          | none ↦ some (add_socket t (listen_key port) (listens made), made)
        ])
          ≡ some (t', l)
        → (lookup l.sid t'.sid_to_sk ≡ some (listen_key port))
          × (lookup (listen_key port) t'.socket_table ≡ some (listens l))
    by_entry (some _) h = absurd cc
    by_entry none h =
        subst
          (λ (x : TcpStack × ListenSocket).
            (lookup x.1.sid x.0.sid_to_sk ≡ some (listen_key port))
            × (lookup (listen_key port) x.0.socket_table ≡ some (listens x.1)))
          (some_inj h)
          (
            lookup-insert_self t.sid (listen_key port) t.sid_to_sk,
            lookup-insert_self (listen_key port) (listens made) t.socket_table,
          )

module _ (parse_addr : Name → Option Addr) (opens : Name → Bool) where
  -- The command "a" with a word that is no port, once the line is cleaned, complains and then starts
  -- to listen all the same, on port 0 or 65535.
  pub repl_accepts_any :
      (node : Node) (t : TcpStack) (text word : Name)
      → clean_input text ≡ b'a' ∷ 32 ∷ word
      → IsWord word
      → (parse_uint16 word).is_ok ≡ false
      → (port : ℕ) × (repl_line parse_addr opens node t text ≡ complain_and_accept_on port)
        × ((port ≡ 0) ⊎ (port ≡ 65535))
  unfolding repl_line command
  repl_accepts_any node t text word cleaned w bad = (
    (parse_uint16 word).value,
    ap (λ line. command_of parse_addr opens node t (split line)) cleaned
        ∙ ap accept_words (split-last word w)
        ∙ ap
            (λ b.
              if b
              then accept_on (parse_uint16 word).value
              else complain_and_accept_on (parse_uint16 word).value)
            bad,
    parse_uint16-bad word bad,
  )

  -- The commands "down" and "up" with the name of any interface of the node that `Initialize`
  -- returned, once the line is cleaned, crash the program.
  pub repl_toggle_crashes :
      (ns : Netstack) (sum : List ℕ → ℕ → ℕ) (c : IpConfig) (t : TcpStack) (text name : Name)
      (b : Bool) {node : Node} {sent : List (Name × SendInterface)} {i : Interface}
      → initialize sum c ≡ some (node, sent)
      → lookup name node.interfaces ≡ some i
      → IsWord name
      → clean_input text
        ≡ (if b then b'u' ∷ b'p' ∷ [] else b'd' ∷ b'o' ∷ b'w' ∷ b'n' ∷ []) ++ 32 ∷ name
      → perform ns node t (repl_line parse_addr opens node t text) ≡ crashes
  unfolding repl_line command perform
  repl_toggle_crashes ns sum c t text name b {node} e found word cleaned =
      ap (perform ns node t)
        (ap (λ line. command_of parse_addr opens node t (split line)) cleaned ∙ by_word b)
      ∙ ap (after_toggle ns t) (initialize_toggle_panics sum c name b e found)
    where
      by_word :
          (b : Bool)
          → command_of parse_addr opens node t (
              split ((if b then b'u' ∷ b'p' ∷ [] else b'd' ∷ b'o' ∷ b'w' ∷ b'n' ∷ []) ++ 32 ∷ name))
            ≡ toggle name b
      by_word true = ap (toggle_words true) (split-last name word)
      by_word false = ap (toggle_words false) (split-last name word)

  repl_write_crashes :
      (ns : Netstack) (node : Node) (t : TcpStack) (text id message : Name) (sk : SocketTableKey)
      (l : ListenSocket)
      → clean_input text ≡ b's' ∷ 32 ∷ id ++ 32 ∷ message
      → IsWord id
      → (parse_uint16 id).is_ok ≡ true
      → lookup (parse_uint16 id).value t.sid_to_sk ≡ some sk
      → lookup sk t.socket_table ≡ some (listens l)
      → perform ns node t (repl_line parse_addr opens node t text) ≡ crashes
  unfolding repl_line command on_socket perform
  repl_write_crashes ns node t text id message sk l cleaned word ok known found =
      let (w, ws, e) = split-some message in
      let call : repl_line parse_addr opens node t text ≡ panics =
        ap (λ line. command_of parse_addr opens node t (split line)) cleaned
        ∙ ap (λ args. write_words t args) (split-word id message word ∙ ap (λ l. id ∷ l) e)
        ∙ rw (ok, known, on_socket)
            (ap
              (λ o. elim o [
                | none ↦ complains no_socket
                | some socket ↦ act (join (w ∷ ws)) socket
              ])
              found) in
      ap (perform ns node t) call
    where
      act : Name → Socket → Call
      act m socket = as_normal (λ k v. write k v m) sk socket

  -- After `VListen` made a socket, the line "s <socketID> <message>" with that socket's identifier,
  -- once it is cleaned, crashes the program, whatever the rest of the stack holds.
  pub listen_write_crashes :
      (ns : Netstack) (node : Node) (t t' : TcpStack) (port : ℕ) (l : ListenSocket)
      (text id message : Name)
      → v_listen t port ≡ some (t', l)
      → clean_input text ≡ b's' ∷ 32 ∷ id ++ 32 ∷ message
      → IsWord id
      → (parse_uint16 id).is_ok ≡ true
      → (parse_uint16 id).value ≡ l.sid
      → perform ns node t' (repl_line parse_addr opens node t' text) ≡ crashes
  listen_write_crashes ns node t t' port l text id message listened cleaned word ok is =
      let (known, found) = v_listen-adds t port listened in
      repl_write_crashes ns node t' text id message (listen_key port) l cleaned word ok
        (ap (λ n. lookup n t'.sid_to_sk) is ∙ known) found
