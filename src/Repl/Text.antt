-- ===== src/Repl/Text.antt =====
-- The commands "s" and "send" carry the rest of the line as their message.
use ip_tcp.Base.{
  ℕ, ◌≤◌, ◌≡◌, sym, ap, ◌∙◌, Bool, true, List, [], ◌∷◌, ◌++◌, Option, none, some, length,
}
use ip_tcp.Base.Table.{lookup, nat_eq}
use ip_tcp.Netip.{Addr, AddrPort}
use ip_tcp.Ipv4.{Ipv4Header}
use ip_tcp.Node.State.{Node, Name, name_eq, Interface}
use ip_tcp.Node.Routes.{neighbor_udp}
use ip_tcp.Node.Start.{routine_sends}
use ip_tcp.Node.Network.{travel, Leads, make_packet_travels, routine_sends-written}
use ip_tcp.Node.Packets.{written, delivered}
use ip_tcp.Node.Packets.Checksum.{IsOnesSum}
use ip_tcp.Node.Packets.Hops.{IsSendable}
use ip_tcp.Node.Packets.Send.{SendsTo, handle_send-SendsTo}
use ip_tcp.Lnxconfig.{split}
use ip_tcp.Tcp.Segment.{SocketTableKey, key_eq}
use ip_tcp.Tcp.Socket.{NormalSocket}
use ip_tcp.Tcp.Stack.{TcpStack, Socket, normal}
use ip_tcp.Tcp.Wire.{Netstack}
use ip_tcp.Repl.{
  Call, send, write, on_socket, command, command_of, repl_line, complains, no_socket, no_match,
  send_to, send_words, write_words, as_normal,
}
use ip_tcp.Repl.Words.{parse_uint16, join, clean_input, IsWord, join-split, split-some, split-word}
use ip_tcp.Repl.Calls.{prompts, crashes, perform}

module _ (parse_addr : Name → Option Addr) (opens : Name → Bool) where
  -- The line "s <socketID> <message>", once it is cleaned, writes its whole message, spaces included,
  -- to the socket of the identifier, if that is a number that stands for a connection's socket.
  pub repl_writes :
      (node : Node) (t : TcpStack) (text id message : Name) (sk : SocketTableKey) (s : NormalSocket)
      → clean_input text ≡ b's' ∷ 32 ∷ id ++ 32 ∷ message
      → IsWord id
      → (parse_uint16 id).is_ok ≡ true
      → lookup (parse_uint16 id).value t.sid_to_sk ≡ some sk
      → lookup sk t.socket_table ≡ some (normal s)
      → repl_line parse_addr opens node t text ≡ write sk s message
  unfolding repl_line command on_socket
  repl_writes node t text id message sk s cleaned word ok known found =
      let (w, ws, e) = split-some message in
      ap (λ line. command_of parse_addr opens node t (split line)) cleaned
      ∙ ap (λ args. write_words t args) (split-word id message word ∙ ap (λ l. id ∷ l) e)
      ∙ rw (ok, known, on_socket)
          (ap
              (λ o. elim o [
                | none ↦ complains no_socket
                | some socket ↦ act (join (w ∷ ws)) socket
              ])
              found
            ∙ ap (λ m. write sk s m) (ap join (sym e) ∙ join-split message))
    where
      act : Name → Socket → Call
      act m socket = as_normal (λ k v. write k v m) sk socket

  -- The line "send <vip> <message>", once it is cleaned, sends the whole message as one test packet,
  -- from the interface to the next hop, whose UDP address the interface writes it to; and over the
  -- nodes that send it on from there, the node of that address gets the message at its handler for
  -- protocol 0. This is if the message has at most 1380 bytes, the packet's fields fit, the
  -- interfaces on the way are enabled and at most 15 nodes send it on, and its header checksum is 0
  -- at none of the nodes.
  pub repl_send_arrives :
      (ns : Netstack) (network : AddrPort → Node × Interface) (sender node : Node) (t : TcpStack)
      (text vip message : Name) (dst : Addr) (inter : Interface) (iface : Name) (hop : Addr)
      (ats : List AddrPort) (at : AddrPort)
      → clean_input text ≡ b's' ∷ b'e' ∷ b'n' ∷ b'd' ∷ 32 ∷ vip ++ 32 ∷ message
      → IsWord vip
      → parse_addr vip ≡ some dst
      → IsOnesSum ns.checksum_sum
      → SendsTo sender dst inter iface hop
      → inter.enabled ≡ true
      → neighbor_udp sender.neighbors hop ≡ some at
      → IsSendable inter.config.assigned_ip dst 0 16 message
      → length message ≤ 1380
      → Leads ns.checksum_sum network inter.config.assigned_ip dst 0 message ats at 16 node
      → (q : List ℕ) × (h : Ipv4Header) × (perform ns sender t
            (repl_line parse_addr opens sender t text)
          ≡ prompts t ((iface, record { pack = q; address = hop }) ∷ []))
        × (routine_sends ns.checksum_sum sender inter (record { pack = q; address = hop })
            ≡ written at q)
        × (travel ns.checksum_sum network 16 at q ≡ some (delivered 0 message h))
  unfolding repl_line command perform
  repl_send_arrives ns network sender node t text vip message dst inter iface hop ats at cleaned
        word parsed law sends up known sendable short leads =
      let (w, ws, e) = split-some message in
      let (q, h, made, from, for_dst, went) =
        make_packet_travels ns.checksum_sum network inter.config.assigned_ip dst 0 message ats at 16
          node law sendable short leads in
      let call : repl_line parse_addr opens sender t text ≡ send dst message =
        ap (λ line. command_of parse_addr opens sender t (split line)) cleaned
        ∙ ap (λ args. send_words parse_addr opens sender args)
            (split-word vip message word ∙ ap (λ l. vip ∷ l) e)
        ∙ ap (λ a. send_to sender a (join (w ∷ ws))) parsed
        ∙ ap (λ o. elim o [ none ↦ complains no_match | some _ ↦ send dst (join (w ∷ ws)) ])
            sends.routed
        ∙ ap (λ m. send dst m) (ap join (sym e) ∙ join-split message) in
      (
        q,
        h,
        ap (perform ns sender t) call
            ∙ ap (λ o. elim o [ none ↦ crashes | some sent ↦ prompts t sent ])
                (handle_send-SendsTo ns.checksum_sum sender dst message 0 sends made),
        routine_sends-written ns.checksum_sum sender inter hop q up known,
        went,
      )
