-- ===== src/Repl/Tests.antt =====
-- Lines at the terminal of the node that Node/Start/Samples starts.
use ip_tcp.Base.{
  ℕ, ◌≡◌, ◌⊎◌, refl, Bool, true, false, List, [], ◌∷◌, ◌++◌, Option, none, some, arith,
}
use ip_tcp.Base.Table.{lookup, insert, nat_eq}
use ip_tcp.Netip.{Addr, addr_eq, contains}
use ip_tcp.Ipv4.{Ipv4Header, header_bytes}
use ip_tcp.Node.State.{Node, Name, name_eq, Interface, local}
use ip_tcp.Node.Samples.{here, router, host, link, udp, ones_sum, ones_sum_lem}
use ip_tcp.Node.Start.{if0, routine_sends}
use ip_tcp.Node.Start.Samples.{config, started, config_starts, started_interface}
use ip_tcp.Node.Packets.Send.{SendsTo}
use ip_tcp.Node.Routes.{check_dest, longest, find_next, neighbor_udp}
use ip_tcp.Node.Packets.{written, delivered}
use ip_tcp.Node.Network.{travel}
use ip_tcp.Tcp.Samples.{key, socket}
use ip_tcp.Tcp.Segment.{key_eq}
use ip_tcp.Tcp.Stack.{TcpStack, normal, listens, listen_key, add_socket, v_listen}
use ip_tcp.Tcp.Wire.{Netstack}
use ip_tcp.Repl.{repl_line, write, complain_and_accept_on}
use ip_tcp.Repl.Words.{clean_input, parse_uint16, parse_digits}
use ip_tcp.Repl.Calls.{prompts, crashes, perform}
use ip_tcp.Repl.Text.{repl_writes, repl_send_arrives}
use ip_tcp.Repl.Flaws.{repl_accepts_any, repl_toggle_crashes, listen_write_crashes}

abbrev parse_addr : Name → Option Addr
parse_addr w = some router

abbrev opens : Name → Bool
opens w = false

-- "  S 0 Hi  There"
abbrev text : Name
text = 32 ∷ 32 ∷ b'S' ∷ 32 ∷ b'0' ∷ 32 ∷ b'H' ∷ b'i' ∷ 32 ∷ 32 ∷ b'T' ∷ []

text_cleaned : clean_input text ≡ b's' ∷ 32 ∷ (b'0' ∷ []) ++ 32 ∷ b'h' ∷ b'i' ∷ 32 ∷ 32 ∷ b't' ∷ []
unfolding clean_input
text_cleaned = refl

-- Socket 0 is the connection of the samples.
abbrev connected : TcpStack
connected = record {
  socket_table = (key, normal socket) ∷ [];
  ip = here;
  sid_to_sk = (0, key) ∷ [];
  sid = 1;
}

-- The stack after a `VListen` on port 80.
abbrev listening : TcpStack
listening = add_socket connected (listen_key 80) (listens (record { local_port = 80; sid = 1 }))

repl_writes_example :
    repl_line parse_addr opens host connected text
    ≡ write key socket (b'h' ∷ b'i' ∷ 32 ∷ 32 ∷ b't' ∷ [])
unfolding parse_uint16 parse_digits lookup
repl_writes_example =
    repl_writes parse_addr opens host connected text (b'0' ∷ []) (b'h' ∷ b'i' ∷ 32 ∷ 32 ∷ b't' ∷ [])
      key socket text_cleaned (omega arith) refl refl refl

-- A header package of which the tests only use the sum.
abbrev stack : Netstack
stack = record {
  encode = λ f. [];
  source_port = λ b. none;
  destination_port = λ b. none;
  sequence_number = λ b. none;
  ack_number = λ b. none;
  data_offset = λ b. none;
  flags = λ b. none;
  window_size = λ b. none;
  checksum_field = λ b. none;
  checksum_sum = ones_sum;
}

listening_starts : v_listen connected 80 ≡ some (listening, record { local_port = 80; sid = 1 })
unfolding v_listen add_socket lookup insert
listening_starts = refl

-- "s 1 hi"
listen_write_crashes_example :
    perform stack host listening
      (repl_line parse_addr opens host listening (b's' ∷ 32 ∷ b'1' ∷ 32 ∷ b'h' ∷ b'i' ∷ []))
    ≡ crashes
unfolding parse_uint16 parse_digits clean_input
listen_write_crashes_example =
    listen_write_crashes parse_addr opens stack host connected listening 80
      (record { local_port = 80; sid = 1 }) (b's' ∷ 32 ∷ b'1' ∷ 32 ∷ b'h' ∷ b'i' ∷ []) (b'1' ∷ [])
      (b'h' ∷ b'i' ∷ []) listening_starts refl (omega arith) refl refl

-- "a x"
repl_accepts_any_example :
    (port : ℕ) × (repl_line parse_addr opens host connected (b'a' ∷ 32 ∷ b'x' ∷ [])
      ≡ complain_and_accept_on port)
    × ((port ≡ 0) ⊎ (port ≡ 65535))
unfolding clean_input parse_uint16 parse_digits
repl_accepts_any_example =
    repl_accepts_any parse_addr opens host connected (b'a' ∷ 32 ∷ b'x' ∷ []) (b'x' ∷ []) refl
      (omega arith) refl

-- "down if0"
abbrev down_line : Name
down_line = b'd' ∷ b'o' ∷ b'w' ∷ b'n' ∷ 32 ∷ if0

repl_toggle_crashes_example :
    perform stack started connected (repl_line parse_addr opens started connected down_line)
    ≡ crashes
unfolding clean_input
repl_toggle_crashes_example =
    repl_toggle_crashes parse_addr opens stack ones_sum config connected down_line if0 false
      config_starts.1 started_interface (omega arith) refl

-- The router of the samples, whose neighbor is the host.
abbrev inter : Interface
inter = record {
  config = record { name = if0; assigned_ip = router; assigned_prefix = link; udp_addr = udp };
  enabled = true;
  guarded = false;
}

abbrev sender : Node
sender = record host {
  neighbors = record { dest_addr = here; udp_addr = udp; interface_name = if0 } ∷ [];
  interfaces = (if0, inter) ∷ [];
  neighbor_table = (here, record { dest_addr = here; udp_addr = udp; interface_name = if0 }) ∷ [];
}

sender-SendsTo : SendsTo sender here inter if0 here
unfolding find_next check_dest longest contains neighbor_udp lookup
sender-SendsTo = record {
  route_type = local;
  next = here;
  udp = udp;
  neighbor = record { dest_addr = here; udp_addr = udp; interface_name = if0 };
  routed = refl;
  hop_is = refl;
  known = refl;
  listed = refl;
  iface_is = refl;
  interfaces = (refl, tt, tt);
  found = refl;
}

-- "send h hi", where "h" is the address of the host.
abbrev send_line : Name
send_line = b's' ∷ b'e' ∷ b'n' ∷ b'd' ∷ 32 ∷ b'h' ∷ 32 ∷ b'h' ∷ b'i' ∷ []

repl_send_arrives_example :
    (q : List ℕ) × (h : Ipv4Header) × (perform stack sender connected
        (repl_line (λ w. some here) opens sender connected send_line)
      ≡ prompts connected ((if0, record { pack = q; address = here }) ∷ []))
    × (routine_sends ones_sum sender inter (record { pack = q; address = here }) ≡ written udp q)
    × (travel ones_sum (λ u. (host, inter)) 16 udp q ≡ some (delivered 0 (b'h' ∷ b'i' ∷ []) h))
unfolding clean_input check_dest longest contains header_bytes neighbor_udp
repl_send_arrives_example =
    repl_send_arrives (λ w. some here) opens stack (λ u. (host, inter)) sender host connected
      send_line (b'h' ∷ []) (b'h' ∷ b'i' ∷ []) here inter if0 here [] udp refl (omega arith) refl
      ones_sum_lem sender-SendsTo refl refl (omega arith) (omega arith)
      (refl, refl, omega arith, omega arith, refl, refl)
