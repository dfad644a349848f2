-- ===== src/Boot/Tests.antt =====
-- A host that starts from a file of five lines.
use ip_tcp.Base.{◌≡◌, refl, ap, ◌∙◌, List, [], ◌∷◌, ◌++◌, Option, none, some}
use ip_tcp.Base.Table.{insert}
use ip_tcp.Netip.{Prefix, masked}
use ip_tcp.Node.State.{Name}
use ip_tcp.Node.Samples.{here, router, all, udp, ones_sum}
use ip_tcp.Node.Start.{if0}
use ip_tcp.Node.Start.Samples.{config, started, config_starts}
use ip_tcp.Lnxconfig.{
  Scanner, parsed, parse_config, parse_lines, w_interface, w_neighbor, w_routing, w_route, w_rip,
  w_advertise_to,
}
use ip_tcp.Tcp.Stack as Stack
use ip_tcp.Boot.{running, crashed, vhost, start_node}
use ip_tcp.Boot.Ready.{HostReady, vhost-HostReady}

-- The empty text stands for 10.0.0.1/24, any other one for 0.0.0.0/0.
abbrev prefix_of : Name → Option Prefix
prefix_of [] = some (record { addr = here; bits = 24 })
prefix_of (_ ∷ _) = some all

abbrev scanner : Scanner
scanner = record {
  parse_prefix = prefix_of;
  parse_addr = λ w. some router;
  parse_addr_port = λ w. some udp;
  scan_route = λ line. some (b'0' ∷ [], []);
  scan_interface = λ line. some (if0, [], []);
  scan_neighbor = λ line. some ([], [], if0);
}

-- "interface i", "neighbor n", "routing rip", "route r" and "rip advertise-to n".
abbrev lines : List Name
lines =
    (w_interface ++ 32 ∷ b'i' ∷ [])
    ∷ (w_neighbor ++ 32 ∷ b'n' ∷ [])
    ∷ (w_routing ++ 32 ∷ w_rip)
    ∷ (w_route ++ 32 ∷ b'r' ∷ [])
    ∷ (w_rip ++ 32 ∷ w_advertise_to ++ 32 ∷ b'n' ∷ [])
    ∷ []

lines-parsed : parse_config scanner lines ≡ parsed config
unfolding parse_lines masked insert
lines-parsed = refl

host_runs :
    vhost ones_sum scanner (some lines)
    ≡ running (started, Stack.initialize started.ip_addr) config_starts.0
unfolding vhost
host_runs =
    ap (start_node ones_sum (λ node. (node, Stack.initialize node.ip_addr))) lines-parsed
    ∙ ap
        (λ o. elim o [
          | none ↦ crashed
          | some (node, sent) ↦ running (node, Stack.initialize node.ip_addr) sent
        ])
        config_starts.1

vhost-HostReady_example : HostReady started (Stack.initialize started.ip_addr)
vhost-HostReady_example = vhost-HostReady ones_sum scanner (some lines) host_runs
