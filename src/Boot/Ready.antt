-- ===== src/Boot/Ready.antt =====
-- What holds when a program gets to its terminal.
use ip_tcp.Base.{◌≡◌, refl, sym, ap, ◌∙◌, subst, ℕ, List, Option, none, some, All, All-map}
use ip_tcp.Base.Table.{lookup}
use ip_tcp.Netip.{Addr, addr_eq}
use ip_tcp.Node.State.{Node, Name, NeighborConfig}
use ip_tcp.Node.Packets.{SendInterface}
use ip_tcp.Node.Start as Start
use ip_tcp.Node.Start.Tables.{IsReady, initialize-IsReady, initialize-neighbors}
use ip_tcp.Lnxconfig.{IpConfig, Scanner, Parsed, parsed, failed, panics, parse_config}
use ip_tcp.Lnxconfig.Sound.{parse_config_sound}
use ip_tcp.Tcp.Stack as Stack
use ip_tcp.Tcp.Stack.{TcpStack}
use ip_tcp.Tcp.Stack.Invariant.{IsStack, initialize-IsStack}
use ip_tcp.Boot.{Booted, usage, fatal, crashed, running, start_node, vhost}

-- The neighbor table has a neighbor of this address for it.
abbrev pub Knows : Node → Addr → Type 0
Knows node a = (n : NeighborConfig) × (lookup a node.neighbor_table ≡ some n) × (n.dest_addr ≡ a)

-- A host as its terminal and its threads find it.
abbrev pub HostReady : Node → TcpStack → Type 0
HostReady node t =
    IsReady node × All (Knows node) node.rip_neighbors × IsStack t × (t.ip ≡ node.ip_addr)

abbrev Outcome : Booted (Node × TcpStack) → Type 0
Outcome usage = Unit
Outcome fatal = Unit
Outcome crashed = Unit
Outcome (running host sent) = HostReady host.0 host.1

module _ (sum : List ℕ → ℕ → ℕ) (sc : Scanner) where
  abbrev stack_of : Node → Node × TcpStack
  stack_of node = (node, Stack.initialize node.ip_addr)

  started-Outcome :
      (lines : List Name) (c : IpConfig) (o : Option (Node × List (Name × SendInterface)))
      → parse_config sc lines ≡ parsed c
      → Start.initialize sum c ≡ o
      → Outcome (elim o [ none ↦ crashed | some (node, sent) ↦ running (stack_of node) sent ])
  started-Outcome lines c none p e = tt
  started-Outcome lines c (some (node, sent)) p e =
      let (table, rip) = initialize-neighbors sum c e in
      let (_, known, _) = parse_config_sound sc lines p in
      (
        initialize-IsReady sum c e,
        subst (All (Knows node)) (sym rip) (
            All-map _ (Knows node) c.rip_neighbors
              (λ a k. (k.0, ap (λ m. lookup a m) table ∙ k.1, k.2)) known),
        initialize-IsStack node.ip_addr,
        refl,
      )

  start-Outcome :
      (lines : List Name) (p : Parsed)
      → parse_config sc lines ≡ p
      → Outcome (start_node sum stack_of p)
  start-Outcome lines failed e = tt
  start-Outcome lines panics e = tt
  start-Outcome lines (parsed c) e = started-Outcome lines c (Start.initialize sum c) e refl

  vhost-Outcome : (flag : Option (List Name)) → Outcome (vhost sum sc flag)
  unfolding vhost
  vhost-Outcome none = tt
  vhost-Outcome (some lines) = start-Outcome lines (parse_config sc lines) refl

  -- When a host gets to its terminal, from any configuration file, its tables are as `Initialize`
  -- leaves them, each RIP neighbor stands in the neighbor table under its address, and its TCP stack
  -- is well-formed and has the address of the node.
  pub vhost-HostReady :
      (flag : Option (List Name)) {node : Node} {t : TcpStack} {sent : List (Name × SendInterface)}
      → vhost sum sc flag ≡ running (node, t) sent
      → HostReady node t
  vhost-HostReady flag e = subst Outcome e (vhost-Outcome flag)
