-- ===== src/Boot.antt =====
-- The programs cmd/vhost and cmd/vrouter up to the loop of their terminal.
pub mod Ready
mod Tests
use ip_tcp.Base.{ℕ, ◌≡◌, List, Option, none, some}
use ip_tcp.Node.State.{Node, Name}
use ip_tcp.Node.Packets.{SendInterface}
use ip_tcp.Node.Start as Start
use ip_tcp.Lnxconfig.{Scanner, Parsed, parsed, failed, panics, parse_config}
use ip_tcp.Tcp.Stack as Stack
use ip_tcp.Tcp.Stack.{TcpStack}

-- How far `main` comes: the flag is missing, `log.Fatal` on the configuration, a panic, or the
-- terminal, with what was sent on the channels of the interfaces.
pub data Booted {ℓ} (A : Type ℓ) : Type ℓ where
  usage : Booted A
  fatal : Booted A
  crashed : Booted A
  running : A → List (Name × SendInterface) → Booted A

module _ (checksum_sum : List ℕ → ℕ → ℕ) where
  abbrev pub start_node {ℓ} : {A : Type ℓ} → (Node → A) → Parsed → Booted A
  start_node use_node failed = fatal
  start_node use_node panics = crashed
  start_node use_node (parsed c) = elim (Start.initialize checksum_sum c) [
    | none ↦ crashed
    | some (node, sent) ↦ running (use_node node) sent
  ]

  abbrev pub main_of {ℓ} : {A : Type ℓ} → (Node → A) → Scanner → Option (List Name) → Booted A
  main_of use_node sc none = usage
  main_of use_node sc (some lines) = start_node use_node (parse_config sc lines)

  -- `main` of a host, on the lines of the file that its flag names: the node and its TCP stack.
  unfoldable pub vhost : Scanner → Option (List Name) → Booted (Node × TcpStack)
  vhost sc flag = main_of (λ node. (node, Stack.initialize node.ip_addr)) sc flag

  -- `main` of a router, which has no stack.
  unfoldable pub vrouter : Scanner → Option (List Name) → Booted Node
  vrouter sc flag = main_of (λ node. node) sc flag
