-- ===== src/Node/Protocol/Exchange.antt =====
-- A response that one router sends, at the other.
use ip_tcp.Base.{
  ℕ, ◌≡◌, ap, ◌∙◌, false, List, [], Option, some, arith, IsU16, All, length, if◌then◌else◌, ◌==◌,
}
use ip_tcp.Base.Slices.{◌>>=◌}
use ip_tcp.Ipv4.{Ipv4Header}
use ip_tcp.Rip.{RipUpdate, RipPacket, marshal_rip, extract_rip}
use ip_tcp.Rip.RoundTrip.{EntryInRange, extract_rip-marshal_rip}
use ip_tcp.Node.State.{Node, Name}
use ip_tcp.Node.Packets.{SendInterface}
use ip_tcp.Node.Rip.{Table, Update, response, update_entries}
use ip_tcp.Node.Protocol.{take_packet, protocol200, send_all}

-- The message of a response is taken as its entries, each relaxed in turn into the forwarding
-- table; when that changes a route, and only then, the changed routes are sent to all RIP
-- neighbors, and the rest of the node stays.
pub protocol200-response :
    (sum : List ℕ → ℕ → ℕ) (node : Node) (now : ℕ) (es : List RipUpdate) (spare : List ℕ)
    (h : Ipv4Header)
    → IsU16 (length es)
    → All EntryInRange es
    → let u =
        update_entries now h.src es (record { table = node.forwarding_table; triggered = [] }) in
      let node' = record node { forwarding_table = u.table } in
      (u.triggered ≡ []
        → protocol200 sum node now (marshal_rip (response es)) spare h ≡ some (node', []))
      × ((sent : List (Name × SendInterface))
          → (length u.triggered == 0) ≡ false
          → send_all sum node' node.rip_neighbors u.triggered ≡ some sent
          → protocol200 sum node now (marshal_rip (response es)) spare h ≡ some (node', sent))
unfolding protocol200 take_packet
protocol200-response sum node now es spare h hl he = (
  λ z.
      ap (λ r. r >>= after) extracted
      ∙ ap (λ n. if n == 0 then some (node', []) else sends) (ap (λ (m : Table). length m) z),
  λ sent z e.
      ap (λ r. r >>= after) extracted
      ∙ ap (λ b. if b then some (node', []) else sends) z
      ∙ ap (λ r. r >>= (λ s. some (node', s))) e,
)
  where
    extracted : extract_rip (marshal_rip (response es)) spare ≡ some (response es)
    extracted =
        extract_rip-marshal_rip (response es) spare (omega arith) (omega arith) (omega arith) he

    u : Update
    u = update_entries now h.src es (record { table = node.forwarding_table; triggered = [] })

    node' : Node
    node' = record node { forwarding_table = u.table }

    sends : Option (Node × List (Name × SendInterface))
    sends = send_all sum node' node.rip_neighbors u.triggered >>= (λ s. some (node', s))

    after : RipPacket → Option (Node × List (Name × SendInterface))
    after = take_packet sum node now h
