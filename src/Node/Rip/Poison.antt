-- ===== src/Node/Rip/Poison.antt =====
-- Poisoned reverse, at the node that sends a response and the one that gets it.
use ip_tcp.Base.{
  ℕ, ◌<◌, ◌≡◌, ◌⊎◌, inl, inr, refl, sym, ap, ◌∙◌, Bool, true, false, Option, none, some, arith,
  le→not_ltb, lt→ltb, min, add32, u32, if◌then◌else◌, some_inj, subst,
}
use ip_tcp.Base.Table.{◌=?◌, lookup, beq_refl}
use ip_tcp.Netip.{Addr, addr_eq, Prefix, prefix_eq}
use ip_tcp.Rip.{RipUpdate}
use ip_tcp.Node.State.{ForwardingInfo}
use ip_tcp.Node.Rip.{infty, address_of, cidr_mask, entry_prefix, Update, advertise, update_entry}
use ip_tcp.Node.Rip.Relax.{IsFinite, relaxed, lookup-update_entry}

advertised_cost :
    (dst : Addr) (pre : Prefix) (info : ForwardingInfo) {e : RipUpdate}
    → advertise dst pre info ≡ some e
    → dst ≡ info.next
    → e.cost ≡ infty
unfolding advertise
advertised_cost dst pre info h same = by_bytes (address_of pre.addr) h
  where
    poisoned : (dst =? info.next) ≡ true
    poisoned = ap (λ a. dst =? a) (sym same) ∙ beq_refl dst

    by_bytes :
        (o : Option ℕ) {e : RipUpdate}
        → elim o as (λ _. Option RipUpdate) [
          | none ↦ none
          | some a ↦ some (record {
            cost = if dst =? info.next then infty else u32 info.cost;
            address = a;
            mask = cidr_mask info.pre.bits;
          })
        ]
          ≡ some e
        → e.cost ≡ infty
    by_bytes none h = absurd cc
    by_bytes (some a) h =
        subst (λ (x : RipUpdate). x.cost ≡ infty) (some_inj h)
          (ap (λ b. if b then infty else u32 info.cost) poisoned)

relaxed_infinite :
    (now : ℕ) (hop : Addr) (p : Prefix) (o : Option ForwardingInfo)
    → ((i : ForwardingInfo) → o ≡ some i → i.cost < infty)
    → (relaxed now hop p infty o ≡ o) ⊎ (relaxed now hop p infty o ≡ none)
relaxed_infinite now hop p none f = inl refl
relaxed_infinite now hop p (some i) f =
    rw (le→not_ltb infty i.cost (omega (arith, f i refl)))
      (rw (lt→ltb i.cost infty (f i refl)) (by_hop (hop =? i.next)))
  where
    by_hop :
        (same : Bool)
        → ((if same then none else some i) ≡ some i) ⊎ ((if same then none else some i) ≡ none)
    by_hop true = inr refl
    by_hop false = inl refl

-- What a node is told of a route that goes through itself never gives it a route: its own route
-- for that prefix stays, or goes if it was one through the sender, in a table without infinite
-- routes.
pub update_entry-advertise :
    (dst : Addr) (pre : Prefix) (info : ForwardingInfo) {e : RipUpdate}
    → advertise dst pre info ≡ some e
    → dst ≡ info.next
    → (now : ℕ) (hop : Addr) (u : Update) → IsFinite u.table
    → let route = lookup (entry_prefix e) u.table in
      let route' = lookup (entry_prefix e) (update_entry now hop e u).table in
      (route' ≡ route) ⊎ (route' ≡ none)
update_entry-advertise dst pre info {e} h same now hop u f =
    subst (λ r. (r ≡ lookup (entry_prefix e) u.table) ⊎ (r ≡ none))
      (sym (
        (lookup-update_entry now hop e u).0
        ∙ ap
            (λ c.
              relaxed now hop (entry_prefix e) (min (add32 c 1) infty)
                (lookup (entry_prefix e) u.table))
            (advertised_cost dst pre info h same)))
      (relaxed_infinite now hop (entry_prefix e) (lookup (entry_prefix e) u.table)
        (f (entry_prefix e)))
