-- ===== src/Node/Rip/Relax.antt =====
-- What a RIP response does to a forwarding table.
use ip_tcp.Base.{
  differ, ℕ, ◌≤◌, ◌<◌, ◌≡◌, ◌≢◌, refl, sym, ap, ◌∙◌, Bool, true, false, List, [], ◌∷◌, Option, none,
  some, arith, ltb, ◌==◌, if◌then◌else◌, Bool-cases, subst, some_inj, ltb→lt, ==_iff, inl, inr,
}
use ip_tcp.Base.Table.{
  ◌=?◌, lookup, insert, delete, lookup-insert_self, lookup-insert_ne, lookup-delete_self,
  lookup-delete_ne,
}
use ip_tcp.Netip.{Addr, addr_eq, Prefix, prefix_eq, prefix_beq_iff}
use ip_tcp.Rip.{RipUpdate}
use ip_tcp.Node.State.{ForwardingInfo}
use ip_tcp.Node.Rip.{
  infty, Table, entry_prefix, entry_cost, Update, learned_route, put, revise, update_entry,
  update_entries,
}

-- The route for a prefix after a neighbor `hop` advertised it at `cost` (one added for the hop).
abbrev pub relaxed : ℕ → Addr → Prefix → ℕ → Option ForwardingInfo → Option ForwardingInfo
relaxed now hop pre cost none =
    if cost == infty then none else some (learned_route now hop pre cost)
relaxed now hop pre cost (some info) =
    if ltb cost info.cost
    then some (record info { cost = cost; next = hop; last_updated = now })
    else if hop =? info.next
    then if ltb info.cost cost then none else some (record info { last_updated = now })
    else some info

-- What a change of the table does to the route for `p` and leaves to the others.
abbrev Changes : Prefix → Table → Option ForwardingInfo → Table → Type 0
Changes p m o m' = (lookup p m' ≡ o) × ((pre : Prefix) → p ≢ pre → lookup pre m' ≡ lookup pre m)

Changes-put :
    (p : Prefix) (info : ForwardingInfo) (m : Table) → Changes p m (some info) (insert p info m)
Changes-put p info m = (lookup-insert_self p info m, λ pre ne. lookup-insert_ne p pre info m ne)

put-relaxed :
    (now : ℕ) (hop : Addr) (p : Prefix) (cost : ℕ) (u : Update)
    → lookup p u.table ≡ none
    → Changes p u.table
        (relaxed now hop p cost none)
        (if cost == infty then u else put p (learned_route now hop p cost) u).table
put-relaxed now hop p cost u h =
    elim (cost == infty)
      as (λ b.
        Changes p u.table (if b then none else some (learned_route now hop p cost))
          (if b then u else put p (learned_route now hop p cost) u).table) [
            | true ↦ (h, λ pre ne. refl)
            | false ↦ Changes-put p _ u.table
          ]

revise-relaxed :
    (now : ℕ) (hop : Addr) (p : Prefix) (cost : ℕ) (info : ForwardingInfo) (u : Update)
    → lookup p u.table ≡ some info
    → Changes p u.table (relaxed now hop p cost (some info)) (revise now hop p cost info u).table
revise-relaxed now hop p cost info u h =
    by_tests (ltb cost info.cost) (ltb info.cost cost) (hop =? info.next)
  where
    by_tests :
        (cheaper dearer same : Bool)
        → Changes p u.table
            (if cheaper
              then some (record info { cost = cost; next = hop; last_updated = now })
              else if same
              then if dearer then none else some (record info { last_updated = now })
              else some info)
            (if cheaper
              then put p (record info { cost = cost; next = hop; last_updated = now }) u
              else if dearer
              then if same
                then record {
                  table = delete p u.table;
                  triggered =
                      insert p (record info { cost = cost; last_updated = now }) u.triggered;
                }
                else u
              else if same
              then put p (record info { last_updated = now }) u
              else u).table
    by_tests true dearer same = Changes-put p _ u.table
    by_tests false true true =
        (lookup-delete_self p u.table, λ pre ne. lookup-delete_ne p pre u.table ne)
    by_tests false true false = (h, λ pre ne. refl)
    by_tests false false true = Changes-put p _ u.table
    by_tests false false false = (h, λ pre ne. refl)

-- An entry of a response changes the route of its own prefix only: the neighbor's route is taken if
-- there is none and its cost is below 16, or if it is cheaper; a route through that neighbor is
-- dropped if it got dearer and made fresh if it costs the same; every other route stays.
pub lookup-update_entry :
    (now : ℕ) (hop : Addr) (e : RipUpdate) (u : Update)
    → (lookup (entry_prefix e) (update_entry now hop e u).table
        ≡ relaxed now hop (entry_prefix e) (entry_cost e) (lookup (entry_prefix e) u.table))
      × ((pre : Prefix)
          → entry_prefix e ≢ pre
          → lookup pre (update_entry now hop e u).table ≡ lookup pre u.table)
unfolding update_entry
lookup-update_entry now hop e u = by_route (lookup (entry_prefix e) u.table) refl
  where
    by_route :
        (o : Option ForwardingInfo)
        → lookup (entry_prefix e) u.table ≡ o
        → let u' = elim o as (λ x. Update) [
          | none ↦
              if entry_cost e == infty
              then u
              else put (entry_prefix e) (learned_route now hop (entry_prefix e) (entry_cost e)) u
          | some info ↦ revise now hop (entry_prefix e) (entry_cost e) info u
        ] in
          (lookup (entry_prefix e) u'.table ≡ relaxed now hop (entry_prefix e) (entry_cost e) o)
          × ((pre : Prefix) → entry_prefix e ≢ pre → lookup pre u'.table ≡ lookup pre u.table)
    by_route none h = put-relaxed now hop (entry_prefix e) (entry_cost e) u h
    by_route (some info) h = revise-relaxed now hop (entry_prefix e) (entry_cost e) info u h

-- No route in the table is infinite.
abbrev pub IsFinite : Table → Type 0
IsFinite m = (pre : Prefix) (info : ForwardingInfo) → lookup pre m ≡ some info → info.cost < infty

below_infty : (cost : ℕ) → cost ≤ infty → (cost == infty) ≡ false → cost < infty
below_infty cost hc t = omega (arith, λ (e : cost ≡ infty). differ ((==_iff cost infty).1 e) t)

relaxed_finite :
    (now : ℕ) (hop : Addr) (p : Prefix) (cost : ℕ) (o : Option ForwardingInfo)
    {info : ForwardingInfo}
    → cost ≤ infty
    → ((i : ForwardingInfo) → o ≡ some i → i.cost < infty)
    → relaxed now hop p cost o ≡ some info
    → info.cost < infty
relaxed_finite now hop p cost none hc f h = by_test (cost == infty) refl h
  where
    by_test :
        (b : Bool) {info : ForwardingInfo}
        → (cost == infty) ≡ b
        → (if b then none else some (learned_route now hop p cost)) ≡ some info
        → info.cost < infty
    by_test true t h = absurd cc
    by_test false t h =
        subst (λ (x : ForwardingInfo). x.cost < infty) (some_inj h) (below_infty cost hc t)
relaxed_finite now hop p cost (some i) hc f h =
    by_tests (ltb cost i.cost) (hop =? i.next) (ltb i.cost cost) refl h
  where
    finite : i.cost < infty
    finite = f i refl

    by_tests :
        (cheaper same dearer : Bool) {info : ForwardingInfo}
        → ltb cost i.cost ≡ cheaper
        → (if cheaper
            then some (record i { cost = cost; next = hop; last_updated = now })
            else if same
            then if dearer then none else some (record i { last_updated = now })
            else some i)
          ≡ some info
        → info.cost < infty
    by_tests true same dearer t h =
        subst (λ (x : ForwardingInfo). x.cost < infty) (some_inj h)
          (omega (arith, ltb→lt _ _ t, finite))
    by_tests false true true t h = absurd cc
    by_tests false true false t h =
        subst (λ (x : ForwardingInfo). x.cost < infty) (some_inj h) finite
    by_tests false false dearer t h =
        subst (λ (x : ForwardingInfo). x.cost < infty) (some_inj h) finite

update_entry-IsFinite :
    (now : ℕ) (hop : Addr) (e : RipUpdate) (u : Update)
    → IsFinite u.table
    → IsFinite (update_entry now hop e u).table
update_entry-IsFinite now hop e u f pre info h =
    let (own, others) = lookup-update_entry now hop e u in
    elim (Bool-cases (entry_prefix e =? pre)) [
      | inl t ↦
          let same = (prefix_beq_iff (entry_prefix e) pre).0 t in
          relaxed_finite now hop (entry_prefix e) (entry_cost e) (lookup (entry_prefix e) u.table)
            (omega arith) (f (entry_prefix e))
            (sym own ∙ ap (λ k. lookup k (update_entry now hop e u).table) same ∙ h)
      | inr n ↦ f pre info (sym (others pre (λ k. differ ((prefix_beq_iff _ _).1 k) n)) ∙ h)
    ]

-- A response never puts a route of infinite cost into the table, whatever the costs in its entries.
pub update_entries-IsFinite :
    (now : ℕ) (hop : Addr) (es : List RipUpdate) (u : Update)
    → IsFinite u.table
    → IsFinite (update_entries now hop es u).table
unfolding update_entries
update_entries-IsFinite now hop [] u f = f
update_entries-IsFinite now hop (e ∷ es) u f =
    update_entries-IsFinite now hop es (update_entry now hop e u)
      (update_entry-IsFinite now hop e u f)
