-- ===== src/Node/Rip/Learned.antt =====
-- What a neighbor learns from the whole response of a router's table.
use ip_tcp.Base.{
  ℕ, ◌≡◌, ◌≢◌, refl, sym, ap, ◌∙◌, subst, List, [], ◌∷◌, Option, none, some, some_inj, All, min,
  add32, u32, if◌then◌else◌,
}
use ip_tcp.Base.Table.{◌=?◌, lookup}
use mathlib.Core.List.{Memᴰ}
use ip_tcp.Netip.{Addr, ip4, ip6, invalid, addr_eq, Prefix, prefix_eq}
use ip_tcp.Node.Routes.Prefixes.{IsKey}
use ip_tcp.Rip.{RipUpdate}
use ip_tcp.Node.State.{ForwardingInfo}
use ip_tcp.Node.Rip.{
  infty, Table, entry_prefix, entry_cost, Update, update_entry, update_entries, advertise,
  advertise_all,
}
use ip_tcp.Node.Rip.Relax.{relaxed, lookup-update_entry}
use ip_tcp.Node.Rip.Masks.{entry_prefix-advertise}

-- No entry of a response is for the prefix.
abbrev Skips : Prefix → List RipUpdate → Type 0
Skips p es = All (λ (e : RipUpdate). entry_prefix e ≢ p) es

update_entries-Skips :
    (now : ℕ) (hop : Addr) (p : Prefix) (es : List RipUpdate) (u : Update)
    → Skips p es
    → lookup p (update_entries now hop es u).table ≡ lookup p u.table
unfolding update_entries
update_entries-Skips now hop p [] u s = refl
update_entries-Skips now hop p (e ∷ es) u (ne, s) =
    update_entries-Skips now hop p es (update_entry now hop e u) s
    ∙ (lookup-update_entry now hop e u).1 p ne

-- The entries are for prefixes of their own.
abbrev pub IsDistinct : List RipUpdate → Type 0
IsDistinct [] = Unit
IsDistinct (e ∷ es) = Skips (entry_prefix e) es × IsDistinct es

skipped :
    (p : Prefix) (es : List RipUpdate) (e : RipUpdate) → Memᴰ e es → Skips p es → entry_prefix e ≢ p
skipped p (x ∷ es) e (Memᴰ.head same) (ne, s) h = ne (ap entry_prefix (sym same) ∙ h)
skipped p (x ∷ es) e (Memᴰ.tail m) (ne, s) h = skipped p es e m s h
skipped p [] e m s h = elim m [ ]

-- Each entry of a response with distinct prefixes relaxes the route that stood there before it.
pub update_entries-relaxed :
    (now : ℕ) (hop : Addr) (es : List RipUpdate) (u : Update) (e : RipUpdate)
    → IsDistinct es
    → Memᴰ e es
    → lookup (entry_prefix e) (update_entries now hop es u).table
      ≡ relaxed now hop (entry_prefix e) (entry_cost e) (lookup (entry_prefix e) u.table)
unfolding update_entries
update_entries-relaxed now hop [] u e d m = elim m [ ]
update_entries-relaxed now hop (x ∷ es) u e (s, d) (Memᴰ.head same) =
    subst
      (λ (y : RipUpdate).
        lookup (entry_prefix y) (update_entries now hop es (update_entry now hop x u)).table
        ≡ relaxed now hop (entry_prefix y) (entry_cost y) (lookup (entry_prefix y) u.table))
      (sym same)
      (update_entries-Skips now hop (entry_prefix x) es (update_entry now hop x u) s
        ∙ (lookup-update_entry now hop x u).0)
update_entries-relaxed now hop (x ∷ es) u e (s, d) (Memᴰ.tail m) =
    update_entries-relaxed now hop es (update_entry now hop x u) e d m
    ∙ ap (relaxed now hop (entry_prefix e) (entry_cost e)) (
        (lookup-update_entry now hop x u).1 (entry_prefix e)
          (λ h. skipped (entry_prefix x) es e m s (sym h)))

-- A route under its own prefix, which is IPv4 and masked.
abbrev pub IsRoute : Prefix × ForwardingInfo → Type 0
IsRoute r = (r.1.pre ≡ r.0) × IsKey r.0

-- Such routes, with no prefix twice.
abbrev pub IsRoutes : Table → Type 0
IsRoutes [] = Unit
IsRoutes (r ∷ t) = IsRoute r × All (λ (x : Prefix × ForwardingInfo). x.0 ≢ r.0) t × IsRoutes t

-- The cost at which the neighbor `dst` has a route that is advertised to it: one more, or 16 if it
-- goes through `dst` itself.
abbrev pub cost_at : Addr → ForwardingInfo → ℕ
cost_at dst info = min (add32 (if dst =? info.next then infty else u32 info.cost) 1) infty

-- The entry for a route.
abbrev Tells : Addr → Prefix × ForwardingInfo → RipUpdate → Type 0
Tells dst r e = (entry_prefix e ≡ r.0) × (entry_cost e ≡ cost_at dst r.1)

advertise-Tells :
    (dst : Addr) (r : Prefix × ForwardingInfo)
    → IsRoute r
    → (e : RipUpdate) × (advertise dst r.0 r.1 ≡ some e) × Tells dst r e
unfolding advertise
advertise-Tells dst (pre, info) (own, k) = by_addr pre.addr pre.bits own k
  where
    by_addr :
        (a : Addr) (b : ℕ)
        → info.pre ≡ record { addr = a; bits = b }
        → IsKey (record { addr = a; bits = b })
        → (e : RipUpdate) × (advertise dst (record { addr = a; bits = b }) info ≡ some e)
          × Tells dst (record { addr = a; bits = b }, info) e
    by_addr (ip4 n) b own k =
        let (e, made, is) = entry_prefix-advertise dst n b info k.v4 k.short k.is_masked own in
        (e, made, (is, ap (λ (x : RipUpdate). min (add32 x.cost 1) infty) (sym (some_inj made))))
    by_addr invalid b own k = absurd k.v4
    by_addr (ip6 _ _) b own k = absurd k.v4

-- The entries of a response, route by route.
Told : Addr → Table → List RipUpdate → Type 0
Told dst [] [] = Unit
Told dst (r ∷ t) (e ∷ es) = Tells dst r e × Told dst t es
Told dst _ _ = ⊥

advertise_all-Told :
    (dst : Addr) (t : Table)
    → IsRoutes t
    → (es : List RipUpdate) × (advertise_all dst t ≡ some es) × Told dst t es
unfolding advertise_all Told
advertise_all-Told dst [] k = ([], refl, tt)
advertise_all-Told dst ((pre, info) ∷ t) (is, others, k) =
    let (e, made, tells) = advertise-Tells dst (pre, info) is in
    let (es, rest, told) = advertise_all-Told dst t k in
    (
      e ∷ es,
      ap
            (λ (o : Option RipUpdate). elim o [
              | none ↦ none
              | some x ↦ elim (advertise_all dst t) [ none ↦ none | some xs ↦ some (x ∷ xs) ]
            ])
            made
          ∙ ap (λ (o : Option (List RipUpdate)). elim o [ none ↦ none | some xs ↦ some (e ∷ xs) ])
              rest,
      (tells, told),
    )

Told-Skips :
    (dst : Addr) (p : Prefix) (t : Table) (es : List RipUpdate)
    → Told dst t es
    → All (λ (x : Prefix × ForwardingInfo). x.0 ≢ p) t
    → Skips p es
unfolding Told
Told-Skips dst p [] [] told away = tt
Told-Skips dst p (r ∷ t) (e ∷ es) (tells, told) (ne, away) =
    (λ h. ne (sym tells.0 ∙ h), Told-Skips dst p t es told away)
Told-Skips dst p [] (e ∷ es) told away = absurd told
Told-Skips dst p (r ∷ t) [] told away = absurd told

Told-IsDistinct :
    (dst : Addr) (t : Table) (es : List RipUpdate) → Told dst t es → IsRoutes t → IsDistinct es
unfolding Told
Told-IsDistinct dst [] [] told k = tt
Told-IsDistinct dst (r ∷ t) (e ∷ es) (tells, told) (is, others, k) = (
  subst (λ p. Skips p es) (sym tells.0) (Told-Skips dst r.0 t es told others),
  Told-IsDistinct dst t es told k,
)
Told-IsDistinct dst [] (e ∷ es) told k = absurd told
Told-IsDistinct dst (r ∷ t) [] told k = absurd told

Told-entry :
    (dst : Addr) (t : Table) (es : List RipUpdate) (r : Prefix × ForwardingInfo)
    → Told dst t es
    → Memᴰ r t
    → (e : RipUpdate) × Memᴰ e es × Tells dst r e
unfolding Told
Told-entry dst (x ∷ t) (e ∷ es) r (tells, told) (Memᴰ.head same) =
    (e, Memᴰ.head refl, subst (λ y. Tells dst y e) (sym same) tells)
Told-entry dst (x ∷ t) (e ∷ es) r (tells, told) (Memᴰ.tail m) =
    let (y, n, h) = Told-entry dst t es r told m in (y, Memᴰ.tail n, h)
Told-entry dst [] es r told m = elim m [ ]
Told-entry dst (x ∷ t) [] r told m = absurd told

-- A router's whole table `t`, whose routes stand under prefixes of their own that are IPv4 and masked,
-- always gives a response;
-- and after it, the neighbor `dst` has for each prefix of `t` what relaxing its own route by the
-- router's gives, at one more than the router's cost or at 16 for a route through `dst`.
pub routes_learned :
    (now : ℕ) (hop dst : Addr) (t own : Table) (pre : Prefix) (info : ForwardingInfo)
    → IsRoutes t
    → Memᴰ (pre, info) t
    → (es : List RipUpdate) × (advertise_all dst t ≡ some es)
      × (lookup pre (update_entries now hop es (record { table = own; triggered = [] })).table
          ≡ relaxed now hop pre (cost_at dst info) (lookup pre own))
routes_learned now hop dst t own pre info k m =
    let (es, sent, told) = advertise_all-Told dst t k in
    let (e, among, is, cost) : (e : RipUpdate) × Memᴰ e es
        × (entry_prefix e ≡ pre)
        × (entry_cost e ≡ cost_at dst info) =
      let (e, n, h) = Told-entry dst t es (pre, info) told m in (e, n, h.0, h.1) in
    let u : Update = record { table = own; triggered = [] } in
    (
      es,
      sent,
      ap (λ p. lookup p (update_entries now hop es u).table) (sym is)
          ∙ update_entries-relaxed now hop es u e (Told-IsDistinct dst t es told k) among
          ∙ ap (λ c. relaxed now hop (entry_prefix e) c (lookup (entry_prefix e) own)) cost
          ∙ ap (λ p. relaxed now hop p (cost_at dst info) (lookup p own)) is,
    )
