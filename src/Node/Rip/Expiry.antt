-- ===== src/Node/Rip/Expiry.antt =====
-- A pass of the garbage collector: what stays in the table, and what the routes that are announced
-- do at a neighbor.
use ip_tcp.Base.{
  ℕ, ◌-◌, ◌≤◌, ◌<◌, ◌≡◌, ◌≢◌, ◌⊎◌, inl, inr, refl, sym, ap, ◌∙◌, subst, Bool, true, false,
  Bool-cases, List, [], ◌∷◌, Option, none, some, arith, All, min, add32, if◌then◌else◌, leb, le→leb,
  lt→ltb, le→not_ltb,
}
use ip_tcp.Base.Table.{◌=?◌, lookup, beq_refl}
use mathlib.Core.List.{Memᴰ}
use ip_tcp.Netip.{Addr, addr_eq, Prefix, prefix_eq, prefix_beq, prefix_beq_iff}
use ip_tcp.Rip.{RipUpdate}
use ip_tcp.Node.State.{ForwardingInfo, RouteType, learned, local, static}
use ip_tcp.Node.Rip.{
  infty, Table, is_expired, Update, sort_out, collect, advertise_all, update_entries,
}
use ip_tcp.Node.Rip.Relax.{relaxed}
use ip_tcp.Node.Rip.Learned.{IsRoutes, cost_at, routes_learned}

abbrev Route : Type 0
Route = Prefix × ForwardingInfo

-- No route is for the prefix.
abbrev Lacks : Prefix → Table → Type 0
Lacks p t = All (λ (x : Route). x.0 ≢ p) t

-- What is announced for a route.
abbrev withdrawn : ForwardingInfo → ForwardingInfo
withdrawn info = record info { cost = 16 }

lookup-Lacks : (p : Prefix) (t : Table) → Lacks p t → lookup p t ≡ none
unfolding lookup
lookup-Lacks p [] l = refl
lookup-Lacks p ((k, x) ∷ t) (ne, l) = elim (Bool-cases (prefix_beq k p)) [
  | inl same ↦ absurd (ne ((prefix_beq_iff k p).0 same))
  | inr other ↦ rw other (lookup-Lacks p t l)
]

-- A pass leaves no route for a prefix that had none, and announces none for it.
collect-Lacks :
    (now : ℕ) (p : Prefix) (m : Table)
    → Lacks p m
    → Lacks p (collect now m).table × Lacks p (collect now m).triggered
unfolding collect
collect-Lacks now p [] l = (tt, tt)
collect-Lacks now p ((k, x) ∷ m) (ne, l) =
    let (kept, announced) = collect-Lacks now p m l in
    elim (is_expired now x)
      as (λ b.
        Lacks p (sort_out b k x (collect now m)).table
        × Lacks p (sort_out b k x (collect now m)).triggered) [
          | true ↦ (kept, (ne, announced))
          | false ↦ ((ne, kept), announced)
        ]

collect-IsRoutes : (now : ℕ) (m : Table) → IsRoutes m → IsRoutes (collect now m).triggered
unfolding collect
collect-IsRoutes now [] k = tt
collect-IsRoutes now ((p, x) ∷ m) (is, others, k) =
    let announced = collect-IsRoutes now m k in
    elim (is_expired now x) as (λ b. IsRoutes (sort_out b p x (collect now m)).triggered) [
      | true ↦ (is, (collect-Lacks now p m others).1, announced)
      | false ↦ announced
    ]

-- What became of a route in the pass.
abbrev Sorted : Bool → Prefix → ForwardingInfo → Update → Type 0
Sorted true p x u = (lookup p u.table ≡ none) × Memᴰ (p, withdrawn x) u.triggered
Sorted false p x u = lookup p u.table ≡ some x

Sorted-head :
    (p : Prefix) (x : ForwardingInfo) (b : Bool) (u : Update)
    → lookup p u.table ≡ none
    → Sorted b p x (sort_out b p x u)
unfolding lookup
Sorted-head p x true u absent = (absent, Memᴰ.head refl)
Sorted-head p x false u absent = rw ((prefix_beq_iff p p).1 refl) refl

Sorted-tail :
    (k p : Prefix) (y x : ForwardingInfo) (c b : Bool) (u : Update)
    → k ≢ p
    → Sorted b p x u
    → Sorted b p x (sort_out c k y u)
unfolding lookup
Sorted-tail k p y x true true u ne (absent, m) = (absent, Memᴰ.tail m)
Sorted-tail k p y x true false u ne found = found
Sorted-tail k p y x false b u ne s = elim (Bool-cases (prefix_beq k p)) [
  | inl same ↦ absurd (ne ((prefix_beq_iff k p).0 same))
  | inr other ↦ by_case b other s
]
  where
    by_case :
        (b : Bool) → prefix_beq k p ≡ false → Sorted b p x u → Sorted b p x (sort_out false k y u)
    by_case true other (absent, m) = (rw other absent, m)
    by_case false other found = rw other found

differs : (k p : Prefix) (x : ForwardingInfo) (m : Table) → Lacks k m → Memᴰ (p, x) m → k ≢ p
differs k p x (y ∷ m) (ne, l) (Memᴰ.head e) h = ne (ap (λ (r : Route). r.0) (sym e) ∙ sym h)
differs k p x (y ∷ m) (ne, l) (Memᴰ.tail t) h = differs k p x m l t h
differs k p x [] l t h = elim t [ ]

collect-Sorted :
    (now : ℕ) (p : Prefix) (x : ForwardingInfo) (m : Table)
    → IsRoutes m
    → Memᴰ (p, x) m
    → Sorted (is_expired now x) p x (collect now m)
unfolding collect
collect-Sorted now p x ((k, y) ∷ m) (is, others, routes) (Memᴰ.head e) =
    subst (λ (r : Route). Sorted (is_expired now r.1) r.0 r.1 (collect now ((k, y) ∷ m))) (sym e)
      (Sorted-head k y (is_expired now y) (collect now m)
        (lookup-Lacks k (collect now m).table (collect-Lacks now k m others).0))
collect-Sorted now p x ((k, y) ∷ m) (is, others, routes) (Memᴰ.tail t) =
    Sorted-tail k p y x (is_expired now y) (is_expired now x) (collect now m)
      (differs k p x m others t) (collect-Sorted now p x m routes t)
collect-Sorted now p x [] routes t = elim t [ ]

-- When a learned route gets too old, with 12 seconds in nanoseconds.
old_enough :
    (now : ℕ) (info : ForwardingInfo)
    → info.route_type ≡ learned
    → is_expired now info ≡ leb 12000000000 (now - info.last_updated)
old_enough now info is =
    ap
      (λ t. elim t [
        | local ↦ false
        | static ↦ false
        | learned ↦ leb 12000000000 (now - info.last_updated)
      ])
      is

never_old :
    (now : ℕ) (info : ForwardingInfo) → info.route_type ≢ learned → is_expired now info ≡ false
never_old now info other = by_type info.route_type other
  where
    by_type :
        (t : RouteType)
        → t ≢ learned
        → elim t as (λ _. Bool) [
          | local ↦ false
          | static ↦ false
          | learned ↦ leb 12000000000 (now - info.last_updated)
        ]
          ≡ false
    by_type local ne = refl
    by_type static ne = refl
    by_type learned ne = absurd (ne refl)

infinite_at : (dst : Addr) (info : ForwardingInfo) → cost_at dst (withdrawn info) ≡ infty
infinite_at dst info = by_hop (dst =? info.next)
  where
    by_hop : (b : Bool) → min (add32 (if b then infty else 16) 1) infty ≡ infty
    by_hop true = refl
    by_hop false = refl

gone_at :
    (now : ℕ) (hop : Addr) (p : Prefix) (i : ForwardingInfo) {o : Option ForwardingInfo}
    → o ≡ some i
    → i.next ≡ hop
    → i.cost < infty
    → relaxed now hop p infty o ≡ none
gone_at now hop p i is through below =
    ap (relaxed now hop p infty) is
    ∙ rw
        (
          le→not_ltb infty i.cost (omega (arith, below)),
          ap (λ a. hop =? a) through ∙ beq_refl hop,
          lt→ltb i.cost infty below,
        )
        refl

-- A pass of the garbage collector over a table whose routes stand under prefixes of their own that are
-- IPv4 and masked, next to a neighbor `dst` that has a route `i` of finite cost through the router's
-- address `hop` for the prefix of a route `info`. If that is not learned, or was updated less than 12
-- seconds ago, it stays as it is. If it is learned and was not updated for 12 seconds, it is gone from
-- the table; what is announced can be put into a response to the neighbor; and when the neighbor
-- applies it, its own route for the prefix is gone too.
pub collect_withdraws :
    (now later : ℕ) (hop dst : Addr) (m own : Table) (pre : Prefix) (info i : ForwardingInfo)
    → IsRoutes m
    → Memᴰ (pre, info) m
    → lookup pre own ≡ some i
    → i.next ≡ hop
    → i.cost < infty
    → ((info.route_type ≢ learned) ⊎ (now - info.last_updated < 12000000000)
        → lookup pre (collect now m).table ≡ some info)
      × (info.route_type ≡ learned
          → 12000000000 ≤ now - info.last_updated
          → (lookup pre (collect now m).table ≡ none)
            × (es : List RipUpdate) × (advertise_all dst (collect now m).triggered ≡ some es)
            × (lookup pre
                  (update_entries later hop es (record { table = own; triggered = [] })).table
                ≡ none))
collect_withdraws now later hop dst m own pre info i routes among there through below = (
  λ fresh. subst (λ b. Sorted b pre info (collect now m)) (not_expired fresh) sorted,
  λ is old.
      let s = subst (λ b. Sorted b pre info (collect now m)) (expired is old) sorted in
      let (es, sent, applied) =
        routes_learned later hop dst (collect now m).triggered own pre (withdrawn info)
          (collect-IsRoutes now m routes) s.1 in
      (
        s.0,
        es,
        sent,
        applied
            ∙ ap (λ c. relaxed later hop pre c (lookup pre own)) (infinite_at dst info)
            ∙ gone_at later hop pre i there through below,
      ),
)
  where
    sorted : Sorted (is_expired now info) pre info (collect now m)
    sorted = collect-Sorted now pre info m routes among

    expired :
        info.route_type ≡ learned
        → 12000000000 ≤ now - info.last_updated
        → is_expired now info ≡ true
    expired is old = old_enough now info is ∙ le→leb 12000000000 (now - info.last_updated) old

    not_expired :
        (info.route_type ≢ learned) ⊎ (now - info.last_updated < 12000000000)
        → is_expired now info ≡ false
    not_expired (inl other) = never_old now info other
    not_expired (inr young) = by_type info.route_type
      where
        by_type :
            (t : RouteType)
            → elim t as (λ _. Bool) [
              | local ↦ false
              | static ↦ false
              | learned ↦ leb 12000000000 (now - info.last_updated)
            ]
              ≡ false
        by_type local = refl
        by_type static = refl
        by_type learned = ground (arith, young)
