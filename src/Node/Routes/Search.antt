-- ===== src/Node/Routes/Search.antt =====
-- `FindNext` as longest-prefix matching.
use ip_tcp.Base.{
  differ, ◌≤◌, ◌∙◌, ◌≡◌, refl, sym, ap, ap₂, subst, true, false, List, [], ◌∷◌, Option, none, some,
  arith, All, inl, inr, Bool-cases,
}
use ip_tcp.Base.Table.{Eq, lookup}
use mathlib.Core.List.{Memᴰ}
use ip_tcp.Netip.{Addr, Prefix, prefix_eq, contains}
use ip_tcp.Node.State.{Node, ForwardingInfo, RouteType, local}
use ip_tcp.Node.Routes.{longest, check_dest, find_next, route_prefix}
use ip_tcp.Node.Routes.Longest.{IsLongest, longest-IsLongest}
use ip_tcp.Node.Routes.Prefixes.{IsKey, same_prefix}

All-at : {A : Type 0} (P : A → Type 0) {x : A} (m : List A) → All P m → Memᴰ x m → P x
All-at P [] a h = elim h [ ]
All-at P (y ∷ m) (p, a) (Memᴰ.head e) = subst P (sym e) p
All-at P (y ∷ m) (p, a) (Memᴰ.tail h) = All-at P m a h

lookup-Mem :
    {K V : Type 0} ⦃e : Eq K⦄ (k : K) (m : List (K × V)) {x : V}
    → lookup k m ≡ some x
    → Memᴰ (k, x) m
unfolding lookup
lookup-Mem k [] h = absurd cc
lookup-Mem {K} {V} ⦃e⦄ k ((j, v) ∷ m) h = elim (Bool-cases (e.beq j k)) [
  | inl t ↦
      Memᴰ.head (ap₂ (λ (a : K) (b : V). (a, b)) (sym ((e.beq_iff j k).0 t)) (ground (arith, h)))
  | inr f ↦ Memᴰ.tail (lookup-Mem k m (ground (arith, h)))
]

abbrev pub answer : Option ForwardingInfo → Option (Addr × RouteType)
answer none = none
answer (some info) = some (info.next, info.route_type)

-- A destination of the node itself is local. For any other one the answer is the next hop and the
-- type of a route whose prefix contains it, no shorter than that of any other route that does, and
-- `FindNext` finds nothing exactly when no route's prefix contains it.
pub find_next-IsLongest :
    (node : Node) (dst : Addr)
    → (check_dest node dst ≡ true → find_next node dst ≡ some (dst, local))
      × (check_dest node dst ≡ false
          → (r : Option ForwardingInfo) × (find_next node dst ≡ answer r)
            × IsLongest route_prefix dst node.forwarding_table r)
unfolding find_next
find_next-IsLongest node dst = (
  λ t. ground arith,
  λ f. (
    longest route_prefix dst none node.forwarding_table,
    ground arith,
    longest-IsLongest route_prefix dst node.forwarding_table,
  ),
)

-- A forwarding table: each entry stands under its own prefix, which is IPv4 and masked, and no
-- prefix twice.
pub record IsTable (m : List (Prefix × ForwardingInfo)) : Type 0 where
  pub keyed : All (λ (e : Prefix × ForwardingInfo). (e.1.pre ≡ e.0) × IsKey e.0) m
  pub single : (k : Prefix) (x : ForwardingInfo) → Memᴰ (k, x) m → lookup k m ≡ some x

module _ (m m' : List (Prefix × ForwardingInfo)) where
  -- The tables hold the same entries.
  abbrev SameEntries : Type 0
  SameEntries = (k : Prefix) → lookup k m ≡ lookup k m'

  moves :
      (k : Prefix) (x : ForwardingInfo) → IsTable m → SameEntries → Memᴰ (k, x) m → Memᴰ (k, x) m'
  moves k x v same mem = lookup-Mem k m' (sym (same k) ∙ v.single k x mem)

abbrev Entry : Type 0
Entry = Prefix × ForwardingInfo

abbrev Misses : Addr → Entry → Type 0
Misses dst e = contains (route_prefix e.1) dst ≡ false

abbrev Keyed : Entry → Type 0
Keyed e = (e.1.pre ≡ e.0) × IsKey e.0

abbrev NoLonger : Addr → ForwardingInfo → Entry → Type 0
NoLonger dst x e =
    contains (route_prefix e.1) dst ≡ true → (route_prefix e.1).bits ≤ (route_prefix x).bits

one_longest :
    (m m' : List (Prefix × ForwardingInfo)) (dst : Addr) (r r' : Option ForwardingInfo)
    → IsTable m
    → IsTable m'
    → SameEntries m m'
    → IsLongest route_prefix dst m r
    → IsLongest route_prefix dst m' r'
    → r ≡ r'
one_longest m m' dst none none v w same h h' = refl
one_longest m m' dst (some x) none v w same (t, (k, mem), a) h' =
    absurd (differ t (All-at (Misses dst) m' h' (moves m m' k x v same mem)))
one_longest m m' dst none (some y) v w same h (t, (k, mem), a) =
    absurd (differ t (All-at (Misses dst) m h (moves m' m k y w (λ j. sym (same j)) mem)))
one_longest m m' dst (some x) (some y) v w same (t, (k, mem), a) (t', (k', mem'), a') =
    sym (v.single k x mem)
    ∙ same k
    ∙ ap (λ j. lookup j m') (sym kx.0 ∙ prefixes ∙ ky.0)
    ∙ w.single k' y mem'
  where
    kx : (x.pre ≡ k) × IsKey k
    kx = All-at Keyed m v.keyed mem

    ky : (y.pre ≡ k') × IsKey k'
    ky = All-at Keyed m' w.keyed mem'

    there : y.pre.bits ≤ x.pre.bits
    there = All-at (NoLonger dst x) m a (moves m' m k' y w (λ j. sym (same j)) mem') t'

    back : x.pre.bits ≤ y.pre.bits
    back = All-at (NoLonger dst y) m' a' (moves m m' k x v same mem) t

    prefixes : x.pre ≡ y.pre
    prefixes =
        same_prefix x.pre y.pre dst (subst IsKey (sym kx.0) kx.1) (subst IsKey (sym ky.0) ky.1) t t'
          (omega (arith, there, back))

-- The order in which Go iterates over the map makes no difference, if each route stands under its own
-- prefix, which is IPv4 and masked: two such forwarding tables with the same entries, no prefix twice
-- in either, give the same answer.
pub find_next-order :
    (node : Node) (dst : Addr) (table : List (Prefix × ForwardingInfo))
    → IsTable node.forwarding_table
    → IsTable table
    → ((k : Prefix) → lookup k node.forwarding_table ≡ lookup k table)
    → find_next node dst ≡ find_next (record node { forwarding_table = table }) dst
unfolding find_next check_dest
find_next-order node dst table v w same =
    ap
      (λ r. elim (check_dest node dst) [
        | true ↦ some (dst, local)
        | false ↦ elim r [ none ↦ none | some info ↦ some (info.next, info.route_type) ]
      ])
      (one_longest node.forwarding_table table dst _ _ v w same
        (longest-IsLongest route_prefix dst node.forwarding_table)
        (longest-IsLongest route_prefix dst table))
