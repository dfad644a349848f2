-- ===== src/Node/Start/Static.antt =====
-- The static routes that `Initialize` puts into the table.
use ip_tcp.Base.{
  ◌≡◌, ◌≢◌, ◌⊎◌, inl, inr, refl, sym, ap, ◌∙◌, Bool-cases, differ, List, [], ◌∷◌, some, Option,
}
use ip_tcp.Base.Table.{lookup, insert, lookup-insert_self, lookup-insert_ne}
use mathlib.Core.List.{Memᴰ}
use ip_tcp.Netip.{Addr, Prefix, prefix_eq, prefix_beq, prefix_beq_iff}
use ip_tcp.Node.State.{ForwardingInfo}
use ip_tcp.Node.Rip.{Table}
use ip_tcp.Node.Start.{static_route, add_static_routes}

-- The static route of a prefix after the loop over `rs`, where the route was `before`.
abbrev pub StaticFrom :
    List (Prefix × Addr) → Prefix → Option ForwardingInfo → Option ForwardingInfo → Type 0
StaticFrom rs pre before route =
    ((a : Addr) × Memᴰ (pre, a) rs × (route ≡ some (static_route pre a)))
    ⊎ (((a : Addr) → Memᴰ (pre, a) rs → ⊥) × (route ≡ before))

pub add_static_routes-StaticFrom :
    (rs : List (Prefix × Addr)) (t : Table) (pre : Prefix)
    → StaticFrom rs pre (lookup pre t) (lookup pre (add_static_routes rs t))
unfolding add_static_routes
add_static_routes-StaticFrom [] t pre = inr (λ a m. elim m [ ], refl)
add_static_routes-StaticFrom ((q, b) ∷ rs) t pre =
    elim (add_static_routes-StaticFrom rs (insert q (static_route q b) t) pre) [
      | inl (a, m, is) ↦ inl (a, Memᴰ.tail m, is)
      | inr (none, kept) ↦ elim (Bool-cases (prefix_beq q pre)) [
        | inl same ↦
            let is = (prefix_beq_iff q pre).0 same in
            inl (
              b,
              Memᴰ.head (ap (λ (k : Prefix). (k, b)) (sym is)),
              kept
                  ∙ ap (λ k. lookup k (insert q (static_route q b) t)) (sym is)
                  ∙ lookup-insert_self q (static_route q b) t
                  ∙ ap (λ k. some (static_route k b)) is,
            )
        | inr other ↦
            let ne = λ (e : q ≡ pre). differ ((prefix_beq_iff q pre).1 e) other in
            inr (away ne none, kept ∙ lookup-insert_ne q pre (static_route q b) t ne)
      ]
    ]
  where
    away :
        q ≢ pre → ((a : Addr) → Memᴰ (pre, a) rs → ⊥) → (a : Addr) → Memᴰ (pre, a) ((q, b) ∷ rs) → ⊥
    away ne none a (Memᴰ.head e) = ne (ap (λ (x : Prefix × Addr). x.0) (sym e))
    away ne none a (Memᴰ.tail m) = none a m
