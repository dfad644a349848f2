-- ===== src/Node/Start/Toggle.antt =====
-- `ToggleInterface` on the node that `Initialize` returned.
use ip_tcp.Base.{
  ℕ, ◌≡◌, sym, ap, ◌∙◌, Bool, false, Bool-cases, inl, inr, List, [], ◌∷◌, some, some_inj, All,
  if◌then◌else◌,
}
use ip_tcp.Base.Table.{lookup}
use ip_tcp.Lnxconfig.{IpConfig}
use ip_tcp.Node.State.{Node, Name, name_eq, name_beq, Interface}
use ip_tcp.Node.Packets.{SendInterface}
use ip_tcp.Node.Start.{initialize, toggled, nil_mutex, toggle_interface}
use ip_tcp.Node.Start.Tables.{IsNew, initialize-IsReady}

found-IsNew :
    (name : Name) (m : List (Name × Interface)) {i : Interface}
    → lookup name m ≡ some i
    → All IsNew m
    → i.guarded ≡ false
unfolding lookup
found-IsNew name [] h a = absurd cc
found-IsNew name ((k, j) ∷ m) h (p, a) = elim (Bool-cases (name_beq k name)) [
  | inl t ↦
      ap (λ (x : Interface). x.guarded) (sym (some_inj (rw t at h)))
      ∙ ap (λ (x : Interface). x.guarded) p
  | inr f ↦ found-IsNew name m (rw f at h) a
]

-- `ToggleInterface` panics on every interface of the node that `Initialize` returned, to enable or to
-- disable it: `interfaceRoutine` makes the mutex and the condition in its own copy of the interface,
-- and the one in the node's table stays nil.
pub initialize_toggle_panics :
    (sum : List ℕ → ℕ → ℕ) (c : IpConfig) (name : Name) (b : Bool) {node : Node}
    {sent : List (Name × SendInterface)} {i : Interface}
    → initialize sum c ≡ some (node, sent)
    → lookup name node.interfaces ≡ some i
    → toggle_interface node name b ≡ nil_mutex
unfolding toggle_interface
initialize_toggle_panics sum c name b {node} {sent} {i} e found =
    let unguarded = found-IsNew name node.interfaces found (initialize-IsReady sum c e).1 in
    rw (found, toggle_interface)
      (ap (λ g. if g then toggled (record i { enabled = b }) else nil_mutex) unguarded)
