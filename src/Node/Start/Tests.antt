-- ===== src/Node/Start/Tests.antt =====
-- `Initialize` on a configuration with one interface and a router behind it.
use ip_tcp.Base.{◌≡◌, ◌⊎◌, false, none, List, [], ◌∷◌, some}
use ip_tcp.Base.Table.{lookup}
use ip_tcp.Netip.{addr_eq, prefix_eq}
use ip_tcp.Rip.{RipUpdate}
use mathlib.Core.List.{Memᴰ}
use ip_tcp.Lnxconfig.{has_prefix}
use ip_tcp.Node.State.{name_eq, InterfaceConfig}
use ip_tcp.Node.Samples.{all, ones_sum}
use ip_tcp.Node.Start.{local_route, if0, toggle_interface, nil_mutex}
use ip_tcp.Node.Start.Static.{StaticFrom}
use ip_tcp.Node.Start.Tables.{IsReady, initialize-IsReady, initialize-RouteFrom}
use ip_tcp.Node.Start.Toggle.{initialize_toggle_panics}
use ip_tcp.Node.Start.Samples.{config, started, config_starts, started_interface}

initialize-IsReady_example : IsReady started
initialize-IsReady_example = initialize-IsReady ones_sum config config_starts.1

-- The default route is static.
initialize-RouteFrom_example :
    ((i : InterfaceConfig) × Memᴰ i config.interfaces
      × (i.assigned_prefix ≡ all)
      × (lookup all started.forwarding_table ≡ some (local_route i)))
    ⊎ ((has_prefix config.interfaces all ≡ false)
        × StaticFrom config.static_routes all none (lookup all started.forwarding_table))
initialize-RouteFrom_example = initialize-RouteFrom ones_sum config all config_starts.1

initialize_toggle_panics_example : toggle_interface started if0 false ≡ nil_mutex
initialize_toggle_panics_example =
    initialize_toggle_panics ones_sum config if0 false config_starts.1 started_interface

-- The router's table, for the host: the link's route is the host's own.
abbrev routes : List RipUpdate
routes =
    record { cost = 0; address = 0; mask = 0 }
    ∷ record { cost = 16; address = 167772160; mask = 4294967040 }
    ∷ []
