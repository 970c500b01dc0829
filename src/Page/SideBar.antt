-- ===== src/Page/SideBar.antt =====
-- frontend/src/components/shell.tsx: the flag of `Shell` that shows the side bar on a small screen.
use nova_server_manager.Common.{Bool, false}
use nova_server_manager.Client.Effect.{Prog, update}

-- The button of the menu opens it, what lies around it and its cross close it.
unfoldable pub open_bar : Bool → Prog Bool (Unit {0})
open_bar shown = update (λ s. shown)

-- The effect on the route.
unfoldable pub route_changed : Prog Bool (Unit {0})
route_changed = update (λ s. false)
