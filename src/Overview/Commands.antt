-- ===== src/Overview/Commands.antt =====
-- frontend/src/views/app-detail-view.tsx: the controls of `OverviewTab` that concern the database, and
-- which of them are disabled, with the effect that follows the addresses of the application. To leave the
-- tab is no command of a visit: `Visits` has it.
use nova_server_manager.Common.{ℕ, Bool, true, not, Text}
use nova_server_manager.Types.{NovaApp}
use nova_server_manager.Client.Effect.{Prog}
use nova_server_manager.Overview.{
  Overview, toggle_password, copy_value, type_cidrs, refresh_cidrs, toggle_admin, save_access,
}

pub data Command : Type 0 where
  save : (enabled : Bool) → Command
  switch_admin : (enabled : Bool) → Command
  copy : Text → Command
  type_text : Text → Command
  reveal : Command
  refresh : NovaApp → Command

-- The buttons have `disabled={publicBusy}` and `disabled={adminBusy}`.
abbrev pub enabled : Overview → Command → Bool
enabled s (save e) = not s.public_busy
enabled s (switch_admin e) = not s.admin_busy
enabled s _ = true

abbrev pub handler : ℕ → Overview → Command → Prog Overview (Unit {0})
handler app_id s (save e) = save_access app_id s e
handler app_id s (switch_admin e) = toggle_admin app_id e
handler app_id s (copy value) = copy_value value
handler app_id s (type_text text) = type_cidrs text
handler app_id s reveal = toggle_password
handler app_id s (refresh app) = refresh_cidrs app
