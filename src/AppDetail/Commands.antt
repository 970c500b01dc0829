-- ===== src/AppDetail/Commands.antt =====
-- frontend/src/views/app-detail-view.tsx: the controls of `AppDetailView` and of the tabs that it hands
-- its handlers to, and which of them are disabled. Only the buttons above the tabs have `disabled={busy}`;
-- those of `OverviewTab` and `DeploymentsTab` that deploy have not.
use nova_server_manager.Common.{ℕ, Bool, true, false, not, ◌&&◌, Option, none, some}
use nova_server_manager.Types.{NovaApp}
use nova_server_manager.Client.Request.{Operation}
use nova_server_manager.Client.Effect.{Prog}
use nova_server_manager.AppDetail.{
  polls, Tab, overview, deployments, Detail, load, appear, action, deploy, backup, upload_completed,
  choose_tab, open_upload,
}

pub data Command : Type 0 where
  -- the effects
  showing poll : Command
  operate : Operation → Command
  -- the buttons that deploy: above the tabs, and in two of them
  deploy_above deploy_in_overview deploy_in_deployments : Command
  save_copy : Command
  turn : Tab → Command
  upload_dialog : Bool → Command
  uploaded : Command

abbrev pub is_tab : Tab → Tab → Bool
is_tab overview overview = true
is_tab deployments deployments = true
is_tab _ _ = false

abbrev pub is_loaded : Option NovaApp → Bool
is_loaded none = false
is_loaded (some app) = true

unfoldable pub enabled : Detail → Command → Bool
enabled s showing = true
enabled s poll = polls s
enabled s (operate operation) = is_loaded s.app && not s.busy
enabled s deploy_above = is_loaded s.app && not s.busy
enabled s deploy_in_overview = is_loaded s.app && is_tab s.tab overview
enabled s deploy_in_deployments = is_loaded s.app && is_tab s.tab deployments
enabled s save_copy = is_loaded s.app && is_tab s.tab overview
enabled s (turn tab) = is_loaded s.app
enabled s (upload_dialog shown) = is_loaded s.app
enabled s uploaded = s.upload_open

abbrev pub handler : ℕ → Detail → Command → Prog Detail (Unit {0})
handler app_id s showing = appear app_id
handler app_id s poll = load app_id
handler app_id s (operate operation) = action app_id operation
handler app_id s deploy_above = deploy app_id s.app
handler app_id s deploy_in_overview = deploy app_id s.app
handler app_id s deploy_in_deployments = deploy app_id s.app
handler app_id s save_copy = backup app_id
handler app_id s (turn tab) = choose_tab tab
handler app_id s (upload_dialog shown) = open_upload shown
handler app_id s uploaded = upload_completed app_id
