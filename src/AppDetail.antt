-- ===== src/AppDetail.antt =====
-- frontend/src/views/app-detail-view.tsx: the state and the handlers of `AppDetailView`.
pub mod Actions
pub mod Commands
pub mod Overlaps
use nova_server_manager.Common.{
  ℕ, ◌==◌, Bool, true, false, not, ◌&&◌, ◌||◌, String, str_eq, Option, none, some, List, [], ◌∷◌,
  any, if◌then◌else◌,
}
use nova_server_manager.Types.{NovaApp, UploadRecord, Deployment, Entries, local}
use nova_server_manager.Client.Message.{
  operation_done, operation_failed, app_not_found, source_required, deploy_started, deploy_failed,
  backup_started, backup_failed,
}
use nova_server_manager.Client.Error.{message_of}
use nova_server_manager.Client.Request.{
  load_app, app_action, Operation, deploy_app, create_backup, load_base,
}
use nova_server_manager.Client.Effect.{
  Prog, success, error, request, update, notify, skip, catch, finally, ◌>>=◌, ◌>>◌,
}

pub data Tab : Type 0 where
  overview source deployments logs domain settings : Tab

pub record Detail : Type 0 where
  pub app : Option NovaApp
  pub uploads : List UploadRecord
  pub deployments : List Deployment
  pub stats : Entries
  pub tab : Tab
  pub upload_open : Bool
  pub busy : Bool

abbrev pub initial : Detail
initial = record {
  app = none;
  uploads = [];
  deployments = [];
  stats = [];
  tab = overview;
  upload_open = false;
  busy = false;
}

-- `["queued", "running"].includes(item.status)`
abbrev pub is_active : Deployment → Bool
is_active d = str_eq d.status "queued" || str_eq d.status "running"

-- The effect on `deployments`: whether the page asks for the application again every 2500 ms.
unfoldable pub polls : Detail → Bool
polls s = any is_active s.deployments

-- `["postgres", "mongodb", "docker"].includes(app_type)`
abbrev pub needs_no_source : String → Bool
needs_no_source t = str_eq t "postgres" || str_eq t "mongodb" || str_eq t "docker"

-- The guard of `deploy`, over the application of the last render.
unfoldable pub can_deploy : Option NovaApp → Bool
can_deploy none = false
can_deploy (some app) = not (app.source_files == 0) || needs_no_source app.app_type

-- The operation of the button between start and stop.
unfoldable pub toggled : NovaApp → Operation
toggled app = if str_eq app.status "running" then Operation.stop else Operation.start

-- What `load` sets.
abbrev pub loaded : NovaApp × List UploadRecord × List Deployment × Entries → Detail → Detail
loaded (app_data, upload_data, deployment_data, stats_data) s = record s {
  app = some app_data;
  uploads = upload_data;
  deployments = deployment_data;
  stats = stats_data;
}

-- The row of tabs, and the buttons that open and close the upload dialog.
unfoldable pub choose_tab : Tab → Prog Detail (Unit {0})
choose_tab tab = update (λ s. record s { tab = tab })

unfoldable pub open_upload : Bool → Prog Detail (Unit {0})
open_upload shown = update (λ s. record s { upload_open = shown })

module _ (app_id : ℕ) where
  -- `load`: nothing is set unless all four requests succeed.
  unfoldable pub load : Prog Detail (Unit {0})
  load = do answer ← request (load_app app_id); update (loaded answer)

  -- The effect that loads the application when the component appears.
  unfoldable pub appear : Prog Detail (Unit {0})
  appear = catch load (λ e. notify (message_of e app_not_found) error)

  -- `refreshApps` is the page's `refreshBase`, whose state is the page's and not this component's.
  unfoldable pub refresh_apps : Prog Detail (Unit {0})
  refresh_apps = do request load_base; skip

  -- `completed` of the upload dialog.
  unfoldable pub upload_completed : Prog Detail (Unit {0})
  upload_completed = do load; refresh_apps

  unfoldable pub action : Operation → Prog Detail (Unit {0})
  action operation = do
    update (λ s. record s { busy = true })
    finally
        (catch
          (do
            request (app_action app_id operation)
            notify operation_done success
            load
            refresh_apps)
          (λ e. notify (message_of e operation_failed) error))
        (λ p. update (λ s. record s { busy = false }) >> p)

  -- What `deploy` does behind its guard.
  unfoldable pub send_deploy : Prog Detail (Unit {0})
  send_deploy = do
    update (λ s. record s { busy = true })
    finally
        (catch
          (do
            request (deploy_app app_id)
            notify deploy_started success
            update (λ s. record s { tab = deployments })
            load
            refresh_apps)
          (λ e. notify (message_of e deploy_failed) error))
        (λ p. update (λ s. record s { busy = false }) >> p)

  unfoldable pub deploy : Option NovaApp → Prog Detail (Unit {0})
  deploy app = if not (can_deploy app) then notify source_required error else send_deploy

  unfoldable pub backup : Prog Detail (Unit {0})
  backup =
      catch (do request (create_backup app_id local); notify backup_started success)
        (λ e. notify (message_of e backup_failed) error)
