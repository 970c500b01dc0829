-- ===== src/AppDetail/Actions.antt =====
-- What the handlers of `AppDetailView` do, whatever the server answers.
use nova_server_manager.Common.{
  ℕ, ◌≡◌, Bool, true, false, Option, some, ◌∷◌, ◌↔◌, arith, length, ◌&&◌, ◌<◌, if◌then◌else◌,
}
use nova_server_manager.Types.{NovaApp}
use nova_server_manager.Client.Error.{Result, ok, is_ok}
use nova_server_manager.Client.Request.{
  Operation, Answer, load_app, app_action, load_base, deploy_app,
}
use nova_server_manager.Client.Effect.{sent, notified, success}
use nova_server_manager.Client.Message.{operation_done}
use nova_server_manager.Client.Run.{Env, Log, Run, run, effects, requests, shows_error, Succeeds}
use nova_server_manager.AppDetail.{
  Detail, deployments, load, refresh_apps, action, deploy, send_deploy, can_deploy,
}

-- The page after an operation that succeeds or not, and the answer to the request for the
-- application, field by field.
abbrev pub fresh_or_old : Bool → Result (Answer (load_app 0)) → Detail → Detail
fresh_or_old true (ok a) s = record {
  app = some a.0;
  uploads = a.1;
  deployments = a.2;
  stats = a.3;
  tab = s.tab;
  upload_open = s.upload_open;
  busy = false;
}
fresh_or_old _ _ s = record s { busy = false }

module _ (app_id : ℕ) (env : Env) (operation : Operation) (s : Detail) (l : Log) where
  abbrev pub after_action : Log
  after_action = notified operation_done success ∷ sent (app_action app_id operation) ∷ l

  -- Whatever the server answers, starting, stopping or restarting an application ends without an
  -- error thrown, not busy, on the same tab and with the upload dialog as it was.
  pub action_settles :
      ((run env (action app_id operation) s l).result ≡ ok tt)
      × ((run env (action app_id operation) s l).state.busy ≡ false)
      × ((run env (action app_id operation) s l).state.tab ≡ s.tab)
      × ((run env (action app_id operation) s l).state.upload_open ≡ s.upload_open)
  unfolding effects action load refresh_apps
  action_settles = ground arith

  -- After an application was told to start, stop or restart, all four shown data are those that
  -- the server answers to the request for the application after the operation, if both requests
  -- succeed, and the old ones otherwise; the page is not busy, and all else is as it was.
  pub action_data :
      (run env (action app_id operation) s l).state
      ≡ fresh_or_old
          (is_ok (env.answer l (app_action app_id operation)))
          (env.answer after_action (load_app app_id))
          s
  unfolding effects action load refresh_apps
  action_data = ground arith

  -- To start, stop or restart an application ends without an error on the screen exactly if the
  -- operation, the loading of the application and the refresh of the list all succeed.
  pub action_reports : (shows_error (run env (action app_id operation) s l).log ≡ false) ↔ (
      Succeeds (env.answer l (app_action app_id operation))
      × Succeeds (env.answer after_action (load_app app_id))
      × Succeeds (env.answer (sent (load_app app_id) ∷ after_action) load_base))
  unfolding effects action load refresh_apps shows_error
  action_reports = ground arith

module _ (app_id : ℕ) (env : Env) (app : Option NovaApp) (s : Detail) (l : Log) where
  abbrev pub after_deploy : Run Detail (Unit {0})
  after_deploy = run env (deploy app_id app) s l

  -- To deploy requests something exactly if the application has source files or is of a type
  -- that needs none.
  deploy_sends_iff :
      (length (requests l) < length (requests after_deploy.log)) ↔ (can_deploy app ≡ true)
  unfolding effects deploy send_deploy load refresh_apps requests
  deploy_sends_iff = ground arith

  -- If the page is not busy, to deploy ends without an error thrown, not busy and with the
  -- upload dialog as it was.
  deploy_settles :
      s.busy ≡ false
      → (after_deploy.result ≡ ok tt)
        × (after_deploy.state.busy ≡ false)
        × (after_deploy.state.upload_open ≡ s.upload_open)
  unfolding effects deploy send_deploy load refresh_apps
  deploy_settles h = ground arith

  -- To deploy leads to the tab of the deployments exactly if the application can be deployed and
  -- the server accepts, whatever fails afterwards; else the tab stays.
  pub deploy_tab :
      after_deploy.state.tab
      ≡ (if can_deploy app && is_ok (env.answer l (deploy_app app_id)) then deployments else s.tab)
  unfolding effects deploy send_deploy load refresh_apps
  deploy_tab = ground arith
