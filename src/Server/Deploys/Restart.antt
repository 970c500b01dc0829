-- ===== src/Server/Deploys/Restart.antt =====
-- app/services/deployment_state_service.py: `reconcile_interrupted_deployments`, which the start of the
-- server runs (app/main.py), when the tasks of the last run are gone; and app/routers/helpers.py:
-- `deployment_dict` and `upload_dict`, in which the client gets the rows.
use nova_server_manager.Common.{
  compare, Ordering, sort_by, keep, take, ◌==◌, ℕ, ◌-◌, ◌/◌, Text, codes, str_eq, ◌&&◌, Option,
  none, some, List, ◌∷◌, ◌++◌, map, any, if◌then◌else◌,
}
use nova_server_manager.Types
use nova_server_manager.Server.Rows.{AppRow, UploadRow, DeploymentRow}
use nova_server_manager.Server.Python.{strip}
use nova_server_manager.Server.Deploys.{Job, Panel, in_progress, blocks}
use nova_server_manager.Server.Deploys.Task.{end_task}

unfoldable pub close : ℕ → DeploymentRow → DeploymentRow
unfolding strip
close now d = record d {
  status = "failed";
  stage = "interrupted";
  output = strip (d.output ++ (10 ∷ codes "Deployment interrupted by a panel restart."));
  finished_at = some now;
}

unfoldable pub close_job : ℕ → Job → Job
unfolding close
close_job now j = if in_progress j.row then record j { row = close now j.row } else j

-- What becomes of an application, if it is among the `affected_apps` of these deployments.
unfoldable pub fail_app : List Job → AppRow → AppRow
fail_app jobs a =
    if any (blocks a.id) jobs && str_eq a.status "deploying"
    then record a {
      status = "failed";
      last_error = codes "Deployment interrupted by a panel restart.";
    }
    else a

unfoldable pub close_upload : ℕ → UploadRow → UploadRow
close_upload now u =
    if str_eq u.status "processing"
    then record u {
      status = "failed";
      error = codes "Upload interrupted by a panel restart.";
      completed_at = some now;
    }
    else u

unfoldable pub reconcile : ℕ → Panel → Panel
unfolding fail_app close_job close_upload
reconcile now s = record s {
  apps = map (fail_app s.jobs) s.apps;
  jobs = map (close_job now) s.jobs;
  uploads = map (close_upload now) s.uploads;
}

-- The server stops and starts again.
unfoldable pub restart : ℕ → Panel → Panel
unfolding reconcile
restart now s = reconcile now (record s { jobs = map end_task s.jobs })

-- `max(0, int((finished_at - started_at).total_seconds()))`
abbrev pub seconds_between : Option ℕ → Option ℕ → Option ℕ
seconds_between (some started) (some finished) = some ((finished - started) / 1000000)
seconds_between _ _ = none

abbrev pub moment : (ℕ → Text) → Option ℕ → Option Text
moment iso none = none
moment iso (some t) = some (iso t)

module _ (iso : ℕ → Text) where
  -- `deployment_dict`, where `iso` is `isoformat`.
  unfoldable pub deployment_dict : DeploymentRow → Types.Deployment
  deployment_dict d = record {
    id = d.id;
    app_id = d.app_id;
    status = d.status;
    stage = d.stage;
    progress = d.progress;
    output = d.output;
    image = d.image;
    trigger = d.trigger;
    duration_seconds = seconds_between d.started_at d.finished_at;
    created_at = iso d.created_at;
    started_at = moment iso d.started_at;
    finished_at = moment iso d.finished_at;
  }

  unfoldable pub upload_dict : UploadRow → Types.UploadRecord
  upload_dict u = record {
    id = u.id;
    app_id = u.app_id;
    filename = u.filename;
    size = u.size;
    status = u.status;
    files_extracted = u.files_extracted;
    extracted_size = u.extracted_size;
    error = u.error;
    created_at = iso u.created_at;
    completed_at = moment iso u.completed_at;
  }

-- `order_by(created_at.desc())`; the order of rows of one moment is left open by the database.
abbrev pub newest_first {ℓ} : {A : Type ℓ} → (A → ℕ) → A → A → Ordering
newest_first created a b = compare (created b) (created a)

module _ (iso : ℕ → Text) (s : Panel) (app_id : ℕ) where
  -- `app_deployments` and `app_uploads`, for an application that is there.
  unfoldable pub app_deployments : List Types.Deployment
  unfolding deployment_dict sort_by
  app_deployments =
      let rows = map (λ j. j.row) s.jobs in
      map (deployment_dict iso)
        (take 30 (sort_by (newest_first (λ d. d.created_at)) (keep (λ d. d.app_id == app_id) rows)))

  unfoldable pub app_uploads : List Types.UploadRecord
  unfolding upload_dict sort_by
  app_uploads = map (upload_dict iso) (
      take 20
        (sort_by (newest_first (λ u. u.created_at)) (keep (λ u. u.app_id == app_id) s.uploads)))
