-- ===== src/Server/Deploys.antt =====
-- app/routers/apps.py: `deploy_app` and `_deploy_background`, and
-- app/services/deployment_state_service.py, which a start of the server runs. The
-- background task of a deployment stands beside its row; it is split at its commits. What Docker does
-- between them is the argument of the events. Requests and commits happen one at a time.
pub mod Task
pub mod Restart
pub mod Events
pub mod Exclusive
pub mod Restarting
pub mod Ongoing
pub mod Refusing
use nova_server_manager.Common.{
  ℕ, zero, suc, ◌-◌, ◌/◌, max, String, Text, codes, str_eq, Bool, true, false, not, ◌&&◌, ◌||◌,
  ◌==◌, Option, none, some, List, [], ◌∷◌, ◌++◌, map, any, find_first, is_empty, if◌then◌else◌,
}
use nova_server_manager.Types
use nova_server_manager.Server.Rows.{AppRow, UploadRow, DeploymentRow, LogRow}
use nova_server_manager.Server.Replies.{
  Refusal, no_such_app, docker_unavailable, deployment_active, Reply, answers, refuses,
}
use nova_server_manager.Server.Python.{last_chars, strip}

-- How far the background task of a deployment is: not begun, at work, or not there any more.
pub data TaskPhase : Type 0 where
  waiting working ended : TaskPhase

-- A row of deployments with its task.
pub record Job : Type 0 where
  pub row : DeploymentRow
  pub phase : TaskPhase

-- The database, the latest row first, and the tasks.
pub record Panel : Type 0 where
  pub apps : List AppRow
  pub jobs : List Job
  pub uploads : List UploadRow
  pub logs : List LogRow

-- `db.get(App, app_id)`
unfoldable pub get_app : List AppRow → ℕ → Option AppRow
get_app apps app_id = find_first (λ a. a.id == app_id) apps

-- The rows, where the one with this identifier is changed.
unfoldable pub change_app : ℕ → (AppRow → AppRow) → List AppRow → List AppRow
change_app app_id f apps = map (λ a. if a.id == app_id then f a else a) apps

-- `Deployment.status.in_(("queued", "running"))`
abbrev pub in_progress : DeploymentRow → Bool
in_progress d = str_eq d.status "queued" || str_eq d.status "running"

abbrev pub blocks : ℕ → Job → Bool
blocks app_id j = j.row.app_id == app_id && in_progress j.row

-- The identifier that SQLite gives to a row: one more than the largest.
unfoldable pub next_id : List Job → ℕ
next_id [] = 1
next_id (j ∷ jobs) = max (suc j.row.id) (next_id jobs)

unfoldable pub queued : (id app_id now : ℕ) → DeploymentRow
queued id app_id now = record {
  id = id;
  app_id = app_id;
  status = "queued";
  stage = "queued";
  progress = 0;
  output = [];
  image = [];
  trigger = codes "manual";
  created_at = now;
  started_at = none;
  finished_at = none;
}

unfoldable pub set_deploying : AppRow → AppRow
set_deploying a = record a { status = "deploying"; last_error = [] }

-- `deploy_app`, where `docker` is what `docker_available` says.
unfoldable pub deploy_app : (docker : Bool) (now : ℕ) → Panel → ℕ → Reply DeploymentRow × Panel
unfolding get_app change_app next_id queued set_deploying
deploy_app docker now s app_id = elim (get_app s.apps app_id) [
  | none ↦ (refuses no_such_app, s)
  | some app ↦
      if not docker
      then (refuses docker_unavailable, s)
      else if any (blocks app.id) s.jobs
      then (refuses deployment_active, s)
      else (
        answers (queued (next_id s.jobs) app.id now),
        record s {
          apps = change_app app.id set_deploying s.apps;
          jobs = record { row = queued (next_id s.jobs) app.id now; phase = waiting } ∷ s.jobs;
        },
      )
]
