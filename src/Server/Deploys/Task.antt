-- ===== src/Server/Deploys/Task.antt =====
-- app/routers/apps.py: `_deploy_background`, split at its commits.
use nova_server_manager.Common.{
  ℕ, String, Text, codes, Bool, true, false, ◌&&◌, ◌==◌, Option, none, some, List, [], ◌∷◌, ◌++◌,
  map, find_first, is_empty, if◌then◌else◌,
}
use nova_server_manager.Server.Rows.{AppRow, CommandResult, deployed}
use nova_server_manager.Server.Python.{last_chars}
use nova_server_manager.Server.Deploys.{
  TaskPhase, waiting, working, ended, Job, Panel, get_app, change_app, set_deploying,
}

abbrev pub same_phase : TaskPhase → TaskPhase → Bool
same_phase waiting waiting = true
same_phase working working = true
same_phase ended ended = true
same_phase _ _ = false

-- The task of this deployment, if it is this far.
abbrev pub is_at : TaskPhase → ℕ → Job → Bool
is_at phase id j = j.row.id == id && same_phase j.phase phase

abbrev pub change_job : (Job → Bool) → (Job → Job) → List Job → List Job
change_job p f jobs = map (λ j. if p j then f j else j) jobs

abbrev pub end_task : Job → Job
end_task j = record j { phase = ended }

unfoldable pub start_job : ℕ → Job → Job
start_job now j = record {
  row = record (j.row) {
    status = "running";
    stage = "preparing";
    progress = 5;
    started_at = some now;
  };
  phase = working;
}

-- `_deploy_background` up to its first commit.
unfoldable pub begin_deploy : (id now : ℕ) → Panel → Panel
unfolding get_app change_app set_deploying start_job
begin_deploy id now s = elim (find_first (is_at waiting id) s.jobs) [
  | none ↦ s
  | some job ↦ elim (get_app s.apps job.row.app_id) [
    | none ↦ record s { jobs = change_job (is_at waiting id) end_task s.jobs }
    | some app ↦ record s {
      apps = change_app app.id set_deploying s.apps;
      jobs = change_job (is_at waiting id) (start_job now) s.jobs;
    }
  ]
]

unfoldable pub advance : (stage : String) (percent : ℕ) → Job → Job
advance stage percent j = record j { row = record (j.row) { stage = stage; progress = percent } }

abbrev pub set_image : Option Text → AppRow → AppRow
set_image none a = a
set_image (some image) a = record a { image = image }

-- `update_progress`, which also commits the image that `docker_service.deploy` may have just assigned
-- to the application.
unfoldable pub update_progress :
    (id : ℕ) (built : Option Text) (stage : String) (percent : ℕ) → Panel → Panel
unfolding change_app advance
update_progress id built stage percent s = elim (find_first (is_at working id) s.jobs) [
  | none ↦ s
  | some job ↦ record s {
    apps = change_app job.row.app_id (set_image built) s.apps;
    jobs = change_job (is_at working id) (advance stage percent) s.jobs;
  }
]

-- What `docker_service.deploy` comes to: it returns, or raises an exception with this type and text.
pub data Outcome : Type 0 where
  returned : CommandResult → Outcome
  raised : (type_name message : Text) → Outcome

abbrev pub result_of : Outcome → CommandResult
result_of (returned r) = r
result_of (raised type_name message) = record {
  ok = false;
  stdout = [];
  stderr = codes "Unexpected deployment error: " ++ type_name ++ codes ": " ++ message;
  returncode = 1;
}

-- `result.stderr or result.stdout`
abbrev pub complaint : CommandResult → Text
complaint r = if is_empty r.stderr then r.stdout else r.stderr

unfoldable pub conclude_app : CommandResult → ℕ → AppRow → AppRow
conclude_app r now a = record a {
  status = if r.ok then "running" else "failed";
  last_error = if r.ok then [] else last_chars 5000 (complaint r);
  last_deployed_at = if r.ok then some now else a.last_deployed_at;
}

unfoldable pub conclude_job : CommandResult → (image : Text) (now : ℕ) → Job → Job
conclude_job r image now j = record {
  row = record (j.row) {
    status = if r.ok then "completed" else "failed";
    stage = if r.ok then "completed" else "failed";
    progress = 100;
    output = last_chars 50000 (r.stdout ++ r.stderr);
    image = image;
    finished_at = some now;
  };
  phase = ended;
}

-- `_deploy_background` from the end of `docker_service.deploy` on.
unfoldable pub conclude_deploy : (id : ℕ) → Outcome → (now : ℕ) → Panel → Panel
unfolding get_app change_app conclude_app conclude_job
conclude_deploy id outcome now s = elim (find_first (is_at working id) s.jobs) [
  | none ↦ s
  | some job ↦ elim (get_app s.apps job.row.app_id) [
    | none ↦ record s { jobs = change_job (is_at working id) end_task s.jobs }
    | some app ↦
        let r = result_of outcome in
        record s {
          apps = change_app app.id (conclude_app r now) s.apps;
          jobs = change_job (is_at working id) (conclude_job r app.image now) s.jobs;
          logs =
              record {
                action = "deploy";
                detail = deployed app.name r.ok;
                level = if r.ok then "info" else "error";
              }
              ∷ s.logs;
        }
  ]
]
