-- ===== src/Server/Deploys/Exclusive.antt =====
-- How many deployments of an application are in progress.
use nova_server_manager.Common.{
  ℕ, ◌≤◌, ◌≡◌, refl, sym, Bool, true, false, ◌||◌, ◌==◌, ==_iff, Option, List, [], ◌∷◌, Text, map,
  any, all, keep, length, find_first, if◌then◌else◌, Bool-cases, Option-cases, inl, inr, arith,
}
use mathlib.Core.Bool.{and-eq-true_iff}
use mathlib.Core.List.{map-map}
use Prim.Native.String.{String}
use nova_server_manager.Server.Rows.{CommandResult}
use nova_server_manager.Server.Deploys.{
  waiting, working, ended, Job, Panel, get_app, in_progress, blocks, queued, next_id, deploy_app,
}
use nova_server_manager.Server.Deploys.Task.{
  same_phase, is_at, end_task, start_job, advance, conclude_job, begin_deploy, update_progress,
  conclude_deploy, result_of, Outcome,
}
use nova_server_manager.Server.Deploys.Restart.{close_job, reconcile, restart}
use nova_server_manager.Server.Deploys.Events.{
  ServerEvent, asked, begun, reported, finished, restarted, happen, happen_all,
}

-- The number of deployments of this application that are in progress.
unfoldable pub active_count : ℕ → List Job → ℕ
active_count app_id jobs = length (keep (blocks app_id) jobs)

-- A deployment whose task is not over is in progress.
abbrev pub tended : Job → Bool
tended j = same_phase j.phase ended || in_progress j.row

abbrev pub IsTended : Panel → Type 0
IsTended s = all tended s.jobs ≡ true

-- A change of rows that keeps the application and puts nothing in progress.
abbrev pub Calms : (Job → Job) → Type 0
Calms f =
    (j : Job)
    → tended j ≡ true
    → (tended (f j) ≡ true) × ((a : ℕ) → blocks a (f j) ≡ true → blocks a j ≡ true)

active_count-map :
    (f : Job → Job)
    → Calms f
    → (jobs : List Job) → all tended jobs ≡ true
    → (all tended (map f jobs) ≡ true)
      × ((a : ℕ) → active_count a (map f jobs) ≤ active_count a jobs)
unfolding active_count
active_count-map f calm [] h = (refl, λ a. omega arith)
active_count-map f calm (j ∷ jobs) h =
    let (here, there) = (and-eq-true_iff _ _).0 h in
    let (tends, calms) = calm j here in
    let (rest, fewer) = active_count-map f calm jobs there in
    (
      (and-eq-true_iff _ _).1 (tends, rest),
      λ a. elim (Bool-cases (blocks a (f j))) [
        | inl now ↦ rw (now, calms a now) (omega (arith, fewer a))
        | inr idle ↦ rw idle (elim (Bool-cases (blocks a j)) [
          | inl was ↦ rw was (omega (arith, fewer a))
          | inr wasnt ↦ rw wasnt (fewer a)
        ])
      ],
    )

waiting-progresses :
    (id : ℕ) (j : Job) → is_at waiting id j ≡ true → tended j ≡ true → in_progress j.row ≡ true
waiting-progresses id j h k = ground arith

start_job-Calms : (id now : ℕ) → Calms (λ j. if is_at waiting id j then start_job now j else j)
unfolding start_job
start_job-Calms id now j h = elim (Bool-cases (is_at waiting id j)) [
  | inr other ↦ rw other (h, λ a b. b)
  | inl mine ↦ rw (mine, waiting-progresses id j mine h) (refl, λ a b. b)
]

end_task-Calms : (p : Job → Bool) → Calms (λ j. if p j then end_task j else j)
end_task-Calms p j h = ground arith

advance-Calms :
    (id : ℕ) (stage : String) (percent : ℕ)
    → Calms (λ j. if is_at working id j then advance stage percent j else j)
unfolding advance
advance-Calms id stage percent j h = ground arith

conclude-Calms :
    (id : ℕ) (r : CommandResult) (image : Text) (now : ℕ)
    → Calms (λ j. if is_at working id j then conclude_job r image now j else j)
unfolding conclude_job
conclude-Calms id r image now j h = ground arith

restart-Calms : (now : ℕ) → Calms (λ j. close_job now (end_task j))
unfolding close_job
restart-Calms now j h = ground arith

-- What the deployments and their tasks are like at all times.
abbrev pub IsOrderly : List Job → Type 0
IsOrderly jobs = (all tended jobs ≡ true) × ((a : ℕ) → active_count a jobs ≤ 1)

map-IsOrderly :
    (f : Job → Job) → Calms f → (jobs : List Job) → IsOrderly jobs → IsOrderly (map f jobs)
map-IsOrderly f calm jobs (tends, single) =
    let (tend, fewer) = active_count-map f calm jobs tends in
    (tend, λ a. omega (arith, fewer a, single a))

pub not_any-active_count :
    (a : ℕ) (jobs : List Job) → any (blocks a) jobs ≡ false → active_count a jobs ≡ 0
unfolding active_count
not_any-active_count a [] h = refl
not_any-active_count a (j ∷ jobs) h = ground (arith, not_any-active_count a jobs)

queue-IsOrderly :
    (app_id now : ℕ) (jobs : List Job)
    → any (blocks app_id) jobs ≡ false
    → IsOrderly jobs
    → IsOrderly (record { row = queued (next_id jobs) app_id now; phase = waiting } ∷ jobs)
unfolding queued active_count
queue-IsOrderly app_id now jobs free (tends, single) = (
  tends,
  λ a. elim (Bool-cases (app_id == a)) [
    | inl same ↦
        let is = (==_iff app_id a).0 same in
        rw same (omega (arith, not_any-active_count a jobs (rw (sym is) free)))
    | inr other ↦ rw other (single a)
  ],
)

deploy_app-IsOrderly :
    (docker : Bool) (now app_id : ℕ) (s : Panel)
    → IsOrderly s.jobs
    → IsOrderly (deploy_app docker now s app_id).1.jobs
unfolding deploy_app
deploy_app-IsOrderly docker now app_id s h = elim (Option-cases (get_app s.apps app_id)) [
  | inl missing ↦ rw (missing, deploy_app) h
  | inr (app, found) ↦
      rw (found, deploy_app)
        (elim (Bool-cases docker) [
          | inr down ↦ rw down h
          | inl up ↦ rw up (elim (Bool-cases (any (blocks app.id) s.jobs)) [
            | inl busy ↦ rw busy h
            | inr free ↦ rw free (queue-IsOrderly app.id now s.jobs free h)
          ])
        ])
]

module _ (id now : ℕ) (s : Panel) (h : IsOrderly s.jobs) where
  begin_deploy-IsOrderly : IsOrderly (begin_deploy id now s).jobs
  unfolding begin_deploy
  begin_deploy-IsOrderly = elim (Option-cases (find_first (is_at waiting id) s.jobs)) [
    | inl gone ↦ rw (gone, begin_deploy) h
    | inr (job, found) ↦
        rw (found, begin_deploy)
          (elim (Option-cases (get_app s.apps job.row.app_id)) [
            | inl missing ↦
                rw missing (map-IsOrderly _ (end_task-Calms (is_at waiting id)) s.jobs h)
            | inr (app, there) ↦ rw there (map-IsOrderly _ (start_job-Calms id now) s.jobs h)
          ])
  ]

  conclude_deploy-IsOrderly :
      (outcome : Outcome) → IsOrderly (conclude_deploy id outcome now s).jobs
  unfolding conclude_deploy
  conclude_deploy-IsOrderly outcome = elim (Option-cases (find_first (is_at working id) s.jobs)) [
    | inl gone ↦ rw (gone, conclude_deploy) h
    | inr (job, found) ↦
        rw (found, conclude_deploy)
          (elim (Option-cases (get_app s.apps job.row.app_id)) [
            | inl missing ↦
                rw missing (map-IsOrderly _ (end_task-Calms (is_at working id)) s.jobs h)
            | inr (app, there) ↦
                rw there
                  (map-IsOrderly _ (conclude-Calms id (result_of outcome) app.image now) s.jobs h)
          ])
  ]

  update_progress-IsOrderly :
      (built : Option Text) (stage : String) (percent : ℕ)
      → IsOrderly (update_progress id built stage percent s).jobs
  unfolding update_progress
  update_progress-IsOrderly built stage percent =
      elim (Option-cases (find_first (is_at working id) s.jobs)) [
        | inl gone ↦ rw (gone, update_progress) h
        | inr (job, found) ↦
            rw (found, update_progress) (map-IsOrderly _ (advance-Calms id stage percent) s.jobs h)
      ]

  restart-IsOrderly : IsOrderly (restart now s).jobs
  unfolding restart reconcile
  restart-IsOrderly =
      rw (map-map (close_job now) end_task s.jobs) (map-IsOrderly _ (restart-Calms now) s.jobs h)

happen-IsOrderly : (e : ServerEvent) (s : Panel) → IsOrderly s.jobs → IsOrderly (happen e s).jobs
unfolding happen
happen-IsOrderly (asked docker now app_id) s h = deploy_app-IsOrderly docker now app_id s h
happen-IsOrderly (begun id now) s h = begin_deploy-IsOrderly id now s h
happen-IsOrderly (reported id built stage percent) s h =
    update_progress-IsOrderly id 0 s h built stage percent
happen-IsOrderly (finished id outcome now) s h = conclude_deploy-IsOrderly id now s h outcome
happen-IsOrderly (restarted now) s h = restart-IsOrderly 0 now s h

pub happen_all-IsOrderly :
    (es : List ServerEvent) (s : Panel) → IsOrderly s.jobs → IsOrderly (happen_all es s).jobs
unfolding happen_all
happen_all-IsOrderly [] s h = h
happen_all-IsOrderly (e ∷ es) s h = happen_all-IsOrderly es (happen e s) (happen-IsOrderly e s h)

-- From a server without deployments, whatever requests to deploy come, one after another, however the
-- tasks of the deployments advance and end, and whenever the server is stopped and started again, each
-- application has at most one deployment that is queued or running.
pub deployments-Exclusive :
    (es : List ServerEvent) (s : Panel) (app_id : ℕ)
    → s.jobs ≡ []
    → active_count app_id (happen_all es s).jobs ≤ 1
unfolding active_count
deployments-Exclusive es s app_id none_yet =
    (happen_all-IsOrderly es s (rw none_yet (refl, λ a. omega arith))).1 app_id
