-- ===== src/Server/Deploys/Restarting.antt =====
-- What a restart of the server leaves of the work that it interrupts.
use nova_server_manager.Common.{
  ℕ, ◌≡◌, refl, Bool, false, ◌&&◌, List, [], ◌∷◌, Text, str_eq, map, any, Bool-cases, inl, inr,
  arith, All, All-keep, All-take, All-map, any-All, All-weaken, sort_by-All,
}
use nova_server_manager.Types
use nova_server_manager.AppDetail.{Detail, is_active, loaded, polls}
use nova_server_manager.Server.Rows.{AppRow, UploadRow, DeploymentRow}
use nova_server_manager.Server.Deploys.{Job, Panel, in_progress, blocks}
use nova_server_manager.Server.Deploys.Task.{end_task}
use nova_server_manager.Server.Deploys.Exclusive.{active_count, not_any-active_count}
use nova_server_manager.Server.Deploys.Restart.{
  close, close_job, fail_app, close_upload, reconcile, restart, deployment_dict, app_deployments,
  newest_first,
}

abbrev pub Rests : DeploymentRow → Type 0
Rests d = in_progress d ≡ false

close_job-Rests : (now : ℕ) (j : Job) → Rests (close_job now j).row
unfolding close_job close
close_job-Rests now j = elim (Bool-cases (in_progress j.row)) [
  | inl busy ↦ rw busy refl
  | inr rests ↦ rw rests rests
]

Rests-blocks : (a : ℕ) (j : Job) → Rests j.row → blocks a j ≡ false
Rests-blocks a j h = ground arith

restart-Rests : (now : ℕ) (s : Panel) → All (λ j. Rests j.row) (restart now s).jobs
unfolding restart reconcile
restart-Rests now s = All-map _ (close_job now) (map end_task s.jobs) (close_job-Rests now)

-- Whether a restart finds an application in this state in the midst of a deployment.
abbrev pub interrupted : Panel → AppRow → Bool
interrupted s a = any (blocks a.id) s.jobs && str_eq a.status "deploying"

rows-All : (jobs : List Job) → All (λ j. Rests j.row) jobs → All Rests (map (λ j. j.row) jobs)
rows-All [] h = tt
rows-All (j ∷ jobs) (p, h) = (p, rows-All jobs h)

dicts-idle :
    (iso : ℕ → Text) (ds : List DeploymentRow)
    → All Rests ds
    → any is_active (map (deployment_dict iso) ds) ≡ false
unfolding deployment_dict
dicts-idle iso [] h = refl
dicts-idle iso (d ∷ ds) (p, h) = rw (p, dicts-idle iso ds h) refl

-- Whatever a restart interrupts, a page that loads any application then asks no more for the progress of its deployments.
pub restart-polls :
    (iso : ℕ → Text) (now : ℕ) (s : Panel) (app : Types.NovaApp) (uploads : List Types.UploadRecord)
    (stats : Types.Entries) (page : Detail)
    → polls (loaded (app, uploads, app_deployments iso (restart now s) app.id, stats) page) ≡ false
unfolding polls app_deployments
restart-polls iso now s app uploads stats page = dicts-idle iso _ (
    All-take Rests 30 _ (
      sort_by-All (newest_first (λ d. d.created_at)) Rests _
        (All-keep Rests _ _ (rows-All _ (restart-Rests now s)))))

map-same {ℓ} : {A : Type ℓ} (f : A → A) (xs : List A) → All (λ x. f x ≡ x) xs → map f xs ≡ xs
map-same f [] h = refl
map-same f (x ∷ xs) (e, h) = rw (e, map-same f xs h) refl

closed-same :
    (now : ℕ) (jobs : List Job) → All (λ j. Rests j.row) jobs → map (close_job now) jobs ≡ jobs
unfolding close_job
closed-same now [] h = refl
closed-same now (j ∷ jobs) (p, h) = rw (p, closed-same now jobs h) refl

ended-same :
    (now : ℕ) (jobs : List Job)
    → map end_task (map (close_job now) (map end_task jobs))
      ≡ map (close_job now) (map end_task jobs)
unfolding close_job
ended-same now [] = refl
ended-same now (j ∷ jobs) = elim (Bool-cases (in_progress j.row)) [
  | inl busy ↦ rw (busy, ended-same now jobs) refl
  | inr rests ↦ rw (rests, ended-same now jobs) refl
]

uploads-same :
    (now later : ℕ) (us : List UploadRow)
    → map (close_upload later) (map (close_upload now) us) ≡ map (close_upload now) us
unfolding close_upload
uploads-same now later [] = refl
uploads-same now later (u ∷ us) = elim (Bool-cases (str_eq u.status "processing")) [
  | inl busy ↦ rw (busy, uploads-same now later us) refl
  | inr rests ↦ rw (rests, uploads-same now later us) (rw rests refl)
]

apps-same :
    (jobs : List Job)
    → All (λ j. Rests j.row) jobs
    → (apps : List AppRow) → map (fail_app jobs) apps ≡ apps
unfolding fail_app
apps-same jobs h [] = refl
apps-same jobs h (a ∷ apps) =
    rw
      (
        any-All (blocks a.id) jobs (All-weaken _ _ (Rests-blocks a.id) jobs h),
        apps-same jobs h apps,
      )
      refl

restart_again : (now later : ℕ) (s : Panel) → restart later (restart now s) ≡ restart now s
unfolding restart reconcile
restart_again now later s =
    let rests = restart-Rests now s in
    rw
      (
        ended-same now s.jobs,
        closed-same later _ rests,
        uploads-same now later s.uploads,
        apps-same _ rests (map (fail_app (map end_task s.jobs)) s.apps),
      )
      refl

map-end_task-blocks :
    (a : ℕ) (jobs : List Job) → any (blocks a) (map end_task jobs) ≡ any (blocks a) jobs
map-end_task-blocks a [] = refl
map-end_task-blocks a (j ∷ jobs) = rw (map-end_task-blocks a jobs) refl

uninterrupted :
    (s : Panel) (apps : List AppRow)
    → any (interrupted s) (map (fail_app (map end_task s.jobs)) apps) ≡ false
unfolding fail_app
uninterrupted s [] = refl
uninterrupted s (a ∷ apps) =
    rw (map-end_task-blocks a.id s.jobs) (elim (Bool-cases (interrupted s a)) [
      | inl cut ↦ rw (cut, uninterrupted s apps) (ground arith)
      | inr free ↦ rw (free, uninterrupted s apps) (rw free refl)
    ])

-- Wherever the server is stopped, once it has started again no deployment is queued or running, no
-- application that had one is still deploying, and a further restart changes nothing.
pub restart-settles :
    (now later : ℕ) (s : Panel) (app_id : ℕ)
    → (active_count app_id (restart now s).jobs ≡ 0)
      × (any (interrupted s) (restart now s).apps ≡ false)
      × (restart later (restart now s) ≡ restart now s)
unfolding restart reconcile
restart-settles now later s app_id = (
  not_any-active_count app_id _
      (any-All (blocks app_id) _ (All-weaken _ _ (Rests-blocks app_id) _ (restart-Rests now s))),
  uninterrupted s s.apps,
  restart_again now later s,
)
