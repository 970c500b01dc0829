-- ===== src/Server/Deploys/Ongoing.antt =====
-- A deployment that stays in progress.
use nova_server_manager.Common.{
  String, ℕ, ◌≡◌, refl, Bool, true, false, ◌&&◌, not, ◌==◌, Option, none, some, List, [], ◌∷◌, any,
  all, find_first, if◌then◌else◌, Bool-cases, Option-cases, any-map, any-later, inl, inr, arith,
  Text,
}
use mathlib.Core.Bool.{and-eq-true_iff}
use nova_server_manager.Server.Rows.{AppRow}
use nova_server_manager.Server.Deploys.{
  Job, Panel, waiting, working, get_app, change_app, blocks, queued, next_id, set_deploying,
  deploy_app,
}
use nova_server_manager.Server.Deploys.Task.{
  Outcome, is_at, end_task, start_job, advance, conclude_app, set_image, begin_deploy,
  update_progress, conclude_deploy,
}
use nova_server_manager.Server.Deploys.Events.{
  ServerEvent, asked, begun, reported, finished, restarted, happen, happen_all,
}

abbrev pub new_job : (id app_id now : ℕ) → Job
new_job id app_id now = record { row = queued id app_id now; phase = waiting }

-- Whether this is the row of that deployment, and it blocks its application.
abbrev pub holds : (id app_id : ℕ) → Job → Bool
holds id app_id j = j.row.id == id && blocks app_id j

abbrev pub is_there : ℕ → AppRow → Bool
is_there app_id a = a.id == app_id

module _ (id app_id : ℕ) where
  -- The deployment is in progress and its application is there.
  abbrev pub IsOngoing : Panel → Type 0
  IsOngoing s = (any (is_there app_id) s.apps ≡ true) × (any (holds id app_id) s.jobs ≡ true)

  -- An event that neither ends this deployment nor the run of the server.
  abbrev pub spares : ServerEvent → Bool
  spares (finished i outcome now) = not (i == id)
  spares (restarted now) = false
  spares _ = true

  pub app_kept :
      (i : ℕ) (f : AppRow → AppRow)
      → ((a : AppRow) → (f a).id ≡ a.id)
      → (apps : List AppRow) → any (is_there app_id) apps ≡ true
      → any (is_there app_id) (change_app i f apps) ≡ true
  unfolding change_app
  app_kept i f same apps h =
      any-map _ _
        (λ a k. elim (Bool-cases (a.id == i)) [
          | inl it ↦ rw (it, same a) k
          | inr other ↦ rw other k
        ])
        apps h

  start_kept :
      (i now : ℕ) (j : Job)
      → holds id app_id j ≡ true
      → holds id app_id (if is_at waiting i j then start_job now j else j) ≡ true
  unfolding start_job
  start_kept i now j h = elim (Bool-cases (is_at waiting i j)) [
    | inl mine ↦ rw mine (ground arith)
    | inr other ↦ rw other h
  ]

  conclude_kept :
      (i : ℕ)
      → not (i == id) ≡ true
      → (f : Job → Job) (j : Job) → holds id app_id j ≡ true
      → holds id app_id (if is_at working i j then f j else j) ≡ true
  conclude_kept i other f j h = ground arith

  advance_kept :
      (i : ℕ) (stage : String) (percent : ℕ) (j : Job)
      → holds id app_id j ≡ true
      → holds id app_id (if is_at working i j then advance stage percent j else j) ≡ true
  unfolding advance
  advance_kept i stage percent j h = ground arith

  end_kept :
      (p : Job → Bool) (j : Job)
      → holds id app_id j ≡ true
      → holds id app_id (if p j then end_task j else j) ≡ true
  end_kept p j h = ground arith

  set_image_same : (built : Option Text) (a : AppRow) → (set_image built a).id ≡ a.id
  set_image_same none a = refl
  set_image_same (some image) a = refl

module _ (id app_id : ℕ) (s : Panel) (h : IsOngoing id app_id s) where
  begin_deploy-IsOngoing : (i now : ℕ) → IsOngoing id app_id (begin_deploy i now s)
  unfolding begin_deploy set_deploying
  begin_deploy-IsOngoing i now = elim (Option-cases (find_first (is_at waiting i) s.jobs)) [
    | inl gone ↦ rw (gone, begin_deploy) h
    | inr (job, found) ↦
        rw (found, begin_deploy)
          (elim (Option-cases (get_app s.apps job.row.app_id)) [
            | inl missing ↦
                rw missing (h.0, any-map _ _ (end_kept id app_id (is_at waiting i)) s.jobs h.1)
            | inr (app, there) ↦ rw there (
              app_kept id app_id app.id _ (λ a. refl) s.apps h.0,
              any-map _ _ (start_kept id app_id i now) s.jobs h.1,
            )
          ])
  ]

  update_progress-IsOngoing :
      (i : ℕ) (built : Option Text) (stage : String) (percent : ℕ)
      → IsOngoing id app_id (update_progress i built stage percent s)
  unfolding update_progress
  update_progress-IsOngoing i built stage percent =
      elim (Option-cases (find_first (is_at working i) s.jobs)) [
        | inl gone ↦ rw (gone, update_progress) h
        | inr (job, found) ↦
            rw (found, update_progress)
              (
                app_kept id app_id job.row.app_id _ (set_image_same id app_id built) s.apps h.0,
                any-map _ _ (advance_kept id app_id i stage percent) s.jobs h.1,
              )
      ]

  conclude_deploy-IsOngoing :
      (i : ℕ) (outcome : Outcome) (now : ℕ)
      → not (i == id) ≡ true
      → IsOngoing id app_id (conclude_deploy i outcome now s)
  unfolding conclude_deploy conclude_app
  conclude_deploy-IsOngoing i outcome now other =
      elim (Option-cases (find_first (is_at working i) s.jobs)) [
        | inl gone ↦ rw (gone, conclude_deploy) h
        | inr (job, found) ↦
            rw (found, conclude_deploy)
              (elim (Option-cases (get_app s.apps job.row.app_id)) [
                | inl missing ↦
                    rw missing (h.0, any-map _ _ (end_kept id app_id (is_at working i)) s.jobs h.1)
                | inr (app, there) ↦ rw there (
                  app_kept id app_id app.id _ (λ a. refl) s.apps h.0,
                  any-map _ _ (conclude_kept id app_id i other _) s.jobs h.1,
                )
              ])
      ]

  deploy_app-IsOngoing :
      (docker : Bool) (now other : ℕ) → IsOngoing id app_id (deploy_app docker now s other).1
  unfolding deploy_app set_deploying
  deploy_app-IsOngoing docker now other = elim (Option-cases (get_app s.apps other)) [
    | inl missing ↦ rw (missing, deploy_app) h
    | inr (app, found) ↦
        rw (found, deploy_app)
          (elim (Bool-cases docker) [
            | inr down ↦ rw down h
            | inl up ↦ rw up (elim (Bool-cases (any (blocks app.id) s.jobs)) [
              | inl busy ↦ rw busy h
              | inr free ↦ rw free (
                app_kept id app_id app.id _ (λ a. refl) s.apps h.0,
                any-later (holds id app_id) (new_job (next_id s.jobs) app.id now) s.jobs h.1,
              )
            ])
          ])
  ]

module _ (id app_id : ℕ) (s : Panel) (h : IsOngoing id app_id s) where
  happen-IsOngoing :
      (e : ServerEvent) → spares id app_id e ≡ true → IsOngoing id app_id (happen e s)
  unfolding happen
  happen-IsOngoing (asked docker now other) c = deploy_app-IsOngoing id app_id s h docker now other
  happen-IsOngoing (begun i now) c = begin_deploy-IsOngoing id app_id s h i now
  happen-IsOngoing (reported i built stage percent) c =
      update_progress-IsOngoing id app_id s h i built stage percent
  happen-IsOngoing (finished i outcome now) c =
      conclude_deploy-IsOngoing id app_id s h i outcome now c
  happen-IsOngoing (restarted now) c = cc

pub happen_all-IsOngoing :
    (id app_id : ℕ) (es : List ServerEvent) (s : Panel)
    → all (spares id app_id) es ≡ true
    → IsOngoing id app_id s
    → IsOngoing id app_id (happen_all es s)
unfolding happen_all happen
happen_all-IsOngoing id app_id [] s c h = h
happen_all-IsOngoing id app_id (e ∷ es) s c h =
    let (first, others) = (and-eq-true_iff _ _).0 c in
    happen_all-IsOngoing id app_id es (happen e s) others (happen-IsOngoing id app_id s h e first)
