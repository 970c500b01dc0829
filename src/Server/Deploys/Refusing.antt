-- ===== src/Server/Deploys/Refusing.antt =====
-- A deployment of an application that is still being deployed.
use nova_server_manager.Common.{
  ℕ, ◌≡◌, refl, Bool, true, false, ◌==◌, ==_iff, List, ◌∷◌, any, all, Bool-cases, Option-cases,
  any-weaken, find_first-some, find_first-any, inl, inr,
}
use mathlib.Core.Bool.{and-eq-true_iff}
use mathlib.Core.Path.{subst}
use nova_server_manager.Server.Rows.{DeploymentRow}
use nova_server_manager.Server.Replies.{
  Refusal, answers, answers-inj, refuses, deployment_active, docker_unavailable,
}
use nova_server_manager.Server.Deploys.{
  Panel, get_app, blocks, queued, next_id, set_deploying, deploy_app,
}
use nova_server_manager.Server.Deploys.Events.{ServerEvent, happen_all}
use nova_server_manager.Server.Deploys.Ongoing.{
  holds, is_there, IsOngoing, spares, app_kept, happen_all-IsOngoing, new_job,
}

new_job-holds :
    (id a now app_id : ℕ) → (a == app_id) ≡ true → holds id app_id (new_job id a now) ≡ true
unfolding queued
new_job-holds id a now app_id is = rw ((==_iff id id).1 refl, is) refl

accepted-IsOngoing :
    (docker : Bool) (now app_id : ℕ) (s : Panel) (row : DeploymentRow)
    → (deploy_app docker now s app_id).0 ≡ answers row
    → IsOngoing row.id app_id (deploy_app docker now s app_id).1
unfolding deploy_app get_app queued set_deploying
accepted-IsOngoing docker now app_id s row = elim (Option-cases (get_app s.apps app_id)) [
  | inl missing ↦ rw (missing, deploy_app) (λ k. cc)
  | inr (app, found) ↦
      rw (found, deploy_app)
        (elim (Bool-cases docker) [
          | inr down ↦ rw down (λ k. cc)
          | inl up ↦ rw up (elim (Bool-cases (any (blocks app.id) s.jobs)) [
            | inl busy ↦ rw busy (λ k. cc)
            | inr free ↦ rw free (λ k.
                let (there, is) = find_first-any (is_there app_id) s.apps app found in
                (
                  app_kept 0 app_id app.id _ (λ a. refl) s.apps there,
                  subst
                      (λ r.
                        any (holds r.id app_id) (new_job (next_id s.jobs) app.id now ∷ s.jobs)
                        ≡ true)
                      (answers-inj _ row k)
                      (rw (new_job-holds (next_id s.jobs) app.id now app_id is) refl),
                ))
          ])
        ])
]

-- How a request to deploy is refused while a deployment is in progress.
abbrev pub later_refusal : (docker : Bool) → Refusal
later_refusal true = deployment_active
later_refusal false = docker_unavailable

-- Where a deployment of an application is in progress, to deploy it again is refused.
IsOngoing-refuses :
    (docker : Bool) (id now app_id : ℕ) (s : Panel)
    → IsOngoing id app_id s
    → deploy_app docker now s app_id ≡ (refuses (later_refusal docker), s)
unfolding deploy_app get_app
IsOngoing-refuses false id now app_id s (there, held) =
    let (app, (found, is)) = find_first-some (is_there app_id) s.apps there in
    rw (found, deploy_app) refl
IsOngoing-refuses true id now app_id s (there, held) =
    let (app, (found, is)) = find_first-some (is_there app_id) s.apps there in
    rw (found, deploy_app)
      (rw
        (any-weaken (holds id app_id) (blocks app.id)
          (λ j k. rw ((==_iff app.id app_id).0 is) (((and-eq-true_iff _ _).0 k).1)) s.jobs held)
        refl)

-- Once a request to deploy an application is accepted, every later one for it, from any client, is
-- refused and changes nothing, as a conflict if Docker is then available and because it is not
-- otherwise, whatever happens in between, until the task of that deployment ends or the server
-- restarts.
pub deploy_app-refuses_again :
    (docker docker_later : Bool) (now later app_id : ℕ) (s : Panel) (row : DeploymentRow)
    (es : List ServerEvent)
    → (deploy_app docker now s app_id).0 ≡ answers row
    → all (spares row.id app_id) es ≡ true
    → deploy_app docker_later later (happen_all es (deploy_app docker now s app_id).1) app_id
      ≡ (refuses (later_refusal docker_later), happen_all es (deploy_app docker now s app_id).1)
deploy_app-refuses_again docker docker_later now later app_id s row es accepted between =
    IsOngoing-refuses docker_later row.id later app_id _ (
      happen_all-IsOngoing row.id app_id es _ between
        (accepted-IsOngoing docker now app_id s row accepted))
