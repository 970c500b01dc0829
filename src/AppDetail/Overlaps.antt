-- ===== src/AppDetail/Overlaps.antt =====
-- Deployments of one application that overlap.
use nova_server_manager.Common.{ℕ, ◌≡◌, refl, true, some, List, [], ◌∷◌}
use nova_server_manager.Types.{NovaApp}
use nova_server_manager.Client.Request.{Request, deploy_app}
use nova_server_manager.Client.Effect.{finally, catch, request, update, ◌>>=◌}
use nova_server_manager.Client.Machine.{
  Task, waiting, Machine, idle, Choices, reached, left, Reach, here, later, start_as,
}
use nova_server_manager.AppDetail.{Detail, overview, can_deploy, deploy, send_deploy}
use nova_server_manager.AppDetail.Commands.{Command, enabled, handler, deploy_in_overview}

-- The request that a task waits for.
abbrev pub awaited : Task Detail Command → Request
awaited (waiting c q k) = q

abbrev pub all_awaited : List (Task Detail Command) → List Request
all_awaited [] = []
all_awaited (task ∷ tasks) = awaited task ∷ all_awaited tasks

module _ (app_id : ℕ) (choices : Choices) (s : Detail) (app : NovaApp) (there : s.app ≡ some app)
    (first_tab : s.tab ≡ overview) (deployable : can_deploy (some app) ≡ true) where
  deploys : handler app_id s deploy_in_overview ≡ send_deploy app_id
  unfolding deploy
  deploys = rw there (rw deployable refl)

  can_press : enabled s deploy_in_overview ≡ true
  unfolding enabled
  can_press = rw (there, first_tab) refl

  -- From a page that shows the overview of an application which can be deployed, and on which nothing
  -- waits, the enabled controls lead to one on which two requests to deploy it wait at the same time.
  pub deploy_twice :
      (m : Machine Detail Command) × Reach enabled (handler app_id) (idle s) m
      × (all_awaited m.tasks ≡ deploy_app app_id ∷ deploy_app app_id ∷ [])
  unfolding reached left enabled deploy send_deploy finally catch request update ◌>>=◌
  deploy_twice =
      let once =
        later here
          (start_as (idle s) deploy_in_overview choices (send_deploy app_id) deploys can_press) in
      (
        _,
        later once (start_as _ deploy_in_overview choices (send_deploy app_id) deploys can_press),
        refl,
      )
