-- ===== src/Server/Deploys/Events.antt =====
-- What happens to the deployments of a server, one event after another.
use nova_server_manager.Common.{ℕ, String, Text, Bool, Option, List, [], ◌∷◌}
use nova_server_manager.Server.Deploys.{Panel, deploy_app}
use nova_server_manager.Server.Deploys.Task.{
  Outcome, begin_deploy, update_progress, conclude_deploy,
}
use nova_server_manager.Server.Deploys.Restart.{restart}

pub data ServerEvent : Type 0 where
  -- a request, from any client, to deploy this application
  asked : (docker : Bool) (now app_id : ℕ) → ServerEvent
  -- the commits of the task of this deployment
  begun : (id now : ℕ) → ServerEvent
  reported : (id : ℕ) (built : Option Text) (stage : String) (percent : ℕ) → ServerEvent
  finished : (id : ℕ) → Outcome → (now : ℕ) → ServerEvent
  -- the server is stopped, at any point, and started again
  restarted : (now : ℕ) → ServerEvent

unfoldable pub happen : ServerEvent → Panel → Panel
unfolding deploy_app begin_deploy update_progress conclude_deploy restart
happen (asked docker now app_id) s = (deploy_app docker now s app_id).1
happen (begun id now) s = begin_deploy id now s
happen (reported id built stage percent) s = update_progress id built stage percent s
happen (finished id outcome now) s = conclude_deploy id outcome now s
happen (restarted now) s = restart now s

unfoldable pub happen_all : List ServerEvent → Panel → Panel
unfolding happen
happen_all [] s = s
happen_all (e ∷ es) s = happen_all es (happen e s)
