-- ===== src/Tests/Servers.antt =====
-- Tests of the deployments of the server.
use nova_server_manager.Common.{
  ◌≡◌, ◌≤◌, refl, true, false, codes, none, some, List, [], ◌∷◌, any, decimal,
}
use nova_server_manager.AppDetail.{loaded, polls}
use nova_server_manager.AppDetail
use nova_server_manager.Server.Rows.{AppRow, DeploymentRow}
use nova_server_manager.Server.Replies.{answers, refuses, deployment_active}
use nova_server_manager.Server.Deploys.{Panel, get_app, next_id, queued, set_deploying, deploy_app}
use nova_server_manager.Server.Deploys.Task.{raised}
use nova_server_manager.Server.Deploys.Restart.{restart, app_deployments}
use nova_server_manager.Server.Deploys.Events.{
  ServerEvent, asked, begun, reported, finished, restarted, happen_all,
}
use nova_server_manager.Server.Deploys.Exclusive.{active_count, deployments-Exclusive}
use nova_server_manager.Server.Deploys.Restarting.{interrupted, restart-settles, restart-polls}
use nova_server_manager.Server.Deploys.Refusing.{deploy_app-refuses_again}
use nova_server_manager.Tests.{shop}

abbrev pub shop_row : AppRow
shop_row = record {
  id = 12;
  name = codes "shop";
  app_type = "nodejs";
  status = "running";
  domain = [];
  domains_json = codes "[]";
  image = [];
  host_port = 18000;
  last_error = [];
  last_deployed_at = none;
  last_upload_name = [];
  last_upload_size = 0;
  last_upload_at = none;
  source_size = 0;
  source_files = 0;
}

abbrev pub fresh : Panel
fresh = record { apps = shop_row ∷ []; jobs = []; uploads = []; logs = [] }

abbrev deploying : List ServerEvent
deploying =
    asked true 5 12
    ∷ begun 1 6
    ∷ asked true 7 12
    ∷ reported 1 (some (codes "nova/shop:latest")) "starting_container" 78
    ∷ []

abbrev ending : List ServerEvent
ending =
    asked true 5 12
    ∷ begun 1 6
    ∷ finished 1 (raised (codes "OSError") (codes "disk full")) 8
    ∷ asked true 9 12
    ∷ restarted 10
    ∷ asked true 11 12
    ∷ []

deployments-Exclusive_example : active_count 12 (happen_all ending fresh).jobs ≤ 1
deployments-Exclusive_example = deployments-Exclusive ending fresh 12 refl

restart-settles_example :
    (active_count 12 (restart 20 (happen_all deploying fresh)).jobs ≡ 0)
    × (any (interrupted (happen_all deploying fresh)) (restart 20 (happen_all deploying fresh)).apps
        ≡ false)
    × (restart 30 (restart 20 (happen_all deploying fresh))
        ≡ restart 20 (happen_all deploying fresh))
restart-settles_example = restart-settles 20 30 (happen_all deploying fresh) 12

restart-polls_example :
    polls (
      loaded
        (shop, [], app_deployments decimal (restart 20 (happen_all deploying fresh)) 12, [])
        AppDetail.initial)
    ≡ false
restart-polls_example =
    restart-polls decimal 20 (happen_all deploying fresh) shop [] [] AppDetail.initial

abbrev first : DeploymentRow
first = record {
  id = 1;
  app_id = 12;
  status = "queued";
  stage = "queued";
  progress = 0;
  output = [];
  image = [];
  trigger = codes "manual";
  created_at = 5;
  started_at = none;
  finished_at = none;
}

accepted : (deploy_app true 5 fresh 12).0 ≡ answers first
unfolding deploy_app get_app next_id queued set_deploying
accepted = refl

deploy_app-refuses_again_example :
    deploy_app true 9 (happen_all (begun 1 6 ∷ []) (deploy_app true 5 fresh 12).1) 12
    ≡ (refuses deployment_active, happen_all (begun 1 6 ∷ []) (deploy_app true 5 fresh 12).1)
deploy_app-refuses_again_example =
    deploy_app-refuses_again true true 5 9 12 fresh first (begun 1 6 ∷ []) accepted refl
