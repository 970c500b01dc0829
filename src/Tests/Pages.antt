-- ===== src/Tests/Pages.antt =====
-- Tests of the page of the panel and of the page of one application.
use nova_server_manager.Common.{
  text_eq, leb, ◌&&◌, ◌*◌, ◌+◌, ◌-◌, if◌then◌else◌, ◌≡◌, ◌↔◌, refl, false, ℕ, Text, codes, some,
  none, Option, [], ◌∷◌,
}
use nova_server_manager.Client.Error.{ok, is_ok}
use nova_server_manager.Client.Effect.{sent}
use nova_server_manager.Client.Request.{User, Operation, load_app, load_base, app_action}
use nova_server_manager.Client.Run.{run, shows_error, Succeeds}
use nova_server_manager.Page.{Home, initial}
use nova_server_manager.Page.View.{FiniteNumber, natural, page, crash}
use nova_server_manager.Page.Navigation.{IsUnknown, page-eq-crash_iff}
use nova_server_manager.AppDetail.{Detail, deployments, loaded, action, deploy, can_deploy}
use nova_server_manager.AppDetail as Shown
use nova_server_manager.AppDetail.Actions.{
  after_action, fresh_or_old, action_settles, action_data, action_reports, deploy_tab,
}
use nova_server_manager.Tests.{admin, shop, idle, lively, refusing}

-- `Number` on the digits of a natural number.
abbrev read : ℕ → Text → Option ℕ
read n [] = some n
read n (c ∷ s) = if leb 48 c && leb c 57 then read (n * 10 + (c - 48)) s else none

abbrev number : Text → Option FiniteNumber
number [] = none
number (c ∷ s) = elim (read 0 (c ∷ s)) [ none ↦ none | some n ↦ some (natural n) ]

abbrev lost : Home
lost = record initial {
  booting = false;
  user = some admin;
  metrics = some idle;
  route = record { name = codes "shops"; parts = codes "shops" ∷ [] };
}

page-eq-crash_iff_example :
    (page number lost ≡ crash)
    ↔ ((false ≡ false) × ((u : User) × (some admin ≡ some u)) × IsUnknown (codes "shops"))
page-eq-crash_iff_example = page-eq-crash_iff number lost

shops-IsUnknown : IsUnknown (codes "shops")
unfolding text_eq
shops-IsUnknown =
    (refl, (refl, (refl, (refl, (refl, (refl, (refl, (refl, (refl, (refl, (refl, tt)))))))))))

action_settles_example :
    ((run refusing (action 12 Operation.stop) Shown.initial []).result ≡ ok tt)
    × ((run refusing (action 12 Operation.stop) Shown.initial []).state.busy ≡ false)
    × ((run refusing (action 12 Operation.stop) Shown.initial []).state.tab ≡ Shown.initial.tab)
    × ((run refusing (action 12 Operation.stop) Shown.initial []).state.upload_open ≡ false)
action_settles_example = action_settles 12 refusing Operation.stop Shown.initial []

action_data_example :
    (run lively (action 12 Operation.stop) Shown.initial []).state
    ≡ fresh_or_old
        (is_ok (lively.answer [] (app_action 12 Operation.stop)))
        (lively.answer (after_action 12 lively Operation.stop Shown.initial []) (load_app 12))
        Shown.initial
action_data_example = action_data 12 lively Operation.stop Shown.initial []

action_reports_example :
    (shows_error (run lively (action 12 Operation.stop) Shown.initial []).log ≡ false) ↔ (
      Succeeds (lively.answer [] (app_action 12 Operation.stop))
      × Succeeds
          (lively.answer (after_action 12 lively Operation.stop Shown.initial []) (load_app 12))
      × Succeeds (
          lively.answer
            (sent (load_app 12) ∷ after_action 12 lively Operation.stop Shown.initial [])
            load_base))
action_reports_example = action_reports 12 lively Operation.stop Shown.initial []

deploy_tab_example : (run lively (deploy 12 (some shop)) Shown.initial []).state.tab ≡ deployments
unfolding can_deploy
deploy_tab_example = deploy_tab 12 lively (some shop) Shown.initial []
