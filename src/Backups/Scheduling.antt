-- ===== src/Backups/Scheduling.antt =====
-- What `BackupsView` shows while its handlers overlap, and what switching a schedule does.
use nova_server_manager.Common.{
  ◌≡◌, ◌⊎◌, refl, inl, inr, ℕ, true, not, ◌&&◌, Option, none, some, List, ◌∷◌, arith, if◌then◌else◌,
}
use nova_server_manager.Types.{NovaApp, BackupSchedule, Destination}
use nova_server_manager.Client.Error.{ok, is_ok}
use nova_server_manager.Client.Request.{Request, save_schedule, load_backups}
use nova_server_manager.Client.Effect.{Prog, sent}
use nova_server_manager.Client.Keeps.{Keeps, Anything, keeps_rules, Keeps-update}
use nova_server_manager.Client.Machine.{Machine, idle, Reach}
use nova_server_manager.Client.Machine.Invariants.{Reach-Steady}
use nova_server_manager.Client.Run.{Env, Log, Run, run, requests, shows_error, effects}
use nova_server_manager.Backups.{
  Backups, load, create, remove, restore, try_telegram, toggled, toggle_schedule, remove_schedule,
  open_quick, open_telegram, open_schedule, close_schedule, close_telegram, close_quick,
}

pub data Command : Type 0 where
  refresh test quick connect hide_quick hide_telegram hide_schedule : Command
  back_up : (app_id : ℕ) → Destination → Command
  delete recover : (id : ℕ) → Command
  switch drop : BackupSchedule → Command
  schedule : Option BackupSchedule → Command

abbrev pub handler : List NovaApp → Backups → Command → Prog Backups (Unit {0})
handler apps s refresh = load
handler apps s test = try_telegram
handler apps s quick = open_quick
handler apps s connect = open_telegram
handler apps s hide_quick = close_quick
handler apps s hide_telegram = close_telegram
handler apps s hide_schedule = close_schedule
handler apps s (back_up app_id destination) = create app_id destination
handler apps s (delete id) = remove id
handler apps s (recover id) = restore id
handler apps s (switch item) = toggle_schedule item
handler apps s (drop item) = remove_schedule apps item
handler apps s (schedule item) = open_schedule item

-- A schedule is edited only while the dialog is open.
abbrev pub IsConsistent : Backups → Type 0
IsConsistent s = (s.schedule_open ≡ true) ⊎ (s.editing_schedule ≡ none)

handler-Keeps :
    (apps : List NovaApp) (s : Backups) (c : Command)
    → Keeps Anything IsConsistent (handler apps s c)
unfolding load create remove restore try_telegram toggle_schedule remove_schedule open_quick
    open_telegram open_schedule close_schedule close_telegram close_quick
handler-Keeps apps s refresh = search keeps_rules depth 12
handler-Keeps apps s test = search keeps_rules depth 12
handler-Keeps apps s quick = search keeps_rules depth 12
handler-Keeps apps s connect = search keeps_rules depth 12
handler-Keeps apps s hide_quick = search keeps_rules depth 12
handler-Keeps apps s hide_telegram = search keeps_rules depth 12
handler-Keeps apps s hide_schedule = Keeps-update _ (λ t k. inr refl)
handler-Keeps apps s (back_up app_id destination) = search keeps_rules depth 12
handler-Keeps apps s (delete id) = search keeps_rules depth 12
handler-Keeps apps s (recover id) = search keeps_rules depth 12
handler-Keeps apps s (switch item) = search keeps_rules depth 12
handler-Keeps apps s (drop item) = search keeps_rules depth 12
handler-Keeps apps s (schedule none) = Keeps-update _ (λ t k. inl refl)
handler-Keeps apps s (schedule (some item)) = Keeps-update _ (λ t k. inl refl)

-- However the controls and the dialogs are used, in whatever order the server answers and whatever it
-- answers, a schedule is edited only while its dialog is open, if this holds at first and nothing
-- waits then.
pub schedule-IsConsistent :
    (apps : List NovaApp) (s : Backups) (m : Machine Backups Command)
    → IsConsistent s
    → Reach (λ t c. true) (handler apps) (idle s) m
    → IsConsistent m.state
schedule-IsConsistent apps s m h r =
    (Reach-Steady IsConsistent (λ t c. true) (handler apps) (λ t c _. handler-Keeps apps t c) r
      (h, tt)).0

module _ (item : BackupSchedule) (env : Env) (s : Backups) (l : Log) where
  abbrev pub switched : Run Backups (Unit {0})
  switched = run env (toggle_schedule item) s l

  abbrev pub change : Request
  change = save_schedule (some item.id) (toggled item)

  -- To switch a schedule asks the server to store it as it is, but for the switch, and then loads the
  -- backups if the server accepts; it throws nothing, and ends with an error on the screen exactly if
  -- one of the two is refused.
  pub toggle_schedule_lem :
      (switched.result ≡ ok tt)
      × (requests switched.log ≡ (
          if is_ok (env.answer l change)
          then load_backups ∷ change ∷ requests l
          else change ∷ requests l))
      × (shows_error switched.log
          ≡ not (is_ok (env.answer l change) && is_ok (env.answer (sent change ∷ l) load_backups)))
      × ((toggled item).enabled ≡ not item.enabled)
  unfolding effects toggle_schedule load requests shows_error toggled
  toggle_schedule_lem = ground arith
