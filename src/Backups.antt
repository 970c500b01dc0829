-- ===== src/Backups.antt =====
-- frontend/src/views/operations-views.tsx: the state and the handlers of `BackupsView`.
pub mod Dialogs
pub mod Failing
pub mod Scheduling
use nova_server_manager.Common.{
  ℕ, ◌==◌, Bool, true, false, not, Text, Option, none, some, List, [], ◌∷◌, map, sum, find_first,
  if◌then◌else◌,
}
use nova_server_manager.Types.{NovaApp, Backup, BackupSchedule, Destination}
use nova_server_manager.Client.Message.{
  backup_started, operation_failed, confirm_delete_backup, backup_deleted, confirm_restore,
  restore_started, test_sent, send_failed, schedule_paused, schedule_resumed,
  schedule_toggle_failed, confirm_delete_schedule, schedule_deleted, schedule_delete_failed,
  schedule_edited, schedule_created, telegram_connected,
}
use nova_server_manager.Client.Error.{message_of}
use nova_server_manager.Client.Request.{
  Telegram, ScheduleBody, load_backups, create_backup, delete_backup, restore_backup, test_telegram,
  save_schedule, delete_schedule, confirm,
}
use nova_server_manager.Client.Effect.{
  Prog, success, error, scheduled, request, choose, update, notify, signal, skip, catch, ◌>>=◌,
  ◌>>◌,
}

pub record Backups : Type 0 where
  pub backups : List Backup
  pub schedules : List BackupSchedule
  pub telegram : Telegram
  pub schedule_open : Bool
  pub editing_schedule : Option BackupSchedule
  pub telegram_open : Bool
  pub quick_open : Bool

abbrev pub initial : Backups
initial = record {
  backups = [];
  schedules = [];
  telegram = record { configured = false; chat_id = []; token_hint = [] };
  schedule_open = false;
  editing_schedule = none;
  telegram_open = false;
  quick_open = false;
}

-- `load`, also the effect of the first render and the button that refreshes; nothing is caught.
unfoldable pub load : Prog Backups (Unit {0})
load = do
  (backup_data, schedule_data, telegram_data) ← request load_backups
  update
      λ s. record s { backups = backup_data; schedules = schedule_data; telegram = telegram_data }

-- `create`, which a timer follows that calls `load` after 1200 ms. It sets no state, and the quick
-- backup dialog waits for it.
module _ {S : Type 0} where
  unfoldable pub create : (app_id : ℕ) → Destination → Prog S (Unit {0})
  create app_id destination =
      catch
        (do
          request (create_backup app_id destination)
          notify backup_started success
          signal (scheduled 1200))
        (λ e. notify (message_of e operation_failed) error)

unfoldable pub remove : (id : ℕ) → Prog Backups (Unit {0})
remove id = do
  agreed ← choose (confirm confirm_delete_backup)
  if not agreed then skip else do request (delete_backup id); load; notify backup_deleted success

unfoldable pub restore : (id : ℕ) → Prog Backups (Unit {0})
restore id = do
  agreed ← choose (confirm confirm_restore)
  if not agreed then skip else do request (restore_backup id); notify restore_started success

unfoldable pub try_telegram : Prog Backups (Unit {0})
try_telegram =
    catch (do request test_telegram; notify test_sent success)
      (λ e. notify (message_of e send_failed) error)

-- The body of `toggleSchedule`: all but `enabled` is as it was.
unfoldable pub toggled : BackupSchedule → ScheduleBody
toggled item = record {
  app_id = item.app_id;
  enabled = not item.enabled;
  destination = item.destination;
  interval_value = item.interval_value;
  interval_unit = item.interval_unit;
  retention = item.retention;
}

unfoldable pub toggle_schedule : BackupSchedule → Prog Backups (Unit {0})
toggle_schedule item =
    catch
      (do
        request (save_schedule (some item.id) (toggled item))
        load
        notify (if item.enabled then schedule_paused else schedule_resumed) success)
      (λ e. notify (message_of e schedule_toggle_failed) error)

-- `apps.find((app) => app.id === item.app_id)?.display_name || ""`
unfoldable pub app_name : List NovaApp → ℕ → Text
app_name apps app_id = elim (find_first (λ app. app.id == app_id) apps) [
  | none ↦ []
  | some app ↦ app.display_name
]

unfoldable pub remove_schedule : List NovaApp → BackupSchedule → Prog Backups (Unit {0})
remove_schedule apps item = do
  agreed ← choose (confirm (confirm_delete_schedule (app_name apps item.app_id)))
  if not agreed
      then skip
      else catch (do request (delete_schedule item.id); load; notify schedule_deleted success)
          (λ e. notify (message_of e schedule_delete_failed) error)

-- `totalSize`
unfoldable pub total_size : Backups → ℕ
total_size s = sum (map (λ item. item.size) s.backups)

-- The buttons that open the dialogs; `none` is the button for a new schedule.
unfoldable pub open_quick : Prog Backups (Unit {0})
open_quick = update (λ s. record s { quick_open = true })

unfoldable pub open_telegram : Prog Backups (Unit {0})
open_telegram = update (λ s. record s { telegram_open = true })

unfoldable pub open_schedule : Option BackupSchedule → Prog Backups (Unit {0})
open_schedule none = update (λ s. record s { schedule_open = true })
open_schedule (some item) =
    update (λ s. record s { editing_schedule = some item; schedule_open = true })

-- What the dialogs are handed to close themselves.
unfoldable pub close_schedule : Prog Backups (Unit {0})
close_schedule = update (λ s. record s { schedule_open = false; editing_schedule = none })

unfoldable pub close_telegram : Prog Backups (Unit {0})
close_telegram = update (λ s. record s { telegram_open = false })

unfoldable pub close_quick : Prog Backups (Unit {0})
close_quick = update (λ s. record s { quick_open = false })

-- What the dialogs are handed to report that they saved: `load`, which is not waited for, beside a
-- message.
unfoldable pub schedule_saved : Backups → List (Prog Backups (Unit {0}))
schedule_saved c =
    load
    ∷ notify (elim c.editing_schedule [ none ↦ schedule_created | some item ↦ schedule_edited ])
        success
    ∷ []

unfoldable pub telegram_saved : List (Prog Backups (Unit {0}))
telegram_saved = load ∷ notify telegram_connected success ∷ []
