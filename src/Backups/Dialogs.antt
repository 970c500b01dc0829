-- ===== src/Backups/Dialogs.antt =====
-- frontend/src/views/operations-views.tsx: the dialogs `ScheduleModal`, `TelegramModal` and
-- `QuickBackupModal`.
use nova_server_manager.Common.{ℕ, Bool, true, false, Text, Option, none, some}
use nova_server_manager.Types.{BackupSchedule, Destination, local, IntervalUnit, hours}
use nova_server_manager.Client.Message.{Message, connection_failed}
use nova_server_manager.Client.Error.{message_of}
use nova_server_manager.Client.Request.{ScheduleBody, save_schedule, save_telegram}
use nova_server_manager.Client.Effect.{
  Prog, called, saved, close, request, update, signal, catch, finally, ◌>>◌,
}
use nova_server_manager.Backups.{create}

-- The state of `ScheduleModal` and of `QuickBackupModal`.
pub record Busy : Type 0 where
  pub busy : Bool

abbrev pub idle : Busy
idle = record { busy = false }

-- The form of a schedule as it is read.
pub record ScheduleForm : Type 0 where
  pub app_id : ℕ
  pub destination : Destination
  pub interval_value : ℕ
  pub interval_unit : IntervalUnit
  pub retention : ℕ

-- The form as it is shown first; `first_app` is the application that the browser selects where none is.
unfoldable pub form_of : (first_app : ℕ) → Option BackupSchedule → ScheduleForm
form_of first_app none = record {
  app_id = first_app;
  destination = local;
  interval_value = 24;
  interval_unit = hours;
  retention = 7;
}
form_of first_app (some schedule) = record {
  app_id = schedule.app_id;
  destination = schedule.destination;
  interval_value = schedule.interval_value;
  interval_unit = schedule.interval_unit;
  retention = schedule.retention;
}

-- The body of the request: `schedule?.enabled ?? true`.
unfoldable pub body_of : Option BackupSchedule → ScheduleForm → ScheduleBody
body_of schedule form = record {
  app_id = form.app_id;
  enabled = elim schedule [ none ↦ true | some item ↦ item.enabled ];
  destination = form.destination;
  interval_value = form.interval_value;
  interval_unit = form.interval_unit;
  retention = form.retention;
}

-- `schedule` chooses the address: that of the schedule, or that of all.
abbrev pub id_of : Option BackupSchedule → Option ℕ
id_of none = none
id_of (some item) = some item.id

-- Nothing is caught: an error goes on after the flag is reset.
unfoldable pub submit_schedule : Option BackupSchedule → ScheduleForm → Prog Busy (Unit {0})
submit_schedule schedule form = do
  update (λ s. record s { busy = true })
  finally
      (do
        request (save_schedule (id_of schedule) (body_of schedule form))
        signal (called saved)
        signal (called close))
      (λ p. update (λ s. record s { busy = false }) >> p)

pub record TelegramForm : Type 0 where
  pub busy : Bool
  -- the error that is shown; the empty one is `none`
  pub shown : Option Message

abbrev pub telegram_initial : TelegramForm
telegram_initial = record { busy = false; shown = none }

-- The flag is reset only by an error: the dialog is closed otherwise.
unfoldable pub submit_telegram : (token chat_id : Text) → Prog TelegramForm (Unit {0})
submit_telegram token chat_id = do
  update (λ s. record s { busy = true; shown = none })
  catch (do request (save_telegram token chat_id); signal (called saved); signal (called close))
      (λ e. update (λ s. record s { busy = false; shown = some (message_of e connection_failed) }))

-- `create` of `BackupsView` is waited for.
unfoldable pub submit_quick : (app_id : ℕ) → Destination → Prog Busy (Unit {0})
submit_quick app_id destination = do
  update (λ s. record s { busy = true })
  finally (do create app_id destination; signal (called close))
      (λ p. update (λ s. record s { busy = false }) >> p)
