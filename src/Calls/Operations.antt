-- ===== src/Calls/Operations.antt =====
-- frontend/src/views/operations-views.tsx: the calls of `BackupsView`, its dialogs and `SystemView`.
use nova_server_manager.Common.{codes, decimal, none, some, List, [], ◌∷◌, ◌++◌}
use nova_server_manager.Client.Json.{bool, num, str, Fields, end, field, post, put, delete}
use nova_server_manager.Client.Request.{
  Request, ScheduleBody, load_backups, create_backup, delete_backup, restore_backup,
  delete_schedule, save_schedule, save_telegram, test_telegram, system_action,
}
use nova_server_manager.System.{word}
use nova_server_manager.Calls.Shape.{Call, reads, bare, with_body, destination_text, unit_text}

abbrev pub schedule_fields : ScheduleBody → Fields
schedule_fields schedule = field (codes "app_id") (num schedule.app_id) (
    field (codes "enabled") (bool schedule.enabled) (
      field (codes "destination") (str (destination_text schedule.destination)) (
        field (codes "interval_value") (num schedule.interval_value) (
          field (codes "interval_unit") (str (unit_text schedule.interval_unit))
            (field (codes "retention") (num schedule.retention) end)))))

-- `ScheduleModal` and `TelegramModal`
unfoldable pub dialog_calls : Request → List Call
dialog_calls (save_schedule none schedule) =
    with_body post (codes "/api/backups/schedules") (schedule_fields schedule) ∷ []
dialog_calls (save_schedule (some id) schedule) =
    with_body put (codes "/api/backups/schedules/" ++ decimal id) (schedule_fields schedule) ∷ []
dialog_calls (save_telegram token chat_id) =
    with_body put (codes "/api/settings/telegram")
      (field (codes "bot_token") (str token) (field (codes "admin_chat_id") (str chat_id) end))
    ∷ []
dialog_calls _ = []

-- `BackupsView`, whose switch of a schedule is a call of `ScheduleModal` too
unfoldable pub backup_calls : Request → List Call
backup_calls load_backups =
    reads (codes "/api/backups")
    ∷ reads (codes "/api/backups/schedules/all")
    ∷ reads (codes "/api/settings/telegram")
    ∷ []
backup_calls (create_backup app_id destination) =
    with_body post (codes "/api/backups/apps/" ++ decimal app_id)
      (field (codes "destination") (str (destination_text destination)) end)
    ∷ []
backup_calls (delete_backup id) = bare delete (codes "/api/backups/items/" ++ decimal id) ∷ []
backup_calls (restore_backup id) =
    bare post (codes "/api/backups/items/" ++ (decimal id ++ codes "/restore")) ∷ []
backup_calls test_telegram = bare post (codes "/api/settings/telegram/test") ∷ []
backup_calls (delete_schedule id) = bare delete (codes "/api/backups/schedules/" ++ decimal id) ∷ []
backup_calls _ = []

-- `SystemView`
unfoldable pub power_calls : Request → List Call
power_calls (system_action value) =
    with_body post (codes "/api/system/action")
      (field (codes "confirmation") (str (word value)) end)
    ∷ []
power_calls _ = []

abbrev pub operation_calls : Request → List Call
operation_calls q = dialog_calls q ++ backup_calls q ++ power_calls q
