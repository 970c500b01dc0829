-- ===== src/Tests/Operations.antt =====
-- Tests of the backups, the power of the server, and the environment variables.
use nova_server_manager.Common.{
  ◌≡◌, ◌≢◌, ◌⊎◌, refl, true, not, ◌&&◌, codes, Text, text_eq, some, none, [], ◌∷◌, if◌then◌else◌,
  split,
}
use nova_server_manager.Types.{BackupSchedule, local, hours}
use nova_server_manager.Client.Error.{ok, is_ok}
use nova_server_manager.Client.Request.{load_backups, delete_file, system_action, reboot}
use nova_server_manager.Client.Effect.{sent}
use nova_server_manager.Client.Run.{run, requests, shows_error}
use nova_server_manager.Environment.{parse_environment, value_of}
use nova_server_manager.Environment.Lookup.{last_said, parse_environment-last_said}
use nova_server_manager.Backups.{initial, toggled}
use nova_server_manager.Backups.Scheduling.{switched, change, toggle_schedule_lem}
use nova_server_manager.Calls.Shape.{at_app}
use nova_server_manager.Calls.Files.{query}
use nova_server_manager.Calls.Separation.{cut_calls, IsParameter, calls-IsParameter}
use nova_server_manager.System.{word, action}
use nova_server_manager.System.Confirming.{typed, requests-action}
use nova_server_manager.Tests.{lively}

abbrev weekly : BackupSchedule
weekly = record {
  id = 4;
  app_id = 12;
  enabled = true;
  destination = local;
  interval_value = 24;
  interval_unit = hours;
  retention = 7;
  last_run = none;
  next_run = none;
}

toggle_schedule_lem_example :
    ((switched weekly lively initial []).result ≡ ok tt)
    × (requests (switched weekly lively initial []).log ≡ (
        if is_ok (lively.answer [] (change weekly lively initial []))
        then load_backups ∷ change weekly lively initial [] ∷ requests []
        else change weekly lively initial [] ∷ requests []))
    × (shows_error (switched weekly lively initial []).log
        ≡ not (
            is_ok (lively.answer [] (change weekly lively initial []))
            && is_ok (lively.answer (sent (change weekly lively initial []) ∷ []) load_backups)))
    × ((toggled weekly).enabled ≡ not weekly.enabled)
toggle_schedule_lem_example = toggle_schedule_lem weekly lively initial []

requests-action_example :
    ((typed lively reboot [] ≡ some (word reboot))
      × (requests (run lively (action reboot) tt []).log ≡ system_action reboot ∷ requests []))
    ⊎ ((typed lively reboot [] ≢ some (word reboot))
        × (requests (run lively (action reboot) tt []).log ≡ requests []))
requests-action_example = requests-action lively reboot []

-- The last of two lines wins, with the `=` in its value; a line that begins with `=` says nothing.
parse_environment-last_said_example :
    value_of (codes "A") (parse_environment (codes "A=1\n=2\nA = 3=4 \nB"))
    ≡ last_said (codes "A") (split b'\n' (codes "A=1\n=2\nA = 3=4 \nB"))
unfolding text_eq
parse_environment-last_said_example =
    parse_environment-last_said (codes "A=1\n=2\nA = 3=4 \nB") (codes "A") refl

-- A name of a file that looks like the end of an address.
abbrev odd : Text
odd = codes "a&b=c#d?"

calls-IsParameter_example :
    (cut_calls (delete_file 12 odd) ≡ (at_app 12 (codes "/files") ∷ query odd ∷ []) ∷ [])
    × IsParameter odd
calls-IsParameter_example = calls-IsParameter (delete_file 12 odd) 12 (codes "/files") odd refl
