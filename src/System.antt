-- ===== src/System.antt =====
-- frontend/src/views/operations-views.tsx: `SystemView`, whose buttons restart the server or shut it
-- down.
pub mod Confirming
use nova_server_manager.Common.{
  ℕ, ◌/◌, Text, codes, text_eq, Option, none, some, [], if◌then◌else◌, not,
}
use nova_server_manager.Types.{SystemMetrics}
use nova_server_manager.Client.Message.{type_to_confirm, system_command_sent, command_failed}
use nova_server_manager.Client.Error.{message_of}
use nova_server_manager.Client.Request.{Power, reboot, shutdown, system_action, prompt}
use nova_server_manager.Client.Effect.{
  Prog, success, error, request, choose, notify, skip, catch, ◌>>=◌, ◌>>◌,
}

-- The word that the user has to type, which the request repeats.
unfoldable pub word : Power → Text
word reboot = codes "RESTART"
word shutdown = codes "SHUTDOWN"

-- What `action` does with what was typed.
confirmed : Power → Option Text → Prog (Unit {0}) (Unit {0})
confirmed value none = skip
confirmed value (some typed) =
    if not (text_eq typed (word value))
    then skip
    else catch (do request (system_action value); notify system_command_sent success)
        (λ e. notify (message_of e command_failed) error)

unfoldable pub action : Power → Prog (Unit {0}) (Unit {0})
unfolding confirmed
action value = choose (prompt (type_to_confirm (word value)) []) >>= confirmed value

-- `Math.floor(metrics.uptime_seconds / 3600)`
unfoldable pub uptime_hours : SystemMetrics → ℕ
uptime_hours metrics = metrics.uptime_seconds / 3600
