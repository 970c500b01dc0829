-- ===== src/Console.antt =====
-- frontend/src/views/app-detail-view.tsx: `LogsTab`, the logs of an application and the shell in its
-- container. `printed` is the text of a message.
pub mod Transcript
pub mod Overlaps
use nova_server_manager.Common.{
  ℕ, Bool, true, false, Text, codes, decimal, trim, is_empty, List, [], ◌∷◌, ◌++◌, if◌then◌else◌,
}
use nova_server_manager.Client.Message.{Message, logs_unavailable, unknown_error}
use nova_server_manager.Client.Error.{message_of}
use nova_server_manager.Client.Request.{ExecResult, app_logs, exec_command}
use nova_server_manager.Client.Effect.{
  Prog, error, request, update, notify, skip, catch, finally, ◌>>=◌, ◌>>◌,
}
use nova_server_manager.Client.Run.{Env, Log, Run, run}

pub record Shell : Type 0 where
  pub logs : Text
  pub command : Text
  pub output : Text
  pub busy : Bool

-- The greeting stands in the console at first.
abbrev pub initial : (greeting : Text) → Shell
initial greeting = record { logs = []; command = []; output = greeting; busy = false }

-- `` value => `${value}${text}\n` ``
abbrev pub print : Text → Shell → Shell
print text s = record s { output = s.output ++ (text ++ codes "\n") }

-- `` result.output || `(exit ${result.exit_code})` ``
unfoldable pub reply : ExecResult → Text
reply r =
    if is_empty r.output then codes "(exit " ++ (decimal r.exit_code ++ codes ")") else r.output

unfoldable pub type_command : Text → Prog Shell (Unit {0})
type_command command = update (λ s. record s { command = command })

module _ (printed : Message → Text) (app_id : ℕ) where
  unfoldable pub load : Prog Shell (Unit {0})
  load =
      catch (do answer ← request (app_logs app_id); update (λ s. record s { logs = answer }))
        (λ e. notify (message_of e logs_unavailable) error)

  unfoldable pub execute : Shell → Prog Shell (Unit {0})
  execute c = if is_empty (trim c.command) then skip else do
    update (λ s. record s { command = []; busy = true })
    update (print (codes "$ " ++ c.command))
    finally
        (catch (do result ← request (exec_command app_id c.command); update (print (reply result)))
          (λ e. update (print (codes "Error: " ++ printed (message_of e unknown_error)))))
        (λ p. update (λ s. record s { busy = false }) >> p)

  -- Commands that are typed and executed one after another.
  unfoldable pub session : Env → List Text → Shell → Log → Run Shell (Unit {0})
  session env [] s l = run env skip s l
  session env (command ∷ rest) s l =
      let typed = record s { command = command } in
      let next = run env (execute typed) typed l in session env rest next.state next.log
