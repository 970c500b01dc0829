-- ===== src/Settings.antt =====
-- frontend/src/views/app-detail-view.tsx: `SettingsTab`, the settings of an application and its
-- removal. The component keeps no state of its own.
pub mod Saving
use nova_server_manager.Common.{
  ℕ, Bool, true, false, not, ◌&&◌, ◌||◌, ◌==◌, Text, codes, [], ◌∷◌, keep, if◌then◌else◌, Option,
}
use nova_server_manager.Types.{NovaApp}
use nova_server_manager.Client.Message.{
  settings_saved, save_failed, confirm_delete_app, confirm_delete_data, app_deleted, delete_failed,
}
use nova_server_manager.Client.Error.{message_of}
use nova_server_manager.Client.Request.{AppSettings, update_app, delete_app, confirm}
use nova_server_manager.Client.Effect.{
  Prog, success, error, called, reload, navigated, request, choose, notify, signal, skip, catch,
  ◌>>=◌, ◌>>◌,
}
use nova_server_manager.Environment.{env_text, parse_environment}

-- The form as it is read, with the text of the environment variables.
pub record SettingsForm : Type 0 where
  pub display_name : Text
  pub internal_port : ℕ
  pub start_command : Text
  pub environment : Text

-- What the value of a `<textarea>` makes of a text: CR LF and a CR alone become LF. `after_cr` says
-- whether a CR stands before the text.
unfoldable pub line_ends : (after_cr : Bool) → Text → Text
line_ends after_cr [] = []
line_ends after_cr (c ∷ s) =
    let rest = line_ends false s in
    let behind_cr = line_ends true s in
    if c == b'\r' then b'\n' ∷ behind_cr else if after_cr && c == b'\n' then rest else c ∷ rest

-- What the value of an `<input>` makes of a text: it has no line ends.
unfoldable pub one_line : Text → Text
one_line s = keep (λ c. not (c == b'\r' || c == b'\n')) s

-- The form as it is shown first.
unfoldable pub form_of : NovaApp → SettingsForm
form_of app = record {
  display_name = one_line app.display_name;
  internal_port = app.internal_port;
  start_command = one_line app.start_command;
  environment = line_ends false (env_text app.environment);
}

unfoldable pub settings_of : SettingsForm → AppSettings
settings_of form = record {
  display_name = form.display_name;
  internal_port = form.internal_port;
  start_command = form.start_command;
  environment = parse_environment form.environment;
}

module _ (app_id : ℕ) where
  unfoldable pub save : SettingsForm → Prog (Unit {0}) (Unit {0})
  save form =
      catch
        (do
          request (update_app app_id (settings_of form))
          notify settings_saved success
          signal (called reload))
        (λ e. notify (message_of e save_failed) error)

  -- What `remove` does once both questions are answered.
  remove_app : Bool → Prog (Unit {0}) (Unit {0})
  remove_app delete_data =
      catch
        (do
          request (delete_app app_id delete_data)
          notify app_deleted success
          signal (navigated (codes "apps")))
        (λ e. notify (message_of e delete_failed) error)

  unfoldable pub remove : Prog (Unit {0}) (Unit {0})
  unfolding remove_app
  remove = do
    agreed ← choose (confirm confirm_delete_app)
    if agreed then choose (confirm confirm_delete_data) >>= remove_app else skip
