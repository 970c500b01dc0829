-- ===== src/Overview.antt =====
-- frontend/src/views/app-detail-view.tsx: `OverviewTab`, the access to the database of an application.
pub mod Access
pub mod Commands
pub mod Exclusion
pub mod Visits
use nova_server_manager.Common.{
  ℕ, ◌==◌, Bool, true, false, not, ◌&&◌, Text, codes, Option, none, some, List, [], ◌∷◌, map, keep,
  is_empty, split, join, trim, if◌then◌else◌,
}
use nova_server_manager.Types.{NovaApp}
use nova_server_manager.Client.Message.{
  copied, admin_enabled, admin_disabled, admin_change_failed, address_required, access_enabled,
  access_closed, access_change_failed,
}
use nova_server_manager.Client.Error.{message_of}
use nova_server_manager.Client.Request.{load_app, copy_text, database_admin, database_access}
use nova_server_manager.Client.Effect.{
  Prog, success, error, request, update, notify, catch, finally, ◌>>=◌, ◌>>◌,
}

pub record Overview : Type 0 where
  pub show_password : Bool
  pub admin_busy : Bool
  pub public_busy : Bool
  pub allowed_cidrs : Text

-- `(app.database?.allowed_cidrs || []).join("\n")`
unfoldable pub shown_cidrs : NovaApp → Text
shown_cidrs app = elim app.database [ none ↦ [] | some d ↦ join (codes "\n") d.allowed_cidrs ]

abbrev pub initial : NovaApp → Overview
initial app = record {
  show_password = false;
  admin_busy = false;
  public_busy = false;
  allowed_cidrs = shown_cidrs app;
}

-- The effect on the application's addresses, and the button beside the password.
unfoldable pub refresh_cidrs : NovaApp → Prog Overview (Unit {0})
refresh_cidrs app = update (λ s. record s { allowed_cidrs = shown_cidrs app })

unfoldable pub toggle_password : Prog Overview (Unit {0})
toggle_password = update (λ s. record s { show_password = not s.show_password })

-- A comma separates as a line end does.
abbrev pub line_end : ℕ → ℕ
line_end c = if c == b',' then b'\n' else c

-- `allowedCidrs.split(/[\n,]+/).map((value) => value.trim()).filter(Boolean)`. That a run of separators
-- counts as one makes no difference: what is empty between two is filtered out.
unfoldable pub cidrs : Text → List Text
cidrs text = keep (λ value. not (is_empty value)) (map trim (split b'\n' (map line_end text)))

unfoldable pub copy_value : Text → Prog Overview (Unit {0})
copy_value value = do request (copy_text value); notify copied success

unfoldable pub type_cidrs : Text → Prog Overview (Unit {0})
type_cidrs text = update (λ s. record s { allowed_cidrs = text })

module _ (app_id : ℕ) where
  -- `reload` is the `load` of the application's page, whose state is not this component's.
  unfoldable pub toggle_admin : Bool → Prog Overview (Unit {0})
  toggle_admin enabled = do
    update (λ s. record s { admin_busy = true })
    finally
        (catch
          (do
            request (database_admin app_id enabled)
            request (load_app app_id)
            notify (if enabled then admin_enabled else admin_disabled) success)
          (λ e. notify (message_of e admin_change_failed) error))
        (λ p. update (λ s. record s { admin_busy = false }) >> p)

  unfoldable pub save_access : Overview → Bool → Prog Overview (Unit {0})
  save_access c enabled =
      if enabled && is_empty (cidrs c.allowed_cidrs) then notify address_required error else do
        update (λ s. record s { public_busy = true })
        finally
            (catch
              (do
                request
                    (database_access app_id enabled (if enabled then cidrs c.allowed_cidrs else []))
                request (load_app app_id)
                notify (if enabled then access_enabled else access_closed) success)
              (λ e. notify (message_of e access_change_failed) error))
            (λ p. update (λ s. record s { public_busy = false }) >> p)
