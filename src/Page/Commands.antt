-- ===== src/Page/Commands.antt =====
-- frontend/src/app/page.tsx: what starts a handler of `Home`, and when. The timers and the effects for a
-- user are there while the page has one; the buttons to sign out, to open a dialog and to take a toast
-- away too, and the sign-in form is there while it has none.
use nova_server_manager.Common.{ℕ, Bool, true, false, not, ◌&&◌, Text, Option, none, some}
use nova_server_manager.Client.Message.{Message}
use nova_server_manager.Client.Request.{User}
use nova_server_manager.Client.Effect.{Prog, Kind}
use nova_server_manager.Page.{
  Home, add_toast, dismiss, refresh_base, first_load, load_telegram, sync, boot, logout,
  authenticated, open_create, open_telegram,
}

pub data Command : Type 0 where
  starting loading settings tick leaving : Command
  arriving : (hash : Text) → Command
  signing : User → Command
  toast : ℕ → Message → Kind → Command
  away : (id : ℕ) → Command
  create_dialog telegram_dialog : Bool → Command

abbrev pub signed_in : Option User → Bool
signed_in none = false
signed_in (some user) = true

abbrev pub enabled : Home → Command → Bool
enabled s starting = s.booting
enabled s (arriving hash) = true
enabled s (toast id text kind) = true
enabled s (signing user) = not s.booting && not (signed_in s.user)
enabled s (away id) = true
enabled s _ = signed_in s.user

abbrev pub handler : Home → Command → Prog Home (Unit {0})
handler s starting = boot
handler s loading = first_load
handler s settings = load_telegram
handler s tick = refresh_base
handler s leaving = logout
handler s (arriving hash) = sync hash
handler s (signing user) = authenticated user
handler s (toast id text kind) = add_toast id text kind
handler s (away id) = dismiss id
handler s (create_dialog shown) = open_create shown
handler s (telegram_dialog shown) = open_telegram shown
