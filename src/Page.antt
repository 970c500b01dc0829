-- ===== src/Page.antt =====
-- frontend/src/app/page.tsx: the state, the effects and the handlers of `Home`.
pub mod Routing
pub mod View
pub mod Navigation
pub mod Signing
pub mod Commands
pub mod SideBar
pub mod Overlaps
use nova_server_manager.Common.{
  ℕ, ◌==◌, Bool, true, false, not, Text, codes, decimal, is_empty, Option, none, some, List, [],
  ◌∷◌, ◌++◌, keep, if◌then◌else◌,
}
use nova_server_manager.Types.{NovaApp, SystemMetrics, ActivityItem, Deployment}
use nova_server_manager.Client.Message.{
  Message, server_unreachable, data_unavailable, telegram_saved,
}
use nova_server_manager.Client.Error.{Error, api_error, message_of}
use nova_server_manager.Client.Request.{
  User, Telegram, auth_status, auth_me, logout as log_out, load_base, get_telegram,
}
use nova_server_manager.Client.Effect.{
  Prog, throw, Kind, success, error, scheduled, navigated, request, update, notify, signal, skip,
  catch, finally, ◌>>=◌, ◌>>◌,
}
use nova_server_manager.Page.Routing.{Route, parse_route, hash_of}

-- `ToastMessage`
pub record Toast : Type 0 where
  pub id : ℕ
  pub text : Message
  pub kind : Kind

pub record Home : Type 0 where
  pub booting : Bool
  pub setup_required : Bool
  pub user : Option User
  pub route : Route
  pub apps : List NovaApp
  pub metrics : Option SystemMetrics
  pub activity : List ActivityItem
  pub deployments : List Deployment
  pub create_open : Bool
  pub telegram_open : Bool
  pub telegram : Telegram
  pub toasts : List Toast

abbrev pub initial : Home
initial = record {
  booting = true;
  setup_required = false;
  user = none;
  route = record { name = codes "dashboard"; parts = [] };
  apps = [];
  metrics = none;
  activity = [];
  deployments = [];
  create_open = false;
  telegram_open = false;
  telegram = record { configured = false; chat_id = []; token_hint = [] };
  toasts = [];
}

-- `notify`: a toast with a fresh id, which a timer takes away after 5000 ms.
unfoldable pub add_toast : ℕ → Message → Kind → Prog Home (Unit {0})
add_toast id text kind = do
  update (λ s. record s { toasts = s.toasts ++ record { id = id; text = text; kind = kind } ∷ [] })
  signal (scheduled 5000)

-- What the timer of a toast does, and a click on it.
unfoldable pub dismiss : ℕ → Prog Home (Unit {0})
dismiss id = update (λ s. record s { toasts = keep (λ item. not (item.id == id)) s.toasts })

-- `refreshBase`: nothing is set unless all four requests succeed.
unfoldable pub refresh_base : Prog Home (Unit {0})
refresh_base = do
  (app_data, metric_data, activity_data, deployment_data) ← request load_base
  update λ s. record s {
    apps = app_data;
    metrics = some metric_data;
    activity = activity_data;
    deployments = deployment_data;
  }

unfoldable pub load_telegram : Prog Home (Unit {0})
load_telegram =
    catch (do answer ← request get_telegram; update (λ s. record s { telegram = answer }))
      (λ e. skip)

-- `sync`, and the effect that installs it: an empty hash becomes `#/dashboard`.
unfoldable pub sync : (hash : Text) → Prog Home (Unit {0})
sync hash = update (λ s. record s { route = parse_route hash })

unfoldable pub install_sync : (hash : Text) → Prog Home (Unit {0})
install_sync hash =
    if is_empty hash
    then signal (navigated (codes "#/dashboard")) >> sync (codes "#/dashboard")
    else sync hash

-- `!(error instanceof ApiError) || error.status !== 401` lets the error through.
unfoldable pub unless_401 : Error → Prog Home (Unit {0})
unless_401 (api_error message status) =
    if status == 401 then skip else throw (api_error message status)
unless_401 e = throw e

-- The part of `boot` for a panel that is set up.
unfoldable pub find_user : (setup_required : Bool) → Prog Home (Unit {0})
find_user true = skip
find_user false =
    catch (do current ← request auth_me; update (λ s. record s { user = some current })) unless_401

unfoldable pub boot : Prog Home (Unit {0})
unfolding find_user
boot =
    finally
      (catch
        (do
          setup_required ← request auth_status
          update (λ s. record s { setup_required = setup_required })
          find_user setup_required)
        (λ e. notify (message_of e server_unreachable) error))
      (λ p. update (λ s. record s { booting = false }) >> p)

-- The first load of the data, whose error is shown.
unfoldable pub first_load : Prog Home (Unit {0})
first_load = catch refresh_base (λ e. notify (message_of e data_unavailable) error)

-- The effect for a user: the first load, the settings, and a timer that refreshes every 10000 ms.
-- What is started without being waited for stands beside it, in the order of starting.
unfoldable pub enter : List (Prog Home (Unit {0}))
enter = first_load ∷ load_telegram ∷ signal (scheduled 10000) ∷ []

unfoldable pub navigate : (value : Text) → Prog Home (Unit {0})
navigate value = signal (navigated (hash_of value))

unfoldable pub logout : Prog Home (Unit {0})
logout = do request log_out; update (λ s. record s { user = none; apps = []; metrics = none })

-- `onAuthenticated` of the sign-in form.
unfoldable pub authenticated : User → Prog Home (Unit {0})
authenticated user = update (λ s. record s { user = some user; setup_required = false })

-- `onCreated` of the dialog for a new application, which does not wait for the refresh.
unfoldable pub created : NovaApp → List (Prog Home (Unit {0}))
created app =
    update (λ s. record s { create_open = false })
    ∷ refresh_base
    ∷ navigate (codes "app/" ++ decimal app.id)
    ∷ []

-- `saved` of the dialog for Telegram.
unfoldable pub saved : List (Prog Home (Unit {0}))
saved = load_telegram ∷ notify telegram_saved success ∷ []

-- The buttons that open and close the two dialogs.
unfoldable pub open_create : Bool → Prog Home (Unit {0})
open_create shown = update (λ s. record s { create_open = shown })

unfoldable pub open_telegram : Bool → Prog Home (Unit {0})
open_telegram shown = update (λ s. record s { telegram_open = shown })
