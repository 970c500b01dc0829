-- ===== src/Page/Overlaps.antt =====
-- The data of `Home` while its handlers overlap.
use nova_server_manager.Common.{◌≡◌, ◌⊎◌, refl, inl, inr, Bool, true, false, none, some, List, []}
use nova_server_manager.Types.{NovaApp, SystemMetrics, ActivityItem, Deployment}
use nova_server_manager.Client.Error.{Error, ok, api_error, js_error, thrown}
use nova_server_manager.Client.Request.{User, load_base, logout as log_out}
use nova_server_manager.Client.Effect.{request, update, settle, ◌>>=◌}
use nova_server_manager.Client.Keeps.{
  Keeps, Anything, keeps_rules, Keeps-update, Keeps-bind, Keeps-request, Keeps-catch, at_throw,
}
use nova_server_manager.Client.Machine.{
  Machine, idle, Choices, reached, left, start, resume, Reach, here, later,
}
use nova_server_manager.Client.Machine.Invariants.{Reach-Steady}
use nova_server_manager.Page.{
  Home, add_toast, dismiss, refresh_base, first_load, load_telegram, sync, boot, find_user,
  unless_401, logout, authenticated, open_create, open_telegram,
}
use nova_server_manager.Page.Commands.{
  Command, enabled, handler, signed_in, starting, loading, settings, tick, leaving, arriving,
  signing, toast, away, create_dialog, telegram_dialog,
}

-- Applications are known only with the measurements, without which the page shows a loader.
abbrev pub IsMeasured : Home → Type 0
IsMeasured s = (s.apps ≡ []) ⊎ ((m : SystemMetrics) × (s.metrics ≡ some m))

base-Keeps : Keeps Anything IsMeasured refresh_base
unfolding refresh_base
base-Keeps = Keeps-bind (Keeps-request load_base) (λ a. Keeps-update _ (λ t h. inr (a.1, refl)))

error-Keeps : (e : Error) → Keeps Anything IsMeasured (unless_401 e)
unfolding unless_401
error-Keeps (api_error message status) = search (keeps_rules, at_throw) depth 12
error-Keeps (js_error message) = at_throw
error-Keeps thrown = at_throw

user-Keeps : (setup : Bool) → Keeps Anything IsMeasured (find_user setup)
unfolding find_user
user-Keeps true = search keeps_rules depth 12
user-Keeps false = Keeps-catch (search keeps_rules depth 12) error-Keeps

handler-Keeps : (s : Home) (c : Command) → Keeps Anything IsMeasured (handler s c)
unfolding add_toast dismiss first_load load_telegram sync boot logout authenticated open_create
    open_telegram
handler-Keeps s starting = search (keeps_rules, user-Keeps) depth 12
handler-Keeps s loading = search (keeps_rules, base-Keeps) depth 12
handler-Keeps s settings = search keeps_rules depth 12
handler-Keeps s tick = base-Keeps
handler-Keeps s leaving = Keeps-bind (Keeps-request log_out) (λ a. Keeps-update _ (λ t h. inl refl))
handler-Keeps s (arriving hash) = search keeps_rules depth 12
handler-Keeps s (signing user) = search keeps_rules depth 12
handler-Keeps s (toast id text kind) = search keeps_rules depth 12
handler-Keeps s (away id) = search keeps_rules depth 12
handler-Keeps s (create_dialog shown) = search keeps_rules depth 12
handler-Keeps s (telegram_dialog shown) = search keeps_rules depth 12

-- However the effects, the timers and the controls of the page interleave and whatever the server
-- answers, in whatever order, the page has applications only if it has measurements, if this holds
-- at first and nothing waits then.
pub home-IsMeasured :
    (s : Home) (m : Machine Home Command)
    → IsMeasured s
    → Reach enabled handler (idle s) m
    → IsMeasured m.state
home-IsMeasured s m h r =
    (Reach-Steady IsMeasured enabled handler (λ t c _. handler-Keeps t c) r (h, tt)).0

module _ (choices : Choices) (s : Home) (user : User) (present : s.user ≡ some user)
    (apps : List NovaApp) (metrics : SystemMetrics) (activity : List ActivityItem)
    (deployments : List Deployment) where
  can_leave : signed_in s.user ≡ true
  can_leave = rw present refl

  -- From a page with a user, for any applications and measurements, the timer, the controls and answers
  -- of the server lead to a page on which nobody is signed in and nothing waits, and which has these
  -- applications and measurements.
  pub logout_race :
      (m : Machine Home Command) × Reach enabled handler (idle s) m
      × (m.tasks ≡ [])
      × (m.state.user ≡ none)
      × (m.state.apps ≡ apps)
      × (m.state.metrics ≡ some metrics)
  unfolding reached left refresh_base logout request update settle ◌>>=◌
  logout_race =
      let asked = later here (start tick choices can_leave) in
      let both = later asked (start leaving choices can_leave) in
      let signed_out = later both (resume [] _ _ _ _ choices (ok tt)) in
      (
        _,
        later signed_out (resume [] _ _ _ _ choices (ok (apps, metrics, activity, deployments))),
        refl,
        refl,
        refl,
        refl,
      )
