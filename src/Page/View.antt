-- ===== src/Page/View.antt =====
-- What `Home` renders: `content` and the last lines of frontend/src/app/page.tsx. `Number` of the
-- browser is a parameter: `none` where its result is no finite number.
use nova_server_manager.Common.{
  ℕ, Bool, Text, codes, text_eq, Option, none, some, List, ◌∷◌, if◌then◌else◌,
}
use nova_server_manager.Page.{Home}
use nova_server_manager.Page.Routing.{Route, RouteName, title_of}

-- A finite number: a natural one, such as the id of an application, or one that is negative or has a
-- fraction, by its text.
pub data FiniteNumber : Type 0 where
  natural : ℕ → FiniteNumber
  other : Text → FiniteNumber

pub data Screen : Type 0 where
  loading dashboard apps deployments domains storage ports backups activity system settings : Screen
  app_detail : (app_id : FiniteNumber) → Screen

unfoldable pub detail_of : Option FiniteNumber → Screen
detail_of none = apps
detail_of (some id) = app_detail id

module _ (number : Text → Option FiniteNumber) where
  -- Whether `Number(route.parts[1])` is finite, where the number of `undefined` is not finite.
  app_screen : List Text → Screen
  app_screen (_ ∷ part ∷ _) = detail_of (number part)
  app_screen _ = apps

  -- The cases of the `switch`.
  unfoldable pub screen : Route → Screen
  unfolding app_screen detail_of
  screen r =
      if text_eq r.name (codes "apps")
      then apps
      else if text_eq r.name (codes "app")
      then app_screen r.parts
      else if text_eq r.name (codes "deployments")
      then deployments
      else if text_eq r.name (codes "domains")
      then domains
      else if text_eq r.name (codes "storage")
      then storage
      else if text_eq r.name (codes "ports")
      then ports
      else if text_eq r.name (codes "backups")
      then backups
      else if text_eq r.name (codes "activity")
      then activity
      else if text_eq r.name (codes "system")
      then system
      else if text_eq r.name (codes "settings")
      then settings
      else dashboard

  unfoldable pub content : Home → Screen
  content s = elim s.metrics [ none ↦ loading | some m ↦ screen s.route ]

  -- The page; rendering throws where the shell has no title for the route.
  pub data Page : Type 0 where
    splash : Page
    sign_in : (setup_required : Bool) → Page
    shell : RouteName → Screen → Page
    crash : Page

  pub framed : Screen → Option RouteName → Page
  framed c none = crash
  framed c (some title) = shell title c

  unfoldable pub page : Home → Page
  unfolding framed
  page s = if s.booting then splash else elim s.user [
    | none ↦ sign_in s.setup_required
    | some user ↦ framed (content s) (title_of s.route.name)
  ]
