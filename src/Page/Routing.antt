-- ===== src/Page/Routing.antt =====
-- Routes: `parseRoute` of frontend/src/app/page.tsx, and the navigation and titles of
-- frontend/src/components/shell.tsx. Each label of the source is named by its route.
use nova_server_manager.Common.{
  Bool, not, ◌||◌, ◌&&◌, ◌==◌, Text, codes, text_eq, split, Option, none, some, List, [], ◌∷◌, keep,
  is_empty, ◌++◌, if◌then◌else◌,
}

-- `RouteName`
pub data RouteName : Type 0 where
  dashboard apps app deployments domains storage ports backups activity system settings : RouteName

abbrev pub spelling : RouteName → Text
spelling dashboard = codes "dashboard"
spelling apps = codes "apps"
spelling app = codes "app"
spelling deployments = codes "deployments"
spelling domains = codes "domains"
spelling storage = codes "storage"
spelling ports = codes "ports"
spelling backups = codes "backups"
spelling activity = codes "activity"
spelling system = codes "system"
spelling settings = codes "settings"

abbrev pub route_names : List RouteName
route_names =
    dashboard ∷ apps ∷ app ∷ deployments ∷ domains ∷ storage ∷ ports ∷ backups ∷ activity ∷ system
    ∷ settings ∷ []

-- The state `route`: the name is a text that is only claimed to be a `RouteName`.
pub record Route : Type 0 where
  pub name : Text
  pub parts : List Text

-- `hash.replace(/^#\/?/, "")`
abbrev drop_slash : Text → Text
drop_slash [] = []
drop_slash (c ∷ s) = if c == b'/' then s else c ∷ s

unfoldable pub strip_hash : Text → Text
strip_hash [] = []
strip_hash (c ∷ s) = if c == b'#' then drop_slash s else c ∷ s

route_of : List Text → Route
route_of [] = record { name = codes "dashboard"; parts = [] }
route_of (name ∷ rest) = record { name = name; parts = name ∷ rest }

unfoldable pub parse_route : Text → Route
unfolding strip_hash route_of
parse_route hash = route_of (keep (λ part. not (is_empty part)) (split b'/' (strip_hash hash)))

-- `` window.location.hash = `#/${value}` ``
unfoldable pub hash_of : Text → Text
hash_of value = codes "#/" ++ value

-- The key of `titles` that a name finds. The names that every object inherits find what is no pair,
-- and taking it apart fails as it does for `undefined`.
unfoldable pub title_in : Text → List RouteName → Option RouteName
title_in name [] = none
title_in name (r ∷ rs) =
    let later = title_in name rs in if text_eq name (spelling r) then some r else later

unfoldable pub title_of : Text → Option RouteName
unfolding title_in
title_of name = title_in name route_names

-- The entries of the side bar, all but `app`.
abbrev pub navigation : List RouteName
navigation =
    dashboard ∷ apps ∷ deployments ∷ domains ∷ storage ∷ ports ∷ backups ∷ activity ∷ system
    ∷ settings ∷ []

-- Whether an entry of the side bar is marked.
unfoldable pub is_active : Text → RouteName → Bool
is_active route item =
    text_eq route (spelling item)
    || text_eq route (codes "app") && text_eq (spelling item) (codes "apps")
