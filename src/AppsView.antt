-- ===== src/AppsView.antt =====
-- frontend/src/views/apps-view.tsx: the list of applications with its filters. The browser's
-- `toLowerCase`, `localeCompare` and `Date.parse` are parameters; the last one as milliseconds of
-- dates that can be parsed.
pub mod Creation
pub mod Filtering
use nova_server_manager.Common.{
  ℕ, ◌+◌, ◌*◌, ◌==◌, compare, Ordering, Bool, true, false, not, ◌&&◌, ◌||◌, String, str_eq, Text,
  codes, has_part, join, Option, none, some, List, [], ◌∷◌, ◌++◌, keep, sort_by, is_empty,
  if◌then◌else◌, Fraction, whole, min_fraction, le_fraction, times,
}
use nova_server_manager.Client.Effect.{Prog, update}
use nova_server_manager.Types.{NovaApp, ContainerRuntime}

-- The choices of the two selects that are not free texts.
pub data DomainState : Type 0 where
  all connected empty : DomainState

pub data AppSort : Type 0 where
  newest by_name by_usage : AppSort

pub record Filters : Type 0 where
  pub query : Text
  pub status : String
  pub app_type : String
  pub domain_state : DomainState
  pub sort : AppSort

abbrev pub no_filters : Filters
no_filters = record {
  query = [];
  status = "all";
  app_type = "all";
  domain_state = all;
  sort = newest;
}

-- The controls above the list.
unfoldable pub search : Text → Prog Filters (Unit {0})
search query = update (λ s. record s { query = query })

unfoldable pub choose_status : String → Prog Filters (Unit {0})
choose_status status = update (λ s. record s { status = status })

unfoldable pub filter_type : String → Prog Filters (Unit {0})
filter_type app_type = update (λ s. record s { app_type = app_type })

unfoldable pub choose_domain : DomainState → Prog Filters (Unit {0})
choose_domain state = update (λ s. record s { domain_state = state })

unfoldable pub choose_sort : AppSort → Prog Filters (Unit {0})
choose_sort sort = update (λ s. record s { sort = sort })

-- `` `${app.name} ${app.display_name} ${(app.domains || []).join(" ")}` ``
unfoldable pub searched : NovaApp → Text
searched app =
    app.name ++ (codes " " ++ (app.display_name ++ (codes " " ++ join (codes " ") app.domains)))

abbrev pub matches_domain : DomainState → NovaApp → Bool
matches_domain all app = true
matches_domain connected app = not (is_empty app.domains)
matches_domain empty app = is_empty app.domains

-- `b.runtime?.memory_used || 0`
abbrev pub memory_used : NovaApp → ℕ
memory_used app = elim app.runtime [ none ↦ 0 | some r ↦ r.memory_used ]

-- A select that is left at `all` lets everything through.
abbrev pub matches_choice : String → String → Bool
matches_choice choice value = str_eq choice "all" || str_eq value choice

module _ (lower : Text → Text) (collate : Text → Text → Ordering) (parse_date : Text → ℕ) where
  unfoldable pub matches : Filters → NovaApp → Bool
  matches f app =
      has_part (lower (searched app)) (lower f.query)
      && matches_domain f.domain_state app
      && (matches_choice f.status app.status && matches_choice f.app_type app.app_type)

  unfoldable pub compare_apps : AppSort → NovaApp → NovaApp → Ordering
  compare_apps by_name a b = collate a.display_name b.display_name
  compare_apps by_usage a b = compare (memory_used b) (memory_used a)
  compare_apps newest a b = compare (parse_date b.created_at) (parse_date a.created_at)

  unfoldable pub filtered : Filters → List NovaApp → List NovaApp
  filtered f apps = sort_by (compare_apps f.sort) (keep (matches f) apps)

-- `safe` of `ResourceRing`, for a finite percentage.
unfoldable pub ring_percent : Fraction → Fraction
ring_percent percent = min_fraction (whole 100) percent
