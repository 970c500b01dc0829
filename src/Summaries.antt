-- ===== src/Summaries.antt =====
-- frontend/src/views/operations-views.tsx: what `DeploymentsView` and `DomainsView` derive from the data
-- of the page; frontend/src/components/ui.tsx: the bar of a progress.
pub mod Counting
use nova_server_manager.Common.{
  ℕ, zero, suc, ◌==◌, Bool, true, false, Text, codes, text_eq, str_eq, Option, none, some, List, [],
  ◌∷◌, ◌++◌, length, keep, find_first, Fraction, whole, min_fraction, ◌||◌,
}
use nova_server_manager.Types.{NovaApp, Deployment}
use nova_server_manager.Dashboard.{is_active}

-- `active`, `completed` and `failed`.
unfoldable pub active : List Deployment → ℕ
active deployments = length (keep is_active deployments)

unfoldable pub completed : List Deployment → ℕ
completed deployments = length (keep (λ item. str_eq item.status "completed") deployments)

unfoldable pub failed : List Deployment → ℕ
failed deployments = length (keep (λ item. str_eq item.status "failed") deployments)

-- `apps.find((candidate) => candidate.id === item.app_id)`
unfoldable pub app_of : List NovaApp → Deployment → Option NovaApp
app_of apps item = find_first (λ candidate. candidate.id == item.app_id) apps

-- A row of the table of domains.
pub record DomainRow : Type 0 where
  pub app : NovaApp
  pub domain : Text
  pub primary : Bool

-- `app.domains.map((domain, index) => ({ app, domain, primary: index === 0 }))`, from an index.
unfoldable pub rows_from : NovaApp → ℕ → List Text → List DomainRow
rows_from app index [] = []
rows_from app index (domain ∷ domains) =
    record { app = app; domain = domain; primary = index == 0 } ∷ rows_from app (suc index) domains

-- `apps.flatMap(…)`
unfoldable pub domain_rows : List NovaApp → List DomainRow
unfolding rows_from
domain_rows [] = []
domain_rows (app ∷ apps) = rows_from app 0 app.domains ++ domain_rows apps

-- `Math.max(0, Math.min(100, value))` of `ProgressBar`, for a value that is not negative.
unfoldable pub bar_width : Fraction → Fraction
bar_width value = min_fraction (whole 100) value
