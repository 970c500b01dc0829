-- ===== src/Dashboard.antt =====
-- frontend/src/views/dashboard-view.tsx: the figures that `DashboardView` derives from the data of the
-- page. Percentages are fractions; the drawing of the circles is left out.
pub mod Figures
use nova_server_manager.Common.{
  ℕ, ◌*◌, ◌/◌, ◌^◌, ◌==◌, Bool, Text, String, str_eq, Option, none, some, List, length, take, keep,
  find_first, is_empty, if◌then◌else◌, Fraction, whole, min_fraction, lt_fraction, ◌||◌,
}
use nova_server_manager.Types.{NovaApp, SystemMetrics, ActivityItem, Deployment}

-- `apps.filter((item) => item.status === "running").length`, which the side bar counts too.
unfoldable pub running : List NovaApp → ℕ
running apps = length (keep (λ item. str_eq item.status "running") apps)

-- `["queued", "running"].includes(item.status)`
abbrev pub is_active : Deployment → Bool
is_active item = str_eq item.status "queued" || str_eq item.status "running"

unfoldable pub active_deployment : List Deployment → Option Deployment
active_deployment deployments = find_first is_active deployments

unfoldable pub active_app : List NovaApp → List Deployment → Option NovaApp
active_app apps deployments = elim (active_deployment deployments) [
  | none ↦ none
  | some deployment ↦ find_first (λ item. item.id == deployment.app_id) apps
]

-- `Math.floor(metrics.uptime_seconds / 86400)`
unfoldable pub uptime_days : SystemMetrics → ℕ
uptime_days metrics = metrics.uptime_seconds / 86400

-- The percentages of the cards that are computed: `apps.length ? running / apps.length * 100 : 0`,
-- `Math.min(100, metrics.network_total / (1024 ** 4) * 100)` and `Math.min(100, uptimeDays / 30 * 100)`.
unfoldable pub running_percent : List NovaApp → Fraction
running_percent apps =
    if is_empty apps then whole 0 else record { num = running apps * 100; den = length apps }

unfoldable pub network_percent : SystemMetrics → Fraction
network_percent metrics =
    min_fraction (whole 100) (record { num = metrics.network_total * 100; den = 1024 ^ 4 })

unfoldable pub uptime_percent : SystemMetrics → Fraction
uptime_percent metrics =
    min_fraction (whole 100) (record { num = uptime_days metrics * 100; den = 30 })

-- `percent > 80`, and `Math.min(percent, 100)` of the circle.
unfoldable pub under_pressure : Fraction → Bool
under_pressure percent = lt_fraction (whole 80) percent

unfoldable pub circle_percent : Fraction → Fraction
circle_percent percent = min_fraction percent (whole 100)

-- `apps.slice(0, 5)` and `activity.slice(0, 6)`.
unfoldable pub recent_apps : List NovaApp → List NovaApp
recent_apps apps = take 5 apps

unfoldable pub recent_activity : List ActivityItem → List ActivityItem
recent_activity activity = take 6 activity
