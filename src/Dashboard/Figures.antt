-- ===== src/Dashboard/Figures.antt =====
-- The bounds of the figures on the dashboard.
use nova_server_manager.Common.{
  ℕ, ◌*◌, ◌≤◌, ◌^◌, List, [], ◌∷◌, length, length-keep, str_eq, arith, Fraction, whole, ◌≤Q◌,
  IsProper, min_fraction,
}
use nova_server_manager.Types.{NovaApp, SystemMetrics}
use nova_server_manager.Dashboard.{
  running, uptime_days, running_percent, network_percent, uptime_percent,
}

-- A percentage that a circle can show: a number of at most 100.
abbrev pub IsShare : Fraction → Type 0
IsShare percent = IsProper percent × (percent ≤Q whole 100)

running-length : (apps : List NovaApp) → running apps ≤ length apps
unfolding running
running-length apps = length-keep (λ item. str_eq item.status "running") apps

leq_scaled : (m n : ℕ) → m ≤ n → m * 100 * 1 ≤ 100 * n
leq_scaled m n le = omega arith

running_percent-IsShare : (apps : List NovaApp) → IsShare (running_percent apps)
unfolding running_percent
running_percent-IsShare [] = (omega arith, omega arith)
running_percent-IsShare (a ∷ apps) =
    (omega arith, leq_scaled (running (a ∷ apps)) (length (a ∷ apps)) (running-length (a ∷ apps)))

min_fraction-IsShare : (p : Fraction) → IsProper p → IsShare (min_fraction (whole 100) p)
min_fraction-IsShare p proper = ground arith

-- The computed percentages are shares, whatever the data are.
percents-IsShare :
    (apps : List NovaApp) (metrics : SystemMetrics)
    → IsShare (running_percent apps)
      × IsShare (network_percent metrics)
      × IsShare (uptime_percent metrics)
unfolding network_percent uptime_percent
percents-IsShare apps metrics = (
  running_percent-IsShare apps,
  min_fraction-IsShare (record { num = metrics.network_total * 100; den = 1024 ^ 4 }) (omega arith),
  min_fraction-IsShare (record { num = uptime_days metrics * 100; den = 30 }) (omega arith),
)
