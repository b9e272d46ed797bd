-- ===== src/Backend/Charts.antt =====
-- Code: internal/host/history.go and internal/server/router.go, with
-- frontend/src/hooks/useMetricsHistory.ts, frontend/src/components/HostMetrics.tsx and MetricsChart.tsx.
-- From the samples of the backend to the charts of the page.
use vps_dashboard.Common.{
  ℕ, ◌≡◌, ◌⊎◌, String, Bool, Option, some, List, [], ◌∷◌, All, Text, ◌≤◌, length,
}
use vps_dashboard.Common.Number.{Number}
use vps_dashboard.Types.{MetricsTimeRange, HostMetrics}
use vps_dashboard.Metrics.{failed, body}
use vps_dashboard.HostView.{
  Card, HostMetricsView, skeletons, cards, HostEvent, loaded, framed, ranged,
}
use vps_dashboard.HostView.InRange.{IsPercentage, InRange}
use vps_dashboard.Chart.{Plane, svg_path, ChartView, placeholder, drawn, metrics_chart, pad_of}
use vps_dashboard.Chart.Inside.{IsInside}
use vps_dashboard.Backend.History.{Sample}
use vps_dashboard.Backend.History.Answers.{points_served}
use vps_dashboard.Backend.History.Mean.{Averaging, IsPercent}

module _ (num : Number) (mean : Averaging num) where
  open num use {N, le, of_ℕ}
  open mean use {add, over}

  -- The percentages of a sample.
  abbrev pub IsMeasured : Sample N → Type 0
  IsMeasured s = IsPercent num mean s.cpu × IsPercent num mean s.memory × IsPercent num mean s.disk

  -- The events of a page whose answers come from this backend.
  pub data IsFed : HostEvent num → Type 0 where
    lost : (run : ℕ) → IsFed (loaded run failed)
    fed :
        (run now : ℕ) (label : String) (ticks : List (ℕ × Sample N))
        → All (λ t. IsMeasured t.1) ticks
        → IsFed (loaded run (body (some (points_served (of_ℕ 0) add over now label ticks))))
    was_framed :
        (ts : ℕ) (host : Option (HostMetrics N)) (connected : Bool)
        → IsFed (framed ts host connected)
    was_ranged : (range : MetricsTimeRange) → IsFed (ranged range)

  pub data AreFed : List (HostEvent num) → Type 0 where
    done : AreFed []
    then_fed :
        (e : HostEvent num) (es : List (HostEvent num)) → IsFed e → AreFed es → AreFed (e ∷ es)

module _ (num : Number) (plane : Plane num) where
  open num use {N}

  -- The line that a chart draws.
  abbrev pub path_of : ChartView num plane → Text
  path_of placeholder = []
  path_of (drawn d) = d.path

  -- A chart of fewer than two values has no line, and any other a line that stays inside.
  abbrev pub IsSafe : ℕ → Bool → List N → Type 0
  IsSafe height compact ps =
      let path = path_of (metrics_chart num plane ps height compact) in
      ((length ps ≤ 1) × (path ≡ []))
      ⊎ ((2 ≤ length ps)
          × (path ≡ svg_path num plane ps 200 height (pad_of num plane compact))
          × IsInside num plane ps 200 height (pad_of num plane compact))

  -- The bars and the charts of the cards.
  abbrev pub AreSafe : ℕ → Bool → HostMetricsView N → Type 0
  AreSafe height compact skeletons = Unit
  AreSafe height compact (cards cs network) =
      All (λ (c : Card N). IsPercentage num c.width × IsSafe height compact c.series) cs

  -- The series of each card has no more than `n` values.
  abbrev Counted : ℕ → HostMetricsView N → Type 0
  Counted n skeletons = Unit
  Counted n (cards cs network) = All (λ (c : Card N). length c.series ≤ n) cs
