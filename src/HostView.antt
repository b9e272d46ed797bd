-- ===== src/HostView.antt =====
-- frontend/src/components/HostMetrics.tsx: the cards of the host's metrics, and the readings that it
-- hands to `useMetricsHistory`. The series are those of frontend/src/components/MetricsChart.tsx.
pub mod InRange
mod Tests
use vps_dashboard.Common.{
  ℕ, Bool, true, false, Option, none, some, List, [], ◌∷◌, ◌++◌, map, if◌then◌else◌, Text, codes,
}
use vps_dashboard.Common.Number.{Number}
use vps_dashboard.Types.{NetworkStats, HostMetrics, MetricsSnapshot, MetricsTimeRange}
use vps_dashboard.Format.{clamp, format_percent, format_bytes, format_bytes_per_sec}
use vps_dashboard.Metrics.{Reading, Answer, HistoryEvent, load_ended, read, range_set}

pub record Card (N : Type 0) : Type 0 where
  pub label : Text
  pub value : Text
  pub sub : Option Text
  pub bar_class : Text
  -- the width of the bar in percent
  pub width : N
  pub series : List N

pub record NetworkCard (N : Type 0) : Type 0 where
  pub up : Text
  pub down : Text
  pub totals : Text
  pub down_series : List N
  pub up_series : List N

pub data HostMetricsView (N : Type 0) : Type 0 where
  skeletons : HostMetricsView N
  cards : List (Card N) → NetworkCard N → HostMetricsView N

module _ (num : Number) where
  open num use {N, le, of_ℕ}

  -- `percent >= n`
  abbrev at_least : N → ℕ → Bool
  at_least percent n = le (of_ℕ n) percent

  unfoldable pub bar_class : N → Text
  bar_class percent =
      if at_least percent 90
      then codes "bar__fill--danger"
      else if at_least percent 70
      then codes "bar__fill--warn"
      else codes "bar__fill--ok"

  -- `clamp(…, 0, 100)`
  abbrev pub percentage : N → N
  percentage value = clamp num value (of_ℕ 0) (of_ℕ 100)

  -- The arguments of `useMetricsHistory`.
  unfoldable pub reading_of : Option (HostMetrics N) → Reading N
  reading_of none = record {
    cpu = of_ℕ 0;
    memory = of_ℕ 0;
    disk = of_ℕ 0;
    net_up = of_ℕ 0;
    net_down = of_ℕ 0;
  }
  reading_of (some host) = record {
    cpu = percentage host.cpu_percent;
    memory = percentage host.memory_percent;
    disk = percentage host.disk.used_percent;
    net_up = of_ℕ host.network.bytes_sent_per_sec;
    net_down = of_ℕ host.network.bytes_recv_per_sec;
  }

  abbrev pub card : Text → N → Option Text → List N → Card N
  card label percent sub series = record {
    label = label;
    value = format_percent num percent 0;
    sub = sub;
    bar_class = bar_class percent;
    width = percent;
    series = series;
  }

  -- `{formatBytes(used)} / {formatBytes(total)}`
  abbrev pub of_total : ℕ → ℕ → Option Text
  of_total used total = some (format_bytes used 1 ++ codes " / " ++ format_bytes total 1)

  abbrev pub network_card : NetworkStats → List (MetricsSnapshot N) → NetworkCard N
  network_card n visible = record {
    up = codes "↑ " ++ format_bytes_per_sec n.bytes_sent_per_sec;
    down = codes "↓ " ++ format_bytes_per_sec n.bytes_recv_per_sec;
    totals =
        codes "Σ ↑"
        ++ format_bytes n.total_bytes_sent 1
        ++ codes " ↓"
        ++ format_bytes n.total_bytes_recv 1;
    down_series = map (λ p. p.net_down) visible;
    up_series = map (λ p. p.net_up) visible;
  }

  unfoldable pub host_metrics_view :
      Option (HostMetrics N) → List (MetricsSnapshot N) → HostMetricsView N
  host_metrics_view none visible = skeletons
  host_metrics_view (some host) visible =
      cards
        (card (codes "CPU") (percentage host.cpu_percent) none (map (λ p. p.cpu) visible)
          ∷ card (codes "Memory") (percentage host.memory_percent)
              (of_total host.memory_used host.memory_total) (map (λ p. p.memory) visible)
          ∷ card (codes "Disk") (percentage host.disk.used_percent)
              (of_total host.disk.used host.disk.total) (map (λ p. p.disk) visible)
          ∷ [])
        (network_card host.network visible)

  -- What happens to the component: a render with the host's metrics, if a frame has come, at a time;
  -- an answer of the backend; another range.
  pub data HostEvent : Type 0 where
    framed : ℕ → Option (HostMetrics N) → Bool → HostEvent
    loaded : ℕ → Answer N → HostEvent
    ranged : MetricsTimeRange → HostEvent

  unfoldable pub history_event : HostEvent → HistoryEvent N
  history_event (framed ts host connected) = read ts (reading_of host) connected
  history_event (loaded run a) = load_ended run a
  history_event (ranged range) = range_set range
