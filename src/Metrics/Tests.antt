-- ===== src/Metrics/Tests.antt =====
-- Code: frontend/src/hooks/useMetricsHistory.ts.
-- The history at concrete points; the numbers of a reading are whole.
use vps_dashboard.Common.{
  ℕ, ◌+◌, ◌*◌, ◌≤◌, ◌≡◌, refl, arith, true, none, some, List, [], ◌∷◌, map, length, All,
}
use vps_dashboard.Types.{minute, MetricsSnapshot}
use vps_dashboard.Metrics.{
  BackendPoint, Reading, body, mapped, reading_at, append, visible, HistoryEvent, load_ended, read,
  range_set, initial, handle, handle_all,
}
use vps_dashboard.Metrics.Spacing.{IsSpaced, BringsSpaced}
use vps_dashboard.Metrics.Window.{visible_bound}

abbrev idle : Reading ℕ
idle = record { cpu = 1; memory = 2; disk = 3; net_up = 4; net_down = 5 }

abbrev point : ℕ → BackendPoint ℕ
point t = record { t = t; cpu = 1; mem = 2; disk = 3; net_up = 4; net_down = 5 }

abbrev three : List (MetricsSnapshot ℕ)
three = reading_at 10000 idle ∷ reading_at 50000 idle ∷ reading_at 90000 idle ∷ []

three-IsSpaced : IsSpaced three
three-IsSpaced = ((omega arith, (omega arith, tt)), ((omega arith, tt), (tt, tt)))

last_minute : map (λ p. p.timestamp) (visible 100000 minute three) ≡ 50000 ∷ 90000 ∷ []
unfolding visible
last_minute = refl

too_early : append 91000 idle three ≡ three
unfolding append
too_early = refl

-- A load, a reading after the clock was put back, another range and a late answer.
abbrev events : List (HistoryEvent ℕ)
events =
    load_ended 0 (body (some (point 5000 ∷ point 7000 ∷ [])))
    ∷ read 6000 idle true
    ∷ range_set minute
    ∷ load_ended 0 (body none)
    ∷ read 9000 idle true
    ∷ []

events_run : map (λ p. p.timestamp) (handle_all initial events).points ≡ 5000 ∷ 7000 ∷ 9000 ∷ []
unfolding handle_all handle append mapped
events_run = refl

events_bring : All BringsSpaced events
unfolding mapped
events_bring = (((omega arith, tt), (tt, tt)), (tt, (tt, (tt, (tt, tt)))))

visible_bound_example : length (visible 100000 minute three) * 1500 ≤ 60000 + 1500
visible_bound_example =
    visible_bound 100000 minute three three-IsSpaced (omega arith, (omega arith, (omega arith, tt)))
