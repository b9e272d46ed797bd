-- ===== src/HostView/InRange.antt =====
-- Code: frontend/src/components/HostMetrics.tsx with frontend/src/hooks/useMetricsHistory.ts.
-- Percentages stay between 0 and 100.
use vps_dashboard.Common.{
  ℕ, suc, ◌-◌, ◌≡◌, leb, Bool, true, false, Option, none, some, List, [], ◌∷◌, ◌++◌, map, filter,
  All, All-append, All-filter_mono, if◌then◌else◌, ◌==◌, get_last?,
}
use vps_dashboard.Common.Number.{Number}
use vps_dashboard.Types.{HostMetrics, MetricsSnapshot}
use vps_dashboard.Format.Range.{clamp_bounds}
use vps_dashboard.Metrics.{
  failed, body, HistoryState, mapped, same_range, with_points, is_early, reading_at, append,
  visible, range_ms, handle, handle_all, initial,
}
use vps_dashboard.HostView.{
  Card, HostMetricsView, skeletons, cards, percentage, reading_of, host_metrics_view, HostEvent,
  framed, loaded, ranged, history_event,
}

module _ (num : Number) where
  open num use {N, le, of_ℕ, le-of_ℕ}

  abbrev pub IsPercentage : N → Type 0
  IsPercentage x = (le (of_ℕ 0) x ≡ true) × (le x (of_ℕ 100) ≡ true)

  percentage-IsPercentage : (x : N) → IsPercentage (percentage num x)
  percentage-IsPercentage x =
      let h = clamp_bounds num x (of_ℕ 0) (of_ℕ 100) (le-of_ℕ 0 100) in (h.0, h.1)

  zero-IsPercentage : IsPercentage (of_ℕ 0)
  zero-IsPercentage = (le-of_ℕ 0 0, le-of_ℕ 0 100)

  abbrev pub InRange : MetricsSnapshot N → Type 0
  InRange p = IsPercentage p.cpu × IsPercentage p.memory × IsPercentage p.disk

  -- The points of an answer are in range.
  abbrev pub BringsInRange : HostEvent num → Type 0
  BringsInRange (loaded run failed) = Unit
  BringsInRange (loaded run (body points)) = All InRange (mapped points)
  BringsInRange (framed ts host connected) = Unit
  BringsInRange (ranged range) = Unit

  reading-InRange :
      (ts : ℕ) (host : Option (HostMetrics N)) → InRange (reading_at ts (reading_of num host))
  unfolding reading_of
  reading-InRange ts none = (zero-IsPercentage, zero-IsPercentage, zero-IsPercentage)
  reading-InRange ts (some host) = (
    percentage-IsPercentage host.cpu_percent,
    percentage-IsPercentage host.memory_percent,
    percentage-IsPercentage host.disk.used_percent,
  )

  append-InRange :
      (ts : ℕ) (host : Option (HostMetrics N)) (prev : List (MetricsSnapshot N))
      → All InRange prev
      → All InRange (append ts (reading_of num host) prev)
  unfolding append
  append-InRange ts host prev h = choose (is_early ts (get_last? prev))
    where
      choose :
          (early : Bool)
          → All InRange (if early then prev else prev ++ reading_at ts (reading_of num host) ∷ [])
      choose true = h
      choose false =
          All-append InRange prev (reading_at ts (reading_of num host) ∷ []) h
            (reading-InRange ts host, tt)

  either :
      (b : Bool) (x y : HistoryState N)
      → All InRange x.points
      → All InRange y.points
      → All InRange (if b then x else y).points
  either true x y h k = h
  either false x y h k = k

  event-InRange :
      (s : HistoryState N) (e : HostEvent num)
      → BringsInRange e
      → All InRange s.points
      → All InRange (handle s (history_event num e)).points
  unfolding handle history_event
  event-InRange s (framed ts host connected) b h =
      either connected (with_points s (append ts (reading_of num host) s.points)) s
        (append-InRange ts host s.points h) h
  event-InRange s (loaded run failed) b h = h
  event-InRange s (loaded run (body points)) b h =
      either (run == s.run) (with_points s (mapped points)) s b h
  event-InRange s (ranged range) b h =
      either (same_range range s.range) s
        (record { points = s.points; range = range; run = suc s.run }) h h

  events-InRange :
      (es : List (HostEvent num)) (s : HistoryState N)
      → All BringsInRange es
      → All InRange s.points
      → All InRange (handle_all s (map (history_event num) es)).points
  unfolding handle_all
  events-InRange [] s b h = h
  events-InRange (e ∷ es) s b h =
      events-InRange es (handle s (history_event num e)) b.1 (event-InRange s e b.0 h)

  -- A card in range: the width of its bar and its whole series.
  abbrev pub IsDrawn : HostMetricsView N → Type 0
  IsDrawn skeletons = Unit
  IsDrawn (cards cs network) =
      All (λ (c : Card N). IsPercentage c.width × All IsPercentage c.series) cs

  series-InRange :
      (f : MetricsSnapshot N → N)
      → ((p : MetricsSnapshot N) → InRange p → IsPercentage (f p))
      → (ps : List (MetricsSnapshot N)) → All InRange ps
      → All IsPercentage (map f ps)
  series-InRange f each [] h = tt
  series-InRange f each (p ∷ ps) h = (each p h.0, series-InRange f each ps h.1)

  -- If the percentages in every answer of the backend are between 0 and 100, then after any
  -- renders, answers and choices of a range, the bars and the series of the cards are between 0
  -- and 100, whatever the host reports.
  pub host_metrics_view-IsDrawn :
      (es : List (HostEvent num)) (now : ℕ) (host : Option (HostMetrics N))
      → All BringsInRange es
      → (let s = handle_all initial (map (history_event num) es) in
          IsDrawn (host_metrics_view num host (visible now s.range s.points)))
  unfolding host_metrics_view visible
  host_metrics_view-IsDrawn es now none b = tt
  host_metrics_view-IsDrawn es now (some host) b =
      let s = handle_all initial (map (history_event num) es) in
      let shown =
        All-filter_mono InRange (λ p. leb (now - range_ms s.range) p.timestamp) s.points
          (events-InRange es initial b tt) in
      let shown_points = filter (λ p. leb (now - range_ms s.range) p.timestamp) s.points in
      (
        (
          percentage-IsPercentage host.cpu_percent,
          series-InRange (λ p. p.cpu) (λ p h. h.0) shown_points shown,
        ),
        (
          (
            percentage-IsPercentage host.memory_percent,
            series-InRange (λ p. p.memory) (λ p h. h.1) shown_points shown,
          ),
          (
            (
              percentage-IsPercentage host.disk.used_percent,
              series-InRange (λ p. p.disk) (λ p h. h.2) shown_points shown,
            ),
            tt,
          ),
        ),
      )
