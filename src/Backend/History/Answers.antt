-- ===== src/Backend/History/Answers.antt =====
-- Code: internal/server/router.go and internal/host/history.go, with
-- frontend/src/hooks/useMetricsHistory.ts.
-- The points that the page gets from the backend.
use vps_dashboard.Common.{ℕ, ◌+◌, ◌≤◌, String, Bool, some, List, [], ◌∷◌, map, All}
use vps_dashboard.Types.{MetricsTimeRange}
use vps_dashboard.Metrics.{
  BackendPoint, Reading, failed, body, mapped, HistoryState, HistoryEvent, load_ended, read,
  range_set, handle_all,
}
use vps_dashboard.Metrics.Spacing.{IsSpaced, BringsSpaced, handle_all-IsSpaced}
use vps_dashboard.Backend.History.{
  Sample, new_history, recorded, range_of, parse_history_range, day_ms,
}
use vps_dashboard.Backend.History.Spaced.{IsApart, range_of-IsApart}
use vps_dashboard.Backend.History.Kept.{recorded-IsApart}

-- A sample as `json.Marshal` writes it and `res.json()` reads it.
abbrev pub point : {Num : Type 0} → Sample Num → BackendPoint Num
point s = record {
  t = s.timestamp;
  cpu = s.cpu;
  mem = s.memory;
  disk = s.disk;
  net_up = s.net_up;
  net_down = s.net_down;
}

module _ {Num : Type 0} (nought : Num) (add : Num → Num → Num) (over : Num → ℕ → Num) where
  -- `handleMetricsHistory` at the time `now`, after the ticks of the collector: the points of the body.
  unfoldable pub points_served : ℕ → String → List (ℕ × Sample Num) → List (BackendPoint Num)
  points_served now label ticks =
      let range = parse_history_range label in
      map point
        (range_of nought add over now range.0 range.1 (recorded (new_history day_ms 50000) ticks))

  -- The events of a page whose answers come from this backend; its ticks are at least 1.5 s apart.
  pub data IsServed : HistoryEvent Num → Type 0 where
    lost : (run : ℕ) → IsServed (load_ended run failed)
    served :
        (run now : ℕ) (label : String) (ticks : List (ℕ × Sample Num))
        → IsApart 1500 (map (λ t. t.1) ticks)
        → IsServed (load_ended run (body (some (points_served now label ticks))))
    was_read : (ts : ℕ) (r : Reading Num) (connected : Bool) → IsServed (read ts r connected)
    chosen : (range : MetricsTimeRange) → IsServed (range_set range)

  pub data AreServed : List (HistoryEvent Num) → Type 0 where
    done : AreServed []
    then_served :
        (e : HistoryEvent Num) (es : List (HistoryEvent Num))
        → IsServed e
        → AreServed es
        → AreServed (e ∷ es)

  later-points :
      (t : ℕ) (ss : List (Sample Num))
      → All (λ s. t + 1500 ≤ s.timestamp) ss
      → All (λ p. t + 1500 ≤ p.timestamp) (mapped (some (map point ss)))
  unfolding mapped
  later-points t [] h = tt
  later-points t (s ∷ ss) h = (h.0, later-points t ss h.1)

  IsSpaced-points :
      (ss : List (Sample Num)) → IsApart 1500 ss → IsSpaced (mapped (some (map point ss)))
  unfolding mapped
  IsSpaced-points [] h = tt
  IsSpaced-points (s ∷ ss) h = (later-points s.timestamp ss h.0, IsSpaced-points ss h.1)

  IsServed-BringsSpaced : (e : HistoryEvent Num) → IsServed e → BringsSpaced e
  unfolding points_served new_history
  IsServed-BringsSpaced e (lost run) = tt
  IsServed-BringsSpaced e (served run now label ticks apart) =
      let range = parse_history_range label in
      IsSpaced-points _ (
        range_of-IsApart nought add over 1500 now range.0 range.1
          (recorded (new_history day_ms 50000) ticks)
          (recorded-IsApart 1500 ticks (new_history day_ms 50000) apart))
  IsServed-BringsSpaced e (was_read ts r connected) = tt
  IsServed-BringsSpaced e (chosen range) = tt

  bring : (es : List (HistoryEvent Num)) → AreServed es → All BringsSpaced es
  bring es done = tt
  bring es (then_served e rest s r) = (IsServed-BringsSpaced e s, bring rest r)

  -- If each answer to the page is lost or comes from a backend whose ticks gave samples at least
  -- 1.5 s apart, for whatever range and at whatever time, then after any events the points that
  -- the hook holds are at least 1.5 s apart, if they were at first.
  pub served-IsSpaced :
      (es : List (HistoryEvent Num)) (s : HistoryState Num)
      → AreServed es
      → IsSpaced s.points
      → IsSpaced (handle_all s es).points
  served-IsSpaced es s h spaced = handle_all-IsSpaced es s (bring es h) spaced
