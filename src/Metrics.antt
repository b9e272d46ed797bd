-- ===== src/Metrics.antt =====
-- frontend/src/hooks/useMetricsHistory.ts: the points of the charts, loaded from the backend and
-- continued by the readings of the socket. Times are milliseconds; subtraction stops at 0, which
-- decides the tests on times as the negative number does.
pub mod Spacing
pub mod Window
mod Tests
use vps_dashboard.Common.{
  ℕ, suc, ◌+◌, ◌-◌, String, Bool, true, false, not, ◌&&◌, Option, none, some, List, [], ◌∷◌, ◌++◌,
  map, filter, ltb, leb, ◌==◌, if◌then◌else◌, get_last?,
}
use vps_dashboard.Types.{MetricsTimeRange, minute, hour, half_day, day, MetricsSnapshot}

abbrev pub range_ms : MetricsTimeRange → ℕ
range_ms minute = 60000
range_ms hour = 3600000
range_ms half_day = 43200000
range_ms day = 86400000

-- The interval of the timer that loads again.
abbrev pub every_ms : MetricsTimeRange → ℕ
every_ms minute = 2000
every_ms hour = 5000
every_ms half_day = 5000
every_ms day = 5000

-- `Object.is` of two ranges.
abbrev pub same_range : MetricsTimeRange → MetricsTimeRange → Bool
same_range minute minute = true
same_range hour hour = true
same_range half_day half_day = true
same_range day day = true
same_range _ _ = false

pub record BackendPoint (Num : Type 0) : Type 0 where
  pub t : ℕ
  pub cpu : Num
  pub mem : Num
  pub disk : Num
  pub net_up : Num
  pub net_down : Num

-- The numbers that the hook is called with.
pub record Reading (Num : Type 0) : Type 0 where
  pub cpu : Num
  pub memory : Num
  pub disk : Num
  pub net_up : Num
  pub net_down : Num

-- What one request for the history gives: a failure (an exception or a status other than success),
-- or a body with its field `points`.
pub data Answer (Num : Type 0) : Type 0 where
  failed : Answer Num
  body : Option (List (BackendPoint Num)) → Answer Num

module _ {Num : Type 0} where
  abbrev pub snapshot : BackendPoint Num → MetricsSnapshot Num
  snapshot p = record {
    timestamp = p.t;
    cpu = p.cpu;
    memory = p.mem;
    disk = p.disk;
    net_up = p.net_up;
    net_down = p.net_down;
  }

  unfoldable pub mapped : Option (List (BackendPoint Num)) → List (MetricsSnapshot Num)
  mapped none = []
  mapped (some points) = map snapshot points

  abbrev pub reading_at : ℕ → Reading Num → MetricsSnapshot Num
  reading_at ts r = record {
    timestamp = ts;
    cpu = r.cpu;
    memory = r.memory;
    disk = r.disk;
    net_up = r.net_up;
    net_down = r.net_down;
  }

  -- `prev.length > 0 && ts - prev[prev.length - 1].timestamp < 1500`
  abbrev pub is_early : ℕ → Option (MetricsSnapshot Num) → Bool
  is_early ts none = false
  is_early ts (some last) = ltb (ts - last.timestamp) 1500

  -- The updater of the effect on the readings.
  unfoldable pub append : ℕ → Reading Num → List (MetricsSnapshot Num) → List (MetricsSnapshot Num)
  append ts r prev = if is_early ts (get_last? prev) then prev else prev ++ reading_at ts r ∷ []

  unfoldable pub visible :
      ℕ → MetricsTimeRange → List (MetricsSnapshot Num) → List (MetricsSnapshot Num)
  visible now range points = filter (λ p. leb (now - range_ms range) p.timestamp) points

-- The state of the hook. `run` counts the runs of the effect on the range: a request belongs to one
-- run, and its variable `cancelled` is set when a later run has begun.
pub record HistoryState (Num : Type 0) : Type 0 where
  pub points : List (MetricsSnapshot Num)
  pub range : MetricsTimeRange
  pub run : ℕ

pub data HistoryEvent (Num : Type 0) : Type 0 where
  -- an answer to a request of the run with that number
  load_ended : ℕ → Answer Num → HistoryEvent Num
  -- new arguments: the time, the reading, and whether the socket is connected
  read : ℕ → Reading Num → Bool → HistoryEvent Num
  range_set : MetricsTimeRange → HistoryEvent Num

module _ {Num : Type 0} where
  abbrev pub with_points : HistoryState Num → List (MetricsSnapshot Num) → HistoryState Num
  with_points s points = record { points = points; range = s.range; run = s.run }

  abbrev pub initial : HistoryState Num
  initial = record { points = []; range = hour; run = 0 }

  unfoldable pub handle : HistoryState Num → HistoryEvent Num → HistoryState Num
  handle s (load_ended run failed) = s
  handle s (load_ended run (body points)) =
      if run == s.run then with_points s (mapped points) else s
  handle s (read ts r connected) = if connected then with_points s (append ts r s.points) else s
  handle s (range_set range) =
      if same_range range s.range
      then s
      else record { points = s.points; range = range; run = suc s.run }

  unfoldable pub handle_all : HistoryState Num → List (HistoryEvent Num) → HistoryState Num
  handle_all s [] = s
  handle_all s (e ∷ es) = handle_all (handle s e) es
