-- ===== src/Backend/History.antt =====
-- internal/host/history.go: the buffer of metric samples, and the points that it gives for a range;
-- and parseHistoryRange of internal/server/router.go. Times are whole milliseconds since 1970. The
-- two operations on float64 that the averages need are parameters.
pub mod Spaced
pub mod Count
pub mod Even
pub mod Kept
pub mod Answers
pub mod Mean
use vps_dashboard.Common.{
  ℕ, zero, suc, ◌+◌, ◌-◌, ◌*◌, ◌/◌, String, Bool, true, false, Option, none, some, List, [], ◌∷◌,
  ◌++◌, map, filter, length, take_last, get_last?, ltb, leb, ◌==◌, ◌===◌, if◌then◌else◌, ℤ, pos,
  negsuc,
}

pub record Sample (Num : Type 0) : Type 0 where
  pub timestamp : ℕ
  pub cpu : Num
  pub memory : Num
  pub disk : Num
  pub net_up : Num
  pub net_down : Num

pub record History (Num : Type 0) : Type 0 where
  pub samples : List (Sample Num)
  pub retain : ℕ
  pub max_len : ℕ

abbrev pub day_ms : ℕ
day_ms = 86400000

module _ {Num : Type 0} where
  -- `NewHistory`; a number that is not positive is given as 0.
  unfoldable pub new_history : ℕ → ℕ → History Num
  new_history retain max_len = record {
    samples = [];
    retain = if retain == 0 then day_ms else retain;
    max_len = if max_len == 0 then 50000 else max_len;
  }

  -- The loop that counts the samples before the cutoff, and the slice after them.
  unfoldable pub drop_old : ℕ → List (Sample Num) → List (Sample Num)
  drop_old cutoff [] = []
  drop_old cutoff (s ∷ ss) =
      let rest = drop_old cutoff ss in if ltb s.timestamp cutoff then rest else s ∷ ss

  abbrev pub capped : ℕ → List (Sample Num) → List (Sample Num)
  capped max_len samples =
      if ltb max_len (length samples) then take_last max_len samples else samples

  -- `Record` at the time `now`. A cutoff before 1970 drops nothing, as the cutoff 0.
  unfoldable pub record_sample : ℕ → Sample Num → History Num → History Num
  unfolding drop_old
  record_sample now s h = record h {
    samples = capped h.max_len (drop_old (now - h.retain) (h.samples ++ s ∷ []));
  }

module _ {Num : Type 0} where
  -- The ticks of the collector's `Run` at which `Collect` gave metrics, each with the time of `Record`.
  unfoldable pub recorded : History Num → List (ℕ × Sample Num) → History Num
  unfolding record_sample
  recorded h [] = h
  recorded h ((now, s) ∷ ticks) = recorded (record_sample now s h) ticks

-- Go's quotient of `t - start` and `dur`, rounded towards 0.
abbrev pub index_of : ℕ → ℕ → ℕ → ℤ
index_of start dur t = if leb start t then pos ((t - start) / dur) else below ((start - t) / dur)
  where
    below : ℕ → ℤ
    below zero = pos 0
    below (suc n) = negsuc n

abbrev pub same_index : ℤ → ℤ → Bool
same_index (pos m) (pos n) = m == n
same_index (negsuc m) (negsuc n) = m == n
same_index (pos m) (negsuc n) = false
same_index (negsuc m) (pos n) = false

abbrev pub at_least_1 : ℕ → ℕ
at_least_1 n = if ltb n 1 then 1 else n

module _ {Num : Type 0} where
  abbrev first_time : List (Sample Num) → ℕ
  first_time [] = 0
  first_time (s ∷ ss) = s.timestamp

  abbrev pub last_time : List (Sample Num) → ℕ
  last_time [] = 0
  last_time (s ∷ []) = s.timestamp
  last_time (s ∷ t ∷ ss) = last_time (t ∷ ss)

  abbrev pub in_range : ℕ → List (Sample Num) → List (Sample Num)
  in_range cutoff samples = filter (λ s. leb cutoff s.timestamp) samples

module _ {Num : Type 0} (nought : Num) (add : Num → Num → Num) (over : Num → ℕ → Num) where
  -- The variables of the loop of `Range`: the sums, their count and the index of the bucket.
  pub record Bucket : Type 0 where
    pub acc : Sample Num
    pub count : ℕ
    pub index : ℤ

  abbrev pub empty_bucket : ℤ → Bucket
  empty_bucket index = record {
    acc = record {
      timestamp = 0;
      cpu = nought;
      memory = nought;
      disk = nought;
      net_up = nought;
      net_down = nought;
    };
    count = 0;
    index = index;
  }

  abbrev pub average : Sample Num → ℕ → Sample Num
  average acc count = record {
    timestamp = acc.timestamp / count;
    cpu = over acc.cpu count;
    memory = over acc.memory count;
    disk = over acc.disk count;
    net_up = over acc.net_up count;
    net_down = over acc.net_down count;
  }

  -- What `flush` appends.
  unfoldable pub flush : Bucket → List (Sample Num)
  flush b = if b.count == 0 then [] else average b.acc b.count ∷ []

  abbrev pub added : Bucket → Sample Num → Bucket
  added b s = record {
    acc = record {
      timestamp = b.acc.timestamp + s.timestamp;
      cpu = add b.acc.cpu s.cpu;
      memory = add b.acc.memory s.memory;
      disk = add b.acc.disk s.disk;
      net_up = add b.acc.net_up s.net_up;
      net_down = add b.acc.net_down s.net_down;
    };
    count = suc b.count;
    index = b.index;
  }

  -- The loop over the samples and the last flush: what they append to `out`.
  unfoldable pub buckets : ℕ → ℕ → Bucket → List (Sample Num) → List (Sample Num)
  buckets start dur b [] = flush b
  buckets start dur b (s ∷ ss) =
      let idx = index_of start dur s.timestamp in
      let same = same_index idx b.index in
      (if same then [] else flush b)
      ++ buckets start dur (added (if same then b else empty_bucket idx) s) ss

  -- The part of `Range` that makes the buckets. A span that is not positive is 0 here.
  unfoldable pub downsampled : ℕ → List (Sample Num) → List (Sample Num)
  unfolding buckets
  downsampled max_points src =
      let start = first_time src in
      let span = last_time src - start in
      if span == 0
      then take_last 1 src
      else buckets start (at_least_1 (span / max_points)) (empty_bucket (negsuc 0)) src

  -- `Range` at the time `now`; a number of points that is not positive is given as 0.
  unfoldable pub range_of : ℕ → ℕ → ℕ → History Num → List (Sample Num)
  unfolding downsampled
  range_of now range_dur max_points h =
      let n = at_least_1 max_points in
      let src = in_range (now - range_dur) h.samples in
      if leb (length src) n then src else downsampled n src

-- `parseHistoryRange`: the duration in milliseconds, and the number of points.
unfoldable pub parse_history_range : String → ℕ × ℕ
parse_history_range label =
    if label === "1m"
    then (60000, 60)
    else if label === "12h"
    then (43200000, 180)
    else if label === "24h"
    then (86400000, 240)
    else (3600000, 120)
