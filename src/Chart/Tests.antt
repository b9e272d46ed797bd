-- ===== src/Chart/Tests.antt =====
-- Code: frontend/src/components/MetricsChart.tsx.
-- Charts of whole numbers, with binary places.
use Prim.Native.Nat.{◌/◌}
use native.Mathlib.Nat.{div-le_of_le-mul}
use vps_dashboard.Common.{
  ℕ, some, ◌+◌, ◌<◌, ◌*◌, ◌≡◌, ◌≤◌, refl, arith, leb, true, List, [], ◌∷◌, codes, decimal,
}
use vps_dashboard.Types.{HostMetrics}
use vps_dashboard.Metrics.{body}
use vps_dashboard.HostView.{HostEvent, loaded}
use vps_dashboard.Backend.History.{Sample}
use vps_dashboard.Backend.History.Answers.{points_served}
use vps_dashboard.Backend.History.Mean.{Averaging}
use vps_dashboard.Chart.Fixed.{fixed, binary}
use vps_dashboard.Chart.{svg_path, vertices, max_of, line_tos}

from_leb : (a b : ℕ) → leb a b ≡ true → a ≤ b
from_leb a b h = ground arith

to_leb : (a b : ℕ) → a ≤ b → leb a b ≡ true
to_leb a b h = ground arith

-- A percentage in the binary places of the numbers.
abbrev percent : ℕ → ℕ
percent n = n * 4294967296

abbrev load : List ℕ
load = percent 0 ∷ percent 100 ∷ percent 100 ∷ []

small_path : svg_path fixed binary load 200 40 6 ≡ codes "M 0,34 L 100,0 L 200,0"
unfolding svg_path line_tos vertices max_of decimal
small_path = refl

add_bounded :
    (a b m n : ℕ)
    → m + n ≤ 9007199254740992
    → leb a (percent m) ≡ true
    → leb b (percent n) ≡ true
    → leb (a + b) (percent (m + n)) ≡ true
add_bounded a b m n h k l = ground arith

over_within :
    (a m n : ℕ)
    → n * m ≤ 9007199254740992
    → 0 < n
    → leb 0 a ≡ true
    → leb a (percent (n * m)) ≡ true
    → (leb 0 (a / n) ≡ true) × (leb (a / n) (percent m) ≡ true)
over_within a m n h p k l =
    let regrouped : n * m * 4294967296 ≡ n * (m * 4294967296) = grind arith in
    (
      to_leb 0 (a / n) (omega arith),
      to_leb (a / n) (percent m)
          (div-le_of_le-mul n (omega (arith, from_leb a (percent (n * m)) l, regrouped))),
    )

abbrev mean : Averaging fixed
mean = record {
  add = λ a b. a + b;
  over = λ a n. a / n;
  add_nonneg = λ a b h k. to_leb 0 (a + b) (omega arith);
  add_bounded = add_bounded;
  over_within = over_within;
}

abbrev sample : ℕ → Sample ℕ
sample t = record {
  timestamp = t;
  cpu = percent 40;
  memory = percent 50;
  disk = percent 75;
  net_up = 4;
  net_down = 5;
}

abbrev answers : List (HostEvent fixed)
answers =
    loaded 0 (
      body (
        some (
          points_served 0 (λ a b. a + b) (λ a n. a / n) 9000 "1m"
            ((5000, sample 5000) ∷ (7000, sample 7000) ∷ []))))
    ∷ []

abbrev host : HostMetrics ℕ
host = record {
  timestamp = 1000;
  cpu_percent = percent 130;
  memory_used = 1;
  memory_total = 2;
  memory_percent = percent 50;
  disk = record { total = 4; used = 3; free = 1; used_percent = percent 75 };
  network = record {
    bytes_sent_per_sec = 1;
    bytes_recv_per_sec = 2;
    total_bytes_sent = 3;
    total_bytes_recv = 4;
  };
}
