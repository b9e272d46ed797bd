-- ===== src/Chart.antt =====
-- frontend/src/components/MetricsChart.tsx: the path of a chart. Coordinates are JavaScript numbers
-- with their rounded arithmetic: the interface Plane has the operations that the path uses, with laws
-- that hold of floating-point numbers since rounding keeps the order and is exact on these results.
pub mod Upright
pub mod Inside
pub mod Paths
pub mod Fixed
mod Tests
use vps_dashboard.Common.{
  ℕ, suc, String, ◌+◌, ◌-◌, Bool, true, false, not, ◌&&◌, Option, none, some, List, [], ◌∷◌, ◌++◌,
  map, length, get_last?, ltb, ◌≡◌, ◌≤◌, leb, if◌then◌else◌, Text, codes, decimal, is_empty,
}
use vps_dashboard.Common.Number.{Number}
use vps_dashboard.Types.{MetricsTimeRange, minute, hour, half_day, day}
use vps_dashboard.Metrics.{same_range}
use vps_dashboard.Format.{math_max}

module _ (num : Number) where
  open num use {N, le, of_ℕ}

  pub record Plane : Type 0 where
    pub div : N → N → N
    pub mul : N → N → N
    pub sub : N → N → N
    -- the text of a number in a template literal
    pub show : N → Text
    pub div_unit :
        (a b : N)
        → le (of_ℕ 0) a ≡ true
        → le a b ≡ true
        → le (of_ℕ 1) b ≡ true
        → (le (of_ℕ 0) (div a b) ≡ true) × (le (div a b) (of_ℕ 1) ≡ true)
    pub div_nonneg :
        (a b : N) → le (of_ℕ 0) a ≡ true → le (of_ℕ 1) b ≡ true → le (of_ℕ 0) (div a b) ≡ true
    pub mul_unit :
        (t h : N)
        → le (of_ℕ 0) t ≡ true
        → le t (of_ℕ 1) ≡ true
        → le (of_ℕ 0) h ≡ true
        → (le (of_ℕ 0) (mul t h) ≡ true) × (le (mul t h) h ≡ true)
    pub zero_mul : (s : N) → mul (of_ℕ 0) s ≡ of_ℕ 0
    pub mul_mono :
        (s t h : N) → le s t ≡ true → le (of_ℕ 0) h ≡ true → le (mul s h) (mul t h) ≡ true
    pub div_mono :
        (a b c : N) → le a b ≡ true → le (of_ℕ 1) c ≡ true → le (div a c) (div b c) ≡ true
    pub sub_anti : (h s t : N) → le s t ≡ true → le (sub h t) (sub h s) ≡ true
    pub zero_div : (b : N) → le (of_ℕ 1) b ≡ true → div (of_ℕ 0) b ≡ of_ℕ 0
    pub self_div : (a : N) → le (of_ℕ 1) a ≡ true → div a a ≡ of_ℕ 1
    pub one_mul : (h : N) → mul (of_ℕ 1) h ≡ h
    pub sub_zero : (h : N) → sub h (of_ℕ 0) ≡ h
    pub sub_self : (h : N) → sub h h ≡ of_ℕ 0
    -- a whole number divided and multiplied again is less than one away
    pub mul_div_near :
        (w k : ℕ)
        → w ≤ 4294967296
        → 1 ≤ k
        → k ≤ 4294967296
        → (le (of_ℕ (w - 1)) (mul (of_ℕ k) (div (of_ℕ w) (of_ℕ k))) ≡ true)
          × (le (mul (of_ℕ k) (div (of_ℕ w) (of_ℕ k))) (of_ℕ (w + 1)) ≡ true)
    pub sub_within :
        (h t : N)
        → le (of_ℕ 0) t ≡ true
        → le t h ≡ true
        → (le (of_ℕ 0) (sub h t) ≡ true) × (le (sub h t) h ≡ true)

module _ (num : Number) (plane : Plane num) where
  open num use {N, le, of_ℕ, to_fixed}
  open plane use {div, mul, sub, show}

  pub record Vertex : Type 0 where
    pub x : N
    pub y : N

  -- `Math.max(...points, 1)`
  unfoldable pub max_of : List N → N
  max_of [] = of_ℕ 1
  max_of (p ∷ ps) = math_max num p (max_of ps)

  -- `plotH - (point / max) * plotH`
  abbrev pub y_of : N → N → N → N
  y_of plot_h max p = sub plot_h (mul (div p max) plot_h)

  -- The vertices that the loop visits, from index `i` on.
  unfoldable pub vertices : N → N → N → ℕ → List N → List Vertex
  vertices step plot_h max i [] = []
  vertices step plot_h max i (p ∷ ps) =
      record { x = mul (of_ℕ i) step; y = y_of plot_h max p } ∷ vertices step plot_h max (suc i) ps

  -- ` L ${x},${y}` for each vertex.
  unfoldable pub line_tos : List Vertex → Text
  line_tos [] = []
  line_tos (v ∷ vs) = codes " L " ++ show v.x ++ codes "," ++ show v.y ++ line_tos vs

  -- `h - padBottom`, of whole numbers.
  abbrev pub plot_height : ℕ → ℕ → N
  plot_height h pad_bottom = of_ℕ (h - pad_bottom)

  abbrev pub step_of : ℕ → ℕ → N
  step_of w n = div (of_ℕ w) (of_ℕ (n - 1))

  unfoldable pub svg_path : List N → ℕ → ℕ → ℕ → Text
  svg_path [] w h pad_bottom = []
  svg_path (p ∷ []) w h pad_bottom = []
  svg_path (p ∷ q ∷ ps) w h pad_bottom =
      let plot_h = plot_height h pad_bottom in
      let max = max_of (p ∷ q ∷ ps) in
      let step = step_of w (length (p ∷ q ∷ ps)) in
      codes "M 0," ++ show (y_of plot_h max p) ++ line_tos (vertices step plot_h max 1 (q ∷ ps))

  -- What is drawn: the line, the filled area under it and the label with the last value.
  pub record Drawing : Type 0 where
    pub path : Text
    pub fill : Option Text
    pub label : Option Text

  pub data ChartView : Type 0 where
    -- the wave that stands for missing data
    placeholder : ChartView
    drawn : Drawing → ChartView

  abbrev pub pad_of : Bool → ℕ
  pad_of true = 2
  pad_of false = 6

  -- `${path} L 200,${height - 2} L 0,${height - 2} Z`
  unfoldable pub fill_path : Text → ℕ → Text
  fill_path path height =
      path
      ++ codes " L 200,"
      ++ decimal (height - 2)
      ++ codes " L 0,"
      ++ decimal (height - 2)
      ++ codes " Z"

  abbrev label_of : Option N → Option Text
  label_of none = none
  label_of (some current) = some (to_fixed current 0 ++ codes "%")

  unfoldable pub metrics_chart : List N → ℕ → Bool → ChartView
  metrics_chart [] height compact = placeholder
  metrics_chart (p ∷ ps) height compact =
      let path = svg_path (p ∷ ps) 200 height (pad_of compact) in
      drawn (record {
        path = path;
        fill = if compact then none else some (fill_path path height);
        label =
            if not compact && ltb 2 (length (p ∷ ps)) then label_of (get_last? (p ∷ ps)) else none;
      })

pub record RangeButton : Type 0 where
  pub range : MetricsTimeRange
  pub label : String
  pub active : Bool

abbrev range_label : MetricsTimeRange → String
range_label minute = "1m"
range_label hour = "1h"
range_label half_day = "12h"
range_label day = "24h"

abbrev range_button : MetricsTimeRange → MetricsTimeRange → RangeButton
range_button range r = record { range = r; label = range_label r; active = same_range range r }

unfoldable pub range_selector : MetricsTimeRange → List RangeButton
range_selector range = map (range_button range) (minute ∷ hour ∷ half_day ∷ day ∷ [])
