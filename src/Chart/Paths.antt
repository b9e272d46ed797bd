-- ===== src/Chart/Paths.antt =====
-- Code: frontend/src/components/MetricsChart.tsx.
-- Which texts the chart hands to the browser as paths.
use vps_dashboard.Common.{ℕ, ◌≡◌, refl, false, Option, none, some, List, [], ◌∷◌, Text}
use vps_dashboard.Common.Number.{Number}
use vps_dashboard.Chart.{Plane, svg_path, fill_path, metrics_chart, ChartView, placeholder, drawn}

-- Path data begins with a command that moves.
abbrev pub Moves : Text → Type 0
Moves t = (rest : Text) × (t ≡ b'M' ∷ rest)

module _ (num : Number) (plane : Plane num) where
  open num use {N}

  abbrev pub fill_of : ChartView num plane → Option Text
  fill_of placeholder = none
  fill_of (drawn d) = d.fill

  -- With two values or more the filled area is a path that begins with a move; with a single
  -- value it is a path that does not.
  pub metrics_chart-Moves :
      (p : N) (height : ℕ)
      → ((q : N) (ps : List N)
          → (t : Text) × (fill_of (metrics_chart num plane (p ∷ q ∷ ps) height false) ≡ some t)
            × Moves t)
        × ((t : Text) × (fill_of (metrics_chart num plane (p ∷ []) height false) ≡ some t)
            × ¬ Moves t)
  unfolding metrics_chart fill_path svg_path
  metrics_chart-Moves p height = ((λ q ps. (_, refl, (_, refl))), (_, refl, λ m. cc (m.1)))
