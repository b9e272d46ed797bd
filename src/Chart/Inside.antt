-- ===== src/Chart/Inside.antt =====
-- Code: frontend/src/components/MetricsChart.tsx.
-- The path stays inside the chart.
use vps_dashboard.Common.{
  ℕ, suc, ◌+◌, ◌-◌, sym, ◌≡◌, ◌≤◌, refl, ap, subst, ◌∙◌, arith, true, List, [], ◌∷◌, ◌++◌, codes,
  length, All, All-mono,
}
use vps_dashboard.Common.Number.{Number}
use vps_dashboard.Format.{math_max}
use vps_dashboard.Chart.{
  Plane, Vertex, max_of, y_of, vertices, line_tos, svg_path, plot_height, step_of,
}
use vps_dashboard.Chart.Upright.{
  IsNonneg, All-and, Along, vertices-Along, IsUpright, vertices-IsUpright, IsAnchored,
  y_of-IsAnchored,
}

module _ (num : Number) (plane : Plane num) where
  open num use {N, le, of_ℕ, le_total, le_trans, le_antisym, le-of_ℕ}
  open plane use {
    div, mul, sub, show, div_unit, div_nonneg, mul_unit, zero_mul, mul_mono, sub_within, div_mono,
    sub_anti, zero_div, self_div, one_mul, sub_zero, sub_self, mul_div_near,
  }

  max_lower : (a b : N) → (le a (math_max num a b) ≡ true) × (le b (math_max num a b) ≡ true)
  max_lower a b = ground (arith, le_total a b, le_total a a, le_total b b)

  max_of-le :
      (ps : List N)
      → (le (of_ℕ 1) (max_of num plane ps) ≡ true) × All (λ p. le p (max_of num plane ps) ≡ true) ps
  unfolding max_of
  max_of-le [] = (le-of_ℕ 1 1, tt)
  max_of-le (p ∷ ps) =
      let rest = max_of-le ps in
      let lower = max_lower p (max_of num plane ps) in
      (
        le_trans (of_ℕ 1) (max_of num plane ps) _ rest.0 lower.1,
        (
          lower.0,
          All-mono (λ q. le q (max_of num plane ps) ≡ true)
              (λ q. le q (math_max num p (max_of num plane ps)) ≡ true)
              (λ q h. le_trans q (max_of num plane ps) _ h lower.1) ps rest.1,
        ),
      )

  -- A height that lies within the plot.
  abbrev pub IsWithin : N → N → Type 0
  IsWithin plot_h y = (le (of_ℕ 0) y ≡ true) × (le y plot_h ≡ true)

  y_of-IsWithin :
      (plot_h max p : N)
      → IsNonneg num plane plot_h
      → IsNonneg num plane p
      → le (of_ℕ 1) max ≡ true
      → le p max ≡ true
      → IsWithin plot_h (y_of num plane plot_h max p)
  y_of-IsWithin plot_h max p h pos one top =
      let d = div_unit p max pos top one in
      let m = mul_unit (div p max) plot_h d.0 d.1 h in
      sub_within plot_h (mul (div p max) plot_h) m.0 m.1

  -- The vertices stand from left to right.
  abbrev pub IsRightOf : N → List (Vertex num plane) → Type 0
  IsRightOf x [] = Unit
  IsRightOf x (v ∷ vs) = (le x v.x ≡ true) × IsRightOf v.x vs

  vertices-IsRightOf :
      (step plot_h max : N) (i : ℕ) (ps : List N)
      → IsNonneg num plane step
      → IsRightOf (mul (of_ℕ i) step) (vertices num plane step plot_h max (suc i) ps)
  unfolding vertices
  vertices-IsRightOf step plot_h max i [] h = tt
  vertices-IsRightOf step plot_h max i (p ∷ ps) h = (
    mul_mono (of_ℕ i) (of_ℕ (suc i)) step (le-of_ℕ i (suc i) ∙ ground arith) h,
    vertices-IsRightOf step plot_h max (suc i) ps h,
  )

  vertices-IsWithin :
      (step plot_h max : N) (i : ℕ) (ps : List N)
      → IsNonneg num plane plot_h
      → le (of_ℕ 1) max ≡ true
      → All (IsNonneg num plane) ps
      → All (λ p. le p max ≡ true) ps
      → All (λ v. IsWithin plot_h v.y) (vertices num plane step plot_h max i ps)
  unfolding vertices
  vertices-IsWithin step plot_h max i [] h one pos top = tt
  vertices-IsWithin step plot_h max i (p ∷ ps) h one pos top = (
    y_of-IsWithin plot_h max p h pos.0 one top.0,
    vertices-IsWithin step plot_h max (suc i) ps h one pos.1 top.1,
  )

  length-vertices :
      (step plot_h max : N) (i : ℕ) (ps : List N)
      → length (vertices num plane step plot_h max i ps) ≡ length ps
  unfolding vertices
  length-vertices step plot_h max i [] = refl
  length-vertices step plot_h max i (p ∷ ps) = ap suc (length-vertices step plot_h max (suc i) ps)

  -- No vertex stands to the right of the one with index `top`.
  vertices-below :
      (step plot_h max : N) (i top : ℕ) (ps : List N)
      → IsNonneg num plane step
      → i + length ps ≤ suc top
      → All (λ v. le v.x (mul (of_ℕ top) step) ≡ true) (vertices num plane step plot_h max i ps)
  unfolding vertices
  vertices-below step plot_h max i top [] h k = tt
  vertices-below step plot_h max i top (p ∷ ps) h k = (
    mul_mono (of_ℕ i) (of_ℕ top) step (le-of_ℕ i top ∙ ground (arith, k)) h,
    vertices-below step plot_h max (suc i) top ps h (omega (arith, k)),
  )

  -- Where the last vertex stands.
  abbrev pub last_x : N → List (Vertex num plane) → N
  last_x x [] = x
  last_x x (v ∷ vs) = last_x v.x vs

  last_x-vertices :
      (step plot_h max : N) (i : ℕ) (ps : List N)
      → last_x (mul (of_ℕ i) step) (vertices num plane step plot_h max (suc i) ps)
        ≡ mul (of_ℕ (i + length ps)) step
  unfolding vertices
  last_x-vertices step plot_h max i [] = ap (λ n. mul (of_ℕ n) step) (omega arith)
  last_x-vertices step plot_h max i (p ∷ ps) =
      last_x-vertices step plot_h max (suc i) ps ∙ ap (λ n. mul (of_ℕ n) step) (omega arith)

  -- The whole path of a chart: the first height, and the vertices that lines lead to.
  pub record IsInside (points : List N) (w h pad_bottom : ℕ) : Type 0 where
    pub first : N
    pub rest : List (Vertex num plane)
    pub printed :
        svg_path num plane points w h pad_bottom
        ≡ codes "M 0," ++ show first ++ line_tos num plane rest
    pub all_points : suc (length rest) ≡ length points
    pub first_within : IsWithin (plot_height num plane h pad_bottom) first
    pub rest_within : All (λ v. IsWithin (plot_height num plane h pad_bottom) v.y) rest
    pub ordered : IsRightOf (of_ℕ 0) rest
    pub bounded : All (λ v. le v.x (of_ℕ (w + 1)) ≡ true) rest
    pub reaches : le (of_ℕ (w - 1)) (last_x (of_ℕ 0) rest) ≡ true
    pub upright : IsUpright num plane points (record { x = of_ℕ 0; y = first } ∷ rest)
    pub anchored :
        Along num plane
          (IsAnchored num plane (plot_height num plane h pad_bottom) (max_of num plane points))
          points
          (record { x = of_ℕ 0; y = first } ∷ rest)

  -- If there are at least two values and not more than 2^32, and none is negative, the path of a chart that is not
  -- too wide has one vertex
  -- for each value, the first at the left edge, none to the left of the one before it, the last
  -- within one unit of the right edge and none further, all within the height of the plot; of two
  -- values the greater stands no lower, zero on the ground and the maximum at the top.
  pub svg_path-IsInside :
      (points : List N) (w h pad_bottom : ℕ)
      → w ≤ 4294967296
      → 2 ≤ length points
      → length points ≤ 4294967296
      → All (IsNonneg num plane) points
      → IsInside points w h pad_bottom
  unfolding svg_path vertices
  svg_path-IsInside [] w h pad_bottom narrow two few pos = absurd (omega arith)
  svg_path-IsInside (p ∷ []) w h pad_bottom narrow two few pos = absurd (omega arith)
  svg_path-IsInside (p ∷ q ∷ ps) w h pad_bottom narrow two few pos =
      let points = p ∷ q ∷ ps in
      let plot_h = plot_height num plane h pad_bottom in
      let max = max_of num plane points in
      let last = length points - 1 in
      let step = step_of num plane w (length points) in
      let rest = vertices num plane step plot_h max 1 (q ∷ ps) in
      let bounds = max_of-le points in
      let near = mul_div_near w last narrow (ground arith) (omega (arith, few)) in
      let high : IsNonneg num plane plot_h = le-of_ℕ 0 (h - pad_bottom) ∙ ground arith in
      let wide : IsNonneg num plane step =
        div_nonneg (of_ℕ w) (of_ℕ last) (le-of_ℕ 0 w ∙ ground arith)
          (le-of_ℕ 1 last ∙ ground arith) in
      let index : mul (of_ℕ (0 + length (q ∷ ps))) step ≡ mul (of_ℕ last) step =
        ap (λ n. mul (of_ℕ n) step) (omega arith) in
      let below = vertices-below step plot_h max 1 last (q ∷ ps) wide (omega arith) in
      record {
        first = y_of num plane plot_h max p;
        rest = rest;
        printed = refl;
        all_points = ap suc (length-vertices step plot_h max 1 (q ∷ ps));
        first_within = y_of-IsWithin plot_h max p high pos.0 bounds.0 bounds.1.0;
        rest_within = vertices-IsWithin step plot_h max 1 (q ∷ ps) high bounds.0 pos.1 bounds.1.1;
        ordered =
            subst (λ x. IsRightOf x rest) (zero_mul step)
              (vertices-IsRightOf step plot_h max 0 (q ∷ ps) wide);
        bounded =
            All-mono _ (λ v. le v.x (of_ℕ (w + 1)) ≡ true)
              (λ v k. le_trans v.x (mul (of_ℕ last) step) _ k near.1) rest below;
        reaches =
            subst (λ x. le (of_ℕ (w - 1)) (last_x x rest) ≡ true) (zero_mul step)
              (subst (λ x. le (of_ℕ (w - 1)) x ≡ true)
                (sym (last_x-vertices step plot_h max 0 (q ∷ ps) ∙ index)) near.0);
        upright = vertices-IsUpright num plane step plot_h max 0 points high bounds.0 pos;
        anchored = (
          y_of-IsAnchored num plane plot_h max p bounds.0 (pos.0, bounds.1.0),
          vertices-Along num plane (IsAnchored num plane plot_h max)
              (λ r. IsNonneg num plane r × (le r max ≡ true)) step plot_h max 1 (q ∷ ps)
              (λ r k. y_of-IsAnchored num plane plot_h max r bounds.0 k)
              (All-and num plane (IsNonneg num plane) _ (q ∷ ps) pos.1 bounds.1.1),
        );
      }
