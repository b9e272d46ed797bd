-- ===== src/Chart/Upright.antt =====
-- Code: frontend/src/components/MetricsChart.tsx.
-- The heights of the vertices of a chart.
use vps_dashboard.Common.{
  ℕ, suc, sym, Bool, false, not, ◌||◌, inl, inr, ◌≡◌, refl, ap, subst, ◌∙◌, true, List, [], ◌∷◌,
  All,
}
use vps_dashboard.Common.Number.{Number}
use vps_dashboard.Chart.{Plane, Vertex, y_of, vertices}

module _ (num : Number) (plane : Plane num) where
  open num use {N, le, of_ℕ, le_total, le_trans, le_antisym, le-of_ℕ}
  open plane use {
    div, mul, sub, zero_mul, mul_mono, div_mono, sub_anti, zero_div, self_div, one_mul, sub_zero,
    sub_self,
  }

  abbrev pub IsNonneg : N → Type 0
  IsNonneg a = le (of_ℕ 0) a ≡ true

  pub All-and : (P Q : N → Type 0) (ps : List N) → All P ps → All Q ps → All (λ p. P p × Q p) ps
  All-and P Q [] h k = tt
  All-and P Q (p ∷ ps) h k = ((h.0, k.0), All-and P Q ps h.1 k.1)

  implied : (a b : Bool) → (a ≡ true → b ≡ true) → (not a || b) ≡ true
  implied true b h = h refl
  implied false b h = refl

  -- A relation between each value and the height of its vertex.
  abbrev pub Along : (N → N → Type 0) → List N → List (Vertex num plane) → Type 0
  Along R [] [] = Unit
  Along R (p ∷ ps) (v ∷ vs) = R p v.y × Along R ps vs
  Along R ps vs = ⊥

  pub vertices-Along :
      (R : N → N → Type 0) (Q : N → Type 0) (step plot_h max : N) (i : ℕ) (ps : List N)
      → ((p : N) → Q p → R p (y_of num plane plot_h max p))
      → All Q ps
      → Along R ps (vertices num plane step plot_h max i ps)
  unfolding vertices
  vertices-Along R Q step plot_h max i [] each h = tt
  vertices-Along R Q step plot_h max i (p ∷ ps) each h =
      (each p h.0, vertices-Along R Q step plot_h max (suc i) ps each h.1)

  -- Of two values the greater stands no lower: y grows downwards.
  abbrev pub IsOver : N → N → N → N → Type 0
  IsOver p y q z = ((not (le p q) || le z y) ≡ true) × ((not (le q p) || le y z) ≡ true)

  y_of_anti :
      (plot_h max p q : N)
      → IsNonneg plot_h
      → le (of_ℕ 1) max ≡ true
      → le p q ≡ true
      → le (y_of num plane plot_h max q) (y_of num plane plot_h max p) ≡ true
  y_of_anti plot_h max p q h one k =
      sub_anti plot_h _ _ (mul_mono (div p max) (div q max) plot_h (div_mono p q max k one) h)

  y_of-IsOver :
      (plot_h max p q : N)
      → IsNonneg plot_h
      → le (of_ℕ 1) max ≡ true
      → IsOver p (y_of num plane plot_h max p) q (y_of num plane plot_h max q)
  y_of-IsOver plot_h max p q h one = (
    implied (le p q) _ (y_of_anti plot_h max p q h one),
    implied (le q p) _ (y_of_anti plot_h max q p h one),
  )

  -- So it is for any two of the values.
  abbrev pub IsUpright : List N → List (Vertex num plane) → Type 0
  IsUpright [] [] = Unit
  IsUpright (p ∷ ps) (v ∷ vs) = Along (IsOver p v.y) ps vs × IsUpright ps vs
  IsUpright ps vs = ⊥

  pub vertices-IsUpright :
      (step plot_h max : N) (i : ℕ) (ps : List N)
      → IsNonneg plot_h
      → le (of_ℕ 1) max ≡ true
      → All IsNonneg ps
      → IsUpright ps (vertices num plane step plot_h max i ps)
  unfolding vertices
  vertices-IsUpright step plot_h max i [] h one pos = tt
  vertices-IsUpright step plot_h max i (p ∷ ps) h one pos = (
    vertices-Along (IsOver p (y_of num plane plot_h max p)) IsNonneg step plot_h max (suc i) ps
        (λ q k. y_of-IsOver plot_h max p q h one) pos.1,
    vertices-IsUpright step plot_h max (suc i) ps h one pos.1,
  )

  -- A value of zero stands on the ground, and one that reaches the maximum at the top.
  abbrev pub IsAnchored : N → N → N → N → Type 0
  IsAnchored plot_h max p y =
      ((not (le p (of_ℕ 0)) || le plot_h y) ≡ true) × ((not (le max p) || le y (of_ℕ 0)) ≡ true)

  le_refl : (a b : N) → a ≡ b → le a b ≡ true
  le_refl a b e = elim (le_total a b) [
    | inl h ↦ h
    | inr h ↦ subst (λ c. le a c ≡ true) e (subst (λ c. le c a ≡ true) (sym e) h)
  ]

  pub y_of-IsAnchored :
      (plot_h max p : N)
      → le (of_ℕ 1) max ≡ true
      → (IsNonneg p) × (le p max ≡ true)
      → IsAnchored plot_h max p (y_of num plane plot_h max p)
  y_of-IsAnchored plot_h max p one (pos, top) = (
    implied (le p (of_ℕ 0)) _ (λ k. le_refl plot_h _ (
        sym (
          ap (y_of num plane plot_h max) (le_antisym p (of_ℕ 0) k pos)
          ∙ ap (λ d. sub plot_h (mul d plot_h)) (zero_div max one)
          ∙ ap (sub plot_h) (zero_mul plot_h)
          ∙ sub_zero plot_h))),
    implied (le max p) _ (λ k. le_refl _ (of_ℕ 0) (
        ap (y_of num plane plot_h max) (le_antisym p max top k)
        ∙ ap (λ d. sub plot_h (mul d plot_h)) (self_div max one)
        ∙ ap (sub plot_h) (one_mul plot_h)
        ∙ sub_self plot_h)),
  )
