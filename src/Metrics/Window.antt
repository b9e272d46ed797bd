-- ===== src/Metrics/Window.antt =====
-- Code: frontend/src/hooks/useMetricsHistory.ts.
-- The points that the chart shows.
use vps_dashboard.Common.{
  ℕ, suc, ◌+◌, ◌-◌, ◌*◌, ◌≤◌, ◌≡◌, refl, ap, arith, true, List, [], ◌∷◌, filter, filter-All, leb,
  length, drop, All, All-filter, All-filter_mono, All-mono, Bool-cases, inl, inr,
}
use vps_dashboard.Types.{MetricsTimeRange, MetricsSnapshot}
use vps_dashboard.Metrics.{range_ms, visible}
use vps_dashboard.Metrics.Spacing.{IsSpaced}

module _ {Num : Type 0} where
  filter-IsSpaced :
      (cutoff : ℕ) (ps : List (MetricsSnapshot Num))
      → IsSpaced ps
      → IsSpaced (filter (λ p. leb cutoff p.timestamp) ps)
  filter-IsSpaced cutoff [] h = tt
  filter-IsSpaced cutoff (p ∷ ps) h = elim (Bool-cases (leb cutoff p.timestamp)) [
    | inl kept ↦ rw kept (
      All-filter_mono (λ q. p.timestamp + 1500 ≤ q.timestamp) (λ q. leb cutoff q.timestamp) ps h.0,
      filter-IsSpaced cutoff ps h.1,
    )
    | inr dropped ↦ rw dropped (filter-IsSpaced cutoff ps h.1)
  ]

  -- Of points in order, the recent ones are the last ones.
  recent-eq-drop :
      (cutoff : ℕ) (ps : List (MetricsSnapshot Num))
      → IsSpaced ps
      → (k : ℕ) × (filter (λ p. leb cutoff p.timestamp) ps ≡ drop k ps)
  recent-eq-drop cutoff [] h = (0, refl)
  recent-eq-drop cutoff (p ∷ ps) h = elim (Bool-cases (leb cutoff p.timestamp)) [
    | inl kept ↦ (
      0,
      rw kept (
          ap (λ qs. p ∷ qs)
            (filter-All (λ q. leb cutoff q.timestamp) ps (later ps h.0 (ground arith)))),
    )
    | inr dropped ↦ let rest = recent-eq-drop cutoff ps h.1 in (suc rest.0, rw dropped rest.1)
  ]
    where
      later :
          (qs : List (MetricsSnapshot Num))
          → All (λ q. p.timestamp + 1500 ≤ q.timestamp) qs
          → cutoff ≤ p.timestamp
          → All (λ q. leb cutoff q.timestamp ≡ true) qs
      later [] far c = tt
      later (q ∷ qs) far c = (ground (arith, far.0), later qs far.1 c)

  -- Of points that are at least 1.5 s apart, the chart shows a final part.
  pub visible-eq-drop :
      (now : ℕ) (range : MetricsTimeRange) (ps : List (MetricsSnapshot Num))
      → IsSpaced ps
      → (k : ℕ) × (visible now range ps ≡ drop k ps)
  unfolding visible
  visible-eq-drop now range ps h = recent-eq-drop (now - range_ms range) ps h

  span :
      (now start : ℕ) (ps : List (MetricsSnapshot Num))
      → IsSpaced ps
      → All (λ p. p.timestamp ≤ now) ps
      → All (λ p. start ≤ p.timestamp) ps
      → start ≤ now
      → length ps * 1500 ≤ now - start + 1500
  span now start [] h past recent ordered = omega arith
  span now start (p ∷ []) h past recent ordered = omega arith
  span now start (p ∷ q ∷ qs) h past recent ordered =
      let far : p.timestamp + 1500 ≤ q.timestamp = h.0.0 in
      let low : start ≤ p.timestamp = recent.0 in
      let high : q.timestamp ≤ now = past.1.0 in
      let tail_recent : All (λ r. start + 1500 ≤ r.timestamp) (q ∷ qs) =
        All-mono (λ r. p.timestamp + 1500 ≤ r.timestamp) (λ r. start + 1500 ≤ r.timestamp)
          (λ r k. omega arith) (q ∷ qs) h.0 in
      let rest = span now (start + 1500) (q ∷ qs) h.1 past.1 tail_recent (omega arith) in
      omega arith

  -- If the points are at least 1.5 s apart and none is later than now, the number of points
  -- shown, times 1500 ms, is at most the range and 1500 ms more.
  pub visible_bound :
      (now : ℕ) (range : MetricsTimeRange) (ps : List (MetricsSnapshot Num))
      → IsSpaced ps
      → All (λ p. p.timestamp ≤ now) ps
      → length (visible now range ps) * 1500 ≤ range_ms range + 1500
  unfolding visible
  visible_bound now range ps h past =
      let cutoff = now - range_ms range in
      let recent =
        All-mono (λ p. leb cutoff p.timestamp ≡ true) (λ p. cutoff ≤ p.timestamp)
          (λ p k. ground arith) (filter (λ p. leb cutoff p.timestamp) ps)
          (All-filter (λ p. leb cutoff p.timestamp) ps) in
      let bound =
        span now cutoff (filter (λ p. leb cutoff p.timestamp) ps) (filter-IsSpaced cutoff ps h)
          (All-filter_mono (λ p. p.timestamp ≤ now) (λ p. leb cutoff p.timestamp) ps past) recent
          (omega arith) in
      omega arith

  -- A shorter range shows a part of what a longer one shows.
  pub visible-visible :
      (now : ℕ) (range longer : MetricsTimeRange) (ps : List (MetricsSnapshot Num))
      → range_ms range ≤ range_ms longer
      → visible now range (visible now longer ps) ≡ visible now range ps
  unfolding visible
  visible-visible now range longer [] h = refl
  visible-visible now range longer (p ∷ ps) h =
      ground (arith, visible-visible now range longer ps h)
