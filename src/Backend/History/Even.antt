-- ===== src/Backend/History/Even.antt =====
-- Code: internal/host/history.go.
-- Samples at even distances, as a regular ticker makes them.
use Prim.Native.Nat.{◌/◌}
use native.Mathlib.Nat.{mul-div_right, mul-div_left}
use vps_dashboard.Common.{
  ℕ, zero, suc, ◌+◌, ◌-◌, ◌*◌, ◌≤◌, ◌<◌, ◌≡◌, refl, ap, ap₂, sym, ◌∙◌, arith, true, false, List, [],
  ◌∷◌, length, leb, ◌==◌, if◌then◌else◌, negsuc, pos, take_last,
}
use vps_dashboard.Backend.History.{
  Sample, History, Bucket, empty_bucket, flush, added, buckets, at_least_1, last_time, downsampled,
  in_range, range_of, same_index, index_of,
}
use vps_dashboard.Backend.History.Count.{buckets-next, index_of-later}

module _ {Num : Type 0} (v : Num) where
  abbrev pub sample_at : ℕ → Sample Num
  sample_at t = record { timestamp = t; cpu = v; memory = v; disk = v; net_up = v; net_down = v }

  -- `k` samples, `d` milliseconds apart, the first one at the time `t`.
  abbrev pub evenly : ℕ → ℕ → ℕ → List (Sample Num)
  evenly t d zero = []
  evenly t d (suc k) = sample_at t ∷ evenly (t + d) d k

  length-evenly : (t d k : ℕ) → length (evenly t d k) ≡ k
  length-evenly t d zero = refl
  length-evenly t d (suc k) = ap suc (length-evenly (t + d) d k)

  last_time-evenly : (t d k : ℕ) → last_time (evenly t d (suc k)) ≡ t + k * d
  last_time-evenly t d zero = omega arith
  last_time-evenly t d (suc k) = omega (arith, last_time-evenly (t + d) d k)

  evenly-in_range : (cutoff t d k : ℕ) → cutoff ≤ t → in_range cutoff (evenly t d k) ≡ evenly t d k
  evenly-in_range cutoff t d zero h = refl
  evenly-in_range cutoff t d (suc k) h =
      let kept : leb cutoff t ≡ true = ground arith in
      rw kept (ap (sample_at t ∷◌) (evenly-in_range cutoff (t + d) d k (omega arith)))

  module _ (nought : Num) (add : Num → Num → Num) (over : Num → ℕ → Num) (start d : ℕ) where
    multiple : (i : ℕ) → 0 < d → index_of start d (start + i * d) ≡ pos i
    multiple i p =
        index_of-later start d (start + i * d) (omega arith)
        ∙ ap pos (ap (λ n. n / d) (shift (i * d)) ∙ mul-div_left i p)
      where
        shift : (n : ℕ) → start + n - start ≡ n
        shift n = omega arith

    buckets-evenly :
        (b : Bucket nought add over) (i k : ℕ)
        → 0 < d
        → 0 < b.count
        → b.index ≡ pos i
        → length (buckets nought add over start d b (evenly (start + suc i * d) d k)) ≡ suc k
    unfolding buckets flush
    buckets-evenly b i zero p full e = let f : (b.count == 0) ≡ false = ground arith in rw f refl
    buckets-evenly b i (suc k) p full e =
        let t = start + suc i * d in
        let index = multiple (suc i) p in
        let test : same_index (index_of start d t) b.index ≡ false =
          ap₂ same_index index e ∙ differs i in
        let fresh =
          added nought add over (empty_bucket nought add over (index_of start d t)) (sample_at t) in
        let rest = buckets-evenly fresh (suc i) k p (omega arith) index in
        let f : (b.count == 0) ≡ false = ground arith in
        let step : start + suc i * d + d ≡ start + suc (suc i) * d = omega arith in
        ap length (buckets-next nought add over start d b (sample_at t) (evenly (t + d) d k) test)
        ∙ rw (f, step) (ap suc rest)
      where
        differs : (n : ℕ) → (suc n == n) ≡ false
        differs n = ground arith

  module _ (nought : Num) (add : Num → Num → Num) (over : Num → ℕ → Num) where
    downsampled-evenly :
        (n t d : ℕ)
        → 0 < n
        → 0 < d
        → length (downsampled nought add over n (evenly t d (suc n))) ≡ suc n
    unfolding downsampled flush
    downsampled-evenly n t d p q =
        let span : last_time (evenly t d (suc n)) - t ≡ n * d =
          omega (arith, last_time-evenly t d n) in
        let wide : (n * d == 0) ≡ false = positive n d p q in
        let dur : at_least_1 (n * d / n) ≡ d = ap at_least_1 (mul-div_right d p) ∙ at_least d q in
        let index = multiple nought add over t d 0 q in
        let here : t + 0 * d ≡ t = omega arith in
        let test : same_index (index_of t d t) (negsuc 0) ≡ false =
          ap (λ i. same_index i (negsuc 0)) (sym (ap (index_of t d) here) ∙ index) in
        let fresh =
          added nought add over (empty_bucket nought add over (index_of t d t)) (sample_at t) in
        let step : t + d ≡ t + 1 * d = omega arith in
        let src = evenly t d (suc n) in
        let none_yet = empty_bucket nought add over (negsuc 0) in
        ap
          (λ sp. length (
            if sp == 0
            then take_last 1 src
            else buckets nought add over t (at_least_1 (sp / n)) none_yet src))
          span
        ∙ ap
            (λ c. length (
              if c
              then take_last 1 src
              else buckets nought add over t (at_least_1 (n * d / n)) none_yet src))
            wide
        ∙ ap (λ k. length (buckets nought add over t k none_yet src)) dur
        ∙ ap length
            (buckets-next nought add over t d none_yet (sample_at t) (evenly (t + d) d n) test)
        ∙ ap (λ u. length (buckets nought add over t d fresh (evenly u d n))) step
        ∙ buckets-evenly nought add over t d fresh 0 n q (omega arith)
            (sym (ap (index_of t d) here) ∙ index)
      where
        positive : (n d : ℕ) → 0 < n → 0 < d → (n * d == 0) ≡ false
        positive (suc n) (suc d) p q = ground arith
        positive zero d p q = absurd (omega (arith, p))
        positive (suc n) zero p q = absurd (omega (arith, q))

        at_least : (d : ℕ) → 0 < d → at_least_1 d ≡ d
        at_least d q = ground arith

    -- If the samples are one more than the points asked for, at even distances and all within
    -- the range, Range returns one point more than asked for.
    pub range_of-evenly :
        (now range_dur n t d : ℕ) (h : History Num)
        → 0 < n
        → 0 < d
        → now - range_dur ≤ t
        → h.samples ≡ evenly t d (suc n)
        → length (range_of nought add over now range_dur n h) ≡ suc n
    unfolding range_of
    range_of-evenly now range_dur n t d h p q recent e =
        let most : at_least_1 n ≡ n = at_least n p in
        let src : in_range (now - range_dur) h.samples ≡ evenly t d (suc n) =
          ap (in_range (now - range_dur)) e
          ∙ evenly-in_range (now - range_dur) t d (suc n) recent in
        let many : leb (length (evenly t d (suc n))) n ≡ false =
          ap (λ k. leb k n) (length-evenly t d (suc n)) ∙ over_full n in
        ap
          (λ s. length (
            if leb (length s) (at_least_1 n)
            then s
            else downsampled nought add over (at_least_1 n) s))
          src
        ∙ ap
            (λ m. length (
              if leb (length (evenly t d (suc n))) m
              then evenly t d (suc n)
              else downsampled nought add over m (evenly t d (suc n))))
            most
        ∙ ap
            (λ c. length (
              if c then evenly t d (suc n) else downsampled nought add over n (evenly t d (suc n))))
            many
        ∙ downsampled-evenly n t d p q
      where
        at_least : (d : ℕ) → 0 < d → at_least_1 d ≡ d
        at_least d q = ground arith

        over_full : (n : ℕ) → leb (suc n) n ≡ false
        over_full n = ground arith
