-- ===== src/Backend/History/Spaced.antt =====
-- Code: internal/host/history.go.
-- The points of a range stand as far apart as the samples do.
use Prim.Native.Nat.{◌/◌}
use native.Mathlib.Nat.{div-le_of_le-mul, le-div_iff_mul-le, mul-le-mul_left}
use vps_dashboard.Common.{
  ℕ, zero, suc, ◌+◌, ◌-◌, ◌*◌, ◌≤◌, ◌<◌, ◌≡◌, refl, ap, arith, Bool, true, false, List, [], ◌∷◌,
  ◌++◌, filter, length, leb, ◌==◌, if◌then◌else◌, All, All-mono, All-filter_mono, Bool-cases, inl,
  inr, drop, take_last, negsuc,
}
use vps_dashboard.Backend.History.{
  Sample, History, Bucket, empty_bucket, flush, added, buckets, at_least_1, last_time, downsampled,
  in_range, range_of, same_index, index_of,
}

-- Every sample stands at least `d` milliseconds after each one before it.
abbrev pub IsApart : {Num : Type 0} → ℕ → List (Sample Num) → Type 0
IsApart d [] = Unit
IsApart d (s ∷ ss) = All (λ t. s.timestamp + d ≤ t.timestamp) ss × IsApart d ss

module _ {Num : Type 0} where
  pub IsApart-filter :
      (d : ℕ) (p : Sample Num → Bool) (ss : List (Sample Num))
      → IsApart d ss
      → IsApart d (filter p ss)
  IsApart-filter d p [] h = h
  IsApart-filter d p (s ∷ ss) h = elim (Bool-cases (p s)) [
    | inl kept ↦ rw kept (All-filter_mono _ p ss h.0, IsApart-filter d p ss h.1)
    | inr left ↦ rw left (IsApart-filter d p ss h.1)
  ]

  pub IsApart-drop : (d n : ℕ) (ss : List (Sample Num)) → IsApart d ss → IsApart d (drop n ss)
  IsApart-drop d zero ss h = h
  IsApart-drop d (suc n) [] h = h
  IsApart-drop d (suc n) (s ∷ ss) h = IsApart-drop d n ss h.1

-- The average of times between two bounds lies between them.
average_between :
    (sum n lo hi : ℕ) → 0 < n → n * lo ≤ sum → sum ≤ n * hi → (lo ≤ sum / n) × (sum / n ≤ hi)
average_between sum n lo hi p l h =
    ((le-div_iff_mul-le p).1 (omega (arith, l)), div-le_of_le-mul n h)

module _ {Num : Type 0} (nought : Num) (add : Num → Num → Num) (over : Num → ℕ → Num)
    (start dur d : ℕ) where
  buckets-lower :
      (b : Bucket nought add over) (lo : ℕ) (ss : List (Sample Num))
      → 0 < b.count
      → b.count * lo ≤ b.acc.timestamp
      → All (λ s. lo ≤ s.timestamp) ss
      → All (λ s. lo ≤ s.timestamp) (buckets nought add over start dur b ss)
  unfolding buckets flush
  buckets-lower b lo [] p l all =
      let full : (b.count == 0) ≡ false = ground arith in
      rw full ((le-div_iff_mul-le p).1 (omega (arith, l)), tt)
  buckets-lower b lo (s ∷ ss) p l all =
      let idx = index_of start dur s.timestamp in
      elim (same_index idx b.index)
        as (λ c.
          All (λ s. lo ≤ s.timestamp)
            ((if c then [] else flush nought add over b)
              ++ buckets nought add over start dur
                  (added nought add over (if c then b else empty_bucket nought add over idx) s)
                  ss)) [
                    | true ↦
                        buckets-lower (added nought add over b s) lo ss (omega arith)
                          (omega (arith, l, all.0)) all.1
                    | false ↦
                        let full : (b.count == 0) ≡ false = ground arith in
                        rw full (
                          (le-div_iff_mul-le p).1 (omega (arith, l)),
                          buckets-lower (added nought add over (empty_bucket nought add over idx) s)
                              lo ss (omega arith) (omega (arith, all.0)) all.1,
                        )
                  ]

  buckets-IsApart :
      (b : Bucket nought add over) (hi : ℕ) (ss : List (Sample Num))
      → 0 < b.count
      → b.acc.timestamp ≤ b.count * hi
      → All (λ s. hi + d ≤ s.timestamp) ss
      → IsApart d ss
      → IsApart d (buckets nought add over start dur b ss)
  unfolding buckets flush
  buckets-IsApart b hi [] p h all apart =
      let full : (b.count == 0) ≡ false = ground arith in rw full (tt, tt)
  buckets-IsApart b hi (s ∷ ss) p h all apart =
      let idx = index_of start dur s.timestamp in
      elim (same_index idx b.index)
        as (λ c. IsApart d (
          (if c then [] else flush nought add over b)
          ++ buckets nought add over start dur
              (added nought add over (if c then b else empty_bucket nought add over idx) s) ss)) [
                | true ↦
                    let below : b.count * hi ≤ b.count * s.timestamp =
                      mul-le-mul_left b.count (omega (arith, all.0)) in
                    buckets-IsApart (added nought add over b s) s.timestamp ss (omega arith)
                      (omega (arith, h, below, all.0)) apart.0 apart.1
                | false ↦
                    let full : (b.count == 0) ≡ false = ground arith in
                    let mean : b.acc.timestamp / b.count ≤ hi = div-le_of_le-mul b.count h in
                    rw full (
                      buckets-lower (added nought add over (empty_bucket nought add over idx) s)
                          (b.acc.timestamp / b.count + d) ss (omega arith)
                          (omega (arith, mean, all.0))
                          (All-mono _ _ (λ t k. omega (arith, mean, k)) ss all.1),
                      buckets-IsApart (added nought add over (empty_bucket nought add over idx) s)
                          s.timestamp ss (omega arith) (omega arith) apart.0 apart.1,
                    )
              ]

  -- The first sample is added to an empty bucket, of whatever index.
  buckets-first :
      (b : Bucket nought add over) (s : Sample Num) (ss : List (Sample Num))
      → b ≡ empty_bucket nought add over b.index
      → All (λ t. s.timestamp + d ≤ t.timestamp) ss
      → IsApart d ss
      → IsApart d (buckets nought add over start dur b (s ∷ ss))
  unfolding buckets flush
  buckets-first b s ss e far apart =
      let idx = index_of start dur s.timestamp in
      let none_yet : b.count ≡ 0 = ap (λ b. b.count) e in
      let sum : b.acc.timestamp ≡ 0 = ap (λ b. b.acc.timestamp) e in
      elim (same_index idx b.index)
        as (λ c. IsApart d (
          (if c then [] else flush nought add over b)
          ++ buckets nought add over start dur
              (added nought add over (if c then b else empty_bucket nought add over idx) s) ss)) [
                | true ↦
                    buckets-IsApart (added nought add over b s) s.timestamp ss (omega arith)
                      (omega (arith, sum, none_yet)) far apart
                | false ↦
                    let empty : (b.count == 0) ≡ true = ground arith in
                    rw empty (
                      buckets-IsApart (added nought add over (empty_bucket nought add over idx) s)
                        s.timestamp ss (omega arith) (omega arith) far apart)
              ]

module _ {Num : Type 0} (nought : Num) (add : Num → Num → Num) (over : Num → ℕ → Num) (d : ℕ) where
  downsampled-IsApart :
      (n : ℕ) (src : List (Sample Num))
      → IsApart d src
      → IsApart d (downsampled nought add over n src)
  unfolding downsampled buckets flush
  downsampled-IsApart n [] h = h
  downsampled-IsApart n (s ∷ ss) h =
      let start = s.timestamp in
      let span = last_time (s ∷ ss) - start in
      elim (span == 0)
        as (λ c. IsApart d (
          if c
          then take_last 1 (s ∷ ss)
          else buckets nought add over start (at_least_1 (span / n))
              (empty_bucket nought add over (negsuc 0)) (s ∷ ss))) [
                | true ↦ IsApart-drop d (length (s ∷ ss) - 1) (s ∷ ss) h
                | false ↦
                    buckets-first nought add over start (at_least_1 (span / n)) d
                      (empty_bucket nought add over (negsuc 0)) s ss refl h.0 h.1
              ]

  -- The points of a range stand at least as far apart as the samples do.
  pub range_of-IsApart :
      (now range_dur max_points : ℕ) (h : History Num)
      → IsApart d h.samples
      → IsApart d (range_of nought add over now range_dur max_points h)
  unfolding range_of
  range_of-IsApart now range_dur max_points h apart =
      let n = at_least_1 max_points in
      let src = in_range (now - range_dur) h.samples in
      let near : IsApart d src = IsApart-filter d _ h.samples apart in
      elim (leb (length src) n)
        as (λ c. IsApart d (if c then src else downsampled nought add over n src)) [
          | true ↦ near
          | false ↦ downsampled-IsApart n src near
        ]
