-- ===== src/Backend/History/Mean.antt =====
-- Code: internal/host/history.go.
-- The averages of percentages are percentages.
use Prim.Native.Nat.{◌/◌}
use vps_dashboard.Common.{
  ℕ, suc, ◌+◌, ◌-◌, ◌*◌, ◌≤◌, ◌<◌, ◌≡◌, subst, arith, true, false, List, [], ◌∷◌, ◌++◌, length,
  length-filter-le, leb, ◌==◌, if◌then◌else◌, All, All-append, All-filter_mono, Bool-cases, inl,
  inr, take_last, negsuc, ℤ,
}
use vps_dashboard.Common.Number.{Number}
use vps_dashboard.Backend.History.{
  Sample, History, Bucket, empty_bucket, average, flush, added, buckets, at_least_1, last_time,
  first_time, downsampled, in_range, range_of, same_index, index_of,
}
use vps_dashboard.Backend.History.Kept.{All-drop}

-- What the sums and quotients of float64 keep: sums up to 2 ^ 53 of whole bounds, and quotients.
pub record Averaging (num : Number) : Type 0 where
  pub add : num.N → num.N → num.N
  pub over : num.N → ℕ → num.N
  pub add_nonneg :
      (a b : num.N)
      → num.le (num.of_ℕ 0) a ≡ true
      → num.le (num.of_ℕ 0) b ≡ true
      → num.le (num.of_ℕ 0) (add a b) ≡ true
  pub add_bounded :
      (a b : num.N) (m n : ℕ)
      → m + n ≤ 9007199254740992
      → num.le a (num.of_ℕ m) ≡ true
      → num.le b (num.of_ℕ n) ≡ true
      → num.le (add a b) (num.of_ℕ (m + n)) ≡ true
  pub over_within :
      (a : num.N) (m n : ℕ)
      → n * m ≤ 9007199254740992
      → 0 < n
      → num.le (num.of_ℕ 0) a ≡ true
      → num.le a (num.of_ℕ (n * m)) ≡ true
      → (num.le (num.of_ℕ 0) (over a n) ≡ true) × (num.le (over a n) (num.of_ℕ m) ≡ true)

module _ (num : Number) (mean : Averaging num) where
  open num use {N, le, of_ℕ, le-of_ℕ}
  open mean use {add, over, add_nonneg, add_bounded, over_within}

  abbrev pub IsPercent : N → Type 0
  IsPercent x = (le (of_ℕ 0) x ≡ true) × (le x (of_ℕ 100) ≡ true)

  -- A field of the samples, which the loop sums and divides.
  pub record IsSummed (f : Sample N → N) : Type 0 where
    pub of_empty : (i : ℤ) → f (empty_bucket (of_ℕ 0) add over i).acc ≡ of_ℕ 0
    pub of_added :
        (b : Bucket (of_ℕ 0) add over) (s : Sample N)
        → f (added (of_ℕ 0) add over b s).acc ≡ add (f b.acc) (f s)
    pub of_average : (acc : Sample N) (n : ℕ) → f (average (of_ℕ 0) add over acc n) ≡ over (f acc) n

  -- The sum of a bucket is at most a hundred for each sample.
  abbrev IsFull : (Sample N → N) → Bucket (of_ℕ 0) add over → Type 0
  IsFull f b = (le (of_ℕ 0) (f b.acc) ≡ true) × (le (f b.acc) (of_ℕ (b.count * 100)) ≡ true)

  module _ (f : Sample N → N) (summed : IsSummed f) (start dur : ℕ) where
    empty-IsFull : (i : ℤ) → IsFull f (empty_bucket (of_ℕ 0) add over i)
    empty-IsFull i = rw (summed.of_empty i) (le-of_ℕ 0 0, le-of_ℕ 0 0)

    added-IsFull :
        (b : Bucket (of_ℕ 0) add over) (s : Sample N)
        → b.count ≤ 50000
        → IsFull f b
        → IsPercent (f s)
        → IsFull f (added (of_ℕ 0) add over b s)
    added-IsFull b s few full p =
        let next : b.count * 100 + 100 ≡ suc b.count * 100 = omega arith in
        rw (summed.of_added b s) (
          add_nonneg (f b.acc) (f s) full.0 p.0,
          subst (λ n. le (add (f b.acc) (f s)) (of_ℕ n) ≡ true) next
              (add_bounded (f b.acc) (f s) (b.count * 100) 100 (omega (arith, few)) full.1 p.1),
        )

    flush-IsPercent :
        (b : Bucket (of_ℕ 0) add over)
        → b.count ≤ 50000
        → IsFull f b
        → All (λ s. IsPercent (f s)) (flush (of_ℕ 0) add over b)
    unfolding flush
    flush-IsPercent b few full = elim (Bool-cases (b.count == 0)) [
      | inl nothing ↦ rw nothing tt
      | inr some_in ↦
          rw (some_in, summed.of_average b.acc b.count)
            (
              over_within (f b.acc) 100 b.count (omega (arith, few)) (ground arith) full.0 full.1,
              tt,
            )
    ]

    buckets-IsPercent :
        (b : Bucket (of_ℕ 0) add over) (ss : List (Sample N))
        → b.count + length ss ≤ 50000
        → IsFull f b
        → All (λ s. IsPercent (f s)) ss
        → All (λ s. IsPercent (f s)) (buckets (of_ℕ 0) add over start dur b ss)
    unfolding buckets
    buckets-IsPercent b [] few full all = flush-IsPercent b (omega (arith, few)) full
    buckets-IsPercent b (s ∷ ss) few full all =
        let idx = index_of start dur s.timestamp in
        elim (same_index idx b.index)
          as (λ c.
            All (λ s. IsPercent (f s))
              ((if c then [] else flush (of_ℕ 0) add over b)
                ++ buckets (of_ℕ 0) add over start dur
                    (added (of_ℕ 0) add over (if c then b else empty_bucket (of_ℕ 0) add over idx)
                      s)
                    ss)) [
                      | true ↦
                          buckets-IsPercent (added (of_ℕ 0) add over b s) ss (omega (arith, few))
                            (added-IsFull b s (omega (arith, few)) full all.0) all.1
                      | false ↦
                          All-append _ (flush (of_ℕ 0) add over b) _
                            (flush-IsPercent b (omega (arith, few)) full)
                            (buckets-IsPercent
                              (added (of_ℕ 0) add over (empty_bucket (of_ℕ 0) add over idx) s) ss
                              (omega (arith, few))
                              (added-IsFull (empty_bucket (of_ℕ 0) add over idx) s (omega arith)
                                (empty-IsFull idx) all.0)
                              all.1)
                    ]

  module _ (f : Sample N → N) (summed : IsSummed f) where
    downsampled-IsPercent :
        (n : ℕ) (src : List (Sample N))
        → length src ≤ 50000
        → All (λ s. IsPercent (f s)) src
        → All (λ s. IsPercent (f s)) (downsampled (of_ℕ 0) add over n src)
    unfolding downsampled
    downsampled-IsPercent n src few all =
        let start = first_time src in
        let span = last_time src - start in
        elim (span == 0)
          as (λ c.
            All (λ s. IsPercent (f s))
              (if c
                then take_last 1 src
                else buckets (of_ℕ 0) add over start (at_least_1 (span / n))
                    (empty_bucket (of_ℕ 0) add over (negsuc 0)) src)) [
                      | true ↦ All-drop _ (length src - 1) src all
                      | false ↦
                          buckets-IsPercent f summed start (at_least_1 (span / n))
                            (empty_bucket (of_ℕ 0) add over (negsuc 0)) src (omega (arith, few))
                            (empty-IsFull f summed start (at_least_1 (span / n)) (negsuc 0)) all
                    ]

    pub range_of-IsPercent :
        (now range_dur max_points : ℕ) (h : History N)
        → length h.samples ≤ 50000
        → All (λ s. IsPercent (f s)) h.samples
        → All (λ s. IsPercent (f s)) (range_of (of_ℕ 0) add over now range_dur max_points h)
    unfolding range_of
    range_of-IsPercent now range_dur max_points h few all =
        let n = at_least_1 max_points in
        let recent = λ (s : Sample N). leb (now - range_dur) s.timestamp in
        let src = in_range (now - range_dur) h.samples in
        let kept : All (λ s. IsPercent (f s)) src =
          All-filter_mono (λ s. IsPercent (f s)) recent h.samples all in
        elim (leb (length src) n)
          as (λ c.
            All (λ s. IsPercent (f s)) (if c then src else downsampled (of_ℕ 0) add over n src)) [
              | true ↦ kept
              | false ↦
                  downsampled-IsPercent n src
                    (omega (arith, few, length-filter-le recent h.samples)) kept
            ]
