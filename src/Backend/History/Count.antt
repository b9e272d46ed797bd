-- ===== src/Backend/History/Count.antt =====
-- Code: internal/host/history.go.
-- How many points a range has.
use Prim.Native.Nat.{◌/◌}
use native.Mathlib.Nat.{
  le-div_iff_mul-le, div-lt_iff_lt-mul, div-mul-le_self, lt-div-mul-add, mul-le-mul_right,
}
use vps_dashboard.Common.{
  ℕ, ◌+◌, ◌-◌, ◌*◌, ◌≤◌, ◌<◌, ◌≡◌, refl, ap, ap₂, sym, ◌∙◌, arith, true, false, List, [], ◌∷◌, ◌++◌,
  length, length-append, leb, ◌==◌, if◌then◌else◌, Bool-cases, inl, inr, take_last,
  length-take_last, negsuc, pos,
}
use vps_dashboard.Backend.History.{
  Sample, History, Bucket, empty_bucket, flush, added, buckets, at_least_1, last_time, downsampled,
  in_range, range_of, same_index, index_of,
}
use vps_dashboard.Backend.History.Spaced.{IsApart, IsApart-filter}

div_mono : (a b k : ℕ) → 0 < k → a ≤ b → a / k ≤ b / k
div_mono a b k p h = (le-div_iff_mul-le p).1 (omega (arith, div-mul-le_self a k, h))

pub index_of-later : (start dur t : ℕ) → start ≤ t → index_of start dur t ≡ pos ((t - start) / dur)
index_of-later start dur t h = let later : leb start t ≡ true = ground arith in rw later refl

-- The samples are in the order of their times, from `lo` on and up to `top`.
abbrev pub IsOrdered : {Num : Type 0} → ℕ → ℕ → List (Sample Num) → Type 0
IsOrdered lo top [] = Unit
IsOrdered lo top (s ∷ ss) = (lo ≤ s.timestamp) × (s.timestamp ≤ top) × IsOrdered s.timestamp top ss

module _ {Num : Type 0} (nought : Num) (add : Num → Num → Num) (over : Num → ℕ → Num)
    (start dur : ℕ) where
  buckets-same :
      (b : Bucket nought add over) (s : Sample Num) (ss : List (Sample Num))
      → same_index (index_of start dur s.timestamp) b.index ≡ true
      → buckets nought add over start dur b (s ∷ ss)
        ≡ buckets nought add over start dur (added nought add over b s) ss
  unfolding buckets
  buckets-same b s ss e =
      ap
        (λ c.
          (if c then [] else flush nought add over b)
          ++ buckets nought add over start dur
              (added nought add over
                (if c then b else empty_bucket nought add over (index_of start dur s.timestamp)) s)
              ss)
        e

  pub buckets-next :
      (b : Bucket nought add over) (s : Sample Num) (ss : List (Sample Num))
      → same_index (index_of start dur s.timestamp) b.index ≡ false
      → buckets nought add over start dur b (s ∷ ss)
        ≡ flush nought add over b
          ++ buckets nought add over start dur
              (added nought add over
                (empty_bucket nought add over (index_of start dur s.timestamp))
                s)
              ss
  unfolding buckets
  buckets-next b s ss e =
      ap
        (λ c.
          (if c then [] else flush nought add over b)
          ++ buckets nought add over start dur
              (added nought add over
                (if c then b else empty_bucket nought add over (index_of start dur s.timestamp)) s)
              ss)
        e

  length-flush : (b : Bucket nought add over) → length (flush nought add over b) ≤ 1
  unfolding flush
  length-flush b = ground arith

  -- Each bucket after the current one, whose last sample is of the time `t`, has a greater index.
  length-buckets :
      (top : ℕ) (b : Bucket nought add over) (t : ℕ) (ss : List (Sample Num))
      → 0 < dur
      → b.index ≡ pos ((t - start) / dur)
      → start ≤ t
      → t ≤ top
      → IsOrdered t top ss
      → length (buckets nought add over start dur b ss) + (t - start) / dur
        ≤ (top - start) / dur + 1
  unfolding buckets
  length-buckets top b t [] p e lo hi ordered =
      omega (arith, length-flush b, div_mono (t - start) (top - start) dur p (omega (arith, hi)))
  length-buckets top b t (s ∷ ss) p e lo hi ordered =
      let now = (t - start) / dur in
      let next = (s.timestamp - start) / dur in
      let later = index_of-later start dur s.timestamp (omega (arith, lo, ordered.0)) in
      let mono : now ≤ next =
        div_mono (t - start) (s.timestamp - start) dur p (omega (arith, ordered.0)) in
      let test : same_index (index_of start dur s.timestamp) b.index ≡ (next == now) =
        ap₂ same_index later e in
      let from : start ≤ s.timestamp = omega (arith, lo, ordered.0) in
      elim (Bool-cases (next == now)) [
        | inl same ↦
            let stay : next ≡ now = ground arith in
            let ih =
              length-buckets top (added nought add over b s) s.timestamp ss p
                (e ∙ ap pos (sym stay)) from ordered.1 ordered.2 in
            omega (arith, ap length (buckets-same b s ss (test ∙ same)), ih, stay)
        | inr other ↦
            let move : now < next = ground arith in
            let fresh =
              added nought add over (empty_bucket nought add over (index_of start dur s.timestamp))
                s in
            let ih = length-buckets top fresh s.timestamp ss p later from ordered.1 ordered.2 in
            omega (
              arith,
              ap length (buckets-next b s ss (test ∙ other)),
              length-append (flush nought add over b) (buckets nought add over start dur fresh ss),
              length-flush b,
              ih,
              move,
            )
      ]

module _ {Num : Type 0} where
  le-last_time :
      (s : Sample Num) (ss : List (Sample Num))
      → IsApart 0 (s ∷ ss)
      → s.timestamp ≤ last_time (s ∷ ss)
  le-last_time s [] h = omega arith
  le-last_time s (t ∷ ss) h = omega (arith, h.0.0, le-last_time t ss h.1)

  IsApart-IsOrdered :
      (s : Sample Num) (ss : List (Sample Num))
      → IsApart 0 (s ∷ ss)
      → IsOrdered s.timestamp (last_time (s ∷ ss)) ss
  IsApart-IsOrdered s [] h = tt
  IsApart-IsOrdered s (t ∷ ss) h =
      (omega (arith, h.0.0), le-last_time t ss h.1, IsApart-IsOrdered t ss h.1)

-- A bucket is so long that fewer than twice the number of points cover the span.
span-covered : (span n : ℕ) → 0 < n → span / at_least_1 (span / n) + 1 ≤ 2 * n
span-covered span n p =
    let dur : ℕ = at_least_1 (span / n) in
    let positive : 0 < dur = ground arith in
    let long : span / n ≤ dur = ground arith in
    let part : span / n * n ≤ dur * n = mul-le-mul_right n long in
    let one_each : 1 * n ≤ dur * n = mul-le-mul_right n positive in
    let all : span < 2 * n * dur = omega (arith, lt-div-mul-add {a = span} p, part, one_each) in
    omega (arith, (div-lt_iff_lt-mul positive).1 all)

module _ {Num : Type 0} (nought : Num) (add : Num → Num → Num) (over : Num → ℕ → Num) where
  length-downsampled :
      (n : ℕ) (src : List (Sample Num))
      → 0 < n
      → IsApart 0 src
      → length (downsampled nought add over n src) ≤ 2 * n
  unfolding downsampled buckets flush
  length-downsampled n [] p h = omega arith
  length-downsampled n (s ∷ ss) p h =
      let start = s.timestamp in
      let top = last_time (s ∷ ss) in
      let dur = at_least_1 ((top - start) / n) in
      let positive : 0 < dur = ground arith in
      let fresh =
        added nought add over (empty_bucket nought add over (index_of start dur start)) s in
      let index = index_of-later start dur start (omega arith) in
      let test : same_index (index_of start dur start) (negsuc 0) ≡ false =
        ap (λ i. same_index i (negsuc 0)) index in
      let first =
        buckets-next nought add over start dur (empty_bucket nought add over (negsuc 0)) s ss
          test in
      let rest =
        length-buckets nought add over start dur top fresh start ss positive index (omega arith)
          (le-last_time s ss h) (IsApart-IsOrdered s ss h) in
      elim (top - start == 0)
        as (λ c.
          length (
            if c
            then take_last 1 (s ∷ ss)
            else buckets nought add over start dur (empty_bucket nought add over (negsuc 0))
                (s ∷ ss))
          ≤ 2 * n) [
            | true ↦ omega (arith, length-take_last 1 (s ∷ ss))
            | false ↦ omega (arith, ap length first, rest, span-covered (top - start) n p)
          ]

  -- If the samples are in the order of their times, Range returns at most twice the number of
  -- points asked for, or two if fewer than one is asked for.
  pub length-range_of :
      (now range_dur max_points : ℕ) (h : History Num)
      → IsApart 0 h.samples
      → length (range_of nought add over now range_dur max_points h) ≤ 2 * at_least_1 max_points
  unfolding range_of
  length-range_of now range_dur max_points h apart =
      let n = at_least_1 max_points in
      let src = in_range (now - range_dur) h.samples in
      let positive : 0 < n = ground arith in
      elim (Bool-cases (leb (length src) n)) [
        | inl few ↦ rw few (ground arith)
        | inr many ↦
            rw many (length-downsampled n src positive (IsApart-filter 0 _ h.samples apart))
      ]
