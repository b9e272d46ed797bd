-- ===== src/Metrics/Spacing.antt =====
-- Code: frontend/src/hooks/useMetricsHistory.ts.
-- The distances of the points in time.
use vps_dashboard.Common.{
  ℕ, suc, ◌+◌, ◌-◌, ◌≤◌, ◌<◌, ◌≡◌, ◌≢◌, refl, ap, arith, Bool, true, false, none, some, List, [],
  ◌∷◌, ◌++◌, ltb, ◌==◌, if◌then◌else◌, get_last?, All, All-append, All-mono, Option-cases, inl, inr,
}
use vps_dashboard.Types.{MetricsTimeRange, MetricsSnapshot}
use vps_dashboard.Metrics.{
  Reading, Answer, failed, body, same_range, mapped, with_points, reading_at, append, HistoryState,
  HistoryEvent, load_ended, read, range_set, handle, handle_all,
}

module _ {Num : Type 0} where
  -- Every point stands at least 1.5 s after each one before it.
  abbrev pub IsSpaced : List (MetricsSnapshot Num) → Type 0
  IsSpaced [] = Unit
  IsSpaced (p ∷ ps) = All (λ q. p.timestamp + 1500 ≤ q.timestamp) ps × IsSpaced ps

  up_to_last :
      (ps : List (MetricsSnapshot Num)) (q : MetricsSnapshot Num)
      → IsSpaced ps
      → get_last? ps ≡ some q
      → All (λ p. p.timestamp ≤ q.timestamp) ps
  up_to_last [] q h e = tt
  up_to_last (p ∷ []) q h e = (ground arith, tt)
  up_to_last (p ∷ r ∷ ps) q h e =
      let rest = up_to_last (r ∷ ps) q h.1 e in (omega (arith, h.0.0, rest.0), rest)

  IsSpaced-concat :
      (ps : List (MetricsSnapshot Num)) (q : MetricsSnapshot Num)
      → IsSpaced ps
      → All (λ p. p.timestamp + 1500 ≤ q.timestamp) ps
      → IsSpaced (ps ++ q ∷ [])
  IsSpaced-concat [] q h far = (tt, tt)
  IsSpaced-concat (p ∷ ps) q h far = (
    All-append (λ r. p.timestamp + 1500 ≤ r.timestamp) ps (q ∷ []) h.0 (far.0, tt),
    IsSpaced-concat ps q h.1 far.1,
  )

  -- Whatever the clock says, also when it is put back, a new reading keeps the distances.
  pub append-IsSpaced :
      (ts : ℕ) (r : Reading Num) (prev : List (MetricsSnapshot Num))
      → IsSpaced prev
      → IsSpaced (append ts r prev)
  unfolding append
  append-IsSpaced ts r [] h = (tt, tt)
  append-IsSpaced ts r (p ∷ ps) h = elim (Option-cases (get_last? (p ∷ ps))) [
    | inl e ↦ absurd (has_last p ps e)
    | inr (q, e) ↦ rw e (late (ltb (ts - q.timestamp) 1500) q refl e)
  ]
    where
      has_last :
          (x : MetricsSnapshot Num) (xs : List (MetricsSnapshot Num)) → get_last? (x ∷ xs) ≢ none
      has_last x [] = cc
      has_last x (y ∷ xs) = has_last y xs

      late :
          (early : Bool) (q : MetricsSnapshot Num)
          → early ≡ ltb (ts - q.timestamp) 1500
          → get_last? (p ∷ ps) ≡ some q
          → IsSpaced (if early then p ∷ ps else (p ∷ ps) ++ reading_at ts r ∷ [])
      late true q b e = h
      late false q b e = IsSpaced-concat (p ∷ ps) (reading_at ts r) h (
          All-mono (λ x. x.timestamp ≤ q.timestamp) (λ x. x.timestamp + 1500 ≤ ts)
            (λ x k. ground arith) (p ∷ ps) (up_to_last (p ∷ ps) q h e))

  -- What an event brings in is spaced: the points of an answer are.
  abbrev pub BringsSpaced : HistoryEvent Num → Type 0
  BringsSpaced (load_ended run failed) = Unit
  BringsSpaced (load_ended run (body points)) = IsSpaced (mapped points)
  BringsSpaced (read ts r connected) = Unit
  BringsSpaced (range_set range) = Unit

  either :
      (b : Bool) (x y : HistoryState Num)
      → IsSpaced x.points
      → IsSpaced y.points
      → IsSpaced (if b then x else y).points
  either true x y h k = h
  either false x y h k = k

  handle-IsSpaced :
      (s : HistoryState Num) (e : HistoryEvent Num)
      → BringsSpaced e
      → IsSpaced s.points
      → IsSpaced (handle s e).points
  unfolding handle
  handle-IsSpaced s (load_ended run failed) brings h = h
  handle-IsSpaced s (load_ended run (body points)) brings h =
      either (run == s.run) (with_points s (mapped points)) s brings h
  handle-IsSpaced s (read ts r connected) brings h =
      either connected (with_points s (append ts r s.points)) s (append-IsSpaced ts r s.points h) h
  handle-IsSpaced s (range_set range) brings h =
      either (same_range range s.range) s
        (record { points = s.points; range = range; run = suc s.run }) h h

  -- If the points of every answer of the backend are at least 1.5 s apart, the points that the
  -- hook holds are at all times, whatever the clock says when a reading comes.
  pub handle_all-IsSpaced :
      (es : List (HistoryEvent Num)) (s : HistoryState Num)
      → All BringsSpaced es
      → IsSpaced s.points
      → IsSpaced (handle_all s es).points
  unfolding handle_all
  handle_all-IsSpaced [] s brings h = h
  handle_all-IsSpaced (e ∷ es) s brings h =
      handle_all-IsSpaced es (handle s e) brings.1 (handle-IsSpaced s e brings.0 h)

  handle-run : (s : HistoryState Num) (e : HistoryEvent Num) → s.run ≤ (handle s e).run
  unfolding handle
  handle-run s (load_ended run failed) = omega arith
  handle-run s (load_ended run (body points)) = ground arith
  handle-run s (read ts r connected) = ground arith
  handle-run s (range_set range) = ground arith

  handle_all-run :
      (es : List (HistoryEvent Num)) (s : HistoryState Num) → s.run ≤ (handle_all s es).run
  unfolding handle_all
  handle_all-run [] s = omega arith
  handle_all-run (e ∷ es) s = omega (arith, handle-run s e, handle_all-run es (handle s e))

  old_answer :
      (s : HistoryState Num) (run : ℕ) (a : Answer Num)
      → run < s.run
      → handle s (load_ended run a) ≡ s
  unfolding handle
  old_answer s run failed old = refl
  old_answer s run (body points) old =
      let differs : (run == s.run) ≡ false = ground arith in
      ap (λ b. if b then with_points s (mapped points) else s) differs

  range_set-run :
      (s : HistoryState Num) (range : MetricsTimeRange)
      → same_range range s.range ≡ false
      → (handle s (range_set range)).run ≡ suc s.run
  unfolding handle
  range_set-run s range other = rw other refl

  -- Once another range is chosen, no answer to a request of an earlier run of the effect changes
  -- anything, whatever happens in between.
  pub late_answer :
      (s : HistoryState Num) (range : MetricsTimeRange) (es : List (HistoryEvent Num)) (run : ℕ)
      (a : Answer Num)
      → same_range range s.range ≡ false
      → run ≤ s.run
      → handle (handle_all (handle s (range_set range)) es) (load_ended run a)
        ≡ handle_all (handle s (range_set range)) es
  late_answer s range es run a other old =
      old_answer (handle_all (handle s (range_set range)) es) run a (
        ground
          (arith, old, range_set-run s range other, handle_all-run es (handle s (range_set range))))
