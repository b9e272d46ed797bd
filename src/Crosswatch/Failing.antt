-- ===== src/Crosswatch/Failing.antt =====
-- frontend/src/hooks/useCrosswatch.ts: the runs of the effect where TMDB does not answer some
-- request.
use vps_dashboard.Common.{
  ℕ, zero, suc, ◌≡◌, ◌≢◌, refl, sym, ap, ◌∙◌, arith, Bool, true, false, ◌&&◌, ◌||◌, none, some,
  List, [], ◌∷◌, map, is_empty, take, ◌==◌, if◌then◌else◌, Bool-cases, Option-cases, inl, inr, All,
}
use vps_dashboard.Types.{TraktMovie}
use vps_dashboard.Crosswatch.{
  id_of, has, Cache, Answer, is_missing, uncached, overlay, batch_size, fetch_tmdb_detail,
  fetch_batch, enrich,
}
use vps_dashboard.Crosswatch.Enrichment.{
  enrich_runs, enrich_runs-zero, enrich_runs-none, enrich_runs-some, fails, is_missing-run,
}

module _ {Num : Type 0} (nought : Num) (answer : ℕ → Answer Num) where
  has-uncached :
      (ms : List TraktMovie) (cache : Cache Num) (id : ℕ)
      → id ≢ 0
      → has (map id_of (uncached ms cache)) id ≡ (has (map id_of ms) id && is_missing (cache id))
  unfolding uncached
  has-uncached [] cache id proper = refl
  has-uncached (m ∷ ms) cache id proper = elim (Bool-cases (id_of m == id)) [
    | inl same ↦
        let e : id_of m ≡ id = ground arith in
        ground (arith, same, ap (λ i. is_missing (cache i)) e, has-uncached ms cache id proper)
    | inr other ↦ ground (arith, other, has-uncached ms cache id proper)
  ]

  still_missing :
      (ms : List TraktMovie) (id : ℕ)
      → has (map id_of ms) id ≡ true
      → id ≢ 0
      → (cache : Cache Num) → is_missing (cache id) ≡ true
      → uncached ms cache ≢ []
  still_missing ms id listed proper cache missing = λ e.
      ground (
        arith,
        ap (λ xs. has (map id_of xs) id) e,
        has-uncached ms cache id proper,
        listed,
        missing,
      )

  -- While one movie fails there is always a next run.
  pub enrich_retries :
      (ms : List TraktMovie) (id : ℕ)
      → has (map id_of ms) id ≡ true
      → id ≢ 0
      → fails nought answer id ≡ true
      → (n : ℕ) (cache : Cache Num) → is_missing (cache id) ≡ true
      → uncached ms (enrich_runs nought answer ms n cache) ≢ []
  unfolding enrich_runs
  enrich_retries ms id listed proper failing zero cache missing =
      still_missing ms id listed proper cache missing
  enrich_retries ms id listed proper failing (suc n) cache missing =
      elim (Option-cases (enrich nought answer true false ms cache)) [
        | inl e ↦
            rw (enrich_runs-none nought answer ms n cache e)
              (still_missing ms id listed proper cache missing)
        | inr (cache', e) ↦ rw (enrich_runs-some nought answer ms n cache cache' e) (
            enrich_retries ms id listed proper failing n cache'
              (ground (arith, missing, failing, is_missing-run nought answer ms cache cache' id e)))
      ]

  fetch_batch-failing :
      (results : Cache Num) (batch : List TraktMovie)
      → All (λ m. fetch_tmdb_detail nought (answer (id_of m)) ≡ none) batch
      → fetch_batch nought answer results batch ≡ results
  unfolding fetch_batch
  fetch_batch-failing results [] h = refl
  fetch_batch-failing results (m ∷ ms) (e, rest) = rw e (fetch_batch-failing results ms rest)

  enrich-failing :
      (ms : List TraktMovie) (cache cache' : Cache Num)
      → All
          (λ m. fetch_tmdb_detail nought (answer (id_of m)) ≡ none)
          (take batch_size (uncached ms cache))
      → enrich nought answer true false ms cache ≡ some cache'
      → cache' ≡ cache
  unfolding enrich
  enrich-failing ms cache cache' h e =
      let batch = take batch_size (uncached ms cache) in
      split (is_empty ms || is_empty (uncached ms cache))
        (fetch_batch nought answer (λ i. none) batch) e (fetch_batch-failing (λ i. none) batch h)
    where
      split :
          (stop : Bool) (results : Cache Num)
          → (if stop then none else some (overlay cache results)) ≡ some cache'
          → results ≡ (λ i. none)
          → cache' ≡ cache
      split true results k r = cc
      split false results k r =
          let e : overlay cache results ≡ cache' = cc in sym e ∙ ap (overlay cache) r

  -- If the first ten movies that lack their details fail, no number of runs of the effect
  -- changes the cache.
  pub enrich_starves :
      (ms : List TraktMovie) (cache : Cache Num)
      → All
          (λ m. fetch_tmdb_detail nought (answer (id_of m)) ≡ none)
          (take batch_size (uncached ms cache))
      → (n : ℕ) → enrich_runs nought answer ms n cache ≡ cache
  enrich_starves ms cache h zero = enrich_runs-zero nought answer ms cache
  enrich_starves ms cache h (suc n) =
      elim (Option-cases (enrich nought answer true false ms cache)) [
        | inl e ↦ enrich_runs-none nought answer ms n cache e
        | inr (cache', e) ↦
            let same : cache' ≡ cache = enrich-failing ms cache cache' h e in
            enrich_runs-some nought answer ms n cache cache' e
            ∙ ap (enrich_runs nought answer ms n) same
            ∙ enrich_starves ms cache h n
      ]
