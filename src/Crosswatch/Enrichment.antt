-- ===== src/Crosswatch/Enrichment.antt =====
-- frontend/src/hooks/useCrosswatch.ts: the runs of the effect that requests the details, one after
-- another, each on the cache that the last one set.
use vps_dashboard.Common.{
  ℕ, zero, suc, ◌-◌, ◌*◌, ◌≤◌, ◌≡◌, refl, ap, ◌∙◌, arith, Bool, true, false, not, ◌&&◌, ◌||◌,
  Option, none, some, List, [], ◌∷◌, map, filter, is_empty, length, length-filter-le, take, ◌==◌,
  if◌then◌else◌, Bool-cases, Option-cases, inl, inr,
}
use vps_dashboard.Types.{TraktMovie, TmdbMovieDetail}
use vps_dashboard.Crosswatch.{
  id_of, has, Cache, TmdbData, Answer, answered, is_missing, uncached, put, overlay, batch_size,
  fetch_tmdb_detail, fetch_batch, enrich,
}

module _ {Num : Type 0} (nought : Num) (answer : ℕ → Answer Num) where
  -- The cache after up to that many runs of the effect: a run that returns at once is the last.
  unfoldable pub enrich_runs : List TraktMovie → ℕ → Cache Num → Cache Num
  enrich_runs ms zero cache = cache
  enrich_runs ms (suc n) cache = elim (enrich nought answer true false ms cache) [
    | none ↦ cache
    | some cache' ↦ enrich_runs ms n cache'
  ]

  pub enrich_runs-zero :
      (ms : List TraktMovie) (cache : Cache Num) → enrich_runs ms zero cache ≡ cache
  unfolding enrich_runs
  enrich_runs-zero ms cache = refl

  pub enrich_runs-none :
      (ms : List TraktMovie) (n : ℕ) (cache : Cache Num)
      → enrich nought answer true false ms cache ≡ none
      → enrich_runs ms (suc n) cache ≡ cache
  unfolding enrich_runs
  enrich_runs-none ms n cache e = ap (λ o. elim o [ none ↦ cache | some c ↦ enrich_runs ms n c ]) e

  pub enrich_runs-some :
      (ms : List TraktMovie) (n : ℕ) (cache cache' : Cache Num)
      → enrich nought answer true false ms cache ≡ some cache'
      → enrich_runs ms (suc n) cache ≡ enrich_runs ms n cache'
  unfolding enrich_runs
  enrich_runs-some ms n cache cache' e =
      ap (λ o. elim o [ none ↦ cache | some c ↦ enrich_runs ms n c ]) e

  abbrev pub fails : ℕ → Bool
  fails id = is_missing (fetch_tmdb_detail nought (answer id))

is_missing-overlay :
    {Num : Type 0} (prev results : Cache Num) (id : ℕ)
    → is_missing (overlay prev results id) ≡ (is_missing (results id) && is_missing (prev id))
is_missing-overlay {Num = Num} prev results id = either (prev id) (results id)
  where
    either :
        (o p : Option (TmdbMovieDetail Num))
        → is_missing (elim p [ none ↦ o | some d ↦ some d ]) ≡ (is_missing p && is_missing o)
    either o none = refl
    either o (some d) = refl

is_missing-put :
    {Num : Type 0} (results : Cache Num) (id i : ℕ) (o : Option (TmdbMovieDetail Num))
    → is_missing (put results id o i) ≡ (is_missing (results i) && (is_missing o || not (id == i)))
is_missing-put results id i none = ground arith
is_missing-put results id i (some d) = elim (Bool-cases (id == i)) [
  | inl same ↦ rw same (ground arith)
  | inr other ↦ rw other (ground arith)
]

module _ {Num : Type 0} (nought : Num) (answer : ℕ → Answer Num) where
  -- After the loop an entry is missing if it was and no request of the batch for it succeeded.
  is_missing-fetch_batch :
      (results : Cache Num) (batch : List TraktMovie) (id : ℕ)
      → is_missing (fetch_batch nought answer results batch id)
        ≡ (is_missing (results id) && (fails nought answer id || not (has (map id_of batch) id)))
  unfolding fetch_batch
  is_missing-fetch_batch results [] id = ground arith
  is_missing-fetch_batch results (m ∷ ms) id =
      let detail = fetch_tmdb_detail nought (answer (id_of m)) in
      let before = is_missing-fetch_batch (put results (id_of m) detail) ms id in
      let first = is_missing-put results (id_of m) id detail in
      elim (Bool-cases (id_of m == id)) [
        | inl same ↦
            let e : id_of m ≡ id = ground arith in
            let f : fails nought answer (id_of m) ≡ fails nought answer id =
              ap (fails nought answer) e in
            ground (arith, before, first, f, same)
        | inr other ↦ ground (arith, before, first, other)
      ]

  -- The entry of one id after a run.
  pub is_missing-run :
      (ms : List TraktMovie) (cache cache' : Cache Num) (id : ℕ)
      → enrich nought answer true false ms cache ≡ some cache'
      → is_missing (cache' id) ≡ (
          is_missing (cache id)
          && (fails nought answer id
              || not (has (map id_of (take batch_size (uncached ms cache))) id)))
  unfolding enrich
  is_missing-run ms cache cache' id h =
      let batch = take batch_size (uncached ms cache) in
      let results = fetch_batch nought answer (λ i. none) batch in
      split (false || is_empty ms || is_empty (uncached ms cache)) (overlay cache results) h (
        is_missing-overlay cache results id
        ∙ ground (arith, is_missing-fetch_batch (λ i. none) batch id))
    where
      split :
          {b : Bool} (stop : Bool) (c : Cache Num)
          → (if stop then none else some c) ≡ some cache'
          → is_missing (c id) ≡ b
          → is_missing (cache' id) ≡ b
      split true c e k = cc
      split false c e k = cc

  pub enrich-eq-none :
      (ms : List TraktMovie) (cache : Cache Num)
      → enrich nought answer true false ms cache ≡ none
      → uncached ms cache ≡ []
  unfolding enrich uncached
  enrich-eq-none [] cache h = refl
  enrich-eq-none (m ∷ ms) cache h =
      split (λ xs. overlay cache (fetch_batch nought answer (λ i. none) (take batch_size xs)))
        (uncached (m ∷ ms) cache) h
    where
      split :
          (c : List TraktMovie → Cache Num) (xs : List TraktMovie)
          → (if is_empty xs then none else some (c xs)) ≡ none
          → xs ≡ []
      split c [] k = refl
      split c (x ∷ xs) k = cc

filter-eq :
    {A : Type 0} (p q : A → Bool) (xs : List A) → ((x : A) → p x ≡ q x) → filter p xs ≡ filter q xs
filter-eq p q [] h = refl
filter-eq p q (x ∷ xs) h = ground (arith, h x, filter-eq p q xs h)

filter-filter :
    {A : Type 0} (p q : A → Bool) (xs : List A)
    → filter (λ x. p x && q x) xs ≡ filter q (filter p xs)
filter-filter p q [] = refl
filter-filter p q (x ∷ xs) = ground (arith, filter-filter p q xs)

-- Of a list without those of its first `n` at most the rest is left.
length-filter-drop :
    (ids : List ℕ) (n : ℕ) (ms : List TraktMovie)
    → ((x : ℕ) → has (map id_of (take n ms)) x ≡ true → has ids x ≡ true)
    → length (filter (λ m. not (has ids (id_of m))) ms) ≤ length ms - n
length-filter-drop ids zero ms h =
    ground (arith, length-filter-le (λ m. not (has ids (id_of m))) ms)
length-filter-drop ids (suc n) [] h = omega arith
length-filter-drop ids (suc n) (m ∷ ms) h =
    ground
      (arith, h (id_of m) (ground arith), length-filter-drop ids n ms (λ x k. h x (ground arith)))

module _ {Num : Type 0} (nought : Num) (data_of : ℕ → TmdbData Num) where
  -- If TMDB answers every request, a run completes ten movies, or all that are left.
  pub uncached_falls :
      (ms : List TraktMovie) (cache cache' : Cache Num)
      → enrich nought (λ id. answered (data_of id)) true false ms cache ≡ some cache'
      → length (uncached ms cache') ≤ length (uncached ms cache) - batch_size
  unfolding uncached fetch_tmdb_detail
  uncached_falls ms cache cache' h =
      let ids = map id_of (take batch_size (uncached ms cache)) in
      let same =
        filter-eq (λ m. not (id_of m == 0) && is_missing (cache' (id_of m)))
          (λ m. (not (id_of m == 0) && is_missing (cache (id_of m))) && not (has ids (id_of m))) ms
          (λ m. ground (
            arith,
            is_missing-run nought (λ id. answered (data_of id)) ms cache cache' (id_of m) h,
          )) in
      let two =
        filter-filter (λ m. not (id_of m == 0) && is_missing (cache (id_of m)))
          (λ m. not (has ids (id_of m))) ms in
      rw (same, two) (length-filter-drop ids batch_size (uncached ms cache) (λ x k. k))

  -- If TMDB answers every request, then after n runs of the effect no movie lacks its details,
  -- where ten times n is at least the number of movies that lacked them.
  pub enrich_completes :
      (ms : List TraktMovie) (n : ℕ) (cache : Cache Num)
      → length (uncached ms cache) ≤ n * batch_size
      → uncached ms (enrich_runs nought (λ id. answered (data_of id)) ms n cache) ≡ []
  unfolding enrich_runs
  enrich_completes ms zero cache h = empty (uncached ms cache) h
    where
      empty : (xs : List TraktMovie) → length xs ≤ zero * batch_size → xs ≡ []
      empty [] k = refl
      empty (x ∷ xs) k = absurd (omega arith)
  enrich_completes ms (suc n) cache h =
      elim (Option-cases (enrich nought (λ id. answered (data_of id)) true false ms cache)) [
        | inl e ↦
            rw (enrich_runs-none nought (λ id. answered (data_of id)) ms n cache e)
              (enrich-eq-none nought (λ id. answered (data_of id)) ms cache e)
        | inr (cache', e) ↦
            rw (enrich_runs-some nought (λ id. answered (data_of id)) ms n cache cache' e)
              (enrich_completes ms n cache' (ground (arith, h, uncached_falls ms cache cache' e)))
      ]
