-- ===== src/Crosswatch/Undisturbed.antt =====
-- frontend/src/hooks/useCrosswatch.ts: batches that nothing disturbs do what `enrich` says.
use vps_dashboard.Common.{
  ℕ, ◌≡◌, ◌≢◌, refl, ap, ◌∙◌, arith, Bool, true, false, ◌||◌, none, some, List, [], ◌∷◌, is_empty,
  take, if◌then◌else◌,
}
use vps_dashboard.Types.{TraktMovie}
use vps_dashboard.Crosswatch.{Cache, Answer, uncached, overlay, batch_size, fetch_batch, enrich}
use vps_dashboard.Crosswatch.Effect.{
  Batch, EffectState, ended, cancel, clean_up, effect, end_batch, on_event,
}

module _ {Num : Type 0} where
  clean_up-same :
      (t : EffectState Num)
      → ((clean_up t).loading ≡ t.loading)
        × ((clean_up t).movies ≡ t.movies)
        × ((clean_up t).cache ≡ t.cache)
        × ((clean_up t).enriching ≡ t.enriching)
  unfolding clean_up
  clean_up-same t = split t.cleans
    where
      split :
          (c : Bool)
          → ((if c then record t { batch = cancel t.batch; cleans = false } else t).loading
              ≡ t.loading)
            × ((if c then record t { batch = cancel t.batch; cleans = false } else t).movies
                ≡ t.movies)
            × ((if c then record t { batch = cancel t.batch; cleans = false } else t).cache
                ≡ t.cache)
            × ((if c then record t { batch = cancel t.batch; cleans = false } else t).enriching
                ≡ t.enriching)
      split true = (refl, refl, refl, refl)
      split false = (refl, refl, refl, refl)

  if-cache :
      (b : Bool) (x y : EffectState Num) (c : Cache Num)
      → x.cache ≡ c
      → y.cache ≡ c
      → (if b then x else y).cache ≡ c
  if-cache true x y c h k = h
  if-cache false x y c h k = k

  effect-cache : (t : EffectState Num) → (effect t).cache ≡ t.cache
  unfolding effect
  effect-cache t =
      let begun : EffectState Num = record t {
        enriching = true;
        batch =
            some
              (record { asked = take batch_size (uncached t.movies t.cache); cancelled = false });
        cleans = true;
      } in
      if-cache (t.loading || t.enriching || is_empty t.movies) t
        (if is_empty (uncached t.movies t.cache) then record t { enriching = false } else begun)
        t.cache refl
        (if-cache (is_empty (uncached t.movies t.cache)) (record t { enriching = false }) begun
          t.cache refl refl)

  effect-begins :
      (t : EffectState Num)
      → t.loading ≡ false
      → t.enriching ≡ false
      → is_empty t.movies ≡ false
      → is_empty (uncached t.movies t.cache) ≡ false
      → (effect t).batch
        ≡ some (record { asked = take batch_size (uncached t.movies t.cache); cancelled = false })
  unfolding effect
  effect-begins t a b c d =
      let open_ : (t.loading || t.enriching || is_empty t.movies) ≡ false =
        ground (arith, a, b, c) in
      rw (open_, d) refl

  ended-eq :
      (s : EffectState Num) (results : Cache Num) (b : Batch)
      → s.batch ≡ some b
      → b.cancelled ≡ false
      → on_event s (ended results)
        ≡ effect (
            clean_up
              (record s { cache = overlay s.cache results; enriching = false; batch = none }))
  unfolding on_event end_batch
  ended-eq s results b e current =
      ap (end_batch s results) e
      ∙ ap
          (λ c.
            if c
            then record s { enriching = false; batch = none }
            else effect (
                clean_up
                  (record s { cache = overlay s.cache results; enriching = false; batch = none })))
          current

module _ {Num : Type 0} (nought : Num) (answer : ℕ → Answer Num) where
  enrich-opens :
      (loading : Bool) (ms : List TraktMovie) (cache cache' : Cache Num)
      → enrich nought answer true loading ms cache ≡ some cache'
      → (loading ≡ false)
        × (is_empty ms ≡ false)
        × (overlay cache
              (fetch_batch nought answer (λ i. none) (take batch_size (uncached ms cache)))
            ≡ cache')
  unfolding enrich
  enrich-opens true ms cache cache' h = cc
  enrich-opens false [] cache cache' h = cc
  enrich-opens false (m ∷ ms) cache cache' h =
      (refl, refl, split (is_empty (uncached (m ∷ ms) cache)) h)
    where
      split :
          {c : Cache Num} (stop : Bool) → (if stop then none else some c) ≡ some cache' → c ≡ cache'
      split true k = cc
      split false k = cc

  -- If a batch of the first ten movies that lack their details ends without having been
  -- cancelled, the state machine of the effect sets the cache that enrich gives, and if movies
  -- still lack their details then, the next batch is begun with the first ten of them.
  pub undisturbed :
      (s : EffectState Num) (b : Batch) (cache : Cache Num)
      → s.batch ≡ some b
      → b.cancelled ≡ false
      → b.asked ≡ take batch_size (uncached s.movies s.cache)
      → enrich nought answer true s.loading s.movies s.cache ≡ some cache
      → ((on_event s (ended (fetch_batch nought answer (λ i. none) b.asked))).cache ≡ cache)
        × (uncached s.movies cache ≢ []
            → (c : Batch) × ((on_event s
                  (ended (fetch_batch nought answer (λ i. none) b.asked))).batch
                ≡ some c)
              × (c.cancelled ≡ false)
              × (c.asked ≡ take batch_size (uncached s.movies cache)))
  undisturbed s b cache e current asked h =
      let results = fetch_batch nought answer (λ i. none) b.asked in
      let after : EffectState Num = record s {
        cache = overlay s.cache results;
        enriching = false;
        batch = none;
      } in
      let opens = enrich-opens s.loading s.movies s.cache cache h in
      let stored : overlay s.cache results ≡ cache =
        ap (λ ms. overlay s.cache (fetch_batch nought answer (λ i. none) ms)) asked ∙ opens.2 in
      let ends : on_event s (ended results) ≡ effect (clean_up after) =
        ended-eq s results b e current in
      let same = clean_up-same after in
      let left : (clean_up after).cache ≡ cache = same.2 ∙ stored in
      (
        ap (λ t. t.cache) ends ∙ effect-cache (clean_up after) ∙ left,
        λ more.
            let list : uncached (clean_up after).movies (clean_up after).cache
                ≡ uncached s.movies cache =
              ap (λ ms. uncached ms (clean_up after).cache) same.1 ∙ ap (uncached s.movies) left in
            (
              record { asked = take batch_size (uncached s.movies cache); cancelled = false },
              ap (λ t. t.batch) ends
                  ∙ effect-begins (clean_up after) (same.0 ∙ opens.0) (same.3)
                      (ap is_empty same.1 ∙ opens.1)
                      (ap is_empty list ∙ full (uncached s.movies cache) more)
                  ∙ ap (λ ms. some (record { asked = take batch_size ms; cancelled = false })) list,
              refl,
              refl,
            ),
      )
    where
      full : (xs : List TraktMovie) → xs ≢ [] → is_empty xs ≡ false
      full [] h = absurd (h refl)
      full (x ∷ xs) h = refl
