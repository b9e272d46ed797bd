-- ===== src/Crosswatch/Effect.antt =====
-- frontend/src/hooks/useCrosswatch.ts: the effect that requests the details, with its clean-up and the
-- ref `tmdbEnriching`. An effect runs again when a dependency has changed: the clean-up of its last
-- run comes first. The API key is taken as set.
use vps_dashboard.Common.{
  Bool, true, false, ◌||◌, Option, none, some, List, [], ◌∷◌, is_empty, take, if◌then◌else◌,
}
use vps_dashboard.Types.{TraktMovie}
use vps_dashboard.Crosswatch.{Cache, uncached, overlay, batch_size}

-- A call of `enrich` that has not ended: its batch and its variable `cancelled`.
pub record Batch : Type 0 where
  pub asked : List TraktMovie
  pub cancelled : Bool

-- `enriching` is the ref; `cleans` says whether the last run of the effect returned a clean-up.
pub record EffectState (Num : Type 0) : Type 0 where
  pub loading : Bool
  pub movies : List TraktMovie
  pub cache : Cache Num
  pub enriching : Bool
  pub batch : Option Batch
  pub cleans : Bool

pub data EffectEvent (Num : Type 0) : Type 0 where
  -- a render with other values of `loading` and `allTraktMovies`
  rendered : Bool → List TraktMovie → EffectEvent Num
  -- the call of `enrich` ends, with these results
  ended : Cache Num → EffectEvent Num

abbrev pub cancel : Option Batch → Option Batch
cancel none = none
cancel (some b) = some (record b { cancelled = true })

module _ {Num : Type 0} where
  unfoldable pub clean_up : EffectState Num → EffectState Num
  clean_up s = if s.cleans then record s { batch = cancel s.batch; cleans = false } else s

  -- The body of the effect.
  unfoldable pub effect : EffectState Num → EffectState Num
  effect s =
      if s.loading || s.enriching || is_empty s.movies
      then s
      else if is_empty (uncached s.movies s.cache)
      then record s { enriching = false }
      else record s {
        enriching = true;
        batch =
            some
              (record { asked = take batch_size (uncached s.movies s.cache); cancelled = false });
        cleans = true;
      }

  -- The end of `enrich`: only a batch that was not cancelled sets the cache, which renders again.
  unfoldable pub end_batch : EffectState Num → Cache Num → Option Batch → EffectState Num
  unfolding clean_up effect
  end_batch s results none = s
  end_batch s results (some b) =
      if b.cancelled
      then record s { enriching = false; batch = none }
      else effect
          (clean_up (record s { cache = overlay s.cache results; enriching = false; batch = none }))

  unfoldable pub on_event : EffectState Num → EffectEvent Num → EffectState Num
  unfolding clean_up effect end_batch
  on_event s (rendered loading movies) =
      effect (clean_up (record s { loading = loading; movies = movies }))
  on_event s (ended results) = end_batch s results s.batch

  abbrev pub on_events : EffectState Num → List (EffectEvent Num) → EffectState Num
  on_events s [] = s
  on_events s (e ∷ es) = on_events (on_event s e) es
