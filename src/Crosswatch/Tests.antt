-- ===== src/Crosswatch/Tests.antt =====
-- Runs of the model of frontend/src/hooks/useCrosswatch.ts. Numbers with a fraction are taken whole.
use vps_dashboard.Common.{
  ℕ, ◌≡◌, ◌≢◌, refl, arith, Bool, true, false, not, ◌&&◌, Option, none, some, List, [], ◌∷◌, map,
  filter, length, ◌==◌, if◌then◌else◌, ◌-◌, ◌*◌, ◌≤◌, ◌++◌, All, codes, take,
}
use vps_dashboard.Types.{TmdbMovieDetail, TraktMovie, TraktWatchedMovie}
use vps_dashboard.Crosswatch.{
  id_of, has, unseen, all_trakt_movies, unique_from, movie_list, watched_ids, WatchedInfo,
  watched_at_from, watched_at_map, View, watchlist, watched, Cache, row, movies, TmdbData, Answer,
  no_answer, refused, answered, is_missing, uncached, overlay, fetch_tmdb_detail, fetch_batch,
  enrich, batch_size,
}
use vps_dashboard.Crosswatch.Rows.{IsRow, movies_lem}
use vps_dashboard.Crosswatch.Unique.{IsUnique}
use vps_dashboard.Crosswatch.Enrichment.{enrich_runs, enrich_completes, fails}
use vps_dashboard.Crosswatch.Effect.{
  Batch, EffectState, EffectEvent, rendered, ended, effect, on_event, on_events,
}
use vps_dashboard.Crosswatch.Guarded.{IsGuarded, on_events-IsGuarded}
use vps_dashboard.Crosswatch.Undisturbed.{undisturbed}
use vps_dashboard.Crosswatch.Fetching.{
  TraktLists, unreadable, Fetched, replied, begin_fetch, end_fetch, Settled, fetch-Settled,
}
use vps_dashboard.Crosswatch.Failing.{enrich_starves}

abbrev movie : ℕ → TraktMovie
movie id = record {
  title = "A";
  year = 1999;
  ids = record { trakt = 7; slug = "a"; tmdb = id; imdb = "tt" };
}

abbrev seen_at : ℕ → ℕ → TraktWatchedMovie
seen_at id n = record { plays = n; last_watched_at = "2024-05-01"; movie = movie id }

abbrev list : List TraktMovie
list = movie 3 ∷ movie 0 ∷ movie 5 ∷ movie 3 ∷ []

abbrev history : List TraktWatchedMovie
history = seen_at 5 1 ∷ seen_at 0 2 ∷ seen_at 5 3 ∷ []

abbrev found : ℕ → TmdbData ℕ
found id = record {
  id = id;
  title = "B";
  poster_path = none;
  backdrop_path = none;
  release_date = some (codes "2001-02-03");
  vote_average = none;
  overview = none;
  runtime = some 100;
  genres = none;
  tagline = none;
}

abbrev empty : Cache ℕ
empty = λ id. none

abbrev offline : ℕ → Answer ℕ
offline id = if id == 3 then no_answer else answered (found id)

all_ids : map id_of (all_trakt_movies list history) ≡ 3 ∷ 5 ∷ []
unfolding all_trakt_movies unseen
all_ids = refl

shown_years :
    map (λ r. r.year) (movies 0 watchlist list history (λ id. fetch_tmdb_detail 0 (offline id)))
    ≡ some 1999 ∷ some 2001 ∷ []
unfolding movies row unique_from watched_at_map watched_at_from watched_ids fetch_tmdb_detail
    vps_dashboard.Crosswatch.to_number vps_dashboard.Common.value_from
shown_years = refl

movies_lem_example :
    IsUnique (map (λ r. r.tmdb_id) (movies 0 watchlist list history empty))
    × ((x : ℕ)
        → has (map (λ r. r.tmdb_id) (movies 0 watchlist list history empty)) x
          ≡ (has (map id_of list) x && not (x == 0)))
    × All (IsRow 0 empty history) (movies 0 watchlist list history empty)
movies_lem_example = movies_lem 0 empty watchlist list history

few : length (uncached list empty) ≤ 1 * batch_size
unfolding uncached
few = omega arith

enrich_completes_example :
    uncached list (enrich_runs 0 (λ id. answered (found id)) list 1 empty) ≡ []
enrich_completes_example = enrich_completes 0 found list 1 empty few

offline-fails : fails 0 offline 3 ≡ true
unfolding fetch_tmdb_detail
offline-fails = refl

none_found :
    All
      (λ m. fetch_tmdb_detail {Num = ℕ} 0 no_answer ≡ none)
      (take batch_size (uncached list empty))
unfolding uncached fetch_tmdb_detail
none_found = (refl, (refl, (refl, tt)))

enrich_starves_example : enrich_runs 0 (λ id. no_answer) list 100 empty ≡ empty
enrich_starves_example = enrich_starves 0 (λ id. no_answer) list empty none_found 100

abbrev mounted : EffectState ℕ
mounted = record {
  loading = false;
  movies = [];
  cache = empty;
  enriching = false;
  batch = none;
  cleans = false;
}

-- The lists arrive, and change again while the first batch is under way.
abbrev disturbed : List (EffectEvent ℕ)
disturbed =
    rendered false list ∷ rendered false (movie 9 ∷ []) ∷ ended (λ id. some (detail id)) ∷ []
  where
    detail : ℕ → TmdbMovieDetail ℕ
    detail id = record {
      tmdb_id = id;
      title = "B";
      poster_path = none;
      backdrop_path = none;
      release_date = [];
      vote_average = 0;
      overview = "";
      runtime = 0;
      genres = [];
      tagline = "";
    }

on_events-IsGuarded_example : IsGuarded (on_events mounted disturbed)
on_events-IsGuarded_example =
    on_events-IsGuarded disturbed mounted
      (record { flagged = refl; owned = refl; small = omega arith })

abbrev first_batch : Batch
first_batch = record { asked = take batch_size (uncached list empty); cancelled = false }

abbrev fetching : EffectState ℕ
fetching = record mounted {
  movies = list;
  enriching = true;
  batch = some first_batch;
  cleans = true;
}

abbrev first_cache : Cache ℕ
first_cache = overlay empty (fetch_batch 0 offline empty first_batch.asked)

begun : (on_event mounted (rendered false list)).batch ≡ some first_batch
unfolding on_event effect uncached
begun = refl

first_enriched : enrich 0 offline true false list empty ≡ some first_cache
unfolding enrich uncached
first_enriched = refl

undisturbed_example :
    ((on_event fetching (ended (fetch_batch 0 offline empty first_batch.asked))).cache
      ≡ first_cache)
    × (uncached list first_cache ≢ []
        → (c : Batch) × ((on_event fetching
              (ended (fetch_batch 0 offline empty first_batch.asked))).batch
            ≡ some c)
          × (c.cancelled ≡ false)
          × (c.asked ≡ take batch_size (uncached list first_cache)))
undisturbed_example =
    undisturbed 0 offline fetching first_batch first_cache refl refl refl first_enriched

abbrev old_lists : TraktLists
old_lists = record { watchlist = list; watched = history; loading = false; error = none }

-- The session is over, as both responses say.
abbrev expired : Fetched
expired =
    replied (record { ok = false; status = 401; body = unreadable [] })
      (record { ok = false; status = 401; body = unreadable [] })

fetch-Settled_example : Settled old_lists expired (end_fetch (begin_fetch true old_lists) expired)
fetch-Settled_example = fetch-Settled old_lists expired
