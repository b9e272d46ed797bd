-- ===== src/Crosswatch.antt =====
-- frontend/src/hooks/useCrosswatch.ts: the movies of the Trakt lists, completed by TMDB. An id that
-- is missing is 0, as the backend sends it; `!id` is then the test for 0.
pub mod Unique
pub mod Rows
pub mod Enrichment
pub mod Failing
pub mod Effect
pub mod Guarded
pub mod Undisturbed
pub mod Fetching
mod Tests
use vps_dashboard.Common.{
  ℕ, zero, suc, ◌+◌, ◌≤◌, String, Bool, true, false, not, ◌&&◌, ◌||◌, Option, none, some, List, [],
  ◌∷◌, ◌++◌, map, filter, any, Text, ◌==◌, leb, if◌then◌else◌, take, value_from, is_empty, codes,
}
use vps_dashboard.Types.{TraktMovie, TraktWatchedMovie, TmdbMovieDetail, CrosswatchMovie}

abbrev pub id_of : TraktMovie → ℕ
id_of m = m.ids.tmdb

abbrev pub has : List ℕ → ℕ → Bool
has ids id = any (λ x. x == id) ids

-- The filter of `allTraktMovies`; `seen` is the set, its last element first.
unfoldable pub unseen : List ℕ → List TraktMovie → List TraktMovie
unseen seen [] = []
unseen seen (m ∷ ms) =
    let skipped = unseen seen ms in
    let kept = m ∷ unseen (id_of m ∷ seen) ms in
    if id_of m == 0 || has seen (id_of m) then skipped else kept

unfoldable pub all_trakt_movies : List TraktMovie → List TraktWatchedMovie → List TraktMovie
unfolding unseen
all_trakt_movies watchlist watched = unseen [] (watchlist ++ map (λ w. w.movie) watched)

-- The loop that fills the map `unique`: its values, in the order of insertion.
unfoldable pub unique_from : List TraktMovie → List TraktMovie → List TraktMovie
unique_from unique [] = unique
unique_from unique (m ∷ ms) =
    unique_from
      (if not (id_of m == 0) && not (has (map id_of unique) (id_of m))
        then unique ++ m ∷ []
        else unique)
      ms

-- `new Set(watchedMovies.map(…).filter(Boolean))`
unfoldable pub watched_ids : List TraktWatchedMovie → List ℕ
watched_ids watched = filter (λ id. not (id == 0)) (map (λ w. id_of w.movie) watched)

pub record WatchedInfo : Type 0 where
  pub at : String
  pub plays : ℕ

-- `map[id] = { at: …, plays: … }`
abbrev pub entered : (ℕ → Option WatchedInfo) → TraktWatchedMovie → ℕ → Option WatchedInfo
entered entries w id =
    if id_of w.movie == id
    then some (record { at = w.last_watched_at; plays = w.plays })
    else entries id

-- The loop that fills `watchedAtMap`.
unfoldable pub watched_at_from :
    (ℕ → Option WatchedInfo) → List TraktWatchedMovie → ℕ → Option WatchedInfo
watched_at_from entries [] = entries
watched_at_from entries (w ∷ ws) =
    watched_at_from (if id_of w.movie == 0 then entries else entered entries w) ws

unfoldable pub watched_at_map : List TraktWatchedMovie → ℕ → Option WatchedInfo
unfolding watched_at_from
watched_at_map watched = watched_at_from (λ id. none) watched

pub data View : Type 0 where
  watchlist watched : View

abbrev pub movie_list : View → List TraktMovie → List TraktWatchedMovie → List TraktMovie
movie_list watchlist wl ws = wl
movie_list watched wl ws = map (λ w. w.movie) ws

abbrev all_digits : Text → Bool
all_digits [] = true
all_digits (c ∷ s) = leb b'0' c && leb c b'9' && all_digits s

-- `Number(text)` of the start of a release date, which is four digits or no number.
unfoldable pub to_number : Text → Option ℕ
to_number s = if all_digits s then some (value_from 0 s) else none

-- The entry of `tmdbCache` for each id.
abbrev pub Cache : Type 0 → Type 0
Cache Num = ℕ → Option (TmdbMovieDetail Num)

abbrev pub info_at : Option WatchedInfo → Option String
info_at none = none
info_at (some i) = some i.at

abbrev info_plays : Option WatchedInfo → ℕ
info_plays none = 0
info_plays (some i) = i.plays

module _ {Num : Type 0} where
  -- `detail?.releaseDate ? Number(detail.releaseDate.slice(0, 4)) : traktMovie.year`
  abbrev pub year_shown : Option (TmdbMovieDetail Num) → ℕ → Option ℕ
  year_shown none year = some year
  year_shown (some d) year =
      if is_empty d.release_date then some year else to_number (take 4 d.release_date)

  abbrev field_or {ℓ} :
      {A : Type ℓ} → Option (TmdbMovieDetail Num) → (TmdbMovieDetail Num → A) → A → A
  field_or none f a = a
  field_or (some d) f a = f d

module _ {Num : Type 0} (nought : Num) where
  -- The object made for a movie whose id is not 0.
  unfoldable pub row : Cache Num → List TraktWatchedMovie → TraktMovie → CrosswatchMovie Num
  row cache ws m =
      let detail = cache (id_of m) in
      let info = watched_at_map ws (id_of m) in
      record {
        tmdb_id = id_of m;
        title = field_or detail (λ d. d.title) m.title;
        year = year_shown detail m.year;
        poster_path = field_or detail (λ d. d.poster_path) none;
        vote_average = field_or detail (λ d. d.vote_average) nought;
        runtime = field_or detail (λ d. d.runtime) 0;
        genres = field_or detail (λ d. d.genres) [];
        watched = has (watched_ids ws) (id_of m);
        watched_at = info_at info;
        plays = info_plays info;
      }

  unfoldable pub movies :
      View → List TraktMovie → List TraktWatchedMovie → Cache Num → List (CrosswatchMovie Num)
  movies view wl ws cache = map (row cache ws) (unique_from [] (movie_list view wl ws))

-- The body of an answer of TMDB: the fields that are there.
pub record TmdbData (Num : Type 0) : Type 0 where
  pub id : ℕ
  pub title : String
  pub poster_path : Option String
  pub backdrop_path : Option String
  pub release_date : Option Text
  pub vote_average : Option Num
  pub overview : Option String
  pub runtime : Option ℕ
  pub genres : Option (List String)
  pub tagline : Option String

-- What `fetch` gives for one movie: no answer (or none that can be read), another status than
-- success, or a body.
pub data Answer (Num : Type 0) : Type 0 where
  no_answer : Answer Num
  refused : ℕ → Answer Num
  answered : TmdbData Num → Answer Num

abbrev value_or {ℓ} : {A : Type ℓ} → Option A → A → A
value_or none a = a
value_or (some b) a = b

module _ {Num : Type 0} where
  abbrev pub is_missing : Option (TmdbMovieDetail Num) → Bool
  is_missing none = true
  is_missing (some d) = false

  unfoldable pub uncached : List TraktMovie → Cache Num → List TraktMovie
  uncached ms cache = filter (λ m. not (id_of m == 0) && is_missing (cache (id_of m))) ms

  -- `results[id] = await fetchTMDBDetail(…)`, skipped where that throws.
  abbrev pub put : Cache Num → ℕ → Option (TmdbMovieDetail Num) → Cache Num
  put results id none = results
  put results id (some d) = λ i. if id == i then some d else results i

  -- `{ ...prev, ...results }`
  abbrev pub overlay : Cache Num → Cache Num → Cache Num
  overlay prev results = λ i. elim (results i) [ none ↦ prev i | some d ↦ some d ]

abbrev pub batch_size : ℕ
batch_size = 10

module _ {Num : Type 0} (nought : Num) where
  -- `fetchTMDBDetail`; `none` is an exception.
  unfoldable pub fetch_tmdb_detail : Answer Num → Option (TmdbMovieDetail Num)
  fetch_tmdb_detail no_answer = none
  fetch_tmdb_detail (refused status) = none
  fetch_tmdb_detail (answered d) = some (record {
    tmdb_id = d.id;
    title = d.title;
    poster_path = d.poster_path;
    backdrop_path = d.backdrop_path;
    release_date = value_or d.release_date [];
    vote_average = value_or d.vote_average nought;
    overview = value_or d.overview "";
    runtime = value_or d.runtime 0;
    genres = value_or d.genres [];
    tagline = value_or d.tagline "";
  })

  -- The loop over the batch.
  unfoldable pub fetch_batch : (ℕ → Answer Num) → Cache Num → List TraktMovie → Cache Num
  fetch_batch answer results [] = results
  fetch_batch answer results (m ∷ ms) =
      fetch_batch answer (put results (id_of m) (fetch_tmdb_detail (answer (id_of m)))) ms

  -- What a run of the effect does when nothing disturbs it. `none`: it returns at once. Otherwise it
  -- requests the first ten movies that the cache lacks and sets a new cache object, which runs the
  -- effect again even where the object holds nothing new.
  unfoldable pub enrich :
      (ℕ → Answer Num) → Bool → Bool → List TraktMovie → Cache Num → Option (Cache Num)
  enrich answer has_tmdb loading ms cache =
      if not has_tmdb || loading || is_empty ms || is_empty (uncached ms cache)
      then none
      else some
          (overlay cache (fetch_batch answer (λ i. none) (take batch_size (uncached ms cache))))
