-- ===== src/Crosswatch/Rows.antt =====
-- Code: frontend/src/hooks/useCrosswatch.ts.
-- The rows of the two views.
use vps_dashboard.Common.{
  ℕ, ◌≡◌, ◌≢◌, refl, ap, ◌∙◌, arith, Bool, true, false, not, ◌&&◌, ◌||◌, Option, none, some, List,
  [], ◌∷◌, ◌++◌, map, ◌==◌, if◌then◌else◌, Bool-cases, inl, inr, All,
}
use vps_dashboard.Types.{TraktMovie, TraktWatchedMovie, CrosswatchMovie}
use vps_dashboard.Crosswatch.{
  id_of, has, unseen, movie_list, watched_ids, WatchedInfo, entered, watched_at_from,
  watched_at_map, View, watched, Cache, info_at, row, movies,
}
use vps_dashboard.Crosswatch.Unique.{
  IsFresh, IsUnique, ids-IsUnique, unseen-IsFresh, has-unseen, unique_from-eq-unseen,
}

abbrev pub is_some {ℓ} : {A : Type ℓ} → Option A → Bool
is_some none = false
is_some (some a) = true

is_some-watched_at_from :
    (entries : ℕ → Option WatchedInfo) (ws : List TraktWatchedMovie) (id : ℕ)
    → id ≢ 0
    → is_some (watched_at_from entries ws id) ≡ (has (watched_ids ws) id || is_some (entries id))
unfolding watched_at_from watched_ids
is_some-watched_at_from entries [] id h = refl
is_some-watched_at_from entries (w ∷ ws) id h = elim (Bool-cases (id_of w.movie == 0)) [
  | inl zero_id ↦ rw zero_id (is_some-watched_at_from entries ws id h)
  | inr proper ↦ rw proper (ground (arith, is_some-watched_at_from (entered entries w) ws id h))
]

watched_at_from-concat :
    (entries : ℕ → Option WatchedInfo) (ws : List TraktWatchedMovie) (w : TraktWatchedMovie)
    → id_of w.movie ≢ 0
    → watched_at_from entries (ws ++ w ∷ []) ≡ entered (watched_at_from entries ws) w
unfolding watched_at_from
watched_at_from-concat entries [] w h =
    ap (λ b. if b then entries else entered entries w) (nonzero (id_of w.movie) h)
  where
    nonzero : (n : ℕ) → n ≢ 0 → (n == 0) ≡ false
    nonzero n ne = ground arith
watched_at_from-concat entries (v ∷ ws) w h =
    watched_at_from-concat (if id_of v.movie == 0 then entries else entered entries v) ws w h

-- The date and the number of plays of a movie are those of its last entry in the watched list.
pub watched_at_map-concat :
    (ws : List TraktWatchedMovie) (w : TraktWatchedMovie) (id : ℕ)
    → id_of w.movie ≢ 0
    → watched_at_map (ws ++ w ∷ []) id ≡ (
        if id_of w.movie == id
        then some (record { at = w.last_watched_at; plays = w.plays })
        else watched_at_map ws id)
unfolding watched_at_map
watched_at_map-concat ws w id h = ap (λ f. f id) (watched_at_from-concat (λ id. none) ws w h)

module _ {Num : Type 0} (nought : Num) (cache : Cache Num) where
  -- A row is well formed: its id is proper, and it is marked as watched exactly if it has a date.
  abbrev pub IsRow : List TraktWatchedMovie → CrosswatchMovie Num → Type 0
  IsRow ws r =
      (r.tmdb_id ≢ 0)
      × (r.watched ≡ is_some r.watched_at)
      × (r.watched ≡ has (watched_ids ws) r.tmdb_id)

  row-IsRow :
      (ws : List TraktWatchedMovie) (m : TraktMovie)
      → id_of m ≢ 0
      → IsRow ws (row nought cache ws m)
  unfolding row watched_at_map
  row-IsRow ws m h = (
    h,
    agree (watched_at_from (λ id. none) ws (id_of m))
        (is_some-watched_at_from (λ id. none) ws (id_of m) h),
    refl,
  )
    where
      agree :
          (o : Option WatchedInfo)
          → is_some o ≡ (has (watched_ids ws) (id_of m) || false)
          → has (watched_ids ws) (id_of m) ≡ is_some (info_at o)
      agree none e = ground arith
      agree (some i) e = ground arith

  ids-rows :
      (ws : List TraktWatchedMovie) (ms : List TraktMovie)
      → map (λ r. r.tmdb_id) (map (row nought cache ws) ms) ≡ map id_of ms
  unfolding row
  ids-rows ws [] = refl
  ids-rows ws (m ∷ ms) = ap (λ ids. id_of m ∷ ids) (ids-rows ws ms)

  IsFresh-rows :
      (ws : List TraktWatchedMovie) (seen : List ℕ) (ms : List TraktMovie)
      → IsFresh seen ms
      → All (IsRow ws) (map (row nought cache ws) ms)
  IsFresh-rows ws seen [] fresh = tt
  IsFresh-rows ws seen (m ∷ ms) (proper, new, rest) =
      (row-IsRow ws m proper, IsFresh-rows ws (id_of m ∷ seen) ms rest)

  -- Each movie of the list shown has one row, except those with the id 0; a row's id is not 0,
  -- and the row is marked as watched exactly if it has a date and exactly if its id is among the
  -- watched ids.
  pub movies_lem :
      (view : View) (wl : List TraktMovie) (ws : List TraktWatchedMovie)
      → IsUnique (map (λ r. r.tmdb_id) (movies nought view wl ws cache))
        × ((x : ℕ)
            → has (map (λ r. r.tmdb_id) (movies nought view wl ws cache)) x
              ≡ (has (map id_of (movie_list view wl ws)) x && not (x == 0)))
        × All (IsRow ws) (movies nought view wl ws cache)
  unfolding movies
  movies_lem view wl ws =
      let list = movie_list view wl ws in
      let fresh = unseen-IsFresh [] list in
      rw (unique_from-eq-unseen list, ids-rows ws (unseen [] list))
        (
          ids-IsUnique [] (unseen [] list) fresh,
          (λ x. has-unseen [] list x ∙ ground arith),
          IsFresh-rows ws [] (unseen [] list) fresh,
        )

  has-watched_ids :
      (ws : List TraktWatchedMovie) (x : ℕ)
      → has (watched_ids ws) x ≡ (has (map id_of (map (λ w. w.movie) ws)) x && not (x == 0))
  unfolding watched_ids
  has-watched_ids [] x = refl
  has-watched_ids (w ∷ ws) x = ground (arith, has-watched_ids ws x)

  All-watched :
      (ws : List TraktWatchedMovie) (ms : List TraktMovie)
      → ((x : ℕ) → has (map id_of ms) x ≡ true → has (watched_ids ws) x ≡ true)
      → All (λ r. r.watched ≡ true) (map (row nought cache ws) ms)
  unfolding row
  All-watched ws [] h = tt
  All-watched ws (m ∷ ms) h =
      (h (id_of m) (ground arith), All-watched ws ms (λ x e. h x (ground arith)))

  -- In the view of the watched movies every row is marked as watched.
  pub watched_view :
      (wl : List TraktMovie) (ws : List TraktWatchedMovie)
      → All (λ r. r.watched ≡ true) (movies nought watched wl ws cache)
  unfolding movies
  watched_view wl ws =
      let list = map (λ w. w.movie) ws in
      rw (unique_from-eq-unseen list) (
        All-watched ws (unseen [] list)
          (λ x e. ground (arith, has-unseen [] list x, has-watched_ids ws x)))
