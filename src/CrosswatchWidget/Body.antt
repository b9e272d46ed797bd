-- ===== src/CrosswatchWidget/Body.antt =====
-- Code: frontend/src/components/CrosswatchWidget.tsx and frontend/src/hooks/useCrosswatch.ts.
-- The parts of the widget that are shown together, and its rows.
use vps_dashboard.Common.{
  ℕ, ◌+◌, ◌≡◌, ◌≢◌, refl, ◌∙◌, arith, Bool, true, false, not, ◌&&◌, ◌||◌, Option, List, [], ◌∷◌,
  map, ◌==◌, if◌then◌else◌, Text, length, All,
}
use vps_dashboard.Common.Number.{Number}
use vps_dashboard.Types.{CrosswatchMovie, TraktMovie, TraktWatchedMovie}
use vps_dashboard.Crosswatch.{View, watched, has, Cache, movies}
use vps_dashboard.Crosswatch.Unique.{IsUnique}
use vps_dashboard.Crosswatch.Rows.{is_some, movies_lem, watched_view}
use vps_dashboard.CrosswatchWidget.{
  Key, by_id, by_title, WidgetProps, WidgetView, item, crosswatch_widget,
}

abbrev pub unit : Bool → ℕ
unit true = 1
unit false = 0

abbrev pub is_by_id : ℕ → Key → Bool
is_by_id id (by_id i) = i == id
is_by_id id (by_title t) = false

abbrev pub keyed : List Key → ℕ → Bool
keyed [] id = false
keyed (k ∷ ks) id = is_by_id id k || keyed ks id

-- Every key is an id, and none stands twice.
abbrev pub AreDistinct : List Key → Type 0
AreDistinct [] = Unit
AreDistinct (by_id i ∷ ks) = (keyed ks i ≡ false) × AreDistinct ks
AreDistinct (by_title t ∷ ks) = ⊥

-- The parts that fill the widget: invitation, skeleton, text for an empty list, list.
abbrev pub fillings : WidgetView → ℕ
fillings v = unit v.invitation + unit v.skeleton + unit (is_some v.nothing) + unit (is_some v.items)

module _ (num : Number) (locale_date : Option ℕ → Text) (parse_date : Text → Option ℕ)
    (now : ℕ) where
  open num use {N}

  -- Of the invitation to connect, the skeleton, the text for an empty list and the list, the
  -- Crosswatch widget shows exactly one, but none if the user is connected, nothing is loading,
  -- there are no movies and an error is shown; it has its tabs exactly if it has neither
  -- invitation nor skeleton, and the bar with the user exactly if it has no invitation.
  pub crosswatch_widget-fillings :
      (p : WidgetProps N)
      → let v = crosswatch_widget num locale_date parse_date now p in
        (fillings v ≡ (
          if p.has_trakt && not p.loading && length p.movies == 0 && is_some v.banner
          then 0
          else 1))
        × (is_some v.tabs ≡ (not v.invitation && not v.skeleton))
        × (is_some v.connected_as ≡ not v.invitation)
  unfolding crosswatch_widget
  crosswatch_widget-fillings p = (ground arith, ground arith, ground arith)

  keyed-items :
      (rows : List (CrosswatchMovie N)) (id : ℕ)
      → id ≢ 0
      → keyed (map (λ i. i.key) (map (item num locale_date parse_date now) rows)) id
        ≡ has (map (λ r. r.tmdb_id) rows) id
  unfolding item
  keyed-items [] id h = refl
  keyed-items (r ∷ rows) id h = ground (arith, keyed-items rows id h)

  AreDistinct-items :
      (rows : List (CrosswatchMovie N))
      → IsUnique (map (λ r. r.tmdb_id) rows)
      → AreDistinct (map (λ i. i.key) (map (item num locale_date parse_date now) rows))
  unfolding item
  AreDistinct-items [] h = tt
  AreDistinct-items (r ∷ rows) (proper, new, rest) =
      let nonzero : (r.tmdb_id == 0) ≡ false = ground arith in
      rw nonzero ((keyed-items rows r.tmdb_id proper ∙ new), AreDistinct-items rows rest)

  All-marked :
      (rows : List (CrosswatchMovie N))
      → All (λ r. r.watched ≡ true) rows
      → All (λ i. i.marked ≡ true) (map (item num locale_date parse_date now) rows)
  unfolding item
  All-marked [] h = tt
  All-marked (r ∷ rows) h = (h.0, All-marked rows h.1)

  -- The items that the widget makes of the movies of the hook have distinct keys, each an id, in
  -- both views, and in the view of the watched movies every item has the check mark.
  pub items_lem :
      (nought : N) (cache : Cache N) (wl : List TraktMovie) (ws : List TraktWatchedMovie)
      → ((view : View)
          → AreDistinct (
              map
                (λ i. i.key)
                (map (item num locale_date parse_date now) (movies nought view wl ws cache))))
        × All
            (λ i. i.marked ≡ true)
            (map (item num locale_date parse_date now) (movies nought watched wl ws cache))
  items_lem nought cache wl ws = (
    (λ view. AreDistinct-items _ (movies_lem nought cache view wl ws).0),
    All-marked _ (watched_view nought cache wl ws),
  )
