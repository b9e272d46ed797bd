-- ===== src/CrosswatchWidget/Tests.antt =====
-- The texts and the parts of the Crosswatch widget at concrete inputs.
use vps_dashboard.Common.{
  ℕ, ◌≡◌, refl, true, false, Option, none, some, List, [], ◌∷◌, ◌++◌, Text, codes, decimal,
  value_from, map, All,
}
use vps_dashboard.Common.Number.{whole}
use vps_dashboard.Types.{TraktMovie, TraktWatchedMovie}
use vps_dashboard.Crosswatch.{View, watchlist, watched, movies}
use vps_dashboard.CrosswatchWidget.{
  runtime_str, format_date, Item, item, WidgetProps, crosswatch_widget,
}
use vps_dashboard.CrosswatchWidget.Body.{
  AreDistinct, fillings, crosswatch_widget-fillings, items_lem,
}
use vps_dashboard.Crosswatch.Rows.{is_some}

-- Dates are written as milliseconds here.
abbrev parse_date : Text → Option ℕ
parse_date s = some (value_from 0 s)

abbrev locale_date : Option ℕ → Text
locale_date none = codes "Invalid Date"
locale_date (some d) = codes "at " ++ decimal d

runtime_str_test : runtime_str 135 ≡ codes "2h 15m"
unfolding runtime_str decimal
runtime_str_test = refl

yesterday_test :
    format_date locale_date parse_date 200000000 (codes "100000000") ≡ codes "yesterday"
unfolding format_date value_from
yesterday_test = refl

abbrev failed : WidgetProps ℕ
failed = record {
  username = "ann";
  movies = [];
  loading = false;
  error = some "Trakt: HTTP 500";
  has_trakt = true;
  has_tmdb = true;
  view = watchlist;
  watchlist_count = 0;
  watched_count = 0;
}

crosswatch_widget-fillings_example :
    (fillings (crosswatch_widget whole locale_date parse_date 0 failed) ≡ 0)
    × (is_some (crosswatch_widget whole locale_date parse_date 0 failed).tabs ≡ true)
    × (is_some (crosswatch_widget whole locale_date parse_date 0 failed).connected_as ≡ true)
unfolding crosswatch_widget
crosswatch_widget-fillings_example =
    crosswatch_widget-fillings whole locale_date parse_date 0 failed

abbrev movie : ℕ → TraktMovie
movie id = record {
  title = "A";
  year = 1999;
  ids = record { trakt = 7; slug = "a"; tmdb = id; imdb = "tt" };
}

abbrev history : List TraktWatchedMovie
history =
    record { plays = 1; last_watched_at = "2024-05-01"; movie = movie 5 }
    ∷ record { plays = 2; last_watched_at = "2024-05-02"; movie = movie 5 }
    ∷ []

abbrev shown : View → List Item
shown view =
    map (item whole locale_date parse_date 0) (movies 0 view (movie 3 ∷ []) history (λ id. none))

items_lem_example :
    ((view : View) → AreDistinct (map (λ i. i.key) (shown view)))
    × All (λ i. i.marked ≡ true) (shown watched)
items_lem_example = items_lem whole locale_date parse_date 0 0 (λ id. none) (movie 3 ∷ []) history
