-- ===== src/CrosswatchWidget.antt =====
-- frontend/src/components/CrosswatchWidget.tsx: the texts of a row, and what the widget shows in each
-- state. `new Date(…)` and `toLocaleDateString` are parameters; times are milliseconds.
pub mod Dates
pub mod Body
mod Tests
use Prim.Native.Nat.{◌/◌, ◌%◌}
use vps_dashboard.Common.{
  ℕ, zero, suc, ◌-◌, ◌*◌, String, Bool, true, false, not, ◌&&◌, Option, none, some, List, [], ◌∷◌,
  ◌++◌, map, take, length, ltb, leb, ◌==◌, if◌then◌else◌, Text, codes, decimal, is_empty, ℤ, pos,
  negsuc,
}
use vps_dashboard.Common.Number.{Number}
use vps_dashboard.Types.{CrosswatchMovie}
use vps_dashboard.Crosswatch.{View, watchlist, watched}

unfoldable pub runtime_str : ℕ → Text
runtime_str min =
    if leb min 0
    then []
    else if ltb 0 (min / 60)
    then decimal (min / 60) ++ codes "h " ++ decimal (min % 60) ++ codes "m"
    else decimal (min % 60) ++ codes "m"

abbrev pub day_ms : ℕ
day_ms = 86400000

-- `Math.floor((now - d) / 86400000)`
abbrev pub diff_days : ℕ → ℕ → ℤ
diff_days now d = if leb d now then pos ((now - d) / day_ms) else negsuc ((d - now - 1) / day_ms)

-- An integer in a template literal.
abbrev pub shown_int : ℤ → Text
shown_int (pos n) = decimal n
shown_int (negsuc n) = b'-' ∷ decimal (suc n)

module _ (locale_date : Option ℕ → Text) (parse_date : Text → Option ℕ) where
  abbrev days_text : ℕ → ℤ → Text
  days_text d (pos zero) = codes "today"
  days_text d (pos (suc zero)) = codes "yesterday"
  days_text d (pos (suc (suc n))) =
      if ltb (suc (suc n)) 30 then decimal (suc (suc n)) ++ codes "d ago" else locale_date (some d)
  days_text d (negsuc n) = shown_int (negsuc n) ++ codes "d ago"

  abbrev date_text : ℕ → Option ℕ → Text
  date_text now none = locale_date none
  date_text now (some d) = days_text d (diff_days now d)

  -- `formatDate` at the time `now`; a text that is no date gives no number, which no test accepts.
  unfoldable pub format_date : ℕ → Text → Text
  format_date now iso = if is_empty iso then [] else date_text now (parse_date iso)

-- `movie.tmdbId || movie.title`
pub data Key : Type 0 where
  by_id : ℕ → Key
  by_title : String → Key

pub record Item : Type 0 where
  pub key : Key
  pub marked : Bool  -- the class and the check mark
  pub poster : Option Text  -- the address of the image, or the sign for none
  pub title : String
  pub meta : Text
  pub seen : Option Text

unfoldable pub join : Text → List String → Text
join sep [] = []
join sep (s ∷ []) = codes s
join sep (s ∷ t ∷ ss) = codes s ++ sep ++ join sep (t ∷ ss)

abbrev key_of : ℕ → String → Key
key_of id title = if id == 0 then by_title title else by_id id

abbrev year_text : Option ℕ → Text
year_text none = []
year_text (some y) = if ltb 0 y then decimal y else []

-- `posterUrl` of the hook, where there is a path.
abbrev poster_url : Option String → Option Text
poster_url none = none
poster_url (some path) =
    if is_empty (codes path)
    then none
    else some (codes "https://image.tmdb.org/t/p/w185" ++ codes path)

-- What the hooks give to the widget.
pub record WidgetProps (Num : Type 0) : Type 0 where
  pub username : String
  pub movies : List (CrosswatchMovie Num)
  pub loading : Bool
  pub error : Option String
  pub has_trakt : Bool
  pub has_tmdb : Bool
  pub view : View
  pub watchlist_count : ℕ
  pub watched_count : ℕ

pub record Tab : Type 0 where
  pub active : Bool
  pub text : Text

-- The widget from above to below; an absent part is `none` or `false`.
pub record WidgetView : Type 0 where
  pub tabs : Option (Tab × Tab)
  pub invitation : Bool
  pub connected_as : Option String
  pub banner : Option String
  pub skeleton : Bool
  pub nothing : Option String
  pub items : Option (List Item)
  pub apis : Option (List String)

abbrev count_text : ℕ → Text
count_text n = if ltb 0 n then codes " (" ++ decimal n ++ codes ")" else []

abbrev is_watchlist : View → Bool
is_watchlist watchlist = true
is_watchlist watched = false

abbrev banner_of : Option String → Option String
banner_of none = none
banner_of (some e) = if is_empty (codes e) then none else some e

abbrev absent : Option String → Bool
absent none = true
absent (some e) = false

abbrev span : Bool → String → List String
span b s = if b then s ∷ [] else []

module _ (num : Number) where
  open num use {N, le, of_ℕ, to_fixed}

  unfoldable pub meta_text : CrosswatchMovie N → Text
  meta_text m =
      year_text m.year
      ++ (if not (le m.vote_average (of_ℕ 0))
          then codes " · ★ " ++ to_fixed m.vote_average 1
          else [])
      ++ (if ltb 0 (length m.genres)
          then codes " · " ++ join (codes ", ") (take 2 m.genres)
          else [])
      ++ (if ltb 0 m.runtime then codes " · " ++ runtime_str m.runtime else [])

  module _ (locale_date : Option ℕ → Text) (parse_date : Text → Option ℕ) (now : ℕ) where
    abbrev plays_text : ℕ → Text
    plays_text plays = if ltb 1 plays then codes " · " ++ decimal plays ++ codes "x" else []

    abbrev seen_text : Bool → Option String → ℕ → Option Text
    seen_text false at plays = none
    seen_text true none plays = none
    seen_text true (some at) plays =
        if is_empty (codes at)
        then none
        else some (
            codes "Watched "
            ++ format_date locale_date parse_date now (codes at)
            ++ plays_text plays)

    unfoldable pub item : CrosswatchMovie N → Item
    item m = record {
      key = key_of m.tmdb_id m.title;
      marked = m.watched;
      poster = poster_url m.poster_path;
      title = m.title;
      meta = meta_text m;
      seen = seen_text m.watched m.watched_at m.plays;
    }

    unfoldable pub crosswatch_widget : WidgetProps N → WidgetView
    crosswatch_widget p = record {
      tabs =
          if p.has_trakt && not p.loading
          then some (
            record {
              active = is_watchlist p.view;
              text = codes "Watchlist" ++ count_text p.watchlist_count;
            },
            record {
              active = not (is_watchlist p.view);
              text = codes "Watched" ++ count_text p.watched_count;
            },
          )
          else none;
      invitation = not p.has_trakt;
      connected_as = if p.has_trakt then some p.username else none;
      banner = banner_of p.error;
      skeleton = p.has_trakt && p.loading;
      nothing =
          if p.has_trakt && not p.loading && length p.movies == 0 && absent (banner_of p.error)
          then some
              (if is_watchlist p.view then "No movies on watchlist" else "No watched movies yet")
          else none;
      items =
          if p.has_trakt && not p.loading && ltb 0 (length p.movies)
          then some (map item p.movies)
          else none;
      apis =
          if not p.loading
          then some (
              span p.has_trakt "Trakt (backend)"
              ++ span (p.has_trakt && p.has_tmdb) "+"
              ++ span p.has_tmdb "TMDB")
          else none;
    }
