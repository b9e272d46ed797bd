-- ===== src/Home/Page.antt =====
-- Code: frontend/src/components/HomePage.tsx and frontend/src/widgets.ts.
-- What the page shows in a state, and that the registry, the layout and the page agree.
use vps_dashboard.Common.{
  ℕ, zero, suc, ◌+◌, ◌≡◌, refl, ap, ◌∙◌, sym, arith, String, Bool, true, false, not, ◌&&◌, ◌||◌,
  ◌==◌, Option, some, none, List, [], ◌∷◌, map, includes, length, All, ◌===◌, if◌then◌else◌, Text,
  ltb, eq_iff,
}
use vps_dashboard.Types.{Span, one, two, HomeWidgetLayout}
use vps_dashboard.Widgets.{WidgetDef, widget_label, widget_ids, known_ids}
use vps_dashboard.Home.{Layout, HomeState, available, greeting}
use vps_dashboard.Home.Editing.{available_lem}
use vps_dashboard.Home.Session.{IsValid, Reach, Reach-IsValid}

-- The component that shows a widget.
pub data Body : Type 0 where
  metrics_summary containers_summary crosswatch_widget : Body

unfoldable pub render_widget : String → Option Body
render_widget id =
    if id === "metrics-summary"
    then some metrics_summary
    else if id === "containers-summary"
    then some containers_summary
    else if id === "crosswatch"
    then some crosswatch_widget
    else none

pub record Toolbar : Type 0 where
  pub label : String
  pub up_disabled : Bool
  pub down_disabled : Bool
  -- the title and the sign of the button for the width
  pub resize : String
  pub sign : String

pub record Tile : Type 0 where
  pub id : String
  pub span : Span
  pub dragging : Bool
  pub draggable : Bool
  pub toolbar : Option Toolbar
  pub body : Option Body

pub record PageView : Type 0 where
  pub greeting : Text
  pub status : String
  pub button : String
  pub invitation : Bool
  pub tiles : List Tile
  pub palette : Option (List WidgetDef)

abbrev is_at : Option ℕ → ℕ → Bool
is_at none i = false
is_at (some d) i = d == i

abbrev resize_title : Span → String
resize_title one = "Make wide"
resize_title two = "Make narrow"

abbrev resize_sign : Span → String
resize_sign one = "▭"
resize_sign two = "◧"

abbrev toolbar : HomeState → ℕ → HomeWidgetLayout → Toolbar
toolbar s i w = record {
  label = widget_label w.id;
  up_disabled = i == 0;
  down_disabled = i + 1 == length s.layout;
  resize = resize_title w.span;
  sign = resize_sign w.span;
}

abbrev tile : HomeState → ℕ → HomeWidgetLayout → Tile
tile s i w = record {
  id = w.id;
  span = w.span;
  dragging = is_at s.drag_index i;
  draggable = s.editing;
  toolbar = if s.editing then some (toolbar s i w) else none;
  body = render_widget w.id;
}

-- `layout.map((w, i) => …)`, from index `i` on.
unfoldable pub tiles : HomeState → ℕ → Layout → List Tile
tiles s i [] = []
tiles s i (w ∷ ws) = tile s i w ∷ tiles s (suc i) ws

unfoldable pub home_page : ℕ → String → HomeState → PageView
home_page hour status s = record {
  greeting = greeting hour;
  status = status;
  button = if s.editing then "Done" else "Edit";
  invitation = length s.layout == 0 && not s.editing;
  tiles = tiles s 0 s.layout;
  palette =
      if s.editing && ltb 0 (length (available s.layout)) then some (available s.layout) else none;
}

abbrev pub is_rendered : Option Body → Bool
is_rendered none = false
is_rendered (some b) = true

-- The ids that the palette offers; a palette that is not shown offers none.
abbrev pub offered : Option (List WidgetDef) → List String
offered none = []
offered (some defs) = map (λ w. w.id) defs

ids-tiles : (s : HomeState) (i : ℕ) (ws : Layout) → map (λ t. t.id) (tiles s i ws) ≡ widget_ids ws
unfolding tiles
ids-tiles s i [] = refl
ids-tiles s i (w ∷ ws) = ap (w.id ∷◌) (ids-tiles s (suc i) ws)

known-rendered :
    (id : String) → includes known_ids id ≡ true → is_rendered (render_widget id) ≡ true
unfolding render_widget
known-rendered id h = ground (
  arith,
  eq_iff id "metrics-summary",
  eq_iff id "containers-summary",
  eq_iff id "crosswatch",
  eq_iff "metrics-summary" id,
  eq_iff "containers-summary" id,
  eq_iff "crosswatch" id,
)

tiles-rendered :
    (s : HomeState) (i : ℕ) (ws : Layout)
    → All (λ x. includes known_ids x ≡ true) (widget_ids ws)
    → All (λ t. is_rendered t.body ≡ true) (tiles s i ws)
unfolding tiles
tiles-rendered s i [] h = tt
tiles-rendered s i (w ∷ ws) h = (known-rendered w.id h.0, tiles-rendered s (suc i) ws h.1)

offered-palette :
    (editing : Bool) (defs : List WidgetDef) (x : String)
    → includes (offered (if editing && ltb 0 (length defs) then some defs else none)) x
      ≡ (editing && includes (map (λ w. w.id) defs) x)
offered-palette false defs x = refl
offered-palette true [] x = refl
offered-palette true (d ∷ defs) x =
    ap (λ b. includes (offered (if b then some (d ∷ defs) else none)) x) (positive (length defs))
  where
    positive : (n : ℕ) → ltb 0 (suc n) ≡ true
    positive n = ground arith

abbrev is_shown : Option (List WidgetDef) → Bool
is_shown none = false
is_shown (some defs) = true

-- Something stands under the header.
abbrev pub is_filled : PageView → Bool
is_filled v = v.invitation || ltb 0 (length v.tiles) || is_shown v.palette

length-tiles : (s : HomeState) (i : ℕ) (ws : Layout) → length (tiles s i ws) ≡ length ws
unfolding tiles
length-tiles s i [] = refl
length-tiles s i (w ∷ ws) = ap suc (length-tiles s (suc i) ws)

available-empty : (ws : Layout) → length ws ≡ 0 → ltb 0 (length (available ws)) ≡ true
unfolding available
available-empty [] e = refl
available-empty (w ∷ ws) e = absurd (omega (arith, e))

-- An empty layout is announced, or the palette offers the whole registry.
filled_lem :
    (editing : Bool) (placed : ℕ) (defs : List WidgetDef)
    → (placed ≡ 0 → ltb 0 (length defs) ≡ true)
    → ((placed == 0 && not editing)
        || ltb 0 placed
        || is_shown (if editing && ltb 0 (length defs) then some defs else none))
      ≡ true
filled_lem editing zero [] h = cc (h refl)
filled_lem false zero (d ∷ defs) h = refl
filled_lem true zero (d ∷ defs) h = ground arith
filled_lem editing (suc n) defs h = ground arith

filled : (hour : ℕ) (status : String) (s : HomeState) → is_filled (home_page hour status s) ≡ true
unfolding home_page
filled hour status s =
    rw (length-tiles s 0 s.layout)
      (filled_lem s.editing (length s.layout) (available s.layout) (available-empty s.layout))

-- In every state that a session on the home page reaches from a well-formed layout, the tiles
-- are those of the layout and each has a component that shows it; while the layout is edited the
-- palette offers exactly the widgets of the registry that have no tile, and else none; and the
-- page is never empty under its header.
pub home_page_lem :
    (hour : ℕ) (status : String) (s t : HomeState)
    → IsValid s.layout
    → Reach s t
    → let v = home_page hour status t in
      (map (λ w. w.id) v.tiles ≡ widget_ids t.layout)
      × All (λ w. is_rendered w.body ≡ true) v.tiles
      × ((x : String)
          → includes (offered v.palette) x
            ≡ (t.editing && (includes known_ids x && not (includes (map (λ w. w.id) v.tiles) x))))
      × (is_filled v ≡ true)
unfolding home_page
home_page_lem hour status s t valid r = (
  ids-tiles t 0 t.layout,
  tiles-rendered t 0 t.layout (Reach-IsValid r valid).known,
  (λ x.
      offered-palette t.editing (available t.layout) x
      ∙ ap (λ b. t.editing && b)
          (available_lem t.layout x
            ∙ ap (λ ids. includes known_ids x && not (includes ids x))
                (sym (ids-tiles t 0 t.layout)))),
  filled hour status t,
)
