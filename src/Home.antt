-- ===== src/Home.antt =====
-- frontend/src/components/HomePage.tsx, and the widget check boxes of SettingsPage.tsx: the home
-- layout and how the user edits it. A handler is given the layout of the render that it belongs
-- to, and answers with the layout that it passes to `updateSettings`.
pub mod Moving
pub mod Editing
pub mod Session
pub mod Pinned
pub mod Page
mod Tests
use vps_dashboard.Common.{
  ℕ, suc, ◌+◌, String, Bool, true, false, not, ◌||◌, Option, none, some, List, [], ◌∷◌, ◌++◌, map,
  filter, find, any, ◌===◌, ◌==◌, leb, if◌then◌else◌, length, get_elem?, insert_at, erase_idx, ℤ,
  pos, negsuc, before, take, includes, Text, codes, decimal, ltb,
}
use vps_dashboard.Types.{Span, one, two, HomeWidgetLayout, ContainerInfo}
use vps_dashboard.Widgets.{WidgetDef, widget_defs, toggled}

abbrev pub Layout : Type 0
Layout = List HomeWidgetLayout

-- `const [item] = next.splice(from, 1)` and `next.splice(to, 0, item)`, for indices in range.
abbrev pub relocate : Option HomeWidgetLayout → Layout → ℕ → Option Layout
relocate none rest to = none
relocate (some item) rest to = some (insert_at rest to item)

-- `none`: the guard returns, and no layout is set.
unfoldable pub move : Layout → ℤ → ℤ → Option Layout
move layout (pos from) (pos to) =
    if from == to || leb (length layout) from || leb (length layout) to
    then none
    else relocate (get_elem? layout from) (erase_idx layout from) to
move layout (pos from) (negsuc to) = none
move layout (negsuc from) to = none

unfoldable pub set_span : Layout → String → Span → Layout
set_span layout id span = map (λ w. if w.id === id then record w { span = span } else w) layout

unfoldable pub remove : Layout → String → Layout
remove layout id = filter (λ w. not (w.id === id)) layout

-- `def?.defaultSpan ?? 1`
abbrev span_or_one : Option WidgetDef → Span
span_or_one none = one
span_or_one (some def) = def.default_span

unfoldable pub add : Layout → String → Layout
add layout id =
    layout ++ record { id = id; span = span_or_one (find (λ w. w.id === id) widget_defs) } ∷ []

-- The widgets of the palette: those of the registry that the layout lacks.
unfoldable pub available : Layout → List WidgetDef
available layout = filter (λ w. not (any (λ l. l.id === w.id) layout)) widget_defs

pub record HomeState : Type 0 where
  pub layout : Layout
  pub editing : Bool
  pub drag_index : Option ℕ

-- `setLayout` where the handler calls it.
abbrev pub with_layout : HomeState → Option Layout → HomeState
with_layout s none = s
with_layout s (some next) = record s { layout = next }

abbrev pub other : Span → Span
other one = two
other two = one

abbrev drag_to : HomeState → Option ℕ → ℕ → HomeState
drag_to s none i = s
drag_to s (some d) i =
    if d == i
    then s
    else record (with_layout s (move s.layout (pos d) (pos i))) { drag_index = some i }

-- What the user can do on the page; an index is the position of a widget, and `flip` is the button
-- that makes a widget wide or narrow. `check` and `uncheck` are the check boxes of the settings page.
pub data Action : Type 0 where
  edit : Action
  drag_start drag_over up down : ℕ → Action
  drag_end : Action
  flip : HomeWidgetLayout → Action
  drop_widget pick : String → Action
  check : WidgetDef → Action
  uncheck : WidgetDef → Action

unfoldable pub act : HomeState → Action → HomeState
act s edit = record s { editing = not s.editing }
act s (drag_start i) = record s { drag_index = some i }
act s drag_end = record s { drag_index = none }
act s (drag_over i) = if s.editing then drag_to s s.drag_index i else s
act s (up i) = with_layout s (move s.layout (pos i) (before i))
act s (down i) = with_layout s (move s.layout (pos i) (pos (i + 1)))
act s (flip w) = record s { layout = set_span s.layout w.id (other w.span) }
act s (drop_widget id) = record s { layout = remove s.layout id }
act s (pick id) = record s { layout = add s.layout id }
act s (check def) = record s { layout = toggled s.layout def true }
act s (uncheck def) = record s { layout = toggled s.layout def false }

-- The list in `ContainersSummaryWidget`: the pinned containers, or the first four if none is pinned.
unfoldable pub visible_containers : List String → List ContainerInfo → List ContainerInfo
visible_containers [] containers = take 4 containers
visible_containers (p ∷ pinned) containers = filter (λ c. includes (p ∷ pinned) c.id) containers

-- The badge of that list.
unfoldable pub containers_badge : List String → List ContainerInfo → Text
containers_badge [] containers = decimal (length containers) ++ codes " running"
containers_badge (p ∷ pinned) containers =
    decimal (length (visible_containers (p ∷ pinned) containers)) ++ codes " pinned"

-- `getGreeting`, by the hour of the day.
unfoldable pub greeting : ℕ → Text
greeting hour =
    if ltb hour 12
    then codes "Good morning"
    else if ltb hour 18
    then codes "Good afternoon"
    else codes "Good evening"
