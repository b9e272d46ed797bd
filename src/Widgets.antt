-- ===== src/Widgets.antt =====
-- frontend/src/widgets.ts: the registry of the home widgets and the layouts made from it.
pub mod Selection
use vps_dashboard.Common.{
  String, Bool, true, false, not, ◌++◌, Option, none, some, List, [], ◌∷◌, map, filter, find,
  includes, ◌===◌,
}
use vps_dashboard.Types.{Span, one, two, HomeWidgetLayout}

pub record WidgetDef : Type 0 where
  pub id : String
  pub label : String
  pub default_span : Span

abbrev widget_def : String → String → Span → WidgetDef
widget_def id label span = record { id = id; label = label; default_span = span }

abbrev pub widget_defs : List WidgetDef
widget_defs =
    widget_def "metrics-summary" "System Overview" two
    ∷ widget_def "containers-summary" "Containers" one
    ∷ widget_def "crosswatch" "Crosswatch" two
    ∷ []

-- `def?.label ?? id`
abbrev label_or : Option WidgetDef → String → String
label_or none id = id
label_or (some def) id = def.label

unfoldable pub widget_label : String → String
widget_label id = label_or (find (λ w. w.id === id) widget_defs) id

-- A widget in a layout, with the width that its definition proposes.
abbrev pub placed : WidgetDef → HomeWidgetLayout
placed w = record { id = w.id; span = w.default_span }

-- A check box of the settings page, with its new state: the widget is added at the end, or removed.
abbrev pub toggled : List HomeWidgetLayout → WidgetDef → Bool → List HomeWidgetLayout
toggled layout def true = layout ++ placed def ∷ []
toggled layout def false = filter (λ w. not (w.id === def.id)) layout

abbrev pub default_home_layout : List HomeWidgetLayout
default_home_layout = map placed widget_defs

unfoldable pub layout_from_widget_ids : List String → List HomeWidgetLayout
layout_from_widget_ids ids = map placed (filter (λ w. includes ids w.id) widget_defs)

abbrev pub widget_ids : List HomeWidgetLayout → List String
widget_ids = map (λ w. w.id)

abbrev pub known_ids : List String
known_ids = map (λ w. w.id) widget_defs
