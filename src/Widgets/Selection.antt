-- ===== src/Widgets/Selection.antt =====
-- Code: frontend/src/widgets.ts.
-- What a layout made from a list of widget ids holds.
use mathlib.Core.List.{Sublistᴰ}
use vps_dashboard.Common.{
  String, ◌≡◌, refl, sym, subst, ◌∙◌, ap, List, [], ◌∷◌, map, filter, includes, ◌&&◌, Distinct,
  map-filter, includes-filter, filter-Sublistᴰ, map-Sublistᴰ, Distinct-filter,
}
use vps_dashboard.Types.{HomeWidgetLayout}
use vps_dashboard.Widgets.{
  WidgetDef, widget_defs, placed, default_home_layout, layout_from_widget_ids, widget_ids,
  known_ids,
}

map-map-placed : (ws : List WidgetDef) → widget_ids (map placed ws) ≡ map (λ w. w.id) ws
map-map-placed [] = refl
map-map-placed (w ∷ ws) = ap (w.id ∷◌) (map-map-placed ws)

widget_ids-layout_from_widget_ids :
    (ids : List String) → widget_ids (layout_from_widget_ids ids) ≡ filter (includes ids) known_ids
unfolding layout_from_widget_ids
widget_ids-layout_from_widget_ids ids =
    map-map-placed (filter (λ w. includes ids w.id) widget_defs)
    ∙ map-filter (λ w. w.id) (includes ids) widget_defs

pub known_ids-Distinct : Distinct known_ids
known_ids-Distinct = (refl, (refl, (refl, tt)))

pub record IsSelection (ids : List String) (layout : List HomeWidgetLayout) : Type 0 where
  -- exactly the listed widgets that the registry knows
  pub members :
      (x : String) → includes (widget_ids layout) x ≡ (includes known_ids x && includes ids x)
  -- each once
  pub distinct : Distinct (widget_ids layout)
  -- in the registry's order, with the registry's widths
  pub ordered : Sublistᴰ layout default_home_layout

-- A layout made from a list of ids holds exactly the listed widgets that the registry knows, each
-- once, in the order of the registry and with its default widths, whatever the order of the list
-- and however often it repeats an id.
pub layout_from_widget_ids-IsSelection :
    (ids : List String) → IsSelection ids (layout_from_widget_ids ids)
layout_from_widget_ids-IsSelection ids = record {
  members = λ x.
      ap (λ l. includes l x) (widget_ids-layout_from_widget_ids ids)
      ∙ includes-filter (includes ids) known_ids x;
  distinct =
      subst Distinct (sym (widget_ids-layout_from_widget_ids ids))
        (Distinct-filter (includes ids) known_ids known_ids-Distinct);
  ordered =
      unfold layout_from_widget_ids in
      map-Sublistᴰ placed (filter-Sublistᴰ (λ w. includes ids w.id) widget_defs);
}
