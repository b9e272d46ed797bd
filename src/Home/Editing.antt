-- ===== src/Home/Editing.antt =====
-- Code: frontend/src/components/HomePage.tsx.
-- Removing, adding and resizing widgets, and the palette of those that can be added.
use mathlib.Core.List.{Sublistᴰ}
use mathlib.Core.Path.{fun_ext}
use vps_dashboard.Common.{
  ℕ, zero, suc, ◌≡◌, refl, ap, ◌∙◌, arith, String, false, not, ◌&&◌, some, [], ◌∷◌, ◌++◌, map,
  filter, any, includes, includes-filter, map-filter, any-map, filter-Sublistᴰ, Distinct, get_elem?,
  ◌===◌, eq_iff, includes_of_get_elem?, get_elem?-map,
}
use vps_dashboard.Types.{Span, HomeWidgetLayout}
use vps_dashboard.Widgets.{WidgetDef, widget_defs, widget_ids, known_ids}
use vps_dashboard.Home.{Layout, set_span, remove, add, available}

pub widget_ids-remove :
    (layout : Layout) (id : String)
    → widget_ids (remove layout id) ≡ filter (λ x. not (x === id)) (widget_ids layout)
unfolding remove
widget_ids-remove layout id =
    map-filter (λ (w : HomeWidgetLayout). w.id) (λ x. not (x === id)) layout

-- Removing a widget takes away the widgets of that id and no other, and keeps the order of the rest.
pub remove_lem :
    (layout : Layout) (id : String)
    → Sublistᴰ (remove layout id) layout
      × ((x : String)
          → includes (widget_ids (remove layout id)) x
            ≡ (includes (widget_ids layout) x && not (x === id)))
remove_lem layout id = (
  unfold remove in filter-Sublistᴰ (λ w. not (w.id === id)) layout,
  λ x.
      ap (λ l. includes l x) (widget_ids-remove layout id)
      ∙ includes-filter _ (widget_ids layout) x,
)

pub widget_ids-add :
    (layout : Layout) (id : String) → widget_ids (add layout id) ≡ widget_ids layout ++ id ∷ []
unfolding add
widget_ids-add [] id = refl
widget_ids-add (w ∷ layout) id = ap (w.id ∷◌) (widget_ids-add layout id)

pub widget_ids-set_span :
    (layout : Layout) (id : String) (span : Span)
    → widget_ids (set_span layout id span) ≡ widget_ids layout
unfolding set_span
widget_ids-set_span [] id span = refl
widget_ids-set_span (w ∷ layout) id span = ground (arith, widget_ids-set_span layout id span)

ids-available :
    (layout : Layout)
    → map (λ w. w.id) (available layout)
      ≡ filter (λ y. not (includes (widget_ids layout) y)) known_ids
unfolding available
ids-available layout =
    map-filter (λ (w : WidgetDef). w.id)
      (λ y. not (any (λ (l : HomeWidgetLayout). l.id === y) layout)) widget_defs
    ∙ ap (λ p. filter p known_ids)
        (fun_ext (λ y. ap not (any-map (λ (l : HomeWidgetLayout). l.id) (λ z. z === y) layout)))

-- The palette offers exactly the widgets of the registry that the layout lacks.
pub available_lem :
    (layout : Layout) (x : String)
    → includes (map (λ w. w.id) (available layout)) x
      ≡ (includes known_ids x && not (includes (widget_ids layout) x))
available_lem layout x =
    ap (λ l. includes l x) (ids-available layout)
    ∙ includes-filter (λ y. not (includes (widget_ids layout) y)) known_ids x

set_span_absent :
    (layout : Layout) (id : String) (span : Span)
    → includes (widget_ids layout) id ≡ false
    → set_span layout id span ≡ layout
unfolding set_span
set_span_absent [] id span h = refl
set_span_absent (w ∷ layout) id span h = ground (arith, set_span_absent layout id span)

-- Resizing a widget and giving it its old width back restores the layout, if the ids are distinct.
pub set_span-set_span :
    (layout : Layout) (i : ℕ) (w : HomeWidgetLayout) (span : Span)
    → Distinct (widget_ids layout)
    → get_elem? layout i ≡ some w
    → set_span (set_span layout w.id span) w.id w.span ≡ layout
unfolding set_span
set_span-set_span [] i w span d h = cc
set_span-set_span (x ∷ layout) zero w span d h =
    ground (
      arith,
      eq_iff x.id w.id,
      set_span_absent layout w.id span,
      set_span_absent layout w.id w.span,
    )
set_span-set_span (x ∷ layout) (suc i) w span d h = ground (
  arith,
  eq_iff x.id w.id,
  includes_of_get_elem? (widget_ids layout) i w.id,
  get_elem?-map (λ (l : HomeWidgetLayout). l.id) layout i w,
  set_span-set_span layout i w span,
)
