-- ===== src/Home/Moving.antt =====
-- Code: frontend/src/components/HomePage.tsx.
-- `move` takes one widget to another position.
use mathlib.Core.List.{Perm}
use vps_dashboard.Common.{
  ℕ, ◌≤◌, ◌<◌, ◌≡◌, ◌≢◌, ◌⊎◌, ◌↔◌, arith, String, none, some, length, get_elem?, insert_at,
  erase_idx, pos, get_elem?-eq-some_of_lt, lt-length_of_get_elem?, length-insert_at,
  length-erase_idx, get_elem?-insert_at, erase_idx-insert_at, insert_at-erase_idx, splice-perm,
  Distinct, Distinct-splice, All, All-splice, map-insert_at, map-erase_idx, get_elem?-map, sym, ◌∙◌,
  ap,
}
use vps_dashboard.Types.{HomeWidgetLayout}
use vps_dashboard.Widgets.{widget_ids}
use vps_dashboard.Home.{Layout, move}

-- The inputs at which `move` sets a layout.
pub record Moves (layout : Layout) (from to : ℕ) (next : Layout) : Type 0 where
  pub item : HomeWidgetLayout
  pub differ : from ≢ to
  pub within : to < length layout
  pub taken : get_elem? layout from ≡ some item
  pub result : next ≡ insert_at (erase_idx layout from) to item

move-at :
    (layout : Layout) (from to : ℕ) (item : HomeWidgetLayout)
    → get_elem? layout from ≡ some item
    → from ≢ to
    → to < length layout
    → move layout (pos from) (pos to) ≡ some (insert_at (erase_idx layout from) to item)
unfolding move
move-at layout from to item taken ne lt = ground (arith, lt-length_of_get_elem? layout from item)

pub move-Moves :
    (layout next : Layout) (from to : ℕ)
    → move layout (pos from) (pos to) ≡ some next
    → Moves layout from to next
unfolding move
move-Moves layout next from to h =
    let within : (from ≢ to) × (to < length layout) × (from < length layout) =
      (ground arith, ground arith, ground arith) in
    let (item, taken) = get_elem?-eq-some_of_lt layout from within.2 in
    record {
      item = item;
      differ = within.0;
      within = within.1;
      taken = taken;
      result = cc (move-at layout from to item taken within.0 within.1);
    }

-- For positions that are not negative, move sets no layout if and only if the two positions are
-- equal or one of them lies outside the layout.
pub move-eq-none_iff :
    (layout : Layout) (from to : ℕ)
    → (move layout (pos from) (pos to) ≡ none)
      ↔ ((from ≡ to) ⊎ (length layout ≤ from) ⊎ (length layout ≤ to))
unfolding move
move-eq-none_iff layout from to =
    (λ h. ground (arith, get_elem?-eq-some_of_lt layout from), λ h. ground arith)

module _ (layout next : Layout) (from to : ℕ)
    (moved : move layout (pos from) (pos to) ≡ some next) where
  to-le-rest : to ≤ length (erase_idx layout from)
  to-le-rest =
      let m = move-Moves layout next from to moved in
      omega (
        arith,
        m.within,
        length-erase_idx layout from (lt-length_of_get_elem? layout from m.item m.taken),
      )

  -- After a move the widget stands at the position asked for, the others keep their order, and the
  -- layout holds the same widgets as before.
  pub move_lem :
      (get_elem? next to ≡ get_elem? layout from)
      × (erase_idx next to ≡ erase_idx layout from)
      × Perm layout next
  move_lem =
      let m = move-Moves layout next from to moved in
      (
        rw (m.result, m.taken) (get_elem?-insert_at (erase_idx layout from) to m.item to-le-rest),
        rw m.result (erase_idx-insert_at (erase_idx layout from) to m.item to-le-rest),
        rw m.result (splice-perm layout from to m.item m.taken),
      )

  pub length-move : length next ≡ length layout
  length-move =
      let m = move-Moves layout next from to moved in
      let grown = length-insert_at (erase_idx layout from) to m.item in
      let shrunk =
        length-erase_idx layout from (lt-length_of_get_elem? layout from m.item m.taken) in
      rw m.result (omega arith)

  -- Moving the widget back restores the layout.
  pub move-move : move next (pos to) (pos from) ≡ some layout
  move-move =
      let m = move-Moves layout next from to moved in
      let (at_to, others, _) = move_lem in
      let from_lt = lt-length_of_get_elem? layout from m.item m.taken in
      let grown = length-insert_at (erase_idx layout from) to m.item in
      let shrunk = length-erase_idx layout from from_lt in
      move-at next to from m.item (at_to ∙ m.taken) (λ e. m.differ (sym e))
        (rw m.result (omega arith))
      ∙ ap some (
          ap (λ l. insert_at l from m.item) others ∙ insert_at-erase_idx layout from m.item m.taken)

  pub move-All {ℓ} : (P : String → Type ℓ) → All P (widget_ids layout) → All P (widget_ids next)
  move-All P h =
      let m = move-Moves layout next from to moved in
      let spliced =
        All-splice P (widget_ids layout) from to m.item.id
          (get_elem?-map (λ w. w.id) layout from m.item m.taken) h in
      rw
        (
          m.result,
          map-insert_at (λ (w : HomeWidgetLayout). w.id),
          map-erase_idx (λ (w : HomeWidgetLayout). w.id),
        )
        spliced

  -- A move keeps the ids of the layout distinct.
  pub move-Distinct : Distinct (widget_ids layout) → Distinct (widget_ids next)
  move-Distinct d =
      let m = move-Moves layout next from to moved in
      let spliced =
        Distinct-splice (widget_ids layout) from to m.item.id
          (get_elem?-map (λ w. w.id) layout from m.item m.taken) d in
      rw
        (
          m.result,
          map-insert_at (λ (w : HomeWidgetLayout). w.id),
          map-erase_idx (λ (w : HomeWidgetLayout). w.id),
        )
        spliced
