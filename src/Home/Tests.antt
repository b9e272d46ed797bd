-- ===== src/Home/Tests.antt =====
-- Code: frontend/src/components/HomePage.tsx.
-- The home page at concrete layouts.
use mathlib.Core.List.{Perm}
use vps_dashboard.Common.{
  ◌≡◌, refl, String, true, false, some, none, [], ◌∷◌, map, includes, ◌&&◌, not, All, pos, before,
  get_elem?, erase_idx, codes, decimal,
}
use vps_dashboard.Types.{one, HomeWidgetLayout, ContainerInfo}
use vps_dashboard.Widgets.{widget_label, widget_ids, known_ids}
use vps_dashboard.Widgets.Selection.{known_ids-Distinct}
use vps_dashboard.Home.{
  Layout, HomeState, move, remove, available, act, edit, drop_widget, pick, visible_containers,
  containers_badge, greeting,
}
use vps_dashboard.Home.Moving.{move_lem, move-move}
use vps_dashboard.Home.Session.{
  edit_button, remove_button, palette, Reach, here, next, IsValid, Reach-IsValid,
}
use vps_dashboard.Home.Page.{home_page, is_rendered, offered, is_filled, home_page_lem}

abbrev widget : String → HomeWidgetLayout
widget id = record { id = id; span = one }

abbrev three : Layout
three = widget "metrics-summary" ∷ widget "containers-summary" ∷ widget "crosswatch" ∷ []

abbrev rotated : Layout
rotated = widget "containers-summary" ∷ widget "crosswatch" ∷ widget "metrics-summary" ∷ []

first_to_last : move three (pos 0) (pos 2) ≡ some rotated
unfolding move
first_to_last = refl

up_from_the_top : move three (pos 0) (before 0) ≡ none
unfolding move
up_from_the_top = refl

labels : (widget_label "crosswatch" ≡ "Crosswatch") × (widget_label "clock" ≡ "clock")
unfolding widget_label
labels = (refl, refl)

evening : greeting 18 ≡ codes "Good evening"
unfolding greeting
evening = refl

move_lem_example :
    (get_elem? rotated 2 ≡ get_elem? three 0)
    × (erase_idx rotated 2 ≡ erase_idx three 0)
    × Perm three rotated
move_lem_example = move_lem three rotated 0 2 first_to_last

move-move_example : move rotated (pos 2) (pos 0) ≡ some three
move-move_example = move-move three rotated 0 2 first_to_last

three-Distinct : IsValid three
three-Distinct = record { distinct = known_ids-Distinct; known = (refl, (refl, (refl, tt))) }

abbrev page : HomeState
page = record { layout = three; editing = false; drag_index = none }

abbrev without_crosswatch : HomeState
without_crosswatch = act (act page edit) (drop_widget "crosswatch")

-- Edit, remove a widget, and add it again.
session : Reach page (act without_crosswatch (pick "crosswatch"))
unfolding act remove available
session =
    next (pick "crosswatch")
      (next (drop_widget "crosswatch") (next edit here edit_button)
        (remove_button "crosswatch" refl refl))
      (palette "crosswatch" refl refl)

Reach-IsValid_example : IsValid (act without_crosswatch (pick "crosswatch")).layout
Reach-IsValid_example = Reach-IsValid {s = page} session three-Distinct

abbrev dragged_page : HomeState
dragged_page = record { layout = three; editing = true; drag_index = some 0 }

abbrev container : String → ContainerInfo
container id = record {
  id = id;
  name = codes "web";
  status = codes "Up 2 hours";
  state = codes "running";
  uptime = [];
  started_at = [];
  public_url = [];
}

badge : containers_badge ("a" ∷ "z" ∷ []) (container "a" ∷ container "b" ∷ []) ≡ codes "1 pinned"
unfolding containers_badge visible_containers decimal
badge = refl

abbrev added_back : HomeState
added_back = act without_crosswatch (pick "crosswatch")

home_page_lem_example :
    (map (λ w. w.id) (home_page 9 "LIVE" added_back).tiles ≡ widget_ids added_back.layout)
    × All (λ w. is_rendered w.body ≡ true) (home_page 9 "LIVE" added_back).tiles
    × ((x : String)
        → includes (offered (home_page 9 "LIVE" added_back).palette) x ≡ (
            added_back.editing
            && (includes known_ids x
                && not (includes (map (λ w. w.id) (home_page 9 "LIVE" added_back).tiles) x))))
    × (is_filled (home_page 9 "LIVE" added_back) ≡ true)
home_page_lem_example = home_page_lem 9 "LIVE" page added_back three-Distinct session
