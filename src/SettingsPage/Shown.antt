-- ===== src/SettingsPage/Shown.antt =====
-- Code: frontend/src/components/SettingsPage.tsx.
-- After a control is used, the page shows what was chosen.
use vps_dashboard.Common.{
  ℕ, ◌≡◌, refl, sym, ap, ◌∙◌, arith, Bool, true, false, not, some, List, [], ◌∷◌, ◌++◌, map, filter,
  any-append, any-map, ◌===◌, if◌then◌else◌, String, get_elem?, All, All-get_elem?, includes,
  includes-filter, eq_iff,
}
use vps_dashboard.Types.{AppSettings, ThemePreset, HomeWidgetLayout}
use vps_dashboard.Presets.{presets}
use vps_dashboard.Widgets.{WidgetDef, widget_ids, placed}
use vps_dashboard.Settings.{merge}
use vps_dashboard.Theme.{color_at, current_colors, select, theme_act}
use vps_dashboard.Theme.Colors.{resolve_colors-select, current_colors-eq}
use vps_dashboard.Home.{remove}
use vps_dashboard.Home.Editing.{widget_ids-remove}
use vps_dashboard.Trakt.{AuthState, Form}
use vps_dashboard.SettingsPage.{
  themed, toggle, patch_of, controlled, color_labels, widget_toggle, SettingsView, settings_page,
}

abbrev pub active_ids : SettingsView → List String
active_ids v = map (λ c. c.id) (filter (λ c. c.active) v.cards)

active-chosen :
    (s : AppSettings) (a : AuthState) (f : Form)
    → All
        (λ p. active_ids (settings_page (controlled s (themed (select p))) a f) ≡ p.id ∷ [])
        presets
unfolding patch_of merge settings_page
active-chosen s a f = (refl, (refl, (refl, (refl, (refl, (refl, tt))))))

chosen-colors :
    (s : AppSettings) (i : ℕ) (p : ThemePreset)
    → get_elem? presets i ≡ some p
    → current_colors (controlled s (themed (select p))) ≡ p.colors
unfolding patch_of merge theme_act
chosen-colors s i p listed = current_colors-eq _ ∙ resolve_colors-select s i p listed

-- After a theme of the list is chosen its card alone is marked, the ten fields show its colours,
-- and the button that resets custom colours is gone.
pub choose-shown :
    (s : AppSettings) (a : AuthState) (f : Form) (i : ℕ) (p : ThemePreset)
    → get_elem? presets i ≡ some p
    → let v = settings_page (controlled s (themed (select p))) a f in
      (active_ids v ≡ p.id ∷ [])
      × (map (λ c. c.value) v.fields ≡ map (λ l. color_at p.colors l.0) color_labels)
      × (v.reset_shown ≡ false)
unfolding settings_page patch_of merge
choose-shown s a f i p listed = (
  All-get_elem? (λ q. active_ids (settings_page (controlled s (themed (select q))) a f) ≡ q.id ∷ [])
      presets i p listed (active-chosen s a f),
  ap (λ c. map (λ l. color_at c l.0) color_labels) (chosen-colors s i p listed),
  refl,
)

checked-eq :
    (s : AppSettings) (def : WidgetDef)
    → (widget_toggle s def).checked ≡ includes (widget_ids s.home_layout) def.id
checked-eq s def = any-map (λ w. w.id) (λ x. x === def.id) s.home_layout

ids-placed :
    (l : List HomeWidgetLayout) (def : WidgetDef)
    → widget_ids (l ++ placed def ∷ []) ≡ widget_ids l ++ def.id ∷ []
ids-placed [] def = refl
ids-placed (w ∷ l) def = ap (w.id ∷◌) (ids-placed l def)

toggled-ids :
    (s : AppSettings) (def : WidgetDef) (b : Bool) (x : String)
    → includes (widget_ids (controlled s (toggle def b)).home_layout) x
      ≡ (if def.id === x then b else includes (widget_ids s.home_layout) x)
unfolding patch_of merge remove
toggled-ids s def true x =
    ap (λ l. includes l x) (ids-placed s.home_layout def)
    ∙ any-append (λ y. y === x) (widget_ids s.home_layout) (def.id ∷ [])
    ∙ ground arith
toggled-ids s def false x =
    ap (λ l. includes l x) (widget_ids-remove s.home_layout def.id)
    ∙ includes-filter (λ y. not (y === def.id)) (widget_ids s.home_layout) x
    ∙ ground (arith, eq_iff def.id x, eq_iff x def.id)

-- After a check box is set or cleared it shows its new state, and the boxes of other widgets show
-- theirs as before.
pub toggle-shown :
    (s : AppSettings) (def other : WidgetDef) (b : Bool)
    → (widget_toggle (controlled s (toggle def b)) other).checked
      ≡ (if def.id === other.id then b else (widget_toggle s other).checked)
toggle-shown s def other b =
    checked-eq (controlled s (toggle def b)) other
    ∙ toggled-ids s def b other.id
    ∙ ap (λ c. if def.id === other.id then b else c) (sym (checked-eq s other))
