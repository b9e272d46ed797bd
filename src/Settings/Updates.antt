-- ===== src/Settings/Updates.antt =====
-- Code: frontend/src/context/SettingsContext.tsx.
-- Patches one after another, old versions of the stored settings, and a dashboard whose widgets
-- were all removed.
use vps_dashboard.Common.{
  ◌≡◌, refl, ap, ap₂, ◌∙◌, String, Option, none, some, List, [], ◌∷◌, ◌⊎◌, inl, inr, All,
}
use vps_dashboard.Types.{AppSettings}
use vps_dashboard.Widgets.{default_home_layout, layout_from_widget_ids}
use vps_dashboard.Widgets.Selection.{IsSelection, layout_from_widget_ids-IsSelection}
use vps_dashboard.Settings.{
  default_settings, Patch, merge, object, Json, from_parsed, load_settings, Provider, mount,
  update_settings, run_updates, or_else,
}
use vps_dashboard.Settings.Reload.{fresh, reload_lem, reloaded_layout}

-- The fields of the second patch, and those of the first that it lacks.
abbrev pub over {ℓ} : {A : Type ℓ} → Option A → Option A → Option A
over none a = a
over (some b) a = some b

abbrev pub then_patch : Patch → Patch → Patch
then_patch p q = record {
  theme = over q.theme p.theme;
  custom_colors = over q.custom_colors p.custom_colors;
  poll_interval_ms = over q.poll_interval_ms p.poll_interval_ms;
  home_widgets = over q.home_widgets p.home_widgets;
  home_layout = over q.home_layout p.home_layout;
  pinned_containers = over q.pinned_containers p.pinned_containers;
  tmdb_api_key = over q.tmdb_api_key p.tmdb_api_key;
}

or_else-over {ℓ} :
    {A : Type ℓ} (a b : Option A) (c : A) → or_else b (or_else a c) ≡ or_else (over b a) c
or_else-over a none c = refl
or_else-over a (some b) c = refl

-- Two updates amount to one whose fields are those of the second, and of the first where the
-- second has none: no field is lost.
pub merge-merge : (s : AppSettings) (p q : Patch) → merge (merge s p) q ≡ merge s (then_patch p q)
unfolding merge
merge-merge s p q = λ i. record {
  theme = or_else-over p.theme q.theme s.theme i;
  custom_colors = or_else-over p.custom_colors q.custom_colors s.custom_colors i;
  poll_interval_ms = or_else-over p.poll_interval_ms q.poll_interval_ms s.poll_interval_ms i;
  home_widgets = or_else-over p.home_widgets q.home_widgets s.home_widgets i;
  home_layout = or_else-over p.home_layout q.home_layout s.home_layout i;
  pinned_containers = or_else-over p.pinned_containers q.pinned_containers s.pinned_containers i;
  tmdb_api_key = or_else-over p.tmdb_api_key q.tmdb_api_key s.tmdb_api_key i;
}

-- Stored settings that have a list of widget ids and no layout, or an empty one, load with the
-- layout that selects these widgets; the widget ids are kept, and the theme, the custom colours,
-- the pinned containers and the TMDB key are kept where they are stored and have their default
-- values where not.
pub migration_lem :
    (parsed : Patch) (ids : List String)
    → (parsed.home_layout ≡ none) ⊎ (parsed.home_layout ≡ some [])
    → parsed.home_widgets ≡ some ids
    → IsSelection ids (from_parsed (object parsed)).home_layout
      × ((from_parsed (object parsed)).home_widgets ≡ ids)
      × ((from_parsed (object parsed)).theme ≡ or_else parsed.theme "oled")
      × ((from_parsed (object parsed)).custom_colors ≡ or_else parsed.custom_colors none)
      × ((from_parsed (object parsed)).pinned_containers ≡ or_else parsed.pinned_containers [])
      × ((from_parsed (object parsed)).tmdb_api_key ≡ or_else parsed.tmdb_api_key "")
unfolding from_parsed
migration_lem parsed ids (inl none_stored) listed =
    rw (none_stored, listed) (layout_from_widget_ids-IsSelection ids, refl, refl, refl, refl, refl)
migration_lem parsed ids (inr empty) listed =
    rw (empty, listed) (layout_from_widget_ids-IsSelection ids, refl, refl, refl, refl, refl)

all_selected : layout_from_widget_ids default_settings.home_widgets ≡ default_home_layout
unfolding layout_from_widget_ids
all_selected = refl

module _ (json : Json) where
  abbrev pub KeepsWidgetIds : List Patch → Type 0
  KeepsWidgetIds = All (λ patch. patch.home_widgets ≡ none)

  home_widgets-run_updates :
      (patches : List Patch) (p : Provider json)
      → KeepsWidgetIds patches
      → (run_updates json p patches).settings.home_widgets ≡ p.settings.home_widgets
  unfolding update_settings merge
  home_widgets-run_updates [] p h = refl
  home_widgets-run_updates (patch ∷ patches) p h =
      home_widgets-run_updates patches (update_settings json p patch) h.1
      ∙ ap (λ o. or_else o p.settings.home_widgets) h.0

  fresh_widgets : (mount json (fresh json)).settings.home_widgets ≡ default_settings.home_widgets
  unfolding mount load_settings
  fresh_widgets = refl

  -- In a browser new to the page, if updates of which none writes homeWidgets end in an empty
  -- layout, a reload loads the default layout.
  pub removed_widgets_return :
      (patches : List Patch)
      → KeepsWidgetIds patches
      → (run_updates json (mount json (fresh json)) patches).settings.home_layout ≡ []
      → (load_settings json
          (run_updates json (mount json (fresh json)) patches).storage).home_layout
        ≡ default_home_layout
  removed_widgets_return patches keeps empty =
      ap (λ s. s.home_layout) (reload_lem json patches)
      ∙ ap₂ reloaded_layout empty
          (home_widgets-run_updates patches (mount json (fresh json)) keeps ∙ fresh_widgets)
      ∙ all_selected
