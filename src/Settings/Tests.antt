-- ===== src/Settings/Tests.antt =====
-- Code: frontend/src/context/SettingsContext.tsx.
-- The settings at concrete inputs, with a JSON whose texts are the data that they denote.
use vps_dashboard.Common.{◌≡◌, refl, Bool, true, false, some, [], ◌∷◌}
use vps_dashboard.Types.{two}
use vps_dashboard.Widgets.{default_home_layout, layout_from_widget_ids}
use vps_dashboard.Settings.{
  default_settings, Patch, no_patch, merge, whole_patch, Parsed, malformed, object, Json,
  from_parsed, load_settings, save_settings, mount, update_settings, run_updates, reset_all,
}
use vps_dashboard.Settings.Reload.{fresh, reload_lem, reloaded_layout}
use vps_dashboard.Settings.Updates.{removed_widgets_return}

-- An empty text, or a text that denotes a value.
data Stored : Type 0 where
  blank : Stored
  text : Parsed → Stored

abbrev blank? : Stored → Bool
blank? blank = true
blank? (text p) = false

abbrev denoted : Stored → Parsed
denoted blank = malformed
denoted (text p) = p

abbrev plain : Json
plain = record {
  Raw = Stored;
  is_blank = blank?;
  parse = denoted;
  stringify = λ s. text (object (whole_patch s));
  stringify_not_blank = λ s. refl;
  parse-stringify = λ s. refl;
}

abbrev emptied : Patch
emptied = record no_patch { home_layout = some [] }

abbrev amber_theme : Patch
amber_theme = record no_patch { theme = some "amber" }

reload_lem_example :
    load_settings plain (run_updates plain (mount plain (fresh plain)) (amber_theme ∷ [])).storage
    ≡ record ((run_updates plain (mount plain (fresh plain)) (amber_theme ∷ [])).settings) {
      home_layout =
          reloaded_layout
            (run_updates plain (mount plain (fresh plain)) (amber_theme ∷ [])).settings.home_layout
            (run_updates plain
              (mount plain (fresh plain))
              (amber_theme ∷ [])).settings.home_widgets;
    }
reload_lem_example = reload_lem plain (amber_theme ∷ [])

abbrev legacy : Patch
legacy = record no_patch { home_widgets = some ("crosswatch" ∷ []); tmdb_api_key = some "key" }

removed_widgets_return_example :
    (load_settings plain
      (run_updates plain (mount plain (fresh plain)) (emptied ∷ [])).storage).home_layout
    ≡ default_home_layout
unfolding mount load_settings update_settings merge
removed_widgets_return_example = removed_widgets_return plain (emptied ∷ []) (refl, tt) refl

migrated : (from_parsed (object legacy)).home_layout ≡ record { id = "crosswatch"; span = two } ∷ []
unfolding from_parsed layout_from_widget_ids
migrated = refl

reset :
    (reset_all plain (run_updates plain (mount plain (fresh plain)) (amber_theme ∷ []))).settings
    ≡ default_settings
unfolding reset_all mount load_settings update_settings save_settings
reset = refl
