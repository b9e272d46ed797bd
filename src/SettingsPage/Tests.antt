-- ===== src/SettingsPage/Tests.antt =====
-- Code: frontend/src/components/SettingsPage.tsx.
-- The page with its default settings.
use vps_dashboard.Common.{◌≡◌, refl, none, [], ◌∷◌, map, true, false}
use vps_dashboard.Presets.{dark_blue}
use vps_dashboard.Settings.{default_settings}
use vps_dashboard.Theme.{color_at, select}
use vps_dashboard.Trakt.{Form, first_auth}
use vps_dashboard.SettingsPage.{themed, controlled, color_labels, settings_page}
use vps_dashboard.SettingsPage.Shown.{active_ids, choose-shown}

abbrev blank_form : Form
blank_form = record {
  config = record { config = none; loading = true };
  client_id = "";
  client_secret = "";
  saving = false;
  saved = false;
  requests = 0;
  timers = 0;
}

choose-shown_example :
    let v =
      settings_page
        (controlled default_settings (themed (select dark_blue)))
        first_auth
        blank_form in
    (active_ids v ≡ "dark-blue" ∷ [])
    × (map (λ c. c.value) v.fields ≡ map (λ l. color_at dark_blue.colors l.0) color_labels)
    × (v.reset_shown ≡ false)
choose-shown_example = choose-shown default_settings first_auth blank_form 1 dark_blue refl
