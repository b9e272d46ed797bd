-- ===== src/SettingsPage.antt =====
-- frontend/src/components/SettingsPage.tsx: what each control of the page passes to
-- `updateSettings`, and what the page shows of the settings. (The form of the Trakt app is in Trakt.)
pub mod Shown
mod Tests
use vps_dashboard.Common.{
  ℕ, String, Bool, true, false, not, ◌&&◌, Option, none, some, List, [], ◌∷◌, ◌++◌, map, filter,
  any, ◌===◌, if◌then◌else◌,
}
use vps_dashboard.Types.{ThemeColors, ThemePreset, AppSettings, HomeWidgetLayout}
use vps_dashboard.Presets.{presets}
use vps_dashboard.Widgets.{WidgetDef, widget_defs, toggled}
use vps_dashboard.Settings.{Patch, no_patch, merge}
use vps_dashboard.Theme.{
  ColorKey, bg, surface, border, text, text_dim, accent, ok, warn, danger, muted, color_at,
  current_colors, ThemeAction, theme_patch, applied,
}
use vps_dashboard.Trakt.{AuthState, Form, TraktConfig, effective_client_id, can_save}

-- The controls of the page; `toggle` is a check box for a widget, with its new state.
pub data Control : Type 0 where
  themed : ThemeAction → Control
  interval : ℕ → Control
  toggle : WidgetDef → Bool → Control
  tmdb_key : String → Control

-- The argument of `updateSettings`, or `none` where the handler does not call it.
unfoldable pub patch_of : AppSettings → Control → Option Patch
patch_of s (themed a) = theme_patch s a
patch_of s (interval ms) = some (record no_patch { poll_interval_ms = some ms })
patch_of s (toggle def checked) =
    some (record no_patch { home_layout = some (toggled s.home_layout def checked) })
patch_of s (tmdb_key key) = some (record no_patch { tmdb_api_key = some key })

abbrev pub controlled : AppSettings → Control → AppSettings
controlled s c = applied s (patch_of s c)

pub record ThemeCard : Type 0 where
  pub id : String
  pub name : String
  pub active : Bool
  pub swatches : List String

abbrev is_custom : Option ThemeColors → Bool
is_custom none = false
is_custom (some c) = true

abbrev pub theme_card : AppSettings → ThemePreset → ThemeCard
theme_card s p = record {
  id = p.id;
  name = p.name;
  active = s.theme === p.id && not (is_custom s.custom_colors);
  swatches = p.colors.bg ∷ p.colors.accent ∷ p.colors.text ∷ p.colors.surface ∷ [];
}

pub record ColorField : Type 0 where
  pub key : ColorKey
  pub label : String
  pub value : String

-- The keys of the fields and their labels.
abbrev pub color_labels : List (ColorKey × String)
color_labels =
    (bg, "Background")
    ∷ (surface, "Surface")
    ∷ (border, "Border")
    ∷ (text, "Text")
    ∷ (text_dim, "Dim Text")
    ∷ (accent, "Accent")
    ∷ (ok, "OK / Green")
    ∷ (warn, "Warning")
    ∷ (danger, "Danger")
    ∷ (muted, "Muted")
    ∷ []

abbrev pub color_field : AppSettings → ColorKey × String → ColorField
color_field s (key, label) = record {
  key = key;
  label = label;
  value = color_at (current_colors s) key;
}

abbrev pub intervals : List (ℕ × String)
intervals =
    (5000, "5 seconds") ∷ (10000, "10 seconds") ∷ (30000, "30 seconds") ∷ (60000, "60 seconds") ∷ []

pub record WidgetToggle : Type 0 where
  pub id : String
  pub label : String
  pub checked : Bool

abbrev pub widget_toggle : AppSettings → WidgetDef → WidgetToggle
widget_toggle s def = record {
  id = def.id;
  label = def.label;
  checked = any (λ w. w.id === def.id) s.home_layout;
}

-- The section for the connection with Trakt: the form, or who is connected.
pub record TraktFormView : Type 0 where
  pub redirect : Option String
  pub id_value : String
  pub secret_hint : Bool
  pub save_enabled : Bool
  pub save_label : String
  pub connect_enabled : Bool

pub data TraktSection : Type 0 where
  trakt_form : TraktFormView → TraktSection
  trakt_connected : String → TraktSection

abbrev redirect_of : Option TraktConfig → Option String
redirect_of none = none
redirect_of (some c) = if c.redirect_uri === "" then none else some c.redirect_uri

abbrev has_secret_of : Option TraktConfig → Bool
has_secret_of none = false
has_secret_of (some c) = c.has_secret

abbrev configured_of : Option TraktConfig → Bool
configured_of none = false
configured_of (some c) = c.configured

unfoldable pub trakt_section : AuthState → Form → TraktSection
trakt_section a f =
    if a.auth.connected
    then trakt_connected a.auth.username
    else trakt_form (record {
      redirect = redirect_of f.config.config;
      id_value = effective_client_id f;
      secret_hint = has_secret_of f.config.config;
      save_enabled = can_save f;
      save_label = if f.saving then "Saving…" else if f.saved then "Saved ✓" else "Save Trakt App";
      connect_enabled = configured_of f.config.config;
    })

pub record SettingsView : Type 0 where
  pub cards : List ThemeCard
  pub fields : List ColorField
  pub reset_shown : Bool
  pub interval : ℕ
  pub toggles : List WidgetToggle
  pub trakt : TraktSection
  pub tmdb_key : String

unfoldable pub settings_page : AppSettings → AuthState → Form → SettingsView
settings_page s a f = record {
  cards = map (theme_card s) presets;
  fields = map (color_field s) color_labels;
  reset_shown = is_custom s.custom_colors;
  interval = s.poll_interval_ms;
  toggles = map (widget_toggle s) widget_defs;
  trakt = trakt_section a f;
  tmdb_key = s.tmdb_api_key;
}
