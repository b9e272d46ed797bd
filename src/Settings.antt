-- ===== src/Settings.antt =====
-- frontend/src/context/SettingsContext.tsx: the settings, how they are kept in the browser's local
-- storage, and how they change. (The themes are in Theme.)
pub mod Reload
pub mod Updates
mod Tests
use vps_dashboard.Common.{
  ℕ, ◌≡◌, String, Bool, true, false, not, ◌&&◌, Option, none, some, List, [], ◌∷◌, if◌then◌else◌,
}
use vps_dashboard.Types.{ThemeColors, HomeWidgetLayout, AppSettings}
use vps_dashboard.Widgets.{default_home_layout, layout_from_widget_ids}

abbrev pub default_settings : AppSettings
default_settings = record {
  theme = "oled";
  custom_colors = none;
  poll_interval_ms = 10000;
  home_widgets = "metrics-summary" ∷ "containers-summary" ∷ "crosswatch" ∷ [];
  home_layout = default_home_layout;
  pinned_containers = [];
  tmdb_api_key = "";
}

-- `Partial<AppSettings>`: the fields that are there.
pub record Patch : Type 0 where
  pub theme : Option String
  pub custom_colors : Option (Option ThemeColors)
  pub poll_interval_ms : Option ℕ
  pub home_widgets : Option (List String)
  pub home_layout : Option (List HomeWidgetLayout)
  pub pinned_containers : Option (List String)
  pub tmdb_api_key : Option String

abbrev pub no_patch : Patch
no_patch = record {
  theme = none;
  custom_colors = none;
  poll_interval_ms = none;
  home_widgets = none;
  home_layout = none;
  pinned_containers = none;
  tmdb_api_key = none;
}

abbrev pub or_else {ℓ} : {A : Type ℓ} → Option A → A → A
or_else none a = a
or_else (some b) a = b

-- `{ ...settings, ...patch }`
unfoldable pub merge : AppSettings → Patch → AppSettings
merge settings patch = record {
  theme = or_else patch.theme settings.theme;
  custom_colors = or_else patch.custom_colors settings.custom_colors;
  poll_interval_ms = or_else patch.poll_interval_ms settings.poll_interval_ms;
  home_widgets = or_else patch.home_widgets settings.home_widgets;
  home_layout = or_else patch.home_layout settings.home_layout;
  pinned_containers = or_else patch.pinned_containers settings.pinned_containers;
  tmdb_api_key = or_else patch.tmdb_api_key settings.tmdb_api_key;
}

-- All fields of some settings.
abbrev pub whole_patch : AppSettings → Patch
whole_patch s = record {
  theme = some s.theme;
  custom_colors = some s.custom_colors;
  poll_interval_ms = some s.poll_interval_ms;
  home_widgets = some s.home_widgets;
  home_layout = some s.home_layout;
  pinned_containers = some s.pinned_containers;
  tmdb_api_key = some s.tmdb_api_key;
}

-- What `JSON.parse` makes of a stored text. The fields that an object has are taken to be of their
-- declared types, as the program assumes too; a value that is neither an object nor null has none.
pub data Parsed : Type 0 where
  malformed null : Parsed
  object : Patch → Parsed

-- JSON on settings: texts, and the two functions with the round trip that JSON documents for data
-- of strings, whole numbers, null, arrays and plain objects.
pub record Json : Type 1 where
  pub Raw : Type 0
  pub is_blank : Raw → Bool
  pub parse : Raw → Parsed
  pub stringify : AppSettings → Raw
  pub stringify_not_blank : (s : AppSettings) → is_blank (stringify s) ≡ false
  pub parse-stringify : (s : AppSettings) → parse (stringify s) ≡ object (whole_patch s)

-- `!Array.isArray(parsed.homeLayout) || parsed.homeLayout.length === 0`
abbrev no_layout : Option (List HomeWidgetLayout) → Bool
no_layout none = true
no_layout (some []) = true
no_layout (some (w ∷ ws)) = false

abbrev migrated_layout : Option (List String) → List HomeWidgetLayout
migrated_layout none = default_home_layout
migrated_layout (some ids) = layout_from_widget_ids ids

-- What `loadSettings` makes of the parsed value; `null` fails when its `homeLayout` is read.
unfoldable pub from_parsed : Parsed → AppSettings
unfolding merge
from_parsed malformed = default_settings
from_parsed null = default_settings
from_parsed (object parsed) =
    let merged = merge default_settings parsed in
    if no_layout parsed.home_layout
    then record merged { home_layout = migrated_layout parsed.home_widgets }
    else merged

module _ (json : Json) where
  open json use {Raw, is_blank, parse, stringify}

  -- The entry `vps-dashboard-settings` of the local storage. Reading throws where the browser denies
  -- access, and writing also where the quota is used up.
  pub record Storage : Type 0 where
    pub item : Option Raw
    pub readable : Bool
    pub writable : Bool

  from_raw : Option Raw → AppSettings
  from_raw none = default_settings
  from_raw (some raw) = if is_blank raw then default_settings else from_parsed (parse raw)

  unfoldable pub load_settings : Storage → AppSettings
  unfolding from_raw
  load_settings storage = if storage.readable then from_raw storage.item else default_settings

  unfoldable pub save_settings : Storage → AppSettings → Storage
  save_settings storage settings =
      if storage.writable then record storage { item = some (stringify settings) } else storage

  -- The provider: its state, and the storage of the browser.
  pub record Provider : Type 0 where
    pub settings : AppSettings
    pub storage : Storage

  unfoldable pub mount : Storage → Provider
  mount storage = record { settings = load_settings storage; storage = storage }

  unfoldable pub update_settings : Provider → Patch → Provider
  update_settings p patch =
      let next = merge p.settings patch in
      record { settings = next; storage = save_settings p.storage next }

  -- The button "Reset All Settings": the entry is removed and the page loaded again.
  unfoldable pub reset_all : Provider → Provider
  reset_all p = mount (record (p.storage) { item = none })

  abbrev pub run_updates : Provider → List Patch → Provider
  run_updates p [] = p
  run_updates p (patch ∷ patches) = run_updates (update_settings p patch) patches
