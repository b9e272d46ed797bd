-- ===== src/Theme.antt =====
-- The themes of frontend/src/context/SettingsContext.tsx, and the colour fields of
-- frontend/src/components/SettingsPage.tsx.
pub mod Colors
pub mod Typing
pub mod Painted
mod Tests
use vps_dashboard.Common.{
  ℕ, String, Bool, true, false, ◌&&◌, ◌||◌, Option, none, some, List, [], ◌∷◌, find, ◌===◌, ◌==◌,
  leb, if◌then◌else◌, Text, codes, length,
}
use vps_dashboard.Types.{ThemeColors, ThemePreset, AppSettings}
use vps_dashboard.Settings.{Patch, no_patch, merge}
use vps_dashboard.Presets.{oled, presets}

abbrev preset_or_first : Option ThemePreset → ThemePreset
preset_or_first none = oled
preset_or_first (some preset) = preset

abbrev custom_or : Option ThemeColors → ThemeColors → ThemeColors
custom_or none colors = colors
custom_or (some custom) colors = custom

unfoldable pub resolve_colors : AppSettings → ThemeColors
resolve_colors settings =
    custom_or settings.custom_colors
      (preset_or_first (find (λ p. p.id === settings.theme) presets)).colors

-- The inline style of the document's root: the value of each property that is set.
abbrev pub Style : Type 0
Style = String → Option String

abbrev pub set_property : Style → String → String → Style
set_property style name value = λ p. if p === name then some value else style p

unfoldable pub apply_colors : ThemeColors → Style → Style
apply_colors colors s0 =
    let s1 = set_property s0 "--color-bg" colors.bg in
    let s2 = set_property s1 "--color-surface" colors.surface in
    let s3 = set_property s2 "--color-border" colors.border in
    let s4 = set_property s3 "--color-text" colors.text in
    let s5 = set_property s4 "--color-text-dim" colors.text_dim in
    let s6 = set_property s5 "--color-accent" colors.accent in
    let s7 = set_property s6 "--color-ok" colors.ok in
    let s8 = set_property s7 "--color-warn" colors.warn in
    let s9 = set_property s8 "--color-danger" colors.danger in
    set_property s9 "--color-muted" colors.muted

-- The keys of the colour fields.
pub data ColorKey : Type 0 where
  bg surface border text text_dim accent ok warn danger muted : ColorKey

-- `colors[key]`
abbrev pub color_at : ThemeColors → ColorKey → String
color_at c bg = c.bg
color_at c surface = c.surface
color_at c border = c.border
color_at c text = c.text
color_at c text_dim = c.text_dim
color_at c accent = c.accent
color_at c ok = c.ok
color_at c warn = c.warn
color_at c danger = c.danger
color_at c muted = c.muted

-- `{ ...colors, [key]: value }`
abbrev pub with_color : ThemeColors → ColorKey → String → ThemeColors
with_color c bg value = record c { bg = value }
with_color c surface value = record c { surface = value }
with_color c border value = record c { border = value }
with_color c text value = record c { text = value }
with_color c text_dim value = record c { text_dim = value }
with_color c accent value = record c { accent = value }
with_color c ok value = record c { ok = value }
with_color c warn value = record c { warn = value }
with_color c danger value = record c { danger = value }
with_color c muted value = record c { muted = value }

-- `find(…)?.colors ?? presets[0].colors`
abbrev colors_or_first : Option ThemePreset → ThemeColors
colors_or_first none = oled.colors
colors_or_first (some preset) = preset.colors

-- The colours that the fields show.
unfoldable pub current_colors : AppSettings → ThemeColors
current_colors settings =
    custom_or settings.custom_colors (colors_or_first (find (λ p. p.id === settings.theme) presets))

-- A colour picked: the new custom colours.
unfoldable pub pick_color : AppSettings → ColorKey → String → ThemeColors
pick_color settings key value =
    with_color (custom_or settings.custom_colors (current_colors settings)) key value

abbrev pub is_hex_digit : ℕ → Bool
is_hex_digit c = leb b'0' c && leb c b'9' || leb b'a' c && leb c b'f' || leb b'A' c && leb c b'F'

abbrev all_hex : Text → Bool
all_hex [] = true
all_hex (c ∷ s) = is_hex_digit c && all_hex s

-- `/^#[0-9a-fA-F]{0,6}$/.test(val)`
abbrev pub hex_prefix : Text → Bool
hex_prefix [] = false
hex_prefix (c ∷ s) = c == b'#' && all_hex s && leb (length s) 6

-- The text of a field changed: the custom colours to store, or `none` if the text is refused.
unfoldable pub type_color : AppSettings → ColorKey → String → Option ThemeColors
type_color settings key val =
    if hex_prefix (codes val)
    then some (
        with_color (custom_or settings.custom_colors (current_colors settings)) key
          (if length (codes val) == 7 then val else color_at (current_colors settings) key))
    else none

-- What the user does on the page: choose a theme, pick or type a colour, reset the custom colours.
pub data ThemeAction : Type 0 where
  select : ThemePreset → ThemeAction
  paint type : ColorKey → String → ThemeAction
  reset : ThemeAction

abbrev colors_patch : Option ThemeColors → Patch
colors_patch colors = record no_patch { custom_colors = some colors }

abbrev typed_patch : Option ThemeColors → Option Patch
typed_patch none = none
typed_patch (some next) = some (colors_patch (some next))

-- The argument of `updateSettings`, or `none` where the handler does not call it.
abbrev pub theme_patch : AppSettings → ThemeAction → Option Patch
theme_patch settings (select preset) =
    some (record no_patch { theme = some preset.id; custom_colors = some none })
theme_patch settings (paint key value) = some (colors_patch (some (pick_color settings key value)))
theme_patch settings (type key val) = typed_patch (type_color settings key val)
theme_patch settings reset = some (colors_patch none)

-- The settings after a handler.
abbrev pub applied : AppSettings → Option Patch → AppSettings
applied settings none = settings
applied settings (some patch) = merge settings patch

unfoldable pub theme_act : AppSettings → ThemeAction → AppSettings
theme_act settings a = applied settings (theme_patch settings a)

abbrev pub theme_run : AppSettings → List ThemeAction → AppSettings
theme_run settings [] = settings
theme_run settings (a ∷ actions) = theme_run (theme_act settings a) actions
