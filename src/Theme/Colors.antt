-- ===== src/Theme/Colors.antt =====
-- Code: frontend/src/context/SettingsContext.tsx and frontend/src/components/SettingsPage.tsx.
-- Which colours are in force after the user's choices.
use vps_dashboard.Common.{
  ℕ, ◌≡◌, ◌≢◌, refl, arith, String, true, none, some, eq_iff, codes, length, get_elem?, All,
  All-get_elem?,
}
use vps_dashboard.Types.{ThemeColors, ThemePreset, AppSettings}
use vps_dashboard.Settings.{merge}
use vps_dashboard.Theme.{
  resolve_colors, current_colors, Style, apply_colors, ColorKey, bg, surface, border, text,
  text_dim, accent, ok, warn, danger, muted, color_at, with_color, hex_prefix, select, theme_act,
  custom_or,
}
use vps_dashboard.Presets.{presets, oled, dark_blue, midnight, forest, amber, light}

-- The custom property of each colour.
abbrev pub property : ColorKey → String
property bg = "--color-bg"
property surface = "--color-surface"
property border = "--color-border"
property text = "--color-text"
property text_dim = "--color-text-dim"
property accent = "--color-accent"
property ok = "--color-ok"
property warn = "--color-warn"
property danger = "--color-danger"
property muted = "--color-muted"

-- Applying a theme sets the ten properties to its colours, whatever they were, and no other.
pub apply_colors_lem :
    (colors : ThemeColors) (style : Style)
    → ((key : ColorKey) → apply_colors colors style (property key) ≡ some (color_at colors key))
      × ((p : String)
          → ((key : ColorKey) → p ≢ property key)
          → apply_colors colors style p ≡ style p)
unfolding apply_colors
apply_colors_lem colors style = (read, keep)
  where
    read : (key : ColorKey) → apply_colors colors style (property key) ≡ some (color_at colors key)
    read bg = refl
    read surface = refl
    read border = refl
    read text = refl
    read text_dim = refl
    read accent = refl
    read ok = refl
    read warn = refl
    read danger = refl
    read muted = refl

    keep :
        (p : String) → ((key : ColorKey) → p ≢ property key) → apply_colors colors style p ≡ style p
    keep p other = ground (
      arith,
      eq_iff p "--color-bg",
      other bg,
      eq_iff p "--color-surface",
      other surface,
      eq_iff p "--color-border",
      other border,
      eq_iff p "--color-text",
      other text,
      eq_iff p "--color-text-dim",
      other text_dim,
      eq_iff p "--color-accent",
      other accent,
      eq_iff p "--color-ok",
      other ok,
      eq_iff p "--color-warn",
      other warn,
      eq_iff p "--color-danger",
      other danger,
      eq_iff p "--color-muted",
      other muted,
    )

-- The settings page shows the colours that are in force.
pub current_colors-eq : (settings : AppSettings) → current_colors settings ≡ resolve_colors settings
unfolding current_colors resolve_colors
current_colors-eq settings = ground arith

-- Choosing a theme of the list puts its colours in force, also over custom colours.
pub resolve_colors-select :
    (settings : AppSettings) (i : ℕ) (preset : ThemePreset)
    → get_elem? presets i ≡ some preset
    → resolve_colors (theme_act settings (select preset)) ≡ preset.colors
unfolding theme_act merge
resolve_colors-select settings i preset listed =
    All-get_elem?
      (λ p. resolve_colors (record settings { theme = p.id; custom_colors = none }) ≡ p.colors)
      presets i preset listed (found settings)
  where
    found :
        (s : AppSettings)
        → All
            (λ p. resolve_colors (record s { theme = p.id; custom_colors = none }) ≡ p.colors)
            presets
    found s = unfold resolve_colors in (refl, (refl, (refl, (refl, (refl, (refl, tt))))))

-- A colour field reads back what was stored, and the other fields keep their colours.
pub with_color-All {ℓ} :
    (P : ColorKey → String → Type ℓ) (c : ThemeColors) (key : ColorKey) (v : String)
    → P key v
    → ((k : ColorKey) → P k (color_at c k))
    → (k : ColorKey) → P k (color_at (with_color c key v) k)
with_color-All P c bg v p h bg = p
with_color-All P c bg v p h k = h k
with_color-All P c surface v p h surface = p
with_color-All P c surface v p h k = h k
with_color-All P c border v p h border = p
with_color-All P c border v p h k = h k
with_color-All P c text v p h text = p
with_color-All P c text v p h k = h k
with_color-All P c text_dim v p h text_dim = p
with_color-All P c text_dim v p h k = h k
with_color-All P c accent v p h accent = p
with_color-All P c accent v p h k = h k
with_color-All P c ok v p h ok = p
with_color-All P c ok v p h k = h k
with_color-All P c warn v p h warn = p
with_color-All P c warn v p h k = h k
with_color-All P c danger v p h danger = p
with_color-All P c danger v p h k = h k
with_color-All P c muted v p h muted = p
with_color-All P c muted v p h k = h k

-- A colour of the form `#rrggbb`.
abbrev pub IsHex : String → Type 0
IsHex v = (hex_prefix (codes v) ≡ true) × (length (codes v) ≡ 7)

abbrev pub IsPainted : AppSettings → Type 0
IsPainted settings = (k : ColorKey) → IsHex (color_at (resolve_colors settings) k)

abbrev pub AllHex : ThemeColors → Type 0
AllHex c = (k : ColorKey) → IsHex (color_at c k)

pub oled-AllHex : AllHex oled.colors
oled-AllHex bg = (refl, refl)
oled-AllHex surface = (refl, refl)
oled-AllHex border = (refl, refl)
oled-AllHex text = (refl, refl)
oled-AllHex text_dim = (refl, refl)
oled-AllHex accent = (refl, refl)
oled-AllHex ok = (refl, refl)
oled-AllHex warn = (refl, refl)
oled-AllHex danger = (refl, refl)
oled-AllHex muted = (refl, refl)

dark_blue-AllHex : AllHex dark_blue.colors
dark_blue-AllHex bg = (refl, refl)
dark_blue-AllHex surface = (refl, refl)
dark_blue-AllHex border = (refl, refl)
dark_blue-AllHex text = (refl, refl)
dark_blue-AllHex text_dim = (refl, refl)
dark_blue-AllHex accent = (refl, refl)
dark_blue-AllHex ok = (refl, refl)
dark_blue-AllHex warn = (refl, refl)
dark_blue-AllHex danger = (refl, refl)
dark_blue-AllHex muted = (refl, refl)

midnight-AllHex : AllHex midnight.colors
midnight-AllHex bg = (refl, refl)
midnight-AllHex surface = (refl, refl)
midnight-AllHex border = (refl, refl)
midnight-AllHex text = (refl, refl)
midnight-AllHex text_dim = (refl, refl)
midnight-AllHex accent = (refl, refl)
midnight-AllHex ok = (refl, refl)
midnight-AllHex warn = (refl, refl)
midnight-AllHex danger = (refl, refl)
midnight-AllHex muted = (refl, refl)

forest-AllHex : AllHex forest.colors
forest-AllHex bg = (refl, refl)
forest-AllHex surface = (refl, refl)
forest-AllHex border = (refl, refl)
forest-AllHex text = (refl, refl)
forest-AllHex text_dim = (refl, refl)
forest-AllHex accent = (refl, refl)
forest-AllHex ok = (refl, refl)
forest-AllHex warn = (refl, refl)
forest-AllHex danger = (refl, refl)
forest-AllHex muted = (refl, refl)

amber-AllHex : AllHex amber.colors
amber-AllHex bg = (refl, refl)
amber-AllHex surface = (refl, refl)
amber-AllHex border = (refl, refl)
amber-AllHex text = (refl, refl)
amber-AllHex text_dim = (refl, refl)
amber-AllHex accent = (refl, refl)
amber-AllHex ok = (refl, refl)
amber-AllHex warn = (refl, refl)
amber-AllHex danger = (refl, refl)
amber-AllHex muted = (refl, refl)

light-AllHex : AllHex light.colors
light-AllHex bg = (refl, refl)
light-AllHex surface = (refl, refl)
light-AllHex border = (refl, refl)
light-AllHex text = (refl, refl)
light-AllHex text_dim = (refl, refl)
light-AllHex accent = (refl, refl)
light-AllHex ok = (refl, refl)
light-AllHex warn = (refl, refl)
light-AllHex danger = (refl, refl)
light-AllHex muted = (refl, refl)

pub presets-AllHex : All (λ p. AllHex p.colors) presets
presets-AllHex = (
  oled-AllHex,
  (dark_blue-AllHex, (midnight-AllHex, (forest-AllHex, (amber-AllHex, (light-AllHex, tt))))),
)

pub with_color_self : (c : ThemeColors) (key : ColorKey) → with_color c key (color_at c key) ≡ c
with_color_self c bg = refl
with_color_self c surface = refl
with_color_self c border = refl
with_color_self c text = refl
with_color_self c text_dim = refl
with_color_self c accent = refl
with_color_self c ok = refl
with_color_self c warn = refl
with_color_self c danger = refl
with_color_self c muted = refl

-- The colours that an edit starts from are those in force.
pub base-eq :
    (settings : AppSettings)
    → custom_or settings.custom_colors (current_colors settings) ≡ resolve_colors settings
unfolding current_colors resolve_colors
base-eq settings = ground arith

pub resolve_colors-custom :
    (settings : AppSettings) (c : ThemeColors)
    → resolve_colors (record settings { custom_colors = some c }) ≡ c
unfolding resolve_colors
resolve_colors-custom settings c = refl
