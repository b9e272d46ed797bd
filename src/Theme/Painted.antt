-- ===== src/Theme/Painted.antt =====
-- Code: frontend/src/context/SettingsContext.tsx and frontend/src/components/SettingsPage.tsx.
-- The colours in force stay well formed.
use vps_dashboard.Common.{
  ◌≡◌, ◌≢◌, arith, String, false, none, some, find, ◌===◌, codes, length, Option-cases, inl, inr,
  All-find, ◌⊎◌,
}
use vps_dashboard.Types.{ThemeColors, AppSettings}
use vps_dashboard.Settings.{merge}
use vps_dashboard.Theme.{
  resolve_colors, ColorKey, with_color, pick_color, hex_prefix, ThemeAction, select, paint, type,
  reset, theme_act, preset_or_first,
}
use vps_dashboard.Presets.{presets}
use vps_dashboard.Theme.Colors.{
  with_color-All, IsHex, IsPainted, AllHex, oled-AllHex, presets-AllHex, base-eq,
}
use vps_dashboard.Theme.Typing.{type_color-eq, type-hex, type-short}

IsHex-decided :
    (val : String) → (IsHex val ⊎ (length (codes val) ≢ 7)) ⊎ (hex_prefix (codes val) ≡ false)
IsHex-decided val = ground arith

first-AllHex :
    (theme : String) → AllHex (preset_or_first (find (λ p. p.id === theme) presets)).colors
first-AllHex theme = elim (Option-cases (find (λ p. p.id === theme) presets)) [
  | inl missing ↦ rw missing oled-AllHex
  | inr (p, found) ↦
      rw found
        (All-find (λ p. AllHex p.colors) (λ p. p.id === theme) presets p found presets-AllHex)
]

-- What a colour picker gives is a colour; the text fields may hold anything.
abbrev pub PicksColor : ThemeAction → Type 0
PicksColor (paint key value) = IsHex value
PicksColor (select preset) = Unit
PicksColor (type key val) = Unit
PicksColor reset = Unit

unpainted :
    (settings : AppSettings) (theme : String)
    → IsPainted (record settings { theme = theme; custom_colors = none })
unpainted settings theme = unfold resolve_colors in first-AllHex theme

painted :
    (settings : AppSettings) (c : ThemeColors)
    → AllHex c
    → IsPainted (record settings { custom_colors = some c })
painted settings c h = unfold resolve_colors in h

pick_color-eq :
    (settings : AppSettings) (key : ColorKey) (value : String)
    → pick_color settings key value ≡ with_color (resolve_colors settings) key value
unfolding pick_color
pick_color-eq settings key value = rw base-eq

-- Every choice on the theme page keeps ten well-formed colours in force, if what the colour
-- pickers give is a well-formed colour.
pub theme_act-IsPainted :
    (settings : AppSettings) (a : ThemeAction)
    → PicksColor a
    → IsPainted settings
    → IsPainted (theme_act settings a)
unfolding theme_act merge
theme_act-IsPainted settings (select preset) h v = unpainted settings preset.id
theme_act-IsPainted settings reset h v = unpainted settings settings.theme
theme_act-IsPainted settings (paint key value) h v = painted settings _ (
    rw (pick_color-eq settings key value)
      (with_color-All (λ _. IsHex) (resolve_colors settings) key value h v))
theme_act-IsPainted settings (type key val) h v = elim (IsHex-decided val) [
  | inl (inl whole) ↦
      rw (type-hex settings key val whole)
        (painted settings _ (with_color-All (λ _. IsHex) (resolve_colors settings) key val whole v))
  | inl (inr short) ↦ elim (type-short settings key val short) [
    | inl e ↦ rw e v
    | inr e ↦ rw e (painted settings _ v)
  ]
  | inr bad ↦ rw (type_color-eq, bad) v
]

-- The default theme, or any other that is named, is well formed.
pub default-IsPainted :
    (settings : AppSettings) → settings.custom_colors ≡ none → IsPainted settings
unfolding resolve_colors
default-IsPainted settings e = rw e (first-AllHex settings.theme)
