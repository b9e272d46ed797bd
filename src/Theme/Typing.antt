-- ===== src/Theme/Typing.antt =====
-- Code: frontend/src/context/SettingsContext.tsx and frontend/src/components/SettingsPage.tsx.
-- What the text fields of the colours do.
use vps_dashboard.Common.{
  ◌≡◌, ◌≢◌, refl, ◌∙◌, ap, arith, String, false, none, some, List, [], ◌∷◌, ◌==◌, if◌then◌else◌,
  codes, length, Bool-cases, inl, inr, All, ◌⊎◌,
}
use vps_dashboard.Types.{ThemeColors, AppSettings}
use vps_dashboard.Settings.{merge}
use vps_dashboard.Theme.{
  resolve_colors, ColorKey, color_at, with_color, hex_prefix, type_color, ThemeAction, select,
  paint, type, reset, theme_act, theme_run,
}
use vps_dashboard.Theme.Colors.{
  current_colors-eq, IsHex, with_color_self, base-eq, resolve_colors-custom,
}

pub type_color-eq :
    (settings : AppSettings) (key : ColorKey) (val : String)
    → type_color settings key val ≡ (
        if hex_prefix (codes val)
        then some (
            with_color
              (resolve_colors settings)
              key
              (if length (codes val) == 7 then val else color_at (resolve_colors settings) key))
        else none)
unfolding type_color
type_color-eq settings key val = rw (base-eq, current_colors-eq)

pub type-hex :
    (settings : AppSettings) (key : ColorKey) (val : String)
    → IsHex val
    → type_color settings key val ≡ some (with_color (resolve_colors settings) key val)
type-hex settings key val h = type_color-eq settings key val ∙ rw (h.0, h.1)

pub type-short :
    (settings : AppSettings) (key : ColorKey) (val : String)
    → length (codes val) ≢ 7
    → (type_color settings key val ≡ none)
      ⊎ (type_color settings key val ≡ some (resolve_colors settings))
type-short settings key val h = elim (Bool-cases (hex_prefix (codes val))) [
  | inl partial ↦
      let e : (length (codes val) == 7) ≡ false = ground arith in
      inr (type_color-eq settings key val ∙ rw (partial, e) (ap some (with_color_self _ key)))
  | inr bad ↦ inl (type_color-eq settings key val ∙ rw bad)
]

-- A text typed into a colour field that is # and six hexadecimal digits replaces that colour
-- alone among those in force; a text of another length than seven leaves the colours in force as
-- they are.
pub theme_act-type :
    (settings : AppSettings) (key : ColorKey) (val : String)
    → (IsHex val
        → resolve_colors (theme_act settings (type key val))
          ≡ with_color (resolve_colors settings) key val)
      × (length (codes val) ≢ 7
          → resolve_colors (theme_act settings (type key val)) ≡ resolve_colors settings)
unfolding theme_act merge
theme_act-type settings key val = (
  λ h. rw (type-hex settings key val h) (resolve_colors-custom settings _),
  λ h. elim (type-short settings key val h) [
    | inl e ↦ rw e
    | inr e ↦ rw e (resolve_colors-custom settings _)
  ],
)

-- Typing that never completes a colour: every text has another length than seven.
abbrev pub Incomplete : ThemeAction → Type 0
Incomplete (type key val) = length (codes val) ≢ 7
Incomplete (paint key value) = ⊥
Incomplete (select preset) = ⊥
Incomplete reset = ⊥

abbrev pub IsCustom : AppSettings → Type 0
IsCustom settings = (c : ThemeColors) × (settings.custom_colors ≡ some c)

Incomplete-keeps :
    (settings : AppSettings) (a : ThemeAction)
    → Incomplete a
    → (resolve_colors (theme_act settings a) ≡ resolve_colors settings)
      × (IsCustom settings → IsCustom (theme_act settings a))
Incomplete-keeps settings (type key val) h = (
  (theme_act-type settings key val).1 h,
  λ custom.
      unfold theme_act merge in
      (elim (type-short settings key val h) [ inl e ↦ rw e custom | inr e ↦ rw e (_, refl) ]),
)
Incomplete-keeps settings (paint key value) h = absurd h
Incomplete-keeps settings (select preset) h = absurd h
Incomplete-keeps settings reset h = absurd h

-- Typing texts that are not seven units long into the colour fields, the empty text included,
-- never changes the colours in force, and custom colours stay custom.
pub clearing_keeps :
    (actions : List ThemeAction) (settings : AppSettings)
    → All Incomplete actions
    → (resolve_colors (theme_run settings actions) ≡ resolve_colors settings)
      × (IsCustom settings → IsCustom (theme_run settings actions))
clearing_keeps [] settings h = (refl, λ c. c)
clearing_keeps (a ∷ actions) settings h =
    let (same, custom) = Incomplete-keeps settings a h.0 in
    let (rest_same, rest_custom) = clearing_keeps actions (theme_act settings a) h.1 in
    (rest_same ∙ same, λ c. rest_custom (custom c))
