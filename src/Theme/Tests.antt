-- ===== src/Theme/Tests.antt =====
-- Code: frontend/src/context/SettingsContext.tsx and frontend/src/components/SettingsPage.tsx.
-- The themes at concrete settings.
use vps_dashboard.Common.{◌≡◌, refl, none, List, [], ◌∷◌}
use vps_dashboard.Settings.{default_settings}
use vps_dashboard.Settings.{merge}
use vps_dashboard.Theme.{
  resolve_colors, Style, accent, bg, color_at, ThemeAction, paint, type, theme_act, pick_color,
}

abbrev no_style : Style
no_style = λ p. none

abbrev cleared : List ThemeAction
cleared = type accent "" ∷ type bg "#0" ∷ []

red_accent :
    color_at (resolve_colors (theme_act default_settings (paint accent "#ff0000"))) accent
    ≡ "#ff0000"
unfolding theme_act merge resolve_colors pick_color
red_accent = refl
