-- ===== src/Presets.antt =====
-- PRESETS of frontend/src/context/SettingsContext.tsx.
use vps_dashboard.Common.{List, [], ◌∷◌}
use vps_dashboard.Types.{ThemePreset}

abbrev pub oled : ThemePreset
oled = record {
  id = "oled";
  name = "OLED Green";
  colors = record {
    bg = "#000000";
    surface = "#0a0a0a";
    border = "#1a1a1a";
    text = "#c8ffc8";
    text_dim = "#5a8a5a";
    accent = "#00ff66";
    ok = "#00ff66";
    warn = "#ffb020";
    danger = "#ff4444";
    muted = "#444444";
  };
}

abbrev pub dark_blue : ThemePreset
dark_blue = record {
  id = "dark-blue";
  name = "Dark Blue";
  colors = record {
    bg = "#0a0e1a";
    surface = "#111827";
    border = "#1e293b";
    text = "#cbd5e1";
    text_dim = "#64748b";
    accent = "#38bdf8";
    ok = "#34d399";
    warn = "#fbbf24";
    danger = "#f87171";
    muted = "#475569";
  };
}

abbrev pub midnight : ThemePreset
midnight = record {
  id = "midnight";
  name = "Midnight Purple";
  colors = record {
    bg = "#0c0a14";
    surface = "#151125";
    border = "#252040";
    text = "#d4c5f0";
    text_dim = "#7c6fa0";
    accent = "#a78bfa";
    ok = "#6ee7b7";
    warn = "#fcd34d";
    danger = "#fca5a5";
    muted = "#4a4060";
  };
}

abbrev pub forest : ThemePreset
forest = record {
  id = "forest";
  name = "Forest";
  colors = record {
    bg = "#0a140e";
    surface = "#0f1f14";
    border = "#1a3320";
    text = "#b8d4be";
    text_dim = "#5a7a62";
    accent = "#4ade80";
    ok = "#22c55e";
    warn = "#eab308";
    danger = "#ef4444";
    muted = "#3a5a42";
  };
}

abbrev pub amber : ThemePreset
amber = record {
  id = "amber";
  name = "Amber Terminal";
  colors = record {
    bg = "#0d0b07";
    surface = "#16120c";
    border = "#2a2216";
    text = "#f0d9a0";
    text_dim = "#8a7a50";
    accent = "#f59e0b";
    ok = "#f59e0b";
    warn = "#fbbf24";
    danger = "#dc2626";
    muted = "#5a4a30";
  };
}

abbrev pub light : ThemePreset
light = record {
  id = "light";
  name = "Light";
  colors = record {
    bg = "#f8f9fa";
    surface = "#ffffff";
    border = "#dee2e6";
    text = "#212529";
    text_dim = "#6c757d";
    accent = "#0d6efd";
    ok = "#198754";
    warn = "#ffc107";
    danger = "#dc3545";
    muted = "#adb5bd";
  };
}

abbrev pub presets : List ThemePreset
presets = oled ∷ dark_blue ∷ midnight ∷ forest ∷ amber ∷ light ∷ []

-- `find(…) ?? PRESETS[0]`
