-- ===== src/App/Screen.antt =====
-- Code: frontend/src/App.tsx, frontend/src/components/LogViewer.tsx, NavTabs.tsx and StatusBar.tsx.
-- What the page shows in a state: the status bar, the part for the tab, and the tabs.
use vps_dashboard.Common.{
  ℕ, String, Bool, true, false, ◌&&◌, Option, none, some, List, [], ◌∷◌, ◌==◌, leb, if◌then◌else◌,
  Text, codes, is_empty, length,
}
use vps_dashboard.Types.{
  TabId, home, metrics, containers, logs, settings, ConnectionState, connecting, connected,
  disconnected, ContainerInfo, ContainerStats, HostMetrics, MetricsFrame,
}
use vps_dashboard.App.{AppState, selected_name, connection_label}

-- The viewer's header, banner and lines; `waiting` is the text for no lines yet.
pub record LogPane : Type 0 where
  pub name : Text
  pub live : Bool
  pub badge : Text
  pub banner : Option Text
  pub waiting : Bool
  pub rows : List Text

pub data LogView : Type 0 where
  -- the invitation to select a container
  nothing_selected : LogView
  pane : LogPane → LogView

-- A missing or empty text is falsy.
abbrev pub truthy : Option Text → Option Text
truthy none = none
truthy (some t) = if is_empty t then none else some t

abbrev is_absent : Option Text → Bool
is_absent none = true
is_absent (some t) = false

abbrev pane_of : Option Text → List Text → Bool → Option Text → LogView
pane_of none rows streaming error = nothing_selected
pane_of (some name) rows streaming error = pane (record {
  name = name;
  live = streaming;
  badge = if streaming then codes "STREAMING" else codes "IDLE";
  banner = error;
  waiting = length rows == 0 && is_absent error;
  rows = rows;
})

unfoldable pub log_viewer : Option Text → List Text → Bool → Option Text → LogView
log_viewer name rows streaming error = pane_of (truthy name) rows streaming (truthy error)

pub record NavButton : Type 0 where
  pub id : TabId
  pub label : String
  pub icon : String
  pub active : Bool

abbrev pub same_tab : TabId → TabId → Bool
same_tab home home = true
same_tab metrics metrics = true
same_tab containers containers = true
same_tab logs logs = true
same_tab settings settings = true
same_tab a b = false

abbrev nav_button : TabId → TabId → String → String → NavButton
nav_button shown id label icon = record {
  id = id;
  label = label;
  icon = icon;
  active = same_tab shown id;
}

unfoldable pub nav_tabs : TabId → List NavButton
nav_tabs shown =
    nav_button shown home "Home" "⌂"
    ∷ nav_button shown metrics "Metrics" "◫"
    ∷ nav_button shown containers "Containers" "⬡"
    ∷ nav_button shown logs "Logs" "›_"
    ∷ nav_button shown settings "Settings" "⚙"
    ∷ []

-- `status-dot--${connection}`
abbrev dot_class : ConnectionState → String
dot_class connected = "status-dot--connected"
dot_class connecting = "status-dot--connecting"
dot_class disconnected = "status-dot--disconnected"

pub record StatusBar : Type 0 where
  pub dot : String
  pub label : String

unfoldable pub status_bar : ConnectionState → StatusBar
status_bar link = record { dot = dot_class link; label = connection_label link }

abbrev is_connected : ConnectionState → Bool
is_connected connected = true
is_connected connecting = false
is_connected disconnected = false

-- What `useContainers` gives.
pub record Containers : Type 0 where
  pub containers : List ContainerInfo
  pub loading : Bool
  pub error : Option String

module _ {N : Type 0} where
  abbrev host_of : Option (MetricsFrame N) → Option (HostMetrics N)
  host_of none = none
  host_of (some frame) = some frame.host

  abbrev stats_of : Option (MetricsFrame N) → List (ContainerStats N)
  stats_of none = []
  stats_of (some frame) = frame.containers

-- The part of the page for the tab, with the properties that it is given.
pub data Main (N : Type 0) : Type 0 where
  on_home : Option (HostMetrics N) → Containers → List (ContainerStats N) → String → Bool → Main N
  on_metrics : Option (HostMetrics N) → Bool → Main N
  on_containers : Containers → List (ContainerStats N) → Option String → Main N
  on_logs : LogView → Main N
  on_settings : Main N

pub record Screen (N : Type 0) : Type 0 where
  pub wide : Bool
  pub status : StatusBar
  pub main : Main N
  pub nav : List NavButton

module _ {N : Type 0} where
  abbrev pub main_of :
      TabId → AppState → Containers → Option (MetricsFrame N) → ConnectionState → Main N
  main_of home s cs frame link =
      on_home (host_of frame) cs (stats_of frame) (connection_label link) (is_connected link)
  main_of metrics s cs frame link = on_metrics (host_of frame) (is_connected link)
  main_of containers s cs frame link = on_containers cs (stats_of frame) s.selected
  main_of logs s cs frame link =
      on_logs (
        log_viewer (selected_name cs.containers s.selected) s.log.lines s.log.streaming s.log.error)
  main_of settings s cs frame link = on_settings

  unfoldable pub screen :
      ℕ → AppState → Containers → Option (MetricsFrame N) → ConnectionState → Screen N
  screen width s cs frame link = record {
    wide = leb 768 width;
    status = status_bar link;
    main = main_of s.tab s cs frame link;
    nav = nav_tabs s.tab;
  }
