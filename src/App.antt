-- ===== src/App.antt =====
-- frontend/src/App.tsx: the tab that is shown, the container whose logs are read, and the log stream
-- that goes with them. (frontend/src/components/StatusBar.tsx and LogViewer.tsx show the texts.)
pub mod Streams
pub mod Screen
pub mod Shown
mod Tests
use vps_dashboard.Common.{
  String, Bool, true, false, Option, none, some, List, [], ◌∷◌, find, ◌===◌, if◌then◌else◌, Text,
  codes, is_empty, ℕ, ◌≡◌,
}
use vps_dashboard.Types.{
  TabId, home, metrics, containers, logs, settings, ConnectionState, connecting, connected,
  disconnected, ContainerInfo,
}
use vps_dashboard.LogStream.Session.{
  LogState, Outcome, abort_error, reading, aborted, initial, start, stop, receive, settle,
}

pub record AppState : Type 0 where
  pub tab : TabId
  pub selected : Option String
  pub log : LogState

abbrev pub container_of : TabId → Option String → Option String
container_of logs selected = selected
container_of _ selected = none

-- The argument of `useLogStream`: `tab === 'logs' ? selectedContainerId : null`.
abbrev pub log_container : AppState → Option String
log_container s = container_of s.tab s.selected

abbrev pub same_container : Option String → Option String → Bool
same_container none none = true
same_container (some a) (some b) = a === b
same_container none (some b) = false
same_container (some a) none = false

abbrev pub begin : Option String → LogState → LogState
begin none log = log
begin (some id) log = start log

-- The effect of `useLogStream`: where its argument has changed, the clean-up stops the stream, and
-- the next one is started if there is a container.
unfoldable pub follow : Option String → Option String → LogState → LogState
follow before after log = if same_container before after then log else begin after (stop log)

pub data AppAction : Type 0 where
  set_tab : TabId → AppAction
  select_container : String → AppAction

-- A render with another tab or container.
unfoldable pub show : AppState → TabId → Option String → AppState
unfolding follow
show s tab selected = record {
  tab = tab;
  selected = selected;
  log = follow (log_container s) (container_of tab selected) s.log;
}

unfoldable pub app_act : AppState → AppAction → AppState
unfolding show
app_act s (set_tab tab) = show s tab s.selected
app_act s (select_container id) = show s logs (some id)

abbrev pub opened : AppState
opened = record { tab = home; selected = none; log = initial }

-- The states that the page reaches: by the user, and by what the streams receive.
pub data AppReach : AppState → Type 0 where
  here : AppReach opened
  acted : {s : AppState} (a : AppAction) → AppReach s → AppReach (app_act s a)
  line :
      {s : AppState} (i : ℕ) (text : Text)
      → s.log.phase i ≡ reading
      → AppReach s
      → AppReach (record s { log = receive s.log text })
  left :
      {s : AppState} (i : ℕ) (outcome : Outcome)
      → s.log.phase i ≡ reading
      → AppReach s
      → AppReach (record s { log = settle s.log i outcome })
  left_aborted :
      {s : AppState} (i : ℕ)
      → s.log.phase i ≡ aborted
      → AppReach s
      → AppReach (record s { log = settle s.log i abort_error })

abbrev pub name_of : Option ContainerInfo → Option Text
name_of none = none
name_of (some c) = some c.name

abbrev pub is_container : Option String → ContainerInfo → Bool
is_container none c = false
is_container (some id) c = c.id === id

-- `selectedName`
unfoldable pub selected_name : List ContainerInfo → Option String → Option Text
selected_name cs selected = name_of (find (is_container selected) cs)

-- `connectionLabels`, in StatusBar.tsx too
abbrev pub connection_label : ConnectionState → String
connection_label connected = "LIVE"
connection_label connecting = "SYNC"
connection_label disconnected = "OFFLINE"
