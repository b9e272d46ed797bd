-- ===== src/Containers.antt =====
-- frontend/src/hooks/useContainers.ts and frontend/src/components/ContainerList.tsx: the containers
-- polled from the backend, and the list that shows them.
pub mod Polling
pub mod Stats
pub mod Pins
mod Tests
use vps_dashboard.Common.{
  ℕ, String, Bool, true, false, not, ◌&&◌, ◌||◌, Option, none, some, List, [], ◌∷◌, ◌++◌, map,
  filter, find, includes, ◌==◌, ◌===◌, if◌then◌else◌, Text, codes, decimal, is_empty,
}
use vps_dashboard.Common.Number.{Number}
use vps_dashboard.Types.{ContainerInfo, ContainerStats}
use vps_dashboard.Format.{short_name, status_color, format_percent}
use vps_dashboard.Settings.{Patch, no_patch}

pub record ContainersState : Type 0 where
  pub containers : List ContainerInfo
  pub loading : Bool
  pub error : Option Text

abbrev pub initial : ContainersState
initial = record { containers = []; loading = true; error = none }

-- What a request for the containers gives: a status other than success, a body, or an exception of
-- `fetch` or of the parser, with its message if it is an `Error`.
pub data Outcome : Type 0 where
  refused : ℕ → Outcome
  answered : List ContainerInfo → Outcome
  thrown : Option Text → Outcome

abbrev pub message_of : Option Text → Text
message_of none = codes "Failed to load"
message_of (some message) = message

-- `fetchContainers`, with its `catch` and `finally`.
unfoldable pub fetch_containers : ContainersState → Outcome → ContainersState
fetch_containers s (refused status) = record {
  containers = s.containers;
  loading = false;
  error = some (codes "HTTP " ++ decimal status);
}
fetch_containers s (answered containers) = record {
  containers = containers;
  loading = false;
  error = none;
}
fetch_containers s (thrown message) = record {
  containers = s.containers;
  loading = false;
  error = some (message_of message);
}

-- The first request and those of the timer.
unfoldable pub poll : ContainersState → List Outcome → ContainersState
poll s [] = s
poll s (o ∷ os) = poll (fetch_containers s o) os

-- `startsWith`
abbrev pub starts_with : Text → Text → Bool
starts_with s [] = true
starts_with [] (c ∷ p) = false
starts_with (c ∷ s) (d ∷ p) = c == d && starts_with s p

abbrev pub stats_match : {Num : Type 0} → String → ContainerStats Num → Bool
stats_match id s =
    s.id === id || starts_with (codes id) (codes s.id) || starts_with (codes s.id) (codes id)

unfoldable pub find_stats :
    {Num : Type 0} → List (ContainerStats Num) → String → Option (ContainerStats Num)
find_stats stats id = find (stats_match id) stats

-- The list after a click on the star.
unfoldable pub toggle_pin : List String → String → List String
toggle_pin pinned id =
    if includes pinned id then filter (λ x. not (x === id)) pinned else pinned ++ id ∷ []

-- The update of the settings that the click makes.
abbrev pub pin_patch : List String → String → Patch
pin_patch pinned id = record no_patch { pinned_containers = some (toggle_pin pinned id) }

pub record StatsCell : Type 0 where
  pub cpu : Text
  pub memory : Text

pub record Row : Type 0 where
  pub key : String
  pub selected : Bool
  pub dot : Text
  pub name : Text
  pub meta : Text
  pub stats : Option StatsCell
  pub link : Option Text
  -- the star, if the list shows them, and whether it is filled
  pub star : Option Bool

pub data ListView : Type 0 where
  error_banner : Text → ListView
  skeletons : ListView
  empty_state : ListView
  rows : List Row → ListView

abbrev pub selects : Option String → String → Bool
selects none id = false
selects (some selected) id = selected === id

module _ (num : Number) where
  open num use {N}

  unfoldable pub stats_cell : Option (ContainerStats N) → Option StatsCell
  stats_cell none = none
  stats_cell (some s) = some (record {
    cpu = format_percent num s.cpu_percent 1;
    memory = format_percent num s.memory_percent 0 ++ codes " mem";
  })

  unfoldable pub row :
      List (ContainerStats N) → List String → Option String → Bool → ContainerInfo → Row
  row stats pinned selected show_pin c = record {
    key = c.id;
    selected = selects selected c.id;
    dot = status_color c.state;
    name = short_name c.name 22;
    meta = if is_empty c.uptime then c.status else c.uptime;
    stats = stats_cell (find_stats stats c.id);
    link = if is_empty c.public_url then none else some c.public_url;
    star = if show_pin then some (includes pinned c.id) else none;
  }

  -- An error that is an empty text counts as none.
  abbrev pub shown_error : Option Text → Option Text
  shown_error none = none
  shown_error (some []) = none
  shown_error (some (c ∷ s)) = some (c ∷ s)

  unfoldable pub container_list :
      ContainersState → List (ContainerStats N) → List String → Option String → Bool → ListView
  container_list s stats pinned selected show_pin = elim (shown_error s.error) [
    | some message ↦ error_banner message
    | none ↦
        if s.loading && is_empty s.containers
        then skeletons
        else if is_empty s.containers
        then empty_state
        else rows (map (row stats pinned selected show_pin) s.containers)
  ]
