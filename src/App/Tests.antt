-- ===== src/App/Tests.antt =====
-- Code: frontend/src/App.tsx.
-- The page after a few choices.
use vps_dashboard.Common.{
  ◌≡◌, ◌⊎◌, false, refl, String, Option, some, none, ℕ, codes, [], ◌∷◌, true, false,
}
use vps_dashboard.Types.{containers, logs, connected, ContainerInfo, MetricsFrame}
use vps_dashboard.LogStream.Session.{reading, aborted}
use vps_dashboard.App.{
  AppState, set_tab, select_container, app_act, opened, AppReach, here, acted, left_aborted,
}
use vps_dashboard.App.Screen.{LogPane, Containers, nav_tabs, screen}
use vps_dashboard.App.Shown.{IsPaneOf, screen-IsPaneOf}
use vps_dashboard.App.Streams.{streams_only_logs}

-- A container is chosen, and then another one by way of the list.
abbrev chosen_twice : AppState
chosen_twice =
    app_act (app_act (app_act opened (select_container "a")) (set_tab containers))
      (select_container "b")

chosen_twice-AppReach : AppReach chosen_twice
chosen_twice-AppReach =
    acted (select_container "b") (acted (set_tab containers) (acted (select_container "a") here))

first_aborted : chosen_twice.log.phase 0 ≡ aborted
unfolding app_act vps_dashboard.App.show vps_dashboard.App.follow
    vps_dashboard.LogStream.Session.start vps_dashboard.LogStream.Session.stop
first_aborted = refl

second_read : chosen_twice.log.phase 1 ≡ reading
unfolding app_act vps_dashboard.App.show vps_dashboard.App.follow
    vps_dashboard.LogStream.Session.start vps_dashboard.LogStream.Session.stop
second_read = refl

streams_only_logs_example :
    (chosen_twice.tab ≡ logs)
    × ((id : String) × (chosen_twice.selected ≡ some id))
    × (chosen_twice.log.current ≡ some 1)
streams_only_logs_example = streams_only_logs chosen_twice 1 chosen_twice-AppReach second_read

abbrev box : ContainerInfo
box = record {
  id = "b";
  name = codes "web";
  status = codes "Up";
  state = codes "running";
  uptime = codes "1h";
  started_at = [];
  public_url = [];
}

abbrev loaded : Containers
loaded = record { containers = box ∷ []; loading = false; error = none }

abbrev no_frame : Option (MetricsFrame ℕ)
no_frame = none

abbrev web_pane : LogPane
web_pane = record {
  name = codes "web";
  live = true;
  badge = codes "STREAMING";
  banner = none;
  waiting = true;
  rows = [];
}

screen-IsPaneOf_example :
    IsPaneOf chosen_twice (box ∷ []) web_pane
    × ((web_pane.live ≡ false)
        ⊎ ((i : ℕ) × (chosen_twice.log.current ≡ some i) × (chosen_twice.log.phase i ≡ reading)))
unfolding screen vps_dashboard.App.Screen.log_viewer vps_dashboard.App.selected_name app_act
    vps_dashboard.App.show vps_dashboard.App.follow vps_dashboard.LogStream.Session.start
    vps_dashboard.LogStream.Session.stop
screen-IsPaneOf_example =
    screen-IsPaneOf 800 chosen_twice loaded no_frame connected web_pane chosen_twice-AppReach refl
