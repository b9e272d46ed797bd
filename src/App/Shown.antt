-- ===== src/App/Shown.antt =====
-- Code: frontend/src/App.tsx, frontend/src/components/LogViewer.tsx and NavTabs.tsx.
-- What the screen of a reached state shows of the log stream, and what the tabs do.
use vps_dashboard.Common.{
  ℕ, ◌≡◌, refl, sym, ap, ◌∙◌, subst, String, Bool, Option, none, some, List, [], ◌∷◌, map, filter,
  find, find-eq-some, Text, eq_iff, Option-cases, Bool-cases, ◌⊎◌, false, inl, inr,
}
use vps_dashboard.Types.{
  TabId, home, metrics, containers, logs, settings, ConnectionState, ContainerInfo, MetricsFrame,
}
use vps_dashboard.LogStream.Session.{reading, Reach_lem}
use vps_dashboard.App.{
  AppState, AppAction, set_tab, select_container, app_act, AppReach, selected_name, is_container,
  name_of,
}
use vps_dashboard.App.Streams.{log-Reach}
use vps_dashboard.App.Screen.{
  LogPane, LogView, nothing_selected, pane, log_viewer, nav_tabs, Containers, Main, on_home,
  on_metrics, on_containers, on_logs, on_settings, screen, main_of,
}

-- The tab that a part of the page belongs to.
abbrev pub tab_of : {N : Type 0} → Main N → TabId
tab_of (on_home host cs stats label live) = home
tab_of (on_metrics host live) = metrics
tab_of (on_containers cs stats selected) = containers
tab_of (on_logs view) = logs
tab_of on_settings = settings

tab_of-main_of :
    {N : Type 0} (t : TabId) (s : AppState) (cs : Containers) (frame : Option (MetricsFrame N))
    (c : ConnectionState)
    → tab_of (main_of t s cs frame c) ≡ t
tab_of-main_of home s cs frame c = refl
tab_of-main_of metrics s cs frame c = refl
tab_of-main_of containers s cs frame c = refl
tab_of-main_of logs s cs frame c = refl
tab_of-main_of settings s cs frame c = refl

active-nav_tabs : (t : TabId) → map (λ b. b.id) (filter (λ b. b.active) (nav_tabs t)) ≡ t ∷ []
unfolding nav_tabs
active-nav_tabs home = refl
active-nav_tabs metrics = refl
active-nav_tabs containers = refl
active-nav_tabs logs = refl
active-nav_tabs settings = refl

acted_tab : (s : AppState) (t : TabId) → (app_act s (set_tab t)).tab ≡ t
unfolding app_act vps_dashboard.App.show
acted_tab s t = refl

-- There is a button for each tab; after one is pressed its tab alone is marked, and the page
-- shows the part for it.
pub screen-set_tab :
    {N : Type 0} (width : ℕ) (s : AppState) (t : TabId) (cs : Containers)
    (frame : Option (MetricsFrame N)) (c : ConnectionState)
    → (map (λ b. b.id) (nav_tabs s.tab) ≡ home ∷ metrics ∷ containers ∷ logs ∷ settings ∷ [])
      × (map
            (λ b. b.id)
            (filter (λ b. b.active) (screen width (app_act s (set_tab t)) cs frame c).nav)
          ≡ t ∷ [])
      × (tab_of (screen width (app_act s (set_tab t)) cs frame c).main ≡ t)
unfolding screen
screen-set_tab width s t cs frame c = (
  unfold nav_tabs in refl,
  rw (acted_tab s t) (active-nav_tabs t),
  tab_of-main_of (app_act s (set_tab t)).tab (app_act s (set_tab t)) cs frame c ∙ acted_tab s t,
)

-- A pane is that of the container that is selected, and shows the log as the hook holds it.
pub record IsPaneOf (s : AppState) (cs : List ContainerInfo) (p : LogPane) : Type 0 where
  pub on_tab : s.tab ≡ logs
  pub named :
      (id : String) × (c : ContainerInfo) × (s.selected ≡ some id)
      × (find (is_container (some id)) cs ≡ some c)
      × (c.id ≡ id)
      × (p.name ≡ c.name)
  pub rows : p.rows ≡ s.log.lines
  pub live : p.live ≡ s.log.streaming

module _ {N : Type 0} where
  view_of : Main N → LogView
  view_of (on_logs u) = u
  view_of _ = nothing_selected

abbrev pane_or : LogView → LogPane → LogPane
pane_or nothing_selected p = p
pane_or (pane q) p = q

log_viewer-inv :
    (name : Option Text) (rows : List Text) (streaming : Bool) (error : Option Text) (p : LogPane)
    → log_viewer name rows streaming error ≡ pane p
    → (name ≡ some p.name) × (p.rows ≡ rows) × (p.live ≡ streaming)
unfolding log_viewer
log_viewer-inv none rows streaming error p e = cc
log_viewer-inv (some []) rows streaming error p e = cc
log_viewer-inv (some (c ∷ name)) rows streaming error p e = (
  ap (λ v. some (pane_or v p).name) e,
  ap (λ v. (pane_or v p).rows) (sym e),
  ap (λ v. (pane_or v p).live) (sym e),
)

named-inv :
    (cs : List ContainerInfo) (selected : Option String) (name : Text)
    → selected_name cs selected ≡ some name
    → (id : String) × (c : ContainerInfo) × (selected ≡ some id)
      × (find (is_container (some id)) cs ≡ some c)
      × (c.id ≡ id)
      × (name ≡ c.name)
unfolding selected_name
named-inv cs none name e = elim (nobody cs e) [ ]
  where
    nobody : (cs : List ContainerInfo) → name_of (find (is_container none) cs) ≡ some name → ⊥
    nobody [] h = cc
    nobody (c ∷ cs) h = nobody cs h
named-inv cs (some id) name e = elim (Option-cases (find (is_container (some id)) cs)) [
  | inl missing ↦ absurd (cc (ap name_of missing, e))
  | inr (c, found) ↦ (
    id,
    c,
    refl,
    found,
    (eq_iff c.id id).0 (find-eq-some (is_container (some id)) cs c found),
    sym (some_inj (sym (ap name_of found) ∙ e)),
  )
]
  where
    some_inj : {a b : Text} → some a ≡ some b → a ≡ b
    some_inj e = ap (λ o. elim o [ none ↦ [] | some t ↦ t ]) e

-- In a state that the page reaches, a log pane on the screen stands on the tab of the logs,
-- carries the name of the selected container, which the list holds, and shows the lines of the
-- log hook; and it is marked as streaming only while a stream is read, the one that stop would
-- abort.
pub screen-IsPaneOf :
    {N : Type 0} (width : ℕ) (s : AppState) (cs : Containers) (frame : Option (MetricsFrame N))
    (link : ConnectionState) (p : LogPane)
    → AppReach s
    → (screen width s cs frame link).main ≡ on_logs (pane p)
    → IsPaneOf s cs.containers p
      × ((p.live ≡ false) ⊎ ((i : ℕ) × (s.log.current ≡ some i) × (s.log.phase i ≡ reading)))
unfolding screen log_viewer view_of
screen-IsPaneOf width s cs frame link p r e =
    let t : s.tab ≡ logs = sym (tab_of-main_of s.tab s cs frame link) ∙ ap tab_of e in
    let shown : main_of logs s cs frame link ≡ on_logs (pane p) =
      subst (λ t. main_of t s cs frame link ≡ on_logs (pane p)) t e in
    let v =
      log_viewer-inv (selected_name cs.containers s.selected) s.log.lines s.log.streaming
        s.log.error p (ap view_of shown) in
    (
      record {
        on_tab = t;
        named = named-inv cs.containers s.selected p.name v.0;
        rows = v.1;
        live = v.2;
      },
      elim (Bool-cases p.live) [
        | inl on ↦ inr ((Reach_lem s.log (log-Reach s r)).1 (sym v.2 ∙ on))
        | inr off ↦ inl off
      ],
    )
