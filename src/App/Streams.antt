-- ===== src/App/Streams.antt =====
-- Code: frontend/src/App.tsx with frontend/src/hooks/useLogStream.ts.
-- Which streams are read while which tab is shown.
use vps_dashboard.Common.{
  ℕ, ◌≡◌, ◌≢◌, refl, ap, sym, ◌∙◌, String, Bool, true, false, Option, none, some, Text, ◌==◌,
  if◌then◌else◌, Bool-cases, inl, inr,
}
use vps_dashboard.Types.{TabId, home, metrics, containers, logs, settings}
use vps_dashboard.LogStream.Session
use vps_dashboard.LogStream.Session.{
  LogState, Outcome, abort_error, reading, aborted, settled, Phase, start, stop, receive, settle,
  Reach, Reach_lem,
}
use vps_dashboard.App.{
  AppState, container_of, log_container, same_container, begin, follow, set_tab, select_container,
  show, app_act, AppReach, here, acted, line, left, left_aborted,
}

begin-Reach : (after : Option String) (log : LogState) → Reach log → Reach (begin after log)
begin-Reach none log r = r
begin-Reach (some id) log r = Session.next r Session.started

follow-Reach :
    (before after : Option String) (log : LogState) → Reach log → Reach (follow before after log)
unfolding follow
follow-Reach before after log r = choose (same_container before after)
  where
    choose : (b : Bool) → Reach (if b then log else begin after (stop log))
    choose true = r
    choose false = begin-Reach after (stop log) (Session.next r Session.stopped)

abbrev IsQuiet : Option String → LogState → Type 0
IsQuiet container log = container ≡ none → (i : ℕ) → log.phase i ≢ reading

follow-IsQuiet :
    (before after : Option String) (log : LogState)
    → Reach log
    → IsQuiet before log
    → IsQuiet after (follow before after log)
unfolding follow
follow-IsQuiet none none log r quiet e = quiet refl
follow-IsQuiet (some id) none log r quiet e = (Reach_lem log r).2
follow-IsQuiet before (some id) log r quiet e = cc

settle-phase :
    (log : LogState) (i j : ℕ) (outcome : Outcome)
    → (settle log i outcome).phase j ≡ reading
    → log.phase j ≡ reading
unfolding settle
settle-phase log i j outcome h = elim (Bool-cases (j == i)) [
  | inl same ↦ absurd (cc (ap (λ b. if b then settled else log.phase j) same, h))
  | inr other ↦ sym (ap (λ b. if b then settled else log.phase j) other) ∙ h
]

receive-phase : (log : LogState) (text : Text) (j : ℕ) → (receive log text).phase j ≡ log.phase j
unfolding receive
receive-phase log text j = refl

-- The log stream of the page is in a state of the hook, and quiet where no container is given.
state-lem : (s : AppState) → AppReach s → Reach s.log × IsQuiet (log_container s) s.log
unfolding app_act show
state-lem s here = (Session.here, λ e i. cc)
state-lem s (acted {s = t} (set_tab tab) r) =
    let h = state-lem t r in
    (
      follow-Reach (log_container t) (container_of tab t.selected) t.log h.0,
      follow-IsQuiet (log_container t) (container_of tab t.selected) t.log h.0 h.1,
    )
state-lem s (acted {s = t} (select_container id) r) =
    let h = state-lem t r in
    (
      follow-Reach (log_container t) (some id) t.log h.0,
      follow-IsQuiet (log_container t) (some id) t.log h.0 h.1,
    )
state-lem s (line {s = t} i text k r) =
    let h = state-lem t r in
    (
      Session.next h.0 (Session.line i text k),
      λ e j now. h.1 e j (sym (receive-phase t.log text j) ∙ now),
    )
state-lem s (left {s = t} i outcome k r) =
    let h = state-lem t r in
    (
      Session.next h.0 (Session.left i outcome k),
      λ e j now. h.1 e j (settle-phase t.log i j outcome now),
    )
state-lem s (left_aborted {s = t} i k r) =
    let h = state-lem t r in
    (
      Session.next h.0 (Session.left_aborted i k),
      λ e j now. h.1 e j (settle-phase t.log i j abort_error now),
    )

-- The log hook of a reached page is in a state that the hook reaches.
pub log-Reach : (s : AppState) → AppReach s → Reach s.log
log-Reach s r = (state-lem s r).0

given :
    (tab : TabId) (selected : Option String)
    → container_of tab selected ≢ none
    → (tab ≡ logs) × ((id : String) × (selected ≡ some id))
given logs (some id) h = (refl, (id, refl))
given logs none h = absurd (h refl)
given home selected h = absurd (h refl)
given metrics selected h = absurd (h refl)
given containers selected h = absurd (h refl)
given settings selected h = absurd (h refl)

-- In every state that the page reaches, a log stream is read only while the tab of the logs is
-- shown and a container is selected, and it is the stream that stop would abort.
pub streams_only_logs :
    (s : AppState) (i : ℕ)
    → AppReach s
    → s.log.phase i ≡ reading
    → (s.tab ≡ logs) × ((id : String) × (s.selected ≡ some id)) × (s.log.current ≡ some i)
streams_only_logs s i r h =
    let l = state-lem s r in
    let tab = given s.tab s.selected (λ e. l.1 e i h) in (tab.0, tab.1, (Reach_lem s.log l.0).0 i h)
