-- ===== src/Trakt/Widget.antt =====
-- Code: frontend/src/components/CrosswatchWidget.tsx, frontend/src/hooks/useTraktAuth.ts and
-- frontend/src/hooks/useCrosswatch.ts.
-- The button "Disconnect" of the widget.
use vps_dashboard.Common.{◌≡◌, refl, ap, String, Bool, true, List, [], ◌∷◌, map}
use vps_dashboard.Trakt.{
  me, check_auth, WidgetAuth, own_checked, hook_checked, disconnected, widget_event, widget_events,
  has_trakt,
}

disconnects-hook :
    (answers : List Bool) (w : WidgetAuth)
    → (widget_events w (map disconnected answers)).hook ≡ w.hook
unfolding widget_event
disconnects-hook [] w = refl
disconnects-hook (a ∷ answers) w = disconnects-hook answers (widget_event w (disconnected a))

-- Once both instances of the authentication hook of the widget have read that the user is
-- connected, no number of disconnects changes that the widget shows the user as connected.
pub disconnect_ignored :
    (w : WidgetAuth) (user : String) (answers : List Bool)
    → has_trakt (
        widget_events w
          (own_checked (me true user) ∷ hook_checked (me true user) ∷ map disconnected answers))
      ≡ true
unfolding widget_event check_auth
disconnect_ignored w user answers =
    ap (λ h. h.auth.connected)
      (disconnects-hook answers
        (widget_event (widget_event w (own_checked (me true user))) (hook_checked (me true user))))
