-- ===== src/Trakt/Tests.antt =====
-- Code: frontend/src/components/SettingsPage.tsx and frontend/src/components/CrosswatchWidget.tsx.
-- The form and the widget in a few scenes.
use vps_dashboard.Common.{◌≡◌, refl, true, false, none, [], ◌∷◌}
use vps_dashboard.Trakt.{
  TraktConfig, ConfigState, config_thrown, config_read, Form, FormEvent, id_typed, secret_typed,
  save_pressed, fired, refreshed, answered, effective_client_id, can_save, form_event, form_events,
  first_auth, MeAnswer, me, WidgetAuth, WidgetEvent, own_checked, hook_checked, disconnected,
  widget_event, widget_events, has_trakt,
}
use vps_dashboard.Trakt.Saving.{failed_save_sticks}
use vps_dashboard.Trakt.Widget.{disconnect_ignored}

abbrev filled : Form
filled = record {
  config = record { config = none; loading = false };
  client_id = "id";
  client_secret = "secret";
  saving = false;
  saved = false;
  requests = 0;
  timers = 0;
}

filled-can_save : can_save filled ≡ true
unfolding can_save effective_client_id
filled-can_save = refl

abbrev stored : TraktConfig
stored = record { client_id = "old"; has_secret = true; redirect_uri = ""; configured = true }

-- An id that is cleared shows the stored one again.
cleared :
    effective_client_id (form_events filled (refreshed (config_read stored) ∷ id_typed "" ∷ []))
    ≡ "old"
unfolding effective_client_id form_event vps_dashboard.Trakt.refresh
cleared = refl

failed_save_sticks_example :
    (can_save (
        form_events filled
          (save_pressed ∷ answered config_thrown ∷ id_typed "b" ∷ save_pressed ∷ []))
      ≡ false)
    × ((form_events filled
          (save_pressed ∷ answered config_thrown ∷ id_typed "b" ∷ save_pressed ∷ [])).saving
        ≡ true)
failed_save_sticks_example =
    failed_save_sticks filled (id_typed "b" ∷ save_pressed ∷ []) filled-can_save refl

disconnect_ignored_example :
    has_trakt (
      widget_events
        (record { own = first_auth; hook = first_auth })
        (own_checked (me true "ann") ∷ hook_checked (me true "ann") ∷ disconnected true ∷ []))
    ≡ true
disconnect_ignored_example =
    disconnect_ignored (record { own = first_auth; hook = first_auth }) "ann" (true ∷ [])
