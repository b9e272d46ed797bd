-- ===== src/Trakt.antt =====
-- frontend/src/hooks/useTraktAuth.ts and frontend/src/hooks/useTraktConfig.ts, the form that saves
-- the Trakt app in frontend/src/components/SettingsPage.tsx, and the connection that
-- frontend/src/components/CrosswatchWidget.tsx shows.
pub mod Saving
pub mod Widget
mod Tests
use vps_dashboard.Common.{
  ℕ, zero, suc, ◌+◌, String, Bool, true, false, not, ◌&&◌, Option, none, some, List, [], ◌∷◌, ◌===◌,
  if◌then◌else◌,
}
use vps_dashboard.Types.{TraktAuthState}

pub record TraktConfig : Type 0 where
  pub client_id : String
  pub has_secret : Bool
  pub redirect_uri : String
  pub configured : Bool

-- The state of `useTraktAuth`.
pub record AuthState : Type 0 where
  pub auth : TraktAuthState
  pub loading : Bool

abbrev pub signed_out : TraktAuthState
signed_out = record { connected = false; username = "" }

abbrev pub first_auth : AuthState
first_auth = record { auth = signed_out; loading = true }

-- What `/api/auth/trakt/me` gives: an exception, a status other than success, or a body, whose
-- missing name is the empty text.
pub data MeAnswer : Type 0 where
  me_thrown me_refused : MeAnswer
  me : Bool → String → MeAnswer

unfoldable pub check_auth : AuthState → MeAnswer → AuthState
check_auth s me_thrown = record { auth = signed_out; loading = false }
check_auth s me_refused = record s { loading = false }
check_auth s (me connected username) = record {
  auth = record { connected = connected; username = username };
  loading = false;
}

-- `logout`: whether the request was answered, with any status, or threw.
unfoldable pub logout : AuthState → Bool → AuthState
logout s came = if came then record s { auth = signed_out } else s

-- The state of `useTraktConfig`.
pub record ConfigState : Type 0 where
  pub config : Option TraktConfig
  pub loading : Bool

pub data ConfigAnswer : Type 0 where
  config_thrown config_refused : ConfigAnswer
  config_read : TraktConfig → ConfigAnswer

unfoldable pub refresh : ConfigState → ConfigAnswer → ConfigState
refresh s config_thrown = record s { loading = false }
refresh s config_refused = record s { loading = false }
refresh s (config_read config) = record { config = some config; loading = false }

-- `save`: the state, and what the promise gives; `none` is an exception.
unfoldable pub save : ConfigState → ConfigAnswer → ConfigState
save s config_thrown = s
save s config_refused = s
save s (config_read config) = record s { config = some config }

abbrev pub save_result : ConfigAnswer → Option Bool
save_result config_thrown = none
save_result config_refused = some false
save_result (config_read config) = some true

-- The form. `requests` counts the saves without an answer, `timers` the pending calls that hide the
-- word "Saved".
pub record Form : Type 0 where
  pub config : ConfigState
  pub client_id : String
  pub client_secret : String
  pub saving : Bool
  pub saved : Bool
  pub requests : ℕ
  pub timers : ℕ

abbrev configured_id : Option TraktConfig → String
configured_id none = ""
configured_id (some c) = c.client_id

unfoldable pub effective_client_id : Form → String
effective_client_id f = if f.client_id === "" then configured_id f.config.config else f.client_id

-- The button is not disabled.
unfoldable pub can_save : Form → Bool
unfolding effective_client_id
can_save f = not f.saving && not (effective_client_id f === "")

pub data FormEvent : Type 0 where
  id_typed secret_typed : String → FormEvent
  save_pressed fired : FormEvent
  refreshed answered : ConfigAnswer → FormEvent

-- What follows the `await` of `handleSaveTrakt`; after an exception nothing does.
abbrev pub after_save : Form → Option Bool → Form
after_save f none = f
after_save f (some false) = record f { saving = false }
after_save f (some true) = record f {
  saving = false;
  saved = true;
  client_secret = "";
  timers = suc f.timers;
}

abbrev pub answer_form : Form → ConfigAnswer → ℕ → Form
answer_form f a zero = f
answer_form f a (suc n) =
    after_save (record f { config = save f.config a; requests = n }) (save_result a)

abbrev pub fire : Form → ℕ → Form
fire f zero = f
fire f (suc n) = record f { saved = false; timers = n }

unfoldable pub form_event : Form → FormEvent → Form
unfolding can_save save refresh
form_event f (id_typed text) = record f { client_id = text }
form_event f (secret_typed text) = record f { client_secret = text }
form_event f save_pressed =
    if can_save f then record f { saving = true; saved = false; requests = suc f.requests } else f
form_event f fired = fire f f.timers
form_event f (refreshed a) = record f { config = refresh f.config a }
form_event f (answered a) = answer_form f a f.requests

abbrev pub form_events : Form → List FormEvent → Form
form_events f [] = f
form_events f (e ∷ es) = form_events (form_event f e) es

-- The widget calls `useTraktAuth` itself, and once more within `useCrosswatch`.
pub record WidgetAuth : Type 0 where
  pub own : AuthState
  pub hook : AuthState

pub data WidgetEvent : Type 0 where
  own_checked hook_checked : MeAnswer → WidgetEvent
  -- the button "Disconnect", and whether its request is answered
  disconnected : Bool → WidgetEvent

unfoldable pub widget_event : WidgetAuth → WidgetEvent → WidgetAuth
unfolding check_auth logout
widget_event w (own_checked a) = record w { own = check_auth w.own a }
widget_event w (hook_checked a) = record w { hook = check_auth w.hook a }
widget_event w (disconnected came) = record w { own = logout w.own came }

abbrev pub widget_events : WidgetAuth → List WidgetEvent → WidgetAuth
widget_events w [] = w
widget_events w (e ∷ es) = widget_events (widget_event w e) es

-- `hasTrakt`, which decides between the bar "Connected as" and the invitation to connect.
abbrev pub has_trakt : WidgetAuth → Bool
has_trakt w = w.hook.auth.connected
