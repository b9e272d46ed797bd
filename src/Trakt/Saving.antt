-- ===== src/Trakt/Saving.antt =====
-- Code: frontend/src/components/SettingsPage.tsx and frontend/src/hooks/useTraktConfig.ts.
-- The form that saves the Trakt app.
use vps_dashboard.Common.{
  ℕ, zero, suc, ◌≡◌, refl, ap, sym, subst, arith, true, false, some, List, [], ◌∷◌, if◌then◌else◌,
}
use vps_dashboard.Trakt.{
  TraktConfig, config_thrown, config_refused, config_read, save, Form, FormEvent, id_typed,
  secret_typed, save_pressed, fired, refreshed, answered, answer_form, fire, can_save, form_event,
  form_events,
}

-- The form is stuck: it says that it saves, and no answer is to come.
abbrev IsStuck : Form → Type 0
IsStuck f = (f.saving ≡ true) × (f.requests ≡ 0)

stuck-cannot : (f : Form) → f.saving ≡ true → can_save f ≡ false
unfolding can_save
stuck-cannot f h = ground (arith, h)

-- The form after its button was pressed.
abbrev pressed : Form → Form
pressed f = record f { saving = true; saved = false; requests = suc f.requests }

press-eq : (f : Form) → can_save f ≡ true → form_event f save_pressed ≡ pressed f
unfolding form_event
press-eq f can = ap (λ b. if b then pressed f else f) can

form_event-IsStuck : (f : Form) (e : FormEvent) → IsStuck f → IsStuck (form_event f e)
unfolding form_event can_save
form_event-IsStuck f (id_typed text) h = h
form_event-IsStuck f (secret_typed text) h = h
form_event-IsStuck f save_pressed h =
    subst
      (λ b.
        IsStuck
          (if b then record f { saving = true; saved = false; requests = suc f.requests } else f))
      (sym (stuck-cannot f h.0)) h
form_event-IsStuck f fired h = hidden f.timers
  where
    hidden : (n : ℕ) → IsStuck (fire f n)
    hidden zero = h
    hidden (suc n) = h
form_event-IsStuck f (refreshed a) h = h
form_event-IsStuck f (answered a) h = subst (λ n. IsStuck (answer_form f a n)) (sym h.1) h

form_events-IsStuck : (es : List FormEvent) (f : Form) → IsStuck f → IsStuck (form_events f es)
form_events-IsStuck [] f h = h
form_events-IsStuck (e ∷ es) f h =
    form_events-IsStuck es (form_event f e) (form_event-IsStuck f e h)

-- If a save of the Trakt app is pressed where none is open and its request throws, then whatever
-- follows, the form says that it is saving and its button stays disabled.
pub failed_save_sticks :
    (f : Form) (es : List FormEvent)
    → can_save f ≡ true
    → f.requests ≡ 0
    → (can_save (form_events f (save_pressed ∷ answered config_thrown ∷ es)) ≡ false)
      × ((form_events f (save_pressed ∷ answered config_thrown ∷ es)).saving ≡ true)
unfolding form_event save
failed_save_sticks f es can none_open =
    let left : Form = record (pressed f) { requests = f.requests } in
    let stuck = form_events-IsStuck es left (refl, none_open) in
    subst
      (λ g.
        (can_save (form_events (form_event g (answered config_thrown)) es) ≡ false)
        × ((form_events (form_event g (answered config_thrown)) es).saving ≡ true))
      (sym (press-eq f can)) (stuck-cannot (form_events left es) stuck.0, stuck.0)

-- A save that is answered with success ends the waiting, takes over the answer and clears the secret;
-- one that is refused ends the waiting and changes nothing else that was typed or read.
pub answered_save :
    (f : Form) (config : TraktConfig)
    → can_save f ≡ true
    → ((form_events f (save_pressed ∷ answered (config_read config) ∷ [])).saving ≡ false)
      × ((form_events f (save_pressed ∷ answered (config_read config) ∷ [])).config.config
          ≡ some config)
      × ((form_events f (save_pressed ∷ answered (config_read config) ∷ [])).client_secret ≡ "")
      × ((form_events f (save_pressed ∷ answered config_refused ∷ [])).saving ≡ false)
      × ((form_events f (save_pressed ∷ answered config_refused ∷ [])).client_secret
          ≡ f.client_secret)
unfolding form_event save
answered_save f config can = rw (press-eq f can) (refl, refl, refl, refl, refl)
