-- ===== src/Backend/Tokens/Logout.antt =====
-- Code: internal/trakt/store.go and internal/trakt/oauth.go.
-- A user who is not connected stays so until a login or a renewal that was under way.
use vps_dashboard.Common.{◌≡◌, refl, Option, none, List, [], ◌∷◌}
use vps_dashboard.Backend.Tokens.{
  Tokens, Disk, TraktState, TraktEvent, requested, asked_me, answered, logged_in, logged_out,
  unauthorized, disk_changed, save, needs_refresh, put_tokens, trakt_event, trakt_run,
}

-- Nobody is connected, and no renewal is under way.
abbrev pub out_with : {Content : Type 0} → Disk Content → Option Content → TraktState Content
out_with disk file = record {
  disk = disk;
  store = record { tokens = none; file = file };
  renewals = [];
}

-- There is no login among the events.
abbrev pub NoLogin : {Content : Type 0} → List (TraktEvent Content) → Type 0
NoLogin [] = Unit
NoLogin (logged_in t ∷ es) = ⊥
NoLogin (e ∷ es) = NoLogin es

module _ {Content : Type 0} (encode : Tokens → Option Content)
    (decode : Content → Option Tokens) where
  -- Who is not connected, and has no renewal under way, is not connected after any requests, answers
  -- and logouts, as long as there is no login.
  pub stays_out :
      (disk : Disk Content) (file : Option Content) (es : List (TraktEvent Content))
      → NoLogin es
      → let s = trakt_run encode decode (out_with disk file) es in
        (s.store.tokens ≡ none) × (s.renewals ≡ [])
  unfolding trakt_run trakt_event put_tokens needs_refresh
  stays_out disk file [] h = (refl, refl)
  stays_out disk file (requested now ∷ es) h = stays_out disk file es h
  stays_out disk file (asked_me now ∷ es) h = stays_out disk file es h
  stays_out disk file (answered i a ∷ es) h = stays_out disk file es h
  stays_out disk file (logged_in t ∷ es) h = elim h [ ]
  stays_out disk file (logged_out ∷ es) h = stays_out disk (save encode decode disk none file) es h
  stays_out disk file (unauthorized ∷ es) h =
      stays_out disk (save encode decode disk none file) es h
  stays_out disk file (disk_changed d ∷ es) h = stays_out d file es h
