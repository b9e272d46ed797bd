-- ===== src/Backend/Tokens/Restart.antt =====
-- Code: internal/trakt/store.go and internal/trakt/oauth.go.
-- What a server knows that starts with the token file.
use vps_dashboard.Common.{
  ◌≡◌, refl, ap, Bool, true, false, Option, none, some, List, [], ◌∷◌, if◌then◌else◌, get_elem?,
  erase_idx, ◌===◌,
}
use vps_dashboard.Backend.Tokens.{
  Tokens, writable, broken, Renewal, TraktState, TokenAnswer, refused, granted, TraktEvent,
  requested, asked_me, answered, logged_in, logged_out, unauthorized, disk_changed, needs_refresh,
  renewed, new_store, save, put_tokens, begin_renewal, end_renewal, me_expired, trakt_event,
  trakt_run,
}

module _ {Content : Type 0} (encode : Tokens → Option Content)
    (decode : Content → Option Tokens) where
  -- `json.Marshal` has a text for the tokens, if there are tokens.
  abbrev pub HasText : Option Tokens → Type 0
  HasText none = Unit
  HasText (some t) = (content : Content) × (encode t ≡ some content)

  -- After each event of a run the file can be written, and the tokens have a text.
  abbrev pub AllSaved : TraktState Content → List (TraktEvent Content) → Type 0
  AllSaved s [] = Unit
  AllSaved s (e ∷ es) =
      let next = trakt_event encode decode s e in
      (next.disk ≡ writable) × HasText next.store.tokens × AllSaved next es

  -- A server that starts with the file knows the same tokens.
  abbrev pub IsMirrored : TraktState Content → Type 0
  IsMirrored s = (new_store encode decode s.store.file).tokens ≡ s.store.tokens

  -- If the file cannot be removed, a logout leaves no tokens in the store, and a server that starts
  -- with the file has them again.
  pub logout_returns :
      (t : Tokens) (content : Content) (renewals : List Renewal)
      → decode content ≡ some t
      → let s : TraktState Content = record {
        disk = broken (λ file. file);
        store = record { tokens = some t; file = some content };
        renewals = renewals;
      } in
        let after = trakt_event encode decode s logged_out in
        (after.store.tokens ≡ none) × ((new_store encode decode after.store.file).tokens ≡ some t)
  unfolding trakt_event put_tokens save new_store
  logout_returns t content renewals e = (refl, e)

module _ {Content : Type 0} (encode : Tokens → Option Content) (decode : Content → Option Tokens)
    (reads_back : (t : Tokens) (content : Content)
      → encode t ≡ some content
      → decode content ≡ some t) where
  -- What holds of a state that an event leads to.
  abbrev Follows : TraktState Content → Type 0
  Follows s = HasText encode decode s.store.tokens → IsMirrored encode decode s

  put-Follows :
      (tokens : Option Tokens) (s : TraktState Content)
      → s.disk ≡ writable
      → Follows (put_tokens encode decode tokens s)
  unfolding put_tokens new_store save
  put-Follows none s w text = rw w refl
  put-Follows (some t) s w (content, e) = rw (w, e) (reads_back t content e)

  either :
      (b : Bool) (s t : TraktState Content) → Follows s → Follows t → Follows (if b then s else t)
  either true s t h k = h
  either false s t h k = k

  begin-Follows :
      (clears : Bool) (tokens : Option Tokens) (s : TraktState Content)
      → s.disk ≡ writable
      → IsMirrored encode decode s
      → Follows (begin_renewal encode decode clears tokens s)
  begin-Follows clears none s w h = either clears _ s (put-Follows none s w) (λ _. h)
  begin-Follows clears (some t) s w h =
      either (t.refresh_token === "") _ _ (either clears _ s (put-Follows none s w) (λ _. h))
        (λ _. h)

  end-Follows :
      (r : Option Renewal) (a : TokenAnswer) (s : TraktState Content)
      → s.disk ≡ writable
      → IsMirrored encode decode s
      → Follows (end_renewal encode decode r a s)
  end-Follows none a s w h = λ _. h
  end-Follows (some r) refused s w h = either r.clears _ s (put-Follows none s w) (λ _. h)
  end-Follows (some r) (granted g) s w h = put-Follows (some (renewed r.seen g)) s w

  event-Follows :
      (s : TraktState Content) (e : TraktEvent Content)
      → s.disk ≡ writable
      → IsMirrored encode decode s
      → Follows (trakt_event encode decode s e)
  unfolding trakt_event
  event-Follows s (requested now) w h =
      either (needs_refresh now s.store.tokens) _ s (begin-Follows true s.store.tokens s w h)
        (λ _. h)
  event-Follows s (asked_me now) w h =
      either (me_expired encode decode now s.store.tokens) _ s
        (begin-Follows false s.store.tokens s w h) (λ _. h)
  event-Follows s (answered i a) w h =
      end-Follows (get_elem? s.renewals i) a (record s { renewals = erase_idx s.renewals i }) w h
  event-Follows s (logged_in t) w h = put-Follows (some t) s w
  event-Follows s logged_out w h = put-Follows none s w
  event-Follows s unauthorized w h = put-Follows none s w
  event-Follows s (disk_changed disk) w h = λ _. h

  run-IsMirrored :
      (es : List (TraktEvent Content)) (s : TraktState Content)
      → s.disk ≡ writable
      → AllSaved encode decode s es
      → IsMirrored encode decode s
      → IsMirrored encode decode (trakt_run encode decode s es)
  unfolding trakt_run
  run-IsMirrored [] s w saved h = h
  run-IsMirrored (e ∷ es) s w (stays, text, saved) h =
      run-IsMirrored es (trakt_event encode decode s e) stays saved (event-Follows s e w h text)

  -- If decoding reads back every text that encoding yields, the file can be written at the start
  -- and after each event, and after each event the tokens have a text, then a server that starts
  -- with the token file as any requests, logins, logouts and answers have left it has the store
  -- of the server that has left it.
  pub restart_lem :
      (file : Option Content) (es : List (TraktEvent Content))
      → let start : TraktState Content = record {
        disk = writable;
        store = new_store encode decode file;
        renewals = [];
      } in
        AllSaved encode decode start es
        → let s = trakt_run encode decode start es in new_store encode decode s.store.file ≡ s.store
  unfolding new_store
  restart_lem file es saved =
      let start : TraktState Content = record {
        disk = writable;
        store = new_store encode decode file;
        renewals = [];
      } in
      ap (λ t. record { tokens = t; file = (trakt_run encode decode start es).store.file })
        (run-IsMirrored es start refl saved refl)
