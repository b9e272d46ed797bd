-- ===== src/Backend/Tokens.antt =====
-- internal/trakt/store.go and the renewal of tokens in internal/trakt/oauth.go, with its callers
-- client.do of internal/trakt/client.go and handleTraktMe of internal/server/trakt_routes.go. Requests
-- run at the same time: a renewal is begun by one event and answered by a later one. Times are in
-- nanoseconds since 1970. The content of the token file and its JSON, which may fail, are parameters;
-- the file system may let the file be written and removed or not, and a failure goes unnoticed.
pub mod Restart
pub mod Parallel
pub mod Logout
mod Tests
use vps_dashboard.Common.{
  ℕ, zero, suc, ◌+◌, ◌*◌, String, Bool, true, false, not, ◌&&◌, Option, none, some, List, [], ◌∷◌,
  ◌++◌, ltb, ◌===◌, if◌then◌else◌, get_elem?, erase_idx,
}

pub record Tokens : Type 0 where
  pub access_token : String
  pub refresh_token : String
  pub expires_at : ℕ
  pub scope : String
  pub username : String

-- `Store`: the tokens, and the content of the file, if there is one.
pub record Store (Content : Type 0) : Type 0 where
  pub tokens : Option Tokens
  pub file : Option Content

-- A call of `RefreshTokens` that waits for its answer: the tokens that it has read, and whether its
-- caller is `RefreshIfNeeded`, which clears the store when it fails.
pub record Renewal : Type 0 where
  pub seen : Tokens
  pub clears : Bool

-- The file system as the token file meets it: `os.WriteFile` and `os.Remove` succeed, or fail and
-- leave what the function makes of the file.
pub data Disk (Content : Type 0) : Type 0 where
  writable : Disk Content
  broken : (Option Content → Option Content) → Disk Content

pub record TraktState (Content : Type 0) : Type 0 where
  pub disk : Disk Content
  pub store : Store Content
  pub renewals : List Renewal

-- `tokenResp`, the body of an answer of the token endpoint: times in seconds.
pub record Granted : Type 0 where
  pub access_token : String
  pub refresh_token : String
  pub created_at : ℕ
  pub expires_in : ℕ
  pub scope : String

pub data TokenAnswer : Type 0 where
  refused : TokenAnswer
  granted : Granted → TokenAnswer

pub data TraktEvent (Content : Type 0) : Type 0 where
  -- `client.do` and `handleTraktMe` at a time
  requested asked_me : ℕ → TraktEvent Content
  -- the answer to one of the waiting renewals
  answered : ℕ → TokenAnswer → TraktEvent Content
  -- the end of `ExchangeCode`
  logged_in : Tokens → TraktEvent Content
  -- `Logout`, and the status 401 in `client.get`
  logged_out unauthorized : TraktEvent Content
  -- the disk fills up, is mounted read-only, or is well again
  disk_changed : Disk Content → TraktEvent Content

-- `NeedsRefresh`: less than five minutes are left.
unfoldable pub needs_refresh : ℕ → Option Tokens → Bool
needs_refresh now none = false
needs_refresh now (some t) = ltb t.expires_at (now + 300000000000)

-- `time.Now().After(t.ExpiresAt)`
abbrev pub is_expired : ℕ → Tokens → Bool
is_expired now t = ltb t.expires_at now

-- `time.Unix(CreatedAt, 0).Add(ExpiresIn * time.Second)`
abbrev pub end_of : Granted → ℕ
end_of g = (g.created_at + g.expires_in) * 1000000000

-- The tokens that `RefreshTokens` stores.
abbrev pub renewed : Tokens → Granted → Tokens
renewed seen g = record {
  access_token = g.access_token;
  refresh_token = g.refresh_token;
  expires_at = end_of g;
  scope = g.scope;
  username = seen.username;
}

module _ {Content : Type 0} (encode : Tokens → Option Content)
    (decode : Content → Option Tokens) where
  abbrev read_file : Option Content → Option Tokens
  read_file none = none
  read_file (some content) = decode content

  -- `NewStore` with `load`.
  unfoldable pub new_store : Option Content → Store Content
  new_store file = record { tokens = read_file file; file = file }

  abbrev written_over : Option Content → Option Content → Option Content
  written_over none file = file
  written_over (some data_written) file = some data_written

  -- The file after `save`, which ignores every error.
  unfoldable pub save : Disk Content → Option Tokens → Option Content → Option Content
  save (broken left) tokens file = left file
  save writable none file = none
  save writable (some t) file = written_over (encode t) file

  -- `Set` and `Clear`.
  unfoldable pub put_tokens : Option Tokens → TraktState Content → TraktState Content
  put_tokens tokens s = record s {
    store = record { tokens = tokens; file = save s.disk tokens s.store.file };
  }

  -- What `RefreshTokens` begins with: without a refresh token it fails at once.
  abbrev begin_renewal : Bool → Option Tokens → TraktState Content → TraktState Content
  begin_renewal clears none s = if clears then put_tokens none s else s
  begin_renewal clears (some t) s =
      if t.refresh_token === ""
      then (if clears then put_tokens none s else s)
      else record s { renewals = s.renewals ++ record { seen = t; clears = clears } ∷ [] }

  abbrev end_renewal : Option Renewal → TokenAnswer → TraktState Content → TraktState Content
  end_renewal none a s = s
  end_renewal (some r) refused s = if r.clears then put_tokens none s else s
  end_renewal (some r) (granted g) s = put_tokens (some (renewed r.seen g)) s

  abbrev me_expired : ℕ → Option Tokens → Bool
  me_expired now none = false
  me_expired now (some t) = is_expired now t

  unfoldable pub trakt_event : TraktState Content → TraktEvent Content → TraktState Content
  unfolding put_tokens needs_refresh
  trakt_event s (requested now) =
      if needs_refresh now s.store.tokens then begin_renewal true s.store.tokens s else s
  trakt_event s (asked_me now) =
      if me_expired now s.store.tokens then begin_renewal false s.store.tokens s else s
  trakt_event s (answered i a) =
      end_renewal (get_elem? s.renewals i) a (record s { renewals = erase_idx s.renewals i })
  trakt_event s (logged_in t) = put_tokens (some t) s
  trakt_event s logged_out = put_tokens none s
  trakt_event s unauthorized = put_tokens none s
  trakt_event s (disk_changed disk) = record s { disk = disk }

  unfoldable pub trakt_run : TraktState Content → List (TraktEvent Content) → TraktState Content
  unfolding trakt_event
  trakt_run s [] = s
  trakt_run s (e ∷ es) = trakt_run (trakt_event s e) es
