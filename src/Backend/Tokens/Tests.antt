-- ===== src/Backend/Tokens/Tests.antt =====
-- Code: internal/trakt/store.go and internal/trakt/oauth.go.
-- A token of Trakt that ends soon; a file of four texts and a time.
use vps_dashboard.Common.{
  ℕ, ◌≡◌, ◌<◌, refl, ap, sym, arith, String, Option, none, some, List, [], ◌∷◌, ◌++◌, true, false,
  eq_iff,
}
use vps_dashboard.Backend.Tokens.{
  TraktState, writable, trakt_event, put_tokens, save, needs_refresh, Tokens, Granted, refused,
  granted, TraktEvent, requested, answered, logged_in, logged_out, renewed, new_store, trakt_run,
}
use vps_dashboard.Backend.Tokens.Restart.{AllSaved, restart_lem}
use vps_dashboard.Backend.Tokens.Parallel.{connected_with, IsDue, parallel_renewals, logout_undone}

abbrev Content : Type 0
Content = List String × ℕ

abbrev encode : Tokens → Option Content
encode t = some (t.access_token ∷ t.refresh_token ∷ t.scope ∷ t.username ∷ [], t.expires_at)

abbrev decode : Content → Option Tokens
decode (access ∷ refresh ∷ scope ∷ username ∷ [], expires_at) = some (record {
  access_token = access;
  refresh_token = refresh;
  expires_at = expires_at;
  scope = scope;
  username = username;
})
decode content = none

abbrev ending : Tokens
ending = record {
  access_token = "a1";
  refresh_token = "r1";
  expires_at = 1000000000000;
  scope = "public";
  username = "ada";
}

abbrev grant : Granted
grant = record {
  access_token = "a2";
  refresh_token = "r2";
  created_at = 900;
  expires_in = 7776000;
  scope = "public";
}

abbrev events : List (TraktEvent Content)
events = logged_in ending ∷ requested 900000000000 ∷ answered 0 (granted grant) ∷ []

ending-IsDue : (now : ℕ) → 700000000000 < now → IsDue ending now
ending-IsDue now h = record {
  near = omega (arith, h);
  renewable = λ e. let t : false ≡ true = (eq_iff "r1" "").1 e in ground (arith, t);
}

some-inj : (a b : Content) → some a ≡ some b → a ≡ b
some-inj a b e = ap (or_else_of a) e
  where
    or_else_of : Content → Option Content → Content
    or_else_of x none = x
    or_else_of x (some y) = y

reads_back : (t : Tokens) (content : Content) → encode t ≡ some content → decode content ≡ some t
reads_back t content e = ap decode (sym (some-inj _ content e))

abbrev start : TraktState Content
start = record { disk = writable; store = new_store encode decode none; renewals = [] }

all_saved : AllSaved encode decode start events
unfolding trakt_event put_tokens save needs_refresh new_store
all_saved = (refl, (_, refl), (refl, (_, refl), (refl, (_, refl), tt)))

restart_lem_example :
    let s = trakt_run encode decode start events in new_store encode decode s.store.file ≡ s.store
restart_lem_example = restart_lem encode decode reads_back none events all_saved

parallel_renewals_example :
    let begin = requested 900000000000 ∷ requested 900000000001 ∷ answered 0 (granted grant) ∷ [] in
    ((trakt_run encode decode (connected_with ending writable none) begin).store.tokens
      ≡ some (renewed ending grant))
    × ((trakt_run encode decode
          (connected_with ending writable none)
          (begin ++ answered 0 refused ∷ [])).store.tokens
        ≡ none)
parallel_renewals_example =
    parallel_renewals encode decode ending 900000000000 900000000001 writable none grant
      (ending-IsDue 900000000000 (omega arith)) (ending-IsDue 900000000001 (omega arith))

logout_undone_example :
    let begin = requested 900000000000 ∷ logged_out ∷ [] in
    ((trakt_run encode decode (connected_with ending writable none) begin).store.tokens ≡ none)
    × ((trakt_run encode decode
          (connected_with ending writable none)
          (begin ++ answered 0 (granted grant) ∷ [])).store.tokens
        ≡ some (renewed ending grant))
logout_undone_example =
    logout_undone encode decode ending 900000000000 writable none grant
      (ending-IsDue 900000000000 (omega arith))
