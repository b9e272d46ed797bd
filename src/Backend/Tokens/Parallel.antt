-- ===== src/Backend/Tokens/Parallel.antt =====
-- Code: internal/trakt/oauth.go and internal/trakt/client.go.
-- Renewals that run at the same time as other requests.
use vps_dashboard.Common.{
  ℕ, ◌+◌, ◌≡◌, ◌≢◌, ◌<◌, refl, ap, ◌∙◌, arith, true, false, Option, none, some, List, [], ◌∷◌, ◌++◌,
  ltb, ◌===◌, eq_iff,
}
use vps_dashboard.Backend.Tokens.{
  Tokens, Disk, Renewal, TraktState, Granted, refused, granted, TraktEvent, requested, answered,
  logged_out, needs_refresh, renewed, put_tokens, trakt_event, trakt_run,
}

-- The user is connected, and no renewal is under way.
abbrev pub connected_with :
    {Content : Type 0} → Tokens → Disk Content → Option Content → TraktState Content
connected_with t disk file = record {
  disk = disk;
  store = record { tokens = some t; file = file };
  renewals = [];
}

-- The tokens are near their end and can be renewed.
pub record IsDue (t : Tokens) (now : ℕ) : Type 0 where
  pub near : t.expires_at < now + 300000000000
  pub renewable : t.refresh_token ≢ ""

module _ {Content : Type 0} (encode : Tokens → Option Content)
    (decode : Content → Option Tokens) where
  begun :
      (t : Tokens) (now : ℕ) (s : TraktState Content)
      → IsDue t now
      → s.store.tokens ≡ some t
      → trakt_event encode decode s (requested now)
        ≡ record s { renewals = s.renewals ++ record { seen = t; clears = true } ∷ [] }
  unfolding trakt_event needs_refresh
  begun t now s due e =
      let near : ltb t.expires_at (now + 300000000000) ≡ true = ground (arith, due.near) in
      let known : (t.refresh_token === "") ≡ false =
        ground (arith, due.renewable, eq_iff t.refresh_token "") in
      simp (e, near, known)

  both_begun :
      (t : Tokens) (now later : ℕ) (disk : Disk Content) (file : Option Content)
      (es : List (TraktEvent Content))
      → IsDue t now
      → IsDue t later
      → let waiting : Renewal = record { seen = t; clears = true } in
        trakt_run encode decode (connected_with t disk file) (requested now ∷ requested later ∷ es)
        ≡ trakt_run encode decode
            (record (connected_with t disk file) { renewals = waiting ∷ waiting ∷ [] })
            es
  unfolding trakt_run
  both_begun t now later disk file es due due' =
      let waiting : Renewal = record { seen = t; clears = true } in
      let first = begun t now (connected_with t disk file) due refl in
      let second =
        begun t later (record (connected_with t disk file) { renewals = waiting ∷ [] }) due' refl in
      ap (λ s. trakt_run encode decode (trakt_event encode decode s (requested later)) es) first
      ∙ ap (λ s. trakt_run encode decode s es) second

  -- If two requests begin a renewal while the tokens are near their end, and Trakt grants the
  -- first, the renewed tokens are stored; if it then refuses the second, as the renewal has used
  -- up the token, they are cleared.
  pub parallel_renewals :
      (t : Tokens) (now later : ℕ) (disk : Disk Content) (file : Option Content) (g : Granted)
      → IsDue t now
      → IsDue t later
      → let begin = requested now ∷ requested later ∷ answered 0 (granted g) ∷ [] in
        ((trakt_run encode decode (connected_with t disk file) begin).store.tokens
          ≡ some (renewed t g))
        × ((trakt_run encode decode
              (connected_with t disk file)
              (begin ++ answered 0 refused ∷ [])).store.tokens
            ≡ none)
  unfolding trakt_run trakt_event put_tokens
  parallel_renewals t now later disk file g due due' = (
    ap (λ s. s.store.tokens)
        (both_begun t now later disk file (answered 0 (granted g) ∷ []) due due'),
    ap (λ s. s.store.tokens)
        (both_begun t now later disk file (answered 0 (granted g) ∷ answered 0 refused ∷ []) due
          due'),
  )

  -- If the user logs out while a renewal is under way, no tokens are stored until Trakt grants
  -- the renewal, and then the renewed tokens are.
  pub logout_undone :
      (t : Tokens) (now : ℕ) (disk : Disk Content) (file : Option Content) (g : Granted)
      → IsDue t now
      → let begin = requested now ∷ logged_out ∷ [] in
        ((trakt_run encode decode (connected_with t disk file) begin).store.tokens ≡ none)
        × ((trakt_run encode decode
              (connected_with t disk file)
              (begin ++ answered 0 (granted g) ∷ [])).store.tokens
            ≡ some (renewed t g))
  unfolding trakt_run trakt_event put_tokens
  logout_undone t now disk file g due =
      let start = begun t now (connected_with t disk file) due refl in
      (
        ap (λ s. (trakt_run encode decode s (logged_out ∷ [])).store.tokens) start,
        ap
            (λ s.
              (trakt_run encode decode s (logged_out ∷ answered 0 (granted g) ∷ [])).store.tokens)
            start,
      )
