-- ===== src/Crosswatch/Fetching.antt =====
-- frontend/src/hooks/useCrosswatch.ts: `fetchTraktData` requests both lists of Trakt.
use vps_dashboard.Common.{
  ℕ, ◌≡◌, ◌⊎◌, inl, inr, arith, refl, Bool, true, false, not, ◌||◌, Option, none, some, List, Text,
  codes, ◌==◌, if◌then◌else◌,
}
use vps_dashboard.Types.{TraktMovie, TraktWatchedMovie}

pub record TraktLists : Type 0 where
  pub watchlist : List TraktMovie
  pub watched : List TraktWatchedMovie
  pub loading : Bool
  pub error : Option Text

-- The body of a response: what `json()` gives, or its exception with the message.
pub data Body (A : Type 0) : Type 0 where
  read : A → Body A
  unreadable : Text → Body A

pub record Reply (A : Type 0) : Type 0 where
  pub ok : Bool
  pub status : ℕ
  pub body : Body A

-- What `Promise.all` gives: both responses, or the exception of one of the requests, with its message
-- if it is an `Error`.
pub data Fetched : Type 0 where
  rejected : Option Text → Fetched
  replied : Reply (List TraktMovie) → Reply (List TraktWatchedMovie) → Fetched

abbrev pub failed_with : TraktLists → Text → TraktLists
failed_with s message = record s { loading = false; error = some message }

abbrev pub message_or : Option Text → Text
message_or none = codes "Trakt fetch failed"
message_or (some message) = message

-- Both bodies are read before the lists are set.
abbrev pub read_bodies :
    TraktLists → Body (List TraktMovie) → Body (List TraktWatchedMovie) → TraktLists
read_bodies s (unreadable message) watched = failed_with s message
read_bodies s (read watchlist) (unreadable message) = failed_with s message
read_bodies s (read watchlist) (read watched) = record s {
  watchlist = watchlist;
  watched = watched;
  loading = false;
}

-- Up to the `await`.
unfoldable pub begin_fetch : Bool → TraktLists → TraktLists
begin_fetch has_trakt s = if has_trakt then record s { loading = true; error = none } else s

-- After it, with the `catch` and the `finally`.
unfoldable pub end_fetch : TraktLists → Fetched → TraktLists
end_fetch s (rejected message) = failed_with s (message_or message)
end_fetch s (replied wl ws) =
    if not wl.ok || not ws.ok
    then if wl.status == 401 || ws.status == 401
      then failed_with s (codes "Trakt session expired. Reconnect in Settings.")
      else failed_with s (codes "Failed to fetch Trakt data")
    else read_bodies s wl.body ws.body

-- What one fetch leaves: both lists of the answers and no error, or the lists as they were and an
-- error; in either case the loading is over.
abbrev pub Settled : TraktLists → Fetched → TraktLists → Type 0
Settled s f t =
    (t.loading ≡ false)
    × (((wl : Reply (List TraktMovie)) × (ws : Reply (List TraktWatchedMovie)) × (f ≡ replied wl ws)
          × (wl.body ≡ read t.watchlist)
          × (ws.body ≡ read t.watched)
          × (wl.ok ≡ true)
          × (ws.ok ≡ true)
          × (t.error ≡ none))
        ⊎ ((message : Text) × (t.error ≡ some message)
            × (t.watchlist ≡ s.watchlist)
            × (t.watched ≡ s.watched)))

-- Whatever the requests for the two lists of Trakt give, the loading is over in the end, and
-- either both responses are successes, both lists are those of their bodies and there is no
-- error, or there is an error and both lists are as they were.
pub fetch-Settled : (s : TraktLists) (f : Fetched) → Settled s f (end_fetch (begin_fetch true s) f)
unfolding begin_fetch end_fetch
fetch-Settled s (rejected message) = (refl, inr (message_or message, refl, refl, refl))
fetch-Settled s (replied wl ws) =
    split (not wl.ok || not ws.ok) (wl.status == 401 || ws.status == 401) refl
  where
    started : TraktLists
    started = record s { loading = true; error = none }

    bodies :
        (b : Body (List TraktMovie)) (c : Body (List TraktWatchedMovie))
        → wl.body ≡ b
        → ws.body ≡ c
        → wl.ok ≡ true
        → ws.ok ≡ true
        → Settled s (replied wl ws) (read_bodies started b c)
    bodies (unreadable message) c e d p q = (refl, inr (message, refl, refl, refl))
    bodies (read watchlist) (unreadable message) e d p q = (refl, inr (message, refl, refl, refl))
    bodies (read watchlist) (read watched) e d p q = (refl, inl (wl, ws, refl, e, d, p, q, refl))

    split :
        (bad expired : Bool)
        → (not wl.ok || not ws.ok) ≡ bad
        → Settled s (replied wl ws) (
            if bad
            then if expired
              then failed_with started (codes "Trakt session expired. Reconnect in Settings.")
              else failed_with started (codes "Failed to fetch Trakt data")
            else read_bodies started wl.body ws.body)
    split true true e =
        (refl, inr (codes "Trakt session expired. Reconnect in Settings.", refl, refl, refl))
    split true false e = (refl, inr (codes "Failed to fetch Trakt data", refl, refl, refl))
    split false expired e = bodies wl.body ws.body refl refl (ground (arith, e)) (ground (arith, e))
