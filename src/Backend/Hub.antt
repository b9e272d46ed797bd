-- ===== src/Backend/Hub.antt =====
-- internal/server/websocket.go: the hub that hands each message to the sockets of the pages. Run is
-- one goroutine; what it receives from its channels, and what the pumps of the clients do in between,
-- is a list of events in any order. A client is a number, given when it is registered.
pub mod Sound
pub mod Delivery
use vps_dashboard.Common.{
  ℕ, suc, Bool, true, false, not, Option, none, some, List, [], ◌∷◌, ◌++◌, filter, any, length, ltb,
  ◌==◌, if◌then◌else◌,
}

-- A channel `send`: the messages in it, whether it was closed, and what the write pump took out of it.
pub record Channel (Msg : Type 0) : Type 0 where
  pub queue : List Msg
  pub closed : Bool
  pub taken : List Msg

pub record Hub (Msg : Type 0) : Type 0 where
  pub clients : List ℕ
  pub channels : ℕ → Channel Msg
  pub next : ℕ
  -- the goroutines that wait to unregister a client
  pub leaving : List ℕ

-- A send on a closed channel and a second close are panics, which end the server.
pub data Outcome (Msg : Type 0) : Type 0 where
  running : Hub Msg → Outcome Msg
  panicked : Outcome Msg

pub data HubEvent (Msg : Type 0) : Type 0 where
  -- `h.register <- client` of ServeWS
  joined : HubEvent Msg
  -- the read pump of a client ends: its deferred function waits to unregister it
  read_ended : ℕ → HubEvent Msg
  -- Run receives from `unregister`
  unregistered : ℕ → HubEvent Msg
  -- Run receives from `broadcast`
  message : Msg → HubEvent Msg
  -- the write pump of a client takes a message
  written : ℕ → HubEvent Msg

abbrev pub is_in : List ℕ → ℕ → Bool
is_in cs c = any (λ d. d == c) cs

abbrev pub without : List ℕ → ℕ → List ℕ
without cs c = filter (λ d. not (d == c)) cs

-- The waiting goroutines without one of those for `c`.
abbrev pub without_one : List ℕ → ℕ → List ℕ
without_one [] c = []
without_one (d ∷ ds) c = let rest = without_one ds c in if d == c then ds else d ∷ rest

module _ {Msg : Type 0} where
  abbrev pub fresh_channel : Channel Msg
  fresh_channel = record { queue = []; closed = false; taken = [] }

  abbrev pub new_hub : Hub Msg
  new_hub = record { clients = []; channels = λ c. fresh_channel; next = 0; leaving = [] }

  abbrev pub with_channel : (ℕ → Channel Msg) → ℕ → Channel Msg → ℕ → Channel Msg
  with_channel channels c ch = λ d. if d == c then ch else channels d

  unfoldable pub register : Hub Msg → Hub Msg
  register h = record h {
    clients = h.clients ++ h.next ∷ [];
    channels = with_channel h.channels h.next fresh_channel;
    next = suc h.next;
  }

  -- `delete(h.clients, client)` and `close(client.send)`.
  abbrev close_client : Hub Msg → ℕ → Channel Msg → Outcome Msg
  close_client h c ch =
      if ch.closed
      then panicked
      else running (record h {
        clients = without h.clients c;
        channels = with_channel h.channels c (record ch { closed = true });
      })

  unfoldable pub unregister : Hub Msg → ℕ → Outcome Msg
  unregister h c = if is_in h.clients c then close_client h c (h.channels c) else running h

  -- The `select` for one client, by whether its channel has room: the message is queued, or a
  -- goroutine is started to unregister the client.
  abbrev pub sent_by : Bool → Hub Msg → ℕ → Msg → Hub Msg
  sent_by true h c m = record h {
    channels =
        with_channel h.channels c
          (record (h.channels c) { queue = (h.channels c).queue ++ m ∷ [] });
  }
  sent_by false h c m = record h { leaving = h.leaving ++ c ∷ [] }

  unfoldable pub sent : Hub Msg → ℕ → Msg → Hub Msg
  sent h c m = sent_by (ltb (length (h.channels c).queue) 8) h c m

  unfoldable pub send : Hub Msg → ℕ → Msg → Outcome Msg
  send h c m = if (h.channels c).closed then panicked else running (sent h c m)

  abbrev pub and_then : Outcome Msg → (Hub Msg → Outcome Msg) → Outcome Msg
  and_then (running h) f = f h
  and_then panicked f = panicked

  unfoldable pub send_all : List ℕ → Msg → Hub Msg → Outcome Msg
  unfolding send
  send_all [] m h = running h
  send_all (c ∷ cs) m h = and_then (send h c m) (send_all cs m)

  abbrev took : Channel Msg → List Msg → Channel Msg
  took ch [] = ch
  took ch (m ∷ rest) = record ch { queue = rest; taken = ch.taken ++ m ∷ [] }

  unfoldable pub hub_event : Hub Msg → HubEvent Msg → Outcome Msg
  unfolding send_all register unregister
  hub_event h joined = running (register h)
  hub_event h (read_ended c) = running (record h { leaving = h.leaving ++ c ∷ [] })
  hub_event h (unregistered c) =
      if is_in h.leaving c
      then unregister (record h { leaving = without_one h.leaving c }) c
      else running h
  hub_event h (message m) = send_all h.clients m h
  hub_event h (written c) =
      running (record h {
        channels = with_channel h.channels c (took (h.channels c) (h.channels c).queue);
      })

  unfoldable pub hub_run : Hub Msg → List (HubEvent Msg) → Outcome Msg
  unfolding hub_event
  hub_run h [] = running h
  hub_run h (e ∷ es) = and_then (hub_event h e) (λ g. hub_run g es)
