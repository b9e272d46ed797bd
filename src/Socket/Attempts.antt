-- ===== src/Socket/Attempts.antt =====
-- Code: frontend/src/hooks/useMetricsSocket.ts.
-- How many sockets and timers there are.
use vps_dashboard.Common.{
  ℕ, suc, ◌≡◌, refl, ap, sym, ◌∙◌, subst, arith, Bool, true, false, not, Option, none, some, List,
  [], ◌∷◌, ◌++◌, map, filter, any, ◌==◌, if◌then◌else◌, Text,
}
use vps_dashboard.Types.{MetricsFrame, ConnectionState, connecting, connected, disconnected}
use vps_dashboard.Socket.{
  ReadyState, opening, open_now, closing, SocketEvent, opened, message, failed, closed, fired,
  SocketState, is_open_socket, is_live, is_opening, opened_socket, closing_socket, initial, connect,
  on_open, on_message, on_close, on_error, without_timer, clear_timer, close_socket, clean_up, step,
  run,
}

module _ {Num : Type 0} (json_parse : Text → Option (MetricsFrame Num)) where
  -- What the screen says while the one socket has that state.
  abbrev pub Says : ReadyState → ConnectionState → Type 0
  Says opening c = c ≡ connecting
  Says open_now c = c ≡ connected
  Says closing c = Unit

  -- There is one socket and no timer, or no socket and one timer.
  pub data IsAttempt : SocketState Num → Type 0 where
    trying :
        {s : SocketState Num} (id : ℕ) (ready : ReadyState)
        → s.sockets ≡ record { id = id; ready = ready } ∷ []
        → s.timers ≡ []
        → s.ws_ref ≡ some id
        → Says ready s.connection
        → IsAttempt s
    waiting :
        {s : SocketState Num} (id : ℕ)
        → s.sockets ≡ []
        → s.timers ≡ id ∷ []
        → s.ws_ref ≡ none
        → s.connection ≡ disconnected
        → IsAttempt s

  either :
      (b : Bool) (x y : SocketState Num)
      → (b ≡ true → IsAttempt x)
      → IsAttempt y
      → IsAttempt (if b then x else y)
  either true x y f k = f refl
  either false x y f k = k

  on_open-IsAttempt :
      (s : SocketState Num) (id : ℕ)
      → is_opening id s.sockets ≡ true
      → IsAttempt s
      → IsAttempt (on_open id s)
  unfolding on_open
  on_open-IsAttempt s id k (trying i ready es et ew says) =
      let same : (i == id) ≡ true = ground (arith, ap (is_opening id) es, k) in
      trying i open_now (ap (map (opened_socket id)) es ∙ rw same refl) et ew refl
  on_open-IsAttempt s id k (waiting i es et ew says) = absurd (cc (es, k))

  on_message-IsAttempt :
      (s : SocketState Num) (text : Text) → IsAttempt s → IsAttempt (on_message json_parse text s)
  unfolding on_message
  on_message-IsAttempt s text (trying i ready es et ew says) = trying i ready es et ew says
  on_message-IsAttempt s text (waiting i es et ew says) = waiting i es et ew says

  on_error-IsAttempt :
      (s : SocketState Num) (id : ℕ)
      → is_live id s.sockets ≡ true
      → IsAttempt s
      → IsAttempt (on_error id s)
  unfolding on_error
  on_error-IsAttempt s id k (trying i ready es et ew says) =
      let same : (i == id) ≡ true = ground (arith, ap (is_live id) es, k) in
      trying i closing (ap (map (closing_socket id)) es ∙ rw same refl) et ew tt
  on_error-IsAttempt s id k (waiting i es et ew says) = absurd (cc (es, k))

  on_close-IsAttempt :
      (s : SocketState Num) (id : ℕ)
      → is_live id s.sockets ≡ true
      → IsAttempt s
      → IsAttempt (on_close id s)
  unfolding on_close
  on_close-IsAttempt s id k (trying i ready es et ew says) =
      let same : (i == id) ≡ true = ground (arith, ap (is_live id) es, k) in
      waiting s.next (ap (filter (λ t. not (t.id == id))) es ∙ rw same refl)
        (ap (λ ts. ts ++ s.next ∷ []) et) refl refl
  on_close-IsAttempt s id k (waiting i es et ew says) = absurd (cc (es, k))

  fired-IsAttempt :
      (s : SocketState Num) (id : ℕ)
      → any (λ t. t == id) s.timers ≡ true
      → IsAttempt s
      → IsAttempt (connect (without_timer id s))
  unfolding connect
  fired-IsAttempt s id k (trying i ready es et ew says) =
      absurd (cc (ap (any (λ t. t == id)) et, k))
  fired-IsAttempt s id k (waiting i es et ew says) =
      let same : (i == id) ≡ true = ground (arith, k, et) in
      let shut : is_open_socket s.ws_ref s.sockets ≡ false =
        ap (λ o. is_open_socket o s.sockets) ew in
      rw shut (
        trying s.next opening (ap (λ xs. xs ++ record { id = s.next; ready = opening } ∷ []) es)
          (ap (filter (λ t. not (t == id))) et ∙ rw same refl) refl refl)

  step-IsAttempt :
      (s : SocketState Num) (e : SocketEvent) → IsAttempt s → IsAttempt (step json_parse s e)
  unfolding step
  step-IsAttempt s (opened id) h =
      either (is_opening id s.sockets) (on_open id s) s (λ k. on_open-IsAttempt s id k h) h
  step-IsAttempt s (message id text) h =
      either (is_live id s.sockets) (on_message json_parse text s) s
        (λ k. on_message-IsAttempt s text h) h
  step-IsAttempt s (failed id) h =
      either (is_live id s.sockets) (on_error id s) s (λ k. on_error-IsAttempt s id k h) h
  step-IsAttempt s (closed id) h =
      either (is_live id s.sockets) (on_close id s) s (λ k. on_close-IsAttempt s id k h) h
  step-IsAttempt s (fired id) h =
      either (any (λ t. t == id) s.timers) (connect (without_timer id s)) s
        (λ k. fired-IsAttempt s id k h) h

  run-IsAttempt :
      (s : SocketState Num) (es : List SocketEvent) → IsAttempt s → IsAttempt (run json_parse s es)
  unfolding run
  run-IsAttempt s [] h = h
  run-IsAttempt s (e ∷ es) h = run-IsAttempt (step json_parse s e) es (step-IsAttempt s e h)

  -- From the first connect on, whatever happens to the connection, there is either one socket
  -- and no timer or no socket and one timer to reconnect, and the connection state agrees:
  -- connecting or connected as the socket is, disconnected while the timer runs.
  pub connect-IsAttempt : (es : List SocketEvent) → IsAttempt (run json_parse (connect initial) es)
  unfolding connect
  connect-IsAttempt es = run-IsAttempt (connect initial) es first
    where
      first : IsAttempt (connect initial)
      first = trying 0 opening refl refl refl refl

  reopen :
      (s : SocketState Num) (id : ℕ)
      → is_live id s.sockets ≡ true
      → filter (λ t. not (t.id == id)) s.sockets ≡ []
      → s.timers ≡ []
      → (run json_parse s (closed id ∷ fired s.next ∷ [])).sockets
        ≡ record { id = suc s.next; ready = opening } ∷ []
  unfolding run step on_close connect
  reopen s id k gone et =
      let self : (s.next == s.next) ≡ true = ground arith in rw (k, et, self, gone) refl

  -- While there is one attempt at a time, the closing of the socket followed by the timer that
  -- it set leads to exactly one socket, a new one that is connecting.
  pub reconnects :
      (s : SocketState Num) (id : ℕ)
      → IsAttempt s
      → is_live id s.sockets ≡ true
      → (run json_parse s (closed id ∷ fired s.next ∷ [])).sockets
        ≡ record { id = suc s.next; ready = opening } ∷ []
  reconnects s id (trying i ready es et ew says) k =
      let same : (i == id) ≡ true = ground (arith, ap (is_live id) es, k) in
      reopen s id k (ap (filter (λ t. not (t.id == id))) es ∙ rw same refl) et
  reconnects s id (waiting i es et ew says) k = absurd (cc (es, k))

  -- If the effect is cleaned up while its one socket is open and no timer runs, the closing of
  -- that socket and the timer that it sets lead to a new socket.
  pub connects_after_clean_up :
      (s : SocketState Num) (id : ℕ)
      → s.sockets ≡ record { id = id; ready = open_now } ∷ []
      → s.timers ≡ []
      → s.ws_ref ≡ some id
      → (run json_parse (clean_up s) (closed id ∷ fired s.next ∷ [])).sockets
        ≡ record { id = suc s.next; ready = opening } ∷ []
  unfolding clean_up
  connects_after_clean_up s id es et ew =
      subst
        (λ ref.
          (run json_parse (close_socket ref (clear_timer s.reconnect_ref s))
            (closed id ∷ fired s.next ∷ [])).sockets
          ≡ record { id = suc s.next; ready = opening } ∷ [])
        (sym ew) (closed_up s.reconnect_ref)
    where
      self : (id == id) ≡ true
      self = ground arith

      shut : map (closing_socket id) s.sockets ≡ record { id = id; ready = closing } ∷ []
      shut = ap (map (closing_socket id)) es ∙ rw self refl

      live : is_live id (map (closing_socket id) s.sockets) ≡ true
      live = ap (is_live id) shut ∙ ground arith

      gone : filter (λ t. not (t.id == id)) (map (closing_socket id) s.sockets) ≡ []
      gone = ap (filter (λ t. not (t.id == id))) shut ∙ rw self refl

      closed_up :
          (o : Option ℕ)
          → (run json_parse
              (close_socket (some id) (clear_timer o s))
              (closed id ∷ fired s.next ∷ [])).sockets
            ≡ record { id = suc s.next; ready = opening } ∷ []
      closed_up none = reopen (close_socket (some id) s) id live gone et
      closed_up (some t) =
          reopen (close_socket (some id) (without_timer t s)) id live gone (rw et refl)
