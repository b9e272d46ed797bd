-- ===== src/Socket/Tests.antt =====
-- Code: frontend/src/hooks/useMetricsSocket.ts.
-- The socket of the metrics in a few scenes.
use vps_dashboard.Common.{ℕ, ◌≡◌, refl, Option, none, List, [], ◌∷◌, Text}
use vps_dashboard.Types.{MetricsFrame}
use vps_dashboard.Socket.{
  opening, open_now, Socket, SocketEvent, opened, message, failed, closed, fired, SocketState,
  is_live, initial, connect, on_open, clean_up, step, run,
}
use vps_dashboard.Socket.Attempts.{
  IsAttempt, trying, connect-IsAttempt, reconnects, connects_after_clean_up,
}

abbrev no_frame : Text → Option (MetricsFrame ℕ)
no_frame text = none

-- The server is away twice, then it answers.
abbrev scene : List SocketEvent
scene = failed 0 ∷ closed 0 ∷ fired 1 ∷ closed 2 ∷ fired 3 ∷ opened 4 ∷ []

one_socket :
    (run no_frame (connect initial) scene).sockets ≡ record { id = 4; ready = open_now } ∷ []
unfolding connect on_open step run vps_dashboard.Socket.on_close vps_dashboard.Socket.on_error
one_socket = refl

connect-IsAttempt_example : IsAttempt no_frame (run no_frame (connect initial) scene)
connect-IsAttempt_example = connect-IsAttempt no_frame scene

reconnects_example :
    (run no_frame (connect initial) (closed 0 ∷ fired 1 ∷ [])).sockets
    ≡ record { id = 2; ready = opening } ∷ []
unfolding connect
reconnects_example =
    reconnects no_frame (connect initial) 0 (trying 0 opening refl refl refl refl) refl

connects_after_clean_up_example :
    (run no_frame (clean_up (on_open 0 (connect initial))) (closed 0 ∷ fired 1 ∷ [])).sockets
    ≡ record { id = 2; ready = opening } ∷ []
unfolding connect on_open
connects_after_clean_up_example =
    connects_after_clean_up no_frame (on_open 0 (connect initial)) 0 refl refl refl
