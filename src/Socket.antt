-- ===== src/Socket.antt =====
-- frontend/src/hooks/useMetricsSocket.ts: the web socket of the metrics and its reconnection. The
-- parser of a message is a parameter. Of the browser's sockets the model keeps those that are not
-- closed yet, with their `readyState`, and of its timers those that are pending.
pub mod Attempts
mod Tests
use vps_dashboard.Common.{
  ℕ, suc, ◌+◌, String, Bool, true, false, not, ◌&&◌, Option, none, some, List, [], ◌∷◌, ◌++◌, map,
  filter, any, ◌==◌, ◌===◌, if◌then◌else◌, Text,
}
use vps_dashboard.Types.{MetricsFrame, ConnectionState, connecting, connected, disconnected}

pub data ReadyState : Type 0 where
  opening open_now closing : ReadyState

pub record Socket : Type 0 where
  pub id : ℕ
  pub ready : ReadyState

-- What an event tells about a socket.
pub data SocketEvent : Type 0 where
  opened : ℕ → SocketEvent
  message : ℕ → Text → SocketEvent
  failed : ℕ → SocketEvent
  closed : ℕ → SocketEvent
  -- `setTimeout` calls back
  fired : ℕ → SocketEvent

-- `ws_ref` and `reconnect_ref` are the two refs, `frame` and `connection` the state of the hook; the
-- rest is the browser's: numbers below `next` are used up.
pub record SocketState (Num : Type 0) : Type 0 where
  pub frame : Option (MetricsFrame Num)
  pub connection : ConnectionState
  pub ws_ref : Option ℕ
  pub reconnect_ref : Option ℕ
  pub sockets : List Socket
  pub timers : List ℕ
  pub next : ℕ

abbrev pub is_open : ReadyState → Bool
is_open opening = false
is_open open_now = true
is_open closing = false

-- `ref.current?.readyState === WebSocket.OPEN`
abbrev pub is_open_socket : Option ℕ → List Socket → Bool
is_open_socket none sockets = false
is_open_socket (some id) sockets = any (λ s. (s.id == id) && is_open s.ready) sockets

abbrev pub opened_socket : ℕ → Socket → Socket
opened_socket id s = if s.id == id then record { id = s.id; ready = open_now } else s

-- The method `close`.
abbrev pub closing_socket : ℕ → Socket → Socket
closing_socket id s = if s.id == id then record { id = s.id; ready = closing } else s

abbrev pub is_live : ℕ → List Socket → Bool
is_live id sockets = any (λ s. s.id == id) sockets

abbrev pub is_opening : ℕ → List Socket → Bool
is_opening id sockets =
    any (λ s. (s.id == id) && not (is_open s.ready) && not_closing s.ready) sockets
  where
    not_closing : ReadyState → Bool
    not_closing closing = false
    not_closing _ = true

module _ {Num : Type 0} where
  abbrev pub initial : SocketState Num
  initial = record {
    frame = none;
    connection = connecting;
    ws_ref = none;
    reconnect_ref = none;
    sockets = [];
    timers = [];
    next = 0;
  }

  unfoldable pub connect : SocketState Num → SocketState Num
  connect s = if is_open_socket s.ws_ref s.sockets then s else record {
    frame = s.frame;
    connection = connecting;
    ws_ref = some s.next;
    reconnect_ref = s.reconnect_ref;
    sockets = s.sockets ++ record { id = s.next; ready = opening } ∷ [];
    timers = s.timers;
    next = suc s.next;
  }

  unfoldable pub on_open : ℕ → SocketState Num → SocketState Num
  on_open id s = record {
    frame = s.frame;
    connection = connected;
    ws_ref = s.ws_ref;
    reconnect_ref = s.reconnect_ref;
    sockets = map (opened_socket id) s.sockets;
    timers = s.timers;
    next = s.next;
  }

  abbrev pub metrics_frame :
      Option (MetricsFrame Num) → Option (MetricsFrame Num) → Option (MetricsFrame Num)
  metrics_frame frame none = frame
  metrics_frame frame (some data_read) =
      if data_read.type === "metrics" then some data_read else frame

  -- `json_parse` gives `none` where `JSON.parse` throws.
  unfoldable pub on_message :
      (Text → Option (MetricsFrame Num)) → Text → SocketState Num → SocketState Num
  on_message json_parse text s = record {
    frame = metrics_frame s.frame (json_parse text);
    connection = s.connection;
    ws_ref = s.ws_ref;
    reconnect_ref = s.reconnect_ref;
    sockets = s.sockets;
    timers = s.timers;
    next = s.next;
  }

  -- The socket is gone and the timer to connect again is set.
  unfoldable pub on_close : ℕ → SocketState Num → SocketState Num
  on_close id s = record {
    frame = s.frame;
    connection = disconnected;
    ws_ref = none;
    reconnect_ref = some s.next;
    sockets = filter (λ t. not (t.id == id)) s.sockets;
    timers = s.timers ++ s.next ∷ [];
    next = suc s.next;
  }

  abbrev with_sockets : SocketState Num → List Socket → SocketState Num
  with_sockets s sockets = record {
    frame = s.frame;
    connection = s.connection;
    ws_ref = s.ws_ref;
    reconnect_ref = s.reconnect_ref;
    sockets = sockets;
    timers = s.timers;
    next = s.next;
  }

  unfoldable pub on_error : ℕ → SocketState Num → SocketState Num
  on_error id s = with_sockets s (map (closing_socket id) s.sockets)

  abbrev pub without_timer : ℕ → SocketState Num → SocketState Num
  without_timer id s = record {
    frame = s.frame;
    connection = s.connection;
    ws_ref = s.ws_ref;
    reconnect_ref = s.reconnect_ref;
    sockets = s.sockets;
    timers = filter (λ t. not (t == id)) s.timers;
    next = s.next;
  }

  abbrev pub clear_timer : Option ℕ → SocketState Num → SocketState Num
  clear_timer none s = s
  clear_timer (some id) s = without_timer id s

  abbrev pub close_socket : Option ℕ → SocketState Num → SocketState Num
  close_socket none s = s
  close_socket (some id) s = with_sockets s (map (closing_socket id) s.sockets)

  -- The clean-up of the effect.
  unfoldable pub clean_up : SocketState Num → SocketState Num
  clean_up s = close_socket s.ws_ref (clear_timer s.reconnect_ref s)

  -- One event; the browser sends none for a socket that is closed, no second opening, and none for
  -- a timer that is not pending.
  unfoldable pub step :
      (Text → Option (MetricsFrame Num)) → SocketState Num → SocketEvent → SocketState Num
  step json_parse s (opened id) = if is_opening id s.sockets then on_open id s else s
  step json_parse s (message id text) =
      if is_live id s.sockets then on_message json_parse text s else s
  step json_parse s (failed id) = if is_live id s.sockets then on_error id s else s
  step json_parse s (closed id) = if is_live id s.sockets then on_close id s else s
  step json_parse s (fired id) =
      if any (λ t. t == id) s.timers then connect (without_timer id s) else s

  unfoldable pub run :
      (Text → Option (MetricsFrame Num)) → SocketState Num → List SocketEvent → SocketState Num
  run json_parse s [] = s
  run json_parse s (e ∷ es) = run json_parse (step json_parse s e) es
