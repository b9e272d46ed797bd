-- ===== src/HostView/Tests.antt =====
-- Code: frontend/src/components/HostMetrics.tsx.
-- The cards for a host; percentages are whole.
use vps_dashboard.Common.{ℕ, ◌≡◌, refl, true, none, some, List, [], ◌∷◌, map, All, codes}
use vps_dashboard.Common.Number.{whole}
use vps_dashboard.Types.{HostMetrics}
use vps_dashboard.Metrics.{BackendPoint, body, mapped, append, handle, handle_all, initial}
use vps_dashboard.HostView.{bar_class, reading_of, HostEvent, framed, loaded, history_event}
use vps_dashboard.HostView.InRange.{BringsInRange}

abbrev host : HostMetrics ℕ
host = record {
  timestamp = 1000;
  cpu_percent = 130;
  memory_used = 1;
  memory_total = 2;
  memory_percent = 50;
  disk = record { total = 4; used = 3; free = 1; used_percent = 75 };
  network = record {
    bytes_sent_per_sec = 1;
    bytes_recv_per_sec = 2;
    total_bytes_sent = 3;
    total_bytes_recv = 4;
  };
}

abbrev point : BackendPoint ℕ
point = record { t = 5000; cpu = 40; mem = 50; disk = 75; net_up = 4; net_down = 5 }

warned : bar_class whole 75 ≡ codes "bar__fill--warn"
unfolding bar_class
warned = refl

-- The socket is open and no frame has come: a point of zeros; the first frame comes too early for one.
abbrev start_up : List (HostEvent whole)
start_up = framed 9000 none true ∷ framed 10000 (some host) true ∷ []

zeros_first :
    map (λ p. p.cpu) (handle_all initial (map (history_event whole) start_up)).points ≡ 0 ∷ []
unfolding handle_all handle history_event append reading_of
zeros_first = refl

abbrev events : List (HostEvent whole)
events = loaded 0 (body (some (point ∷ []))) ∷ framed 9000 (some host) true ∷ []

events_bring : All (BringsInRange whole) events
unfolding mapped
events_bring = ((((refl, refl), (refl, refl), (refl, refl)), tt), (tt, tt))
