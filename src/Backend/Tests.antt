-- ===== src/Backend/Tests.antt =====
-- Code: internal/host/history.go, internal/server/router.go and internal/server/websocket.go.
-- A history of whole numbers, a log stream and a hub, with few elements each.
use Prim.Native.Nat.{◌/◌}
use vps_dashboard.Common.{
  ℕ, false, true, ◌⊎◌, ◌+◌, ◌*◌, ◌-◌, ◌≤◌, ◌≡◌, refl, arith, some, List, [], ◌∷◌, ◌++◌, map, length,
  take_last, take, drop, Option, none, Text, codes, All,
}
use vps_dashboard.Types.{minute}
use vps_dashboard.Metrics.{HistoryState, HistoryEvent, load_ended, body, handle_all}
use vps_dashboard.Metrics.Spacing.{IsSpaced}
use vps_dashboard.LogStream.{render, queue_line, read_all, max_lines}
use vps_dashboard.LogStream.Events.{IsLine, event}
use vps_dashboard.LogStream.Chunks.{joined as concatenated}
use vps_dashboard.LogStream.Decoding.{Bytes, decode_chunks}
use vps_dashboard.LogStream.Utf8.{utf8}
use vps_dashboard.Backend.Hub.{
  Hub, HubEvent, joined, read_ended, unregistered, message, written, is_in, new_hub, register,
  hub_run,
}
use vps_dashboard.Backend.Hub.Sound.{IsSound, Runs, register-IsSound, hub_run-IsSound}
use vps_dashboard.Backend.Hub.Delivery.{got, hub_run-Served}
use vps_dashboard.Backend.Logs.{lines_of_read, stream_logs}
use vps_dashboard.Backend.Logs.Framed.{
  header, frames, IsFramed, IsMarshalled, lines_of, framed_reads_shown,
}
use vps_dashboard.Backend.Logs.Cut.{cut_line}
use vps_dashboard.Backend.History.{Sample, History, record_sample, in_range, range_of, at_least_1}
use vps_dashboard.Backend.History.Count.{length-range_of}
use vps_dashboard.Backend.History.Even.{sample_at, evenly}
use vps_dashboard.Backend.History.Kept.{record_sample-eq}
use vps_dashboard.Backend.History.Answers.{
  points_served, served, done, then_served, served-IsSpaced,
}

abbrev add : ℕ → ℕ → ℕ
add a b = a + b

abbrev over : ℕ → ℕ → ℕ
over a n = a / n

-- Four samples, two seconds apart.
abbrev history : History ℕ
history = record { samples = evenly 5 10000 2000 4; retain = 60000; max_len = 3 }

three_points :
    map (λ s. s.timestamp) (range_of 0 add over 16000 60000 3 history)
    ≡ 10000 ∷ 12000 ∷ 14000 ∷ 16000 ∷ []
unfolding range_of vps_dashboard.Backend.History.downsampled vps_dashboard.Backend.History.buckets
    vps_dashboard.Backend.History.flush
three_points = refl

length-range_of_example : length (range_of 0 add over 16000 60000 3 history) ≤ 2 * at_least_1 3
length-range_of_example = length-range_of 0 add over 16000 60000 3 history (omega arith)

record_sample-eq_example :
    ((record_sample 18000 (sample_at 5 18000) history).samples
      ≡ take_last 3 (in_range (18000 - 60000) (evenly 5 10000 2000 4 ++ sample_at 5 18000 ∷ [])))
    × (length (record_sample 18000 (sample_at 5 18000) history).samples ≤ 3)
record_sample-eq_example = record_sample-eq 18000 (sample_at 5 18000) history (omega arith)

abbrev ticks : List (ℕ × Sample ℕ)
ticks = (10001, sample_at 5 10000) ∷ (12001, sample_at 5 12000) ∷ []

abbrev answer : HistoryEvent ℕ
answer = load_ended 0 (body (some (points_served 0 add over 13000 "1m" ticks)))

abbrev fresh : HistoryState ℕ
fresh = record { points = []; range = minute; run = 0 }

served-IsSpaced_example : IsSpaced (handle_all fresh (answer ∷ [])).points
served-IsSpaced_example =
    served-IsSpaced 0 add over (answer ∷ []) fresh
      (then_served answer [] (served 0 13000 "1m" ticks (omega arith)) done) tt

-- Two reads with whole frames; the first line is an e with an accent, in two bytes.
abbrev reads : List (List (ℕ × Bytes))
reads = ((1, 195 ∷ 169 ∷ []) ∷ (2, codes "b") ∷ []) ∷ ((1, codes "c") ∷ []) ∷ []

-- A line in quotes, and the reader of such payloads.
abbrev quote : Bytes → Bytes
quote line = b'"' ∷ line ++ b'"' ∷ []

abbrev unquote : Text → Option Text
unquote [] = none
unquote (q ∷ s) = some (take (length s - 1) s)

abbrev response : Bytes
response = concatenated (map event (stream_logs quote (map frames reads)))

-- The response cut between the two bytes of the letter.
abbrev chunks : List Bytes
chunks = take 8 response ∷ drop 8 response ∷ []

framed_reads_shown_example :
    render unquote [] (map (queue_line unquote false) (read_all [] (decode_chunks utf8 chunks)))
    ≡ some (take_last max_lines ((233 ∷ []) ∷ codes "b" ∷ codes "c" ∷ []))
unfolding utf8 stream_logs vps_dashboard.Backend.Logs.lines_of_read vps_dashboard.Backend.Logs.split
    vps_dashboard.Backend.Logs.clean_lines vps_dashboard.Backend.Logs.strip_docker_log_header
framed_reads_shown_example =
    framed_reads_shown utf8 quote unquote false reads chunks reads-IsFramed reads-IsMarshalled refl
  where
    eight_bytes : IsLine (header 1 2)
    eight_bytes = (refl, (refl, (refl, (refl, (refl, (refl, (refl, (refl, tt))))))))

    reads-IsFramed : All (All IsFramed) reads
    reads-IsFramed = (
      (
        ((omega arith), (λ e. cc), (refl, (refl, tt)), eight_bytes),
        (((omega arith), (λ e. cc), (refl, tt), eight_bytes), tt),
      ),
      ((((omega arith), (λ e. cc), (refl, tt), eight_bytes), tt), tt),
    )

    reads-IsMarshalled : All (IsMarshalled utf8 quote unquote) (lines_of reads)
    reads-IsMarshalled = (
      record { one_line = (refl, (refl, (refl, (refl, tt)))); whole = refl; reads_back = refl },
      (
        record { one_line = (refl, (refl, (refl, tt))); whole = refl; reads_back = refl },
        (record { one_line = (refl, (refl, (refl, tt))); whole = refl; reads_back = refl }, tt),
      ),
    )

cut_line_example :
    lines_of_read (header 1 6 ++ codes "he") ++ lines_of_read (codes "llo" ++ 10 ∷ [])
    ≡ codes "he" ∷ codes "llo" ∷ []
cut_line_example =
    cut_line 1 6 (codes "he") (codes "llo") (omega arith) one_line
      ((omega arith), (refl, (refl, tt))) ((omega arith), (refl, (refl, (refl, tt))))
  where
    one_line : IsLine (header 1 6)
    one_line = (refl, (refl, (refl, (refl, (refl, (refl, (refl, (refl, tt))))))))

-- A page joins, two messages come, of which one is written, and the page goes.
abbrev visit : List (HubEvent ℕ)
visit = joined ∷ message 4 ∷ written 0 ∷ message 5 ∷ read_ended 0 ∷ unregistered 0 ∷ message 6 ∷ []

fresh-IsSound : IsSound {Msg = ℕ} new_hub
fresh-IsSound = record {
  are_open = λ c i. cc;
  numbered = λ c i. cc;
  distinct = tt;
  bounded = λ c. omega arith;
}

hub_run-IsSound_example : Runs IsSound (hub_run {Msg = ℕ} new_hub visit)
hub_run-IsSound_example = hub_run-IsSound visit new_hub fresh-IsSound

abbrev one_page : Hub ℕ
one_page = register new_hub

hub_run-Served_example :
    Runs
      (λ g.
        (is_in g.leaving 0 ≡ true)
        ⊎ ((is_in g.clients 0 ≡ true) × (got g 0 ≡ got one_page 0 ++ 4 ∷ 5 ∷ [])))
      (hub_run one_page (message 4 ∷ written 0 ∷ message 5 ∷ []))
unfolding register
hub_run-Served_example =
    hub_run-Served (message 4 ∷ written 0 ∷ message 5 ∷ []) one_page 0 one_page-IsSound refl
      (omega arith)
  where
    one_page-IsSound : IsSound one_page
    one_page-IsSound = register-IsSound new_hub fresh-IsSound
