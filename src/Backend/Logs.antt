-- ===== src/Backend/Logs.antt =====
-- handleContainerLogs of internal/server/router.go, with stripDockerLogHeader. Text is a list of
-- bytes here; a read is what `reader.Read` put into the buffer of 4096 bytes, cut where the pipe cut
-- it. jsonEscapeSSE, which calls encoding/json, is a parameter.
pub mod Framed
pub mod Cut
use vps_dashboard.Common.{
  ℕ, zero, suc, Bool, true, false, not, ◌&&◌, List, [], ◌∷◌, ◌++◌, map, Text, codes, ltb, leb, ◌==◌,
  if◌then◌else◌, length, drop, is_empty,
}

abbrev cons_head : ℕ → List Text → List Text
cons_head c [] = (c ∷ []) ∷ []
cons_head c (l ∷ ls) = (c ∷ l) ∷ ls

-- `strings.Split(s, "\n")`, which has at least one piece.
unfoldable pub split : Text → List Text
split [] = [] ∷ []
split (c ∷ s) = let rest = split s in if c == 10 then [] ∷ rest else cons_head c rest

abbrev first_at_most_2 : Text → Bool
first_at_most_2 [] = false
first_at_most_2 (c ∷ s) = leb c 2

unfoldable pub strip_docker_log_header : Text → Text
strip_docker_log_header line =
    if ltb 8 (length line) && first_at_most_2 line then drop 8 line else line

-- The lines of one read for which an event is written.
unfoldable pub clean_lines : List Text → List Text
clean_lines [] = []
clean_lines (line ∷ lines) =
    let clean = strip_docker_log_header line in
    (if not (is_empty line) && not (is_empty clean) then clean ∷ [] else []) ++ clean_lines lines

unfoldable pub lines_of_read : Text → List Text
unfolding clean_lines split
lines_of_read buf = clean_lines (split buf)

-- The payloads of the events that a stream writes.
unfoldable pub stream_logs : (Text → Text) → List Text → List Text
stream_logs escape [] = []
stream_logs escape (buf ∷ reads) = map escape (lines_of_read buf) ++ stream_logs escape reads

abbrev without_headers : List Text → List Text
without_headers [] = []
without_headers (line ∷ lines) =
    (if is_empty line then [] else strip_docker_log_header line ∷ []) ++ without_headers lines

abbrev join_lines : List Text → Text
join_lines [] = []
join_lines (l ∷ []) = l
join_lines (l ∷ m ∷ ls) = l ++ 10 ∷ join_lines (m ∷ ls)

-- The body of `handleContainerLogsBatch`.
unfoldable pub strip_docker_log_headers : Text → Text
unfolding split
strip_docker_log_headers data_read = join_lines (without_headers (split data_read))
