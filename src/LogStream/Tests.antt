-- ===== src/LogStream/Tests.antt =====
-- Code: frontend/src/hooks/useLogStream.ts.
-- The log stream at concrete responses.
use vps_dashboard.Common.{
  ℕ, ◌≡◌, ◌≢◌, refl, true, false, Option, none, some, List, [], ◌∷◌, ◌++◌, map, Text, codes, All,
  take_last,
}
use vps_dashboard.LogStream.{split_events, read_all, render, queue_line, raws_of_parts, max_lines}
use vps_dashboard.LogStream.Chunks.{joined, payloads, read_all-eq-payloads}
use vps_dashboard.LogStream.Events.{IsLine}
use vps_dashboard.LogStream.Lines.{shown_lines, malformed_payload_fails}
use vps_dashboard.LogStream.Session.{
  start, stop, initial, Reach, here, next, started, Reach_lem, reading,
}

-- Two events in three chunks; the first cut is inside the prefix, the second inside the separator.
abbrev chunks : List Text
chunks =
    codes "da" ∷ (codes "ta: \"a\"" ++ 10 ∷ []) ∷ (10 ∷ codes "data: \"b\"" ++ 10 ∷ 10 ∷ []) ∷ []

abbrev two_raws : List Text
two_raws = codes "\"a\"" ∷ codes "\"b\"" ∷ []

in_three_chunks : read_all [] chunks ≡ two_raws
unfolding read_all split_events raws_of_parts
in_three_chunks = refl

read_all-eq-payloads_example : read_all [] chunks ≡ payloads (joined chunks)
read_all-eq-payloads_example = read_all-eq-payloads chunks

two_raws-IsLine : All IsLine two_raws
two_raws-IsLine = ((refl, (refl, (refl, tt))), ((refl, (refl, (refl, tt))), tt))

-- A `JSON.parse` for texts of one letter in quotes.
abbrev quoted : Text → Option Text
quoted (q ∷ c ∷ r ∷ []) = some (c ∷ [])
quoted _ = none

shown_lines_example :
    render quoted [] (map (queue_line quoted false) (read_all [] chunks))
    ≡ some (take_last max_lines (codes "a" ∷ codes "b" ∷ []))
shown_lines_example =
    shown_lines quoted false two_raws (codes "a" ∷ codes "b" ∷ []) chunks two_raws-IsLine
      (refl, (refl, tt)) refl

malformed_payload_fails_example :
    render quoted [] (map (queue_line quoted false) (codes "\"a\"" ∷ codes "plain" ∷ [])) ≡ none
malformed_payload_fails_example =
    malformed_payload_fails quoted (codes "\"a\"" ∷ codes "plain" ∷ []) [] refl

one_stream : Reach (start initial)
one_stream = next here started

Reach_lem_example :
    ((i : ℕ) → (start initial).phase i ≡ reading → (start initial).current ≡ some i)
    × ((start initial).streaming ≡ true
        → (i : ℕ) × ((start initial).current ≡ some i) × ((start initial).phase i ≡ reading))
    × ((i : ℕ) → (stop (start initial)).phase i ≢ reading)
Reach_lem_example = Reach_lem (start initial) one_stream

first_reading : (start initial).phase 0 ≡ reading
unfolding start
first_reading = refl
