-- ===== src/LogStream/Events.antt =====
-- Code: frontend/src/hooks/useLogStream.ts.
-- The events that the server writes, one for each line of the log: `handleContainerLogs` in
-- internal/server/router.go writes "data: ", the line as JSON (which holds no line break), and an
-- empty line.
use vps_dashboard.Common.{
  ℕ, ◌≡◌, refl, ap, ◌∙◌, false, ◌&&◌, List, [], ◌∷◌, ◌++◌, map, Text, ◌==◌, if◌then◌else◌, All,
  All-append,
}
use mathlib.Core.List.{append_assoc}
use vps_dashboard.LogStream.{
  push, part_ended, split_events, split_lines, raws_of_lines, raws_of_parts, data_prefix, read_all,
}
use vps_dashboard.LogStream.Chunks.{joined, payloads, read_all-eq-payloads}

abbrev pub IsLine : Text → Type 0
IsLine = All (λ c. (c == 10) ≡ false)

abbrev pub event : Text → Text
event raw = data_prefix ++ raw ++ 10 ∷ 10 ∷ []

split_events-cons :
    (c : ℕ) (s : Text) → (c == 10) ≡ false → split_events (c ∷ s) ≡ push c (split_events s)
unfolding split_events
split_events-cons c [] h = refl
split_events-cons c (d ∷ s) h =
    ap (λ b. if b && d == 10 then part_ended (split_events s) else push c (split_events (d ∷ s))) h

-- A line that ends in an empty line is the first part.
split_events-line :
    (line s : Text)
    → IsLine line
    → split_events (line ++ 10 ∷ 10 ∷ s)
      ≡ record { parts = line ∷ (split_events s).parts; rest = (split_events s).rest }
split_events-line [] s h = unfold split_events in refl
split_events-line (c ∷ line) s h =
    split_events-cons c (line ++ 10 ∷ 10 ∷ s) h.0 ∙ ap (push c) (split_events-line line s h.1)

split_lines-line : (line : Text) → IsLine line → split_lines line ≡ line ∷ []
unfolding split_lines
split_lines-line [] h = refl
split_lines-line (c ∷ line) h = rw (h.0, split_lines-line line h.1)

prefix-IsLine : IsLine data_prefix
prefix-IsLine = (refl, (refl, (refl, (refl, (refl, (refl, tt))))))

raws_of_lines-data : (raw : Text) → raws_of_lines ((data_prefix ++ raw) ∷ []) ≡ raw ∷ []
unfolding raws_of_lines
raws_of_lines-data raw = refl

raws_of_parts-data :
    (raw : Text) (parts : List Text)
    → IsLine raw
    → raws_of_parts ((data_prefix ++ raw) ∷ parts) ≡ raw ∷ raws_of_parts parts
unfolding raws_of_parts
raws_of_parts-data raw parts h =
    ap (λ ls. raws_of_lines ls ++ raws_of_parts parts)
      (split_lines-line (data_prefix ++ raw) (All-append _ data_prefix raw prefix-IsLine h))
    ∙ ap (λ rs. rs ++ raws_of_parts parts) (raws_of_lines-data raw)

payloads-event : (raw s : Text) → IsLine raw → payloads (event raw ++ s) ≡ raw ∷ payloads s
payloads-event raw s h =
    ap (λ t. payloads (data_prefix ++ t)) (append_assoc raw (10 ∷ 10 ∷ []) s)
    ∙ ap (λ p. raws_of_parts p.parts)
        (split_events-line (data_prefix ++ raw) s (All-append _ data_prefix raw prefix-IsLine h))
    ∙ raws_of_parts-data raw (split_events s).parts h

payloads-events : (raws : List Text) → All IsLine raws → payloads (joined (map event raws)) ≡ raws
payloads-events [] h = unfold split_events raws_of_parts in refl
payloads-events (raw ∷ raws) h =
    payloads-event raw (joined (map event raws)) h.0 ∙ ap (raw ∷◌) (payloads-events raws h.1)

-- The hook finds exactly the payloads that the server wrote, in their order, however the network
-- cuts the response into chunks, in the middle of a separator or of a prefix too.
pub read_all-events :
    (raws chunks : List Text)
    → All IsLine raws
    → joined chunks ≡ joined (map event raws)
    → read_all [] chunks ≡ raws
read_all-events raws chunks h e =
    read_all-eq-payloads chunks ∙ ap payloads e ∙ payloads-events raws h
