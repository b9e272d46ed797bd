-- ===== src/LogStream.antt =====
-- frontend/src/hooks/useLogStream.ts: the event stream of a container's log. A chunk is the text
-- that the streaming decoder yields for one read.
pub mod Chunks
pub mod Decoding
pub mod Utf8
pub mod Events
pub mod Lines
pub mod Session
mod Tests
use mathlib.Core.Option
use vps_dashboard.Common.{
  ℕ, zero, suc, ◌+◌, String, Bool, true, false, ◌&&◌, Option, none, some, List, [], ◌∷◌, ◌++◌, Text,
  codes, ◌==◌, ltb, if◌then◌else◌, length, take_last,
}

-- What splitting leaves: the parts before the last separator, and the text behind it.
pub record Pieces : Type 0 where
  pub parts : List Text
  pub rest : Text

abbrev newline : ℕ
newline = 10

-- A unit in front of the first piece.
abbrev pub push : ℕ → Pieces → Pieces
push c p = elim p.parts [
  | [] ↦ record { parts = []; rest = c ∷ p.rest }
  | first ∷ more ↦ record p { parts = (c ∷ first) ∷ more }
]

abbrev pub part_ended : Pieces → Pieces
part_ended p = record p { parts = [] ∷ p.parts }

-- `buffer.split('\n\n')`, its last piece apart.
unfoldable pub split_events : Text → Pieces
split_events [] = record { parts = []; rest = [] }
split_events (c ∷ []) = record { parts = []; rest = c ∷ [] }
split_events (c ∷ d ∷ s) =
    let ended = part_ended (split_events s) in
    let longer = push c (split_events (d ∷ s)) in
    if c == newline && d == newline then ended else longer

abbrev cons_first : ℕ → List Text → List Text
cons_first c [] = (c ∷ []) ∷ []
cons_first c (l ∷ ls) = (c ∷ l) ∷ ls

-- `part.split('\n')`, which has at least one piece.
unfoldable pub split_lines : Text → List Text
split_lines [] = [] ∷ []
split_lines (c ∷ s) =
    let rest = split_lines s in if c == newline then [] ∷ rest else cons_first c rest

-- What follows a prefix: `line.startsWith(prefix)` with `line.slice(prefix.length)`.
abbrev pub strip_prefix : Text → Text → Option Text
strip_prefix [] line = some line
strip_prefix (p ∷ ps) [] = none
strip_prefix (p ∷ ps) (c ∷ line) = if p == c then strip_prefix ps line else none

abbrev pub data_prefix : Text
data_prefix = codes "data: "

abbrev some_to_list : Option Text → List Text → List Text
some_to_list none rest = rest
some_to_list (some raw) rest = raw ∷ rest

unfoldable pub raws_of_lines : List Text → List Text
raws_of_lines [] = []
raws_of_lines (line ∷ lines) = some_to_list (strip_prefix data_prefix line) (raws_of_lines lines)

-- The two `for` loops: the payloads of a list of parts.
unfoldable pub raws_of_parts : List Text → List Text
unfolding raws_of_lines split_lines
raws_of_parts [] = []
raws_of_parts (part ∷ parts) = raws_of_lines (split_lines part) ++ raws_of_parts parts

-- One round of the reading loop: the payloads that the chunk completes, and the new buffer.
pub record Round : Type 0 where
  pub raws : List Text
  pub buffer : Text

unfoldable pub feed : Text → Text → Round
feed buffer chunk =
    let p = split_events (buffer ++ chunk) in
    record { raws = raws_of_parts p.parts; buffer = p.rest }

-- The loop over the chunks of a response; what the buffer holds at its end is dropped.
unfoldable pub read_all : Text → List Text → List Text
unfolding feed
read_all buffer [] = []
read_all buffer (chunk ∷ chunks) =
    let round = feed buffer chunk in round.raws ++ read_all round.buffer chunks

-- The updater functions handed to `setLines`.
pub data Update : Type 0 where
  parsed plain : Text → Update

abbrev pub max_lines : ℕ
max_lines = 500

unfoldable pub append_line : List Text → Text → List Text
append_line prev line =
    let next = prev ++ line ∷ [] in
    if ltb max_lines (length next) then take_last max_lines next else next

abbrev pub fails : Option Text → Bool
fails none = true
fails (some line) = false

module _ (json_parse : Text → Option Text) where
  -- An updater at work; `none` is the exception of `JSON.parse`.
  unfoldable pub run_update : List Text → Update → Option (List Text)
  run_update prev (plain raw) = some (append_line prev raw)
  run_update prev (parsed raw) = Option.map (append_line prev) (json_parse raw)

  -- A render applies the updaters that are queued, in their order.
  unfoldable pub render : List Text → List Update → Option (List Text)
  render prev [] = some prev
  render prev (u ∷ us) = elim (run_update prev u) [ none ↦ none | some next ↦ render next us ]

  -- The body of the inner loop. `eager` says whether `setLines` runs its updater within the call:
  -- only then can the call throw and the `catch` queue the plain text instead.
  unfoldable pub queue_line : Bool → Text → Update
  queue_line eager raw = if eager && fails (json_parse raw) then plain raw else parsed raw
