-- ===== src/Backend/Logs/Framed.antt =====
-- Code: internal/server/router.go, with frontend/src/hooks/useLogStream.ts.
-- Reads that hold whole frames of Docker's stream: every line arrives on the page.
use Prim.Native.Nat.{◌/◌, ◌%◌}
use mathlib.Core.List.{append_assoc}
use vps_dashboard.Common.{
  ℕ, suc, ◌≤◌, ◌≡◌, ◌≢◌, refl, sym, ap, ◌∙◌, arith, Bool, true, ◌&&◌, Option, some, List, [], ◌∷◌,
  ◌++◌, map, Text, ltb, leb, if◌then◌else◌, length, All, All-append, take_last,
}
use vps_dashboard.LogStream.{render, queue_line, read_all, max_lines}
use vps_dashboard.LogStream.Chunks.{joined}
use vps_dashboard.LogStream.Events.{IsLine, event}
use vps_dashboard.LogStream.Decoding.{
  Bytes, Decoder, decode_chunks, IsWhole, joined-decode_from, decode-events,
}
use vps_dashboard.LogStream.Lines.{Reads, shown_lines}
use vps_dashboard.Backend.Logs.{
  split, strip_docker_log_header, clean_lines, lines_of_read, stream_logs,
}

-- A frame of Docker's multiplexed stream: the number of the stream, three zeros, the size of the
-- payload as four bytes, and the payload, which is a line with its line break.
abbrev pub header : ℕ → ℕ → Text
header stream size =
    stream
    ∷ 0
    ∷ 0
    ∷ 0
    ∷ size / 16777216 % 256
    ∷ size / 65536 % 256
    ∷ size / 256 % 256
    ∷ size % 256
    ∷ []

abbrev pub frame : ℕ → Text → Text
frame stream line = header stream (suc (length line)) ++ line ++ 10 ∷ []

-- A line of the log whose frame has no line break but the last: not empty, from the standard output
-- or the standard error, and not of a length that makes a byte of the header a line break.
abbrev pub IsFramed : ℕ × Text → Type 0
IsFramed (stream, line) =
    (stream ≤ 2) × (line ≢ []) × IsLine line × IsLine (header stream (suc (length line)))

pub split-line : (line s : Text) → IsLine line → split (line ++ 10 ∷ s) ≡ line ∷ split s
unfolding split
split-line [] s h = refl
split-line (c ∷ line) s h = rw (h.0, split-line line s h.1) refl

-- A text without a line break is its only piece.
pub split_whole : (line : Text) → IsLine line → split line ≡ line ∷ []
unfolding split
split_whole [] h = refl
split_whole (c ∷ line) h = rw (h.0, split_whole line h.1) refl

strip-header :
    (stream size : ℕ) (line : Text)
    → stream ≤ 2
    → line ≢ []
    → strip_docker_log_header (header stream size ++ line) ≡ line
unfolding strip_docker_log_header
strip-header stream size [] h ne = absurd (ne refl)
strip-header stream size (c ∷ line) h ne =
    let known : leb stream 2 ≡ true = ground arith in
    let long : (ltb 8 (length (header stream size ++ c ∷ line)) && true) ≡ true = ground arith in
    rw known (ap (λ b. if b then c ∷ line else header stream size ++ c ∷ line) long)

pub line-kept :
    (stream size : ℕ) (line : Text) (lines : List Text)
    → stream ≤ 2
    → line ≢ []
    → clean_lines ((header stream size ++ line) ∷ lines) ≡ line ∷ clean_lines lines
unfolding clean_lines
line-kept stream size [] lines h ne = absurd (ne refl)
line-kept stream size (c ∷ line) lines h ne = rw (strip-header stream size (c ∷ line) h ne) refl

-- What a read holds.
abbrev pub frames : List (ℕ × Text) → Text
frames [] = []
frames ((stream, line) ∷ fs) = frame stream line ++ frames fs

lines_of_read-frames :
    (fs : List (ℕ × Text)) → All IsFramed fs → lines_of_read (frames fs) ≡ map (λ f. f.1) fs
unfolding lines_of_read
lines_of_read-frames [] h = unfold split clean_lines in refl
lines_of_read-frames ((stream, line) ∷ fs) (framed, rest) =
    let head = header stream (suc (length line)) in
    let broken : frame stream line ++ frames fs ≡ (head ++ line) ++ 10 ∷ frames fs =
      rw (append_assoc, append_assoc) refl in
    let one : IsLine (head ++ line) = All-append _ head line framed.3 framed.2 in
    ap (λ t. clean_lines (split t)) broken
    ∙ ap clean_lines (split-line (head ++ line) (frames fs) one)
    ∙ line-kept stream (suc (length line)) line (split (frames fs)) framed.0 framed.1
    ∙ ap (line ∷◌) (lines_of_read-frames fs rest)

-- The lines of all reads.
abbrev pub lines_of : List (List (ℕ × Text)) → List Text
lines_of [] = []
lines_of (fs ∷ reads) = map (λ f. f.1) fs ++ lines_of reads

map-append : (f : Text → Text) (xs ys : List Text) → map f (xs ++ ys) ≡ map f xs ++ map f ys
map-append f [] ys = refl
map-append f (x ∷ xs) ys = ap (f x ∷◌) (map-append f xs ys)

stream_logs-frames :
    (escape : Text → Text) (reads : List (List (ℕ × Text)))
    → All (All IsFramed) reads
    → stream_logs escape (map frames reads) ≡ map escape (lines_of reads)
unfolding stream_logs
stream_logs-frames escape [] h = refl
stream_logs-frames escape (fs ∷ reads) h =
    ap (λ l. map escape l ++ stream_logs escape (map frames reads)) (lines_of_read-frames fs h.0)
    ∙ ap (map escape (map (λ f. f.1) fs) ++◌) (stream_logs-frames escape reads h.1)
    ∙ sym (map-append escape (map (λ f. f.1) fs) (lines_of reads))

module _ (decoder : Decoder) (escape : Bytes → Bytes) (json_parse : Text → Option Text) where
  open decoder use {fresh, decode, decode-IsLine}

  -- `json.Marshal` writes a line in whole characters without line breaks, and `JSON.parse` reads back
  -- its text.
  pub record IsMarshalled (line : Bytes) : Type 0 where
    pub one_line : IsLine (escape line)
    pub whole : IsWhole decoder (escape line)
    pub reads_back : json_parse (decode fresh (escape line)) ≡ some (decode fresh line)

  wholes : (lines : List Bytes) → All IsMarshalled lines → All (IsWhole decoder) (map escape lines)
  wholes [] h = tt
  wholes (l ∷ ls) h = (h.0.whole, wholes ls h.1)

  AreLines :
      (lines : List Bytes)
      → All IsMarshalled lines
      → All IsLine (map (decode fresh) (map escape lines))
  AreLines [] h = tt
  AreLines (l ∷ ls) h = (decode-IsLine (escape l) h.0.one_line, AreLines ls h.1)

  marshalled-Reads :
      (lines : List Bytes)
      → All IsMarshalled lines
      → Reads json_parse (map (decode fresh) (map escape lines)) (map (decode fresh) lines)
  marshalled-Reads [] h = tt
  marshalled-Reads (l ∷ ls) h = (h.0.reads_back, marshalled-Reads ls h.1)

  -- From Docker to the page: if every read of the log stream holds whole frames, each of one
  -- non-empty line whose header has no byte that is a line break, and the JSON of each line is
  -- in whole characters, has no line break and is read back as the text of the line, then
  -- however the bytes of the response are cut into chunks, inside a character too, the page
  -- shows the texts of the last five hundred lines of the log. The decoder of the page is any
  -- that works as TextDecoder is documented to with the option stream.
  pub framed_reads_shown :
      (eager : Bool) (reads : List (List (ℕ × Bytes))) (chunks : List Bytes)
      → All (All IsFramed) reads
      → All IsMarshalled (lines_of reads)
      → joined chunks ≡ joined (map event (stream_logs escape (map frames reads)))
      → render json_parse []
          (map (queue_line json_parse eager) (read_all [] (decode_chunks decoder chunks)))
        ≡ some (take_last max_lines (map (decode fresh) (lines_of reads)))
  unfolding decode_chunks
  framed_reads_shown eager reads chunks framed marshalled sent =
      let lines = lines_of reads in
      let raws = stream_logs-frames escape reads framed in
      shown_lines json_parse eager (map (decode fresh) (map escape lines))
        (map (decode fresh) lines) (decode_chunks decoder chunks) (AreLines lines marshalled)
        (marshalled-Reads lines marshalled)
        (joined-decode_from decoder fresh chunks
          ∙ ap (decode fresh) (sent ∙ ap (λ rs. joined (map event rs)) raws)
          ∙ decode-events decoder (map escape lines) (wholes lines marshalled))
