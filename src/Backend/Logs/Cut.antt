-- ===== src/Backend/Logs/Cut.antt =====
-- Code: internal/server/router.go.
-- What becomes of a line that a read cuts, and of one whose header holds a line break.
use Prim.Native.Nat.{◌/◌, ◌%◌}
use vps_dashboard.Common.{
  ℕ, suc, ◌≤◌, ◌<◌, ◌≡◌, ◌≢◌, refl, ap, ◌∙◌, arith, false, ◌&&◌, List, [], ◌∷◌, ◌++◌, Text, ltb,
  leb, length, All-append,
}
use vps_dashboard.LogStream.Events.{IsLine}
use vps_dashboard.Backend.Logs.{split, strip_docker_log_header, clean_lines, lines_of_read}
use vps_dashboard.Backend.Logs.Framed.{header, frame, split-line, split_whole, line-kept}

-- A piece that starts with a printable byte.
abbrev pub IsPlain : Text → Type 0
IsPlain [] = ⊥
IsPlain (c ∷ s) = (2 < c) × IsLine (c ∷ s)

plain-kept :
    (s : Text) (lines : List Text) → IsPlain s → clean_lines (s ∷ lines) ≡ s ∷ clean_lines lines
unfolding clean_lines strip_docker_log_header
plain-kept [] lines h = absurd h
plain-kept (c ∷ s) lines h =
    let printable : leb c 2 ≡ false = ground arith in
    let whole : (ltb 8 (length (c ∷ s)) && leb c 2) ≡ false = ground arith in rw whole refl

plain-IsLine : (s : Text) → IsPlain s → IsLine s
plain-IsLine [] h = absurd h
plain-IsLine (c ∷ s) h = h.1

plain_ne : (s : Text) → IsPlain s → s ≢ []
plain_ne [] h = absurd h
plain_ne (c ∷ s) h = cc

-- A line of the log that a read cuts into two pieces, each of which begins with a printable
-- byte, is sent as two lines, if the header of its frame holds no line break.
pub cut_line :
    (stream size : ℕ) (a b : Text)
    → stream ≤ 2
    → IsLine (header stream size)
    → IsPlain a
    → IsPlain b
    → lines_of_read (header stream size ++ a) ++ lines_of_read (b ++ 10 ∷ []) ≡ a ∷ b ∷ []
unfolding lines_of_read
cut_line stream size a b known one_line plain_a plain_b =
    let first : lines_of_read (header stream size ++ a) ≡ a ∷ [] =
      ap clean_lines (
        split_whole (header stream size ++ a)
          (All-append _ (header stream size) a one_line (plain-IsLine a plain_a)))
      ∙ kept in
    let second : lines_of_read (b ++ 10 ∷ []) ≡ b ∷ [] =
      ap clean_lines (split-line b [] (plain-IsLine b plain_b))
      ∙ plain-kept b (split []) plain_b
      ∙ ap (b ∷◌) rest in
    rw (first, second) refl
  where
    kept : clean_lines ((header stream size ++ a) ∷ []) ≡ a ∷ []
    kept =
        line-kept stream size a [] known (plain_ne a plain_a)
        ∙ ap (a ∷◌) (unfold clean_lines in refl)

    rest : clean_lines (split []) ≡ []
    rest = unfold clean_lines split in refl

-- The bytes of a header before the last one.
abbrev pub upper : ℕ → ℕ → Text
upper stream size =
    stream ∷ 0 ∷ 0 ∷ 0 ∷ size / 16777216 % 256 ∷ size / 65536 % 256 ∷ size / 256 % 256 ∷ []

broken_header :
    (stream : ℕ) (line : Text)
    → suc (length line) % 256 ≡ 10
    → frame stream line ≡ upper stream (suc (length line)) ++ 10 ∷ (line ++ 10 ∷ [])
broken_header stream line e = ap (λ n. upper stream (suc (length line)) ++ n ∷ (line ++ 10 ∷ [])) e

short-kept :
    (stream size : ℕ) (lines : List Text)
    → clean_lines (upper stream size ∷ lines) ≡ upper stream size ∷ clean_lines lines
unfolding clean_lines strip_docker_log_header
short-kept stream size lines = refl

-- A frame whose payload has a size of 10 modulo 256 is sent as two lines, the first of which is
-- the seven bytes of its header before the last, if none of those is a line break.
pub header_with_break :
    (stream : ℕ) (line : Text)
    → IsLine (upper stream (suc (length line)))
    → suc (length line) % 256 ≡ 10
    → IsPlain line
    → lines_of_read (frame stream line) ≡ upper stream (suc (length line)) ∷ line ∷ []
unfolding lines_of_read
header_with_break stream line piece e plain =
    let top = upper stream (suc (length line)) in
    ap (λ t. clean_lines (split t)) (broken_header stream line e)
    ∙ ap clean_lines (split-line top (line ++ 10 ∷ []) piece)
    ∙ short-kept stream (suc (length line)) (split (line ++ 10 ∷ []))
    ∙ ap (λ ls. top ∷ clean_lines ls) (split-line line [] (plain-IsLine line plain))
    ∙ ap (top ∷◌) (plain-kept line (split []) plain ∙ ap (line ∷◌) rest)
  where
    rest : clean_lines (split []) ≡ []
    rest = unfold clean_lines split in refl
