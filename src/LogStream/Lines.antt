-- ===== src/LogStream/Lines.antt =====
-- Code: frontend/src/hooks/useLogStream.ts.
-- The lines that the viewer shows: the last five hundred.
use vps_dashboard.Common.{
  ℕ, ◌+◌, ◌-◌, ◌≡◌, refl, sym, ap, ◌∙◌, arith, Bool, true, false, Option, none, some, List, [], ◌∷◌,
  ◌++◌, map, any, Text, ltb, length, take_last, drop, length-append, length-drop, drop-append,
  drop-drop, Bool-cases, Option-cases, inl, inr, All,
}
use mathlib.Core.List.{append_assoc, append-nil}
use vps_dashboard.LogStream.{
  Update, max_lines, append_line, run_update, render, queue_line, fails, read_all,
}
use vps_dashboard.LogStream.Events.{IsLine, event, read_all-events}
use vps_dashboard.LogStream.Chunks.{joined}

append_line-eq :
    (prev : List Text) (line : Text)
    → append_line prev line ≡ take_last max_lines (prev ++ line ∷ [])
unfolding append_line
append_line-eq prev line = elim (Bool-cases (ltb max_lines (length (prev ++ line ∷ [])))) [
  | inl over ↦ rw over
  | inr within ↦
      rw within
        (sym (ap (λ n. drop n (prev ++ line ∷ [])) (short (length (prev ++ line ∷ [])) within)))
]
  where
    short : (n : ℕ) → ltb max_lines n ≡ false → n - max_lines ≡ 0
    short n h = ground arith

-- Keeping the last lines in between makes no difference.
take_last-take_last-append {ℓ} :
    {A : Type ℓ} (n : ℕ) (xs ys : List A)
    → take_last n (take_last n xs ++ ys) ≡ take_last n (xs ++ ys)
take_last-take_last-append n xs ys =
    ap (take_last n) (sym (drop-append (length xs - n) xs ys (omega arith)))
    ∙ drop-drop (length (drop (length xs - n) (xs ++ ys)) - n) (length xs - n) (xs ++ ys)
    ∙ ap (λ k. drop k (xs ++ ys)) counted
  where
    counted : length xs - n + (length (drop (length xs - n) (xs ++ ys)) - n) ≡ length (xs ++ ys) - n
    counted = omega (arith, length-drop (length xs - n) (xs ++ ys), length-append xs ys)

take_last_idempotent {ℓ} :
    {A : Type ℓ} (n : ℕ) (xs : List A) → take_last n (take_last n xs) ≡ take_last n xs
take_last_idempotent n xs =
    ap (take_last n) (sym (append-nil (take_last n xs)))
    ∙ take_last-take_last-append n xs []
    ∙ ap (take_last n) (append-nil xs)

-- The lines of a view hold at most the last five hundred.
abbrev pub IsCapped : List Text → Type 0
IsCapped lines = take_last max_lines lines ≡ lines

append_line-IsCapped : (prev : List Text) (line : Text) → IsCapped (append_line prev line)
append_line-IsCapped prev line =
    rw append_line-eq (take_last_idempotent max_lines (prev ++ line ∷ []))

take_last-append_line :
    (prev : List Text) (line : Text) (lines : List Text)
    → take_last max_lines (append_line prev line ++ lines)
      ≡ take_last max_lines (prev ++ line ∷ lines)
take_last-append_line prev line lines =
    ap (λ l. take_last max_lines (l ++ lines)) (append_line-eq prev line)
    ∙ take_last-take_last-append max_lines (prev ++ line ∷ []) lines
    ∙ ap (take_last max_lines) (append_assoc prev (line ∷ []) lines)

module _ (json_parse : Text → Option Text) where
  -- `JSON.parse` reads each payload as the line beside it.
  abbrev pub Reads : List Text → List Text → Type 0
  Reads [] [] = Unit
  Reads (raw ∷ raws) (line ∷ lines) = (json_parse raw ≡ some line) × Reads raws lines
  Reads [] (line ∷ lines) = ⊥
  Reads (raw ∷ raws) [] = ⊥

  run_update-queue_line :
      (eager : Bool) (prev : List Text) (raw line : Text)
      → json_parse raw ≡ some line
      → run_update json_parse prev (queue_line json_parse eager raw) ≡ some (append_line prev line)
  unfolding queue_line run_update
  run_update-queue_line eager prev raw line h = ground arith

  render-cons :
      (prev next : List Text) (u : Update) (us : List Update)
      → run_update json_parse prev u ≡ some next
      → render json_parse prev (u ∷ us) ≡ render json_parse next us
  unfolding render
  render-cons prev next u us h = rw (h, render)

  -- While every payload is JSON, the lines shown are the last five hundred of those that were there
  -- and those that arrived, whether or not the setter runs its updater at once.
  pub render-Reads :
      (eager : Bool) (prev raws lines : List Text)
      → IsCapped prev
      → Reads raws lines
      → render json_parse prev (map (queue_line json_parse eager) raws)
        ≡ some (take_last max_lines (prev ++ lines))
  render-Reads eager prev [] [] capped h =
      unfold render in ap some (sym capped ∙ ap (take_last max_lines) (sym (append-nil prev)))
  render-Reads eager prev [] (line ∷ lines) capped h = absurd h
  render-Reads eager prev (raw ∷ raws) [] capped h = absurd h
  render-Reads eager prev (raw ∷ raws) (line ∷ lines) capped h =
      render-cons prev (append_line prev line) _ _ (run_update-queue_line eager prev raw line h.0)
      ∙ render-Reads eager (append_line prev line) raws lines (append_line-IsCapped prev line) h.1
      ∙ ap some (take_last-append_line prev line lines)

  -- From the server to the page: if the server writes one event for each line, as JSON without line
  -- breaks, then whatever the chunks of the response, the page shows the last five hundred lines.
  pub shown_lines :
      (eager : Bool) (raws lines chunks : List Text)
      → All IsLine raws
      → Reads raws lines
      → joined chunks ≡ joined (map event raws)
      → render json_parse [] (map (queue_line json_parse eager) (read_all [] chunks))
        ≡ some (take_last max_lines lines)
  shown_lines eager raws lines chunks one_line reads e =
      ap (λ rs. render json_parse [] (map (queue_line json_parse eager) rs))
        (read_all-events raws chunks one_line e)
      ∙ render-Reads eager [] raws lines refl reads

  -- Where updaters run while React renders, a payload that is no JSON among those queued makes
  -- the render fail, whatever the other payloads are.
  pub malformed_payload_fails :
      (raws : List Text) (prev : List Text)
      → any (λ raw. fails (json_parse raw)) raws ≡ true
      → render json_parse prev (map (queue_line json_parse false) raws) ≡ none
  unfolding render queue_line run_update
  malformed_payload_fails [] prev h = cc
  malformed_payload_fails (raw ∷ raws) prev h = elim (Option-cases (json_parse raw)) [
    | inl bad ↦ ground arith
    | inr (line, good) ↦
        render-cons prev (append_line prev line) (queue_line json_parse false raw)
          (map (queue_line json_parse false) raws) (run_update-queue_line false prev raw line good)
        ∙ malformed_payload_fails raws (append_line prev line) (ground arith)
  ]
