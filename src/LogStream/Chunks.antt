-- ===== src/LogStream/Chunks.antt =====
-- Code: frontend/src/hooks/useLogStream.ts.
-- How the response is cut into chunks makes no difference.
use vps_dashboard.Common.{
  ℕ, ◌≡◌, refl, sym, subst, ap, ◌∙◌, arith, Bool, true, false, ◌&&◌, List, [], ◌∷◌, ◌++◌, Text,
  ◌==◌, if◌then◌else◌, Bool-cases, inl, inr, List-cases,
}
use mathlib.Core.List.{append-nil, append_assoc}
use vps_dashboard.LogStream.{
  Pieces, push, part_ended, split_events, split_lines, raws_of_lines, raws_of_parts, read_all,
}

-- The pieces of a text that goes on: `more` splits what follows the last separator.
abbrev pub continued : Pieces → Pieces → Pieces
continued p more = record { parts = p.parts ++ more.parts; rest = more.rest }

abbrev is_break : ℕ → ℕ → Bool
is_break c d = c == 10 && d == 10

split_events-break :
    (c d : ℕ) (s : Text)
    → is_break c d ≡ true
    → split_events (c ∷ d ∷ s) ≡ part_ended (split_events s)
unfolding split_events
split_events-break c d s h =
    ap (λ b. if b then part_ended (split_events s) else push c (split_events (d ∷ s))) h

split_events-longer :
    (c d : ℕ) (s : Text)
    → is_break c d ≡ false
    → split_events (c ∷ d ∷ s) ≡ push c (split_events (d ∷ s))
unfolding split_events
split_events-longer c d s h =
    ap (λ b. if b then part_ended (split_events s) else push c (split_events (d ∷ s))) h

push-whole :
    (c : ℕ) (p : Pieces) → (push c p).parts ≡ [] → (p.parts ≡ []) × ((push c p).rest ≡ c ∷ p.rest)
push-whole c p h = ground arith

push-continued :
    (c : ℕ) (p q : Pieces) (first : Text) (more : List Text)
    → p.parts ≡ first ∷ more
    → (push c (continued p q) ≡ continued (push c p) q) × ((push c p).rest ≡ p.rest)
push-continued c p q first more h = ground arith

push-empty : (c : ℕ) (p : Pieces) → p.parts ≡ [] → (push c p).parts ≡ []
push-empty c p h = ground arith

-- A text without a separator is its own rest.
split_events_whole : (s : Text) → (split_events s).parts ≡ [] → (split_events s).rest ≡ s
split_events_whole [] h = unfold split_events in refl
split_events_whole (c ∷ []) h = unfold split_events in refl
split_events_whole (c ∷ d ∷ s) h = elim (Bool-cases (is_break c d)) [
  | inl b ↦
      let e : (part_ended (split_events s)).parts ≡ [] =
        subst (λ p. p.parts ≡ []) (split_events-break c d s b) h in
      cc
  | inr l ↦
      let e = split_events-longer c d s l in
      let (none_yet, whole) = push-whole c (split_events (d ∷ s)) (subst (λ p. p.parts ≡ []) e h) in
      ap (λ p. p.rest) e ∙ whole ∙ ap (c ∷◌) (split_events_whole (d ∷ s) none_yet)
]

split_events-append_whole :
    (s t : Text)
    → (split_events s).parts ≡ []
    → split_events (s ++ t) ≡ continued (split_events s) (split_events ((split_events s).rest ++ t))
split_events-append_whole s t h = rw (split_events_whole s h) (rw h)

-- Splitting a longer text goes on from the rest of the shorter one.
pub split_events-append :
    (s t : Text)
    → split_events (s ++ t) ≡ continued (split_events s) (split_events ((split_events s).rest ++ t))
split_events-append [] t = split_events-append_whole [] t (unfold split_events in refl)
split_events-append (c ∷ []) t = split_events-append_whole (c ∷ []) t (unfold split_events in refl)
split_events-append (c ∷ d ∷ s) t = elim (Bool-cases (is_break c d)) [
  | inl b ↦
      rw (split_events-break c d s b, split_events-break c d (s ++ t) b)
        (ap part_ended (split_events-append s t))
  | inr l ↦ elim (List-cases (split_events (d ∷ s)).parts) [
    | inl empty ↦ split_events-append_whole (c ∷ d ∷ s) t (
        ap (λ p. p.parts) (split_events-longer c d s l) ∙ push-empty c (split_events (d ∷ s)) empty)
    | inr (first, more, e) ↦
        let p = split_events (d ∷ s) in
        let (joined, same) = push-continued c p (split_events (p.rest ++ t)) first more e in
        rw (split_events-longer c d (s ++ t) l, split_events-longer c d s l, same)
          (ap (push c) (split_events-append (d ∷ s) t) ∙ joined)
  ]
]

raws_of_parts-append :
    (ps qs : List Text) → raws_of_parts (ps ++ qs) ≡ raws_of_parts ps ++ raws_of_parts qs
unfolding raws_of_parts
raws_of_parts-append [] qs = refl
raws_of_parts-append (p ∷ ps) qs =
    ap (raws_of_lines (split_lines p) ++◌) (raws_of_parts-append ps qs)
    ∙ sym (append_assoc (raws_of_lines (split_lines p)) (raws_of_parts ps) (raws_of_parts qs))

abbrev pub joined : List Text → Text
joined [] = []
joined (chunk ∷ chunks) = chunk ++ joined chunks

-- The payloads of a text, all at once.
abbrev pub payloads : Text → List Text
payloads s = raws_of_parts (split_events s).parts

payloads-append :
    (s t : Text) → payloads (s ++ t) ≡ payloads s ++ payloads ((split_events s).rest ++ t)
payloads-append s t =
    ap (λ p. raws_of_parts p.parts) (split_events-append s t)
    ∙ raws_of_parts-append (split_events s).parts (split_events ((split_events s).rest ++ t)).parts

payloads-joined :
    (buffer : Text) (chunks : List Text)
    → payloads (buffer ++ joined chunks)
      ≡ payloads buffer ++ read_all (split_events buffer).rest chunks
unfolding read_all
payloads-joined buffer [] = ap payloads (append-nil buffer) ∙ sym (append-nil (payloads buffer))
payloads-joined buffer (chunk ∷ chunks) =
    let rest = (split_events buffer).rest in
    payloads-append buffer (chunk ++ joined chunks)
    ∙ ap (payloads buffer ++◌) (
        ap payloads (sym (append_assoc rest chunk (joined chunks)))
        ∙ payloads-joined (rest ++ chunk) chunks)

-- The payloads that the loop finds are those of the whole response, however it is cut into chunks.
pub read_all-eq-payloads : (chunks : List Text) → read_all [] chunks ≡ payloads (joined chunks)
read_all-eq-payloads chunks =
    sym (payloads-joined [] chunks ∙ unfold split_events raws_of_parts in refl)
