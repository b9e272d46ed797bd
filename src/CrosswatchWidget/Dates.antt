-- ===== src/CrosswatchWidget/Dates.antt =====
-- Code: frontend/src/components/CrosswatchWidget.tsx.
-- The texts of a running time and of a date.
use Prim.Native.Nat.{◌/◌, ◌%◌}
use mathlib.Core.List.{append_assoc}
use vps_dashboard.Common.{
  ℕ, suc, ◌+◌, ◌-◌, ◌*◌, ◌≤◌, ◌<◌, ◌≡◌, refl, ap, ◌∙◌, arith, true, false, ◌||◌, Option, some, [],
  ◌∷◌, ◌++◌, ltb, leb, ◌==◌, if◌then◌else◌, Text, codes, decimal, value_from, value_from-decimal,
  Bool-cases, inl, inr, All, decimal-digits, decimal-top,
}
use vps_dashboard.CrosswatchWidget.{runtime_str, format_date, day_ms}

-- How a reader takes the text: `h` ends the hours, which count 60 minutes each, and a space counts
-- nothing.
abbrev minutes_from : ℕ → ℕ → Text → ℕ
minutes_from hours acc [] = hours * 60 + acc
minutes_from hours acc (c ∷ s) =
    let in_hours = minutes_from acc 0 s in
    let past = minutes_from hours acc s in
    let digit = minutes_from hours (acc * 10 + (c - b'0')) s in
    if c == b'h' then in_hours else if c == b' ' || c == b'm' then past else digit

unfoldable pub minutes_of : Text → ℕ
minutes_of s = minutes_from 0 0 s

minutes_from-digits :
    (hours acc : ℕ) (s t : Text)
    → All (λ c. b'0' ≤ c) s
    → All (λ c. c ≤ b'9') s
    → minutes_from hours acc (s ++ t) ≡ minutes_from hours (value_from acc s) t
unfolding value_from
minutes_from-digits hours acc [] t h k = refl
minutes_from-digits hours acc (c ∷ s) t h k =
    let ih = minutes_from-digits hours (acc * 10 + (c - b'0')) s t h.1 k.1 in
    let e : (c == b'h') ≡ false = ground (arith, k.0) in
    let f : (c == b' ') ≡ false = ground (arith, h.0) in
    let g : (c == b'm') ≡ false = ground (arith, k.0) in rw (e, f, g) ih

minutes_from-decimal :
    (hours n : ℕ) (t : Text) → minutes_from hours 0 (decimal n ++ t) ≡ minutes_from hours n t
minutes_from-decimal hours n t =
    minutes_from-digits hours 0 (decimal n) t (decimal-digits n) (decimal-top n)
    ∙ ap (λ acc. minutes_from hours acc t) (value_from-decimal n)

minutes_from-hours :
    (h m : ℕ) → minutes_from 0 0 (decimal h ++ codes "h " ++ decimal m ++ codes "m") ≡ h * 60 + m
minutes_from-hours h m =
    rw
      (
        append_assoc,
        append_assoc,
        minutes_from-decimal 0 h (codes "h " ++ (decimal m ++ codes "m")),
      )
      (minutes_from-decimal h m (codes "m"))

-- The text of a running time, read as hours of sixty minutes and minutes, gives the running time
-- back, the empty text for none included.
pub minutes_of-runtime_str : (min : ℕ) → minutes_of (runtime_str min) ≡ min
unfolding minutes_of runtime_str
minutes_of-runtime_str min = elim (Bool-cases (leb min 0)) [
  | inl over ↦ rw over (ground arith)
  | inr running ↦ elim (Bool-cases (ltb 0 (min / 60))) [
    | inl long ↦ rw (running, long) (minutes_from-hours (min / 60) (min % 60) ∙ omega arith)
    | inr short ↦ rw (running, short) (minutes_from-decimal 0 (min % 60) (codes "m") ∙ ground arith)
  ]
]

module _ (locale_date : Option ℕ → Text) (parse_date : Text → Option ℕ) where
  -- A date later than now, by k whole days and a part of another, is shown as a negative number
  -- of days.
  pub future_date :
      (now d k : ℕ) (c : ℕ) (s : Text)
      → parse_date (c ∷ s) ≡ some d
      → now + k * day_ms < d
      → d ≤ now + suc k * day_ms
      → format_date locale_date parse_date now (c ∷ s) ≡ b'-' ∷ decimal (suc k) ++ codes "d ago"
  unfolding format_date
  future_date now d k c s e lo hi =
      let late : leb d now ≡ false = ground arith in
      let count : (d - now - 1) / day_ms ≡ k = omega arith in rw (e, late, count) refl

  -- The last moment before a midnight is shown as today, until a millisecond before the next
  -- midnight.
  pub last_evening :
      (now midnight : ℕ) (c : ℕ) (s : Text)
      → 0 < midnight
      → midnight ≤ now
      → now + 1 < midnight + day_ms
      → parse_date (c ∷ s) ≡ some (midnight - 1)
      → format_date locale_date parse_date now (c ∷ s) ≡ codes "today"
  unfolding format_date
  last_evening now midnight c s positive lo hi e =
      let past : leb (midnight - 1) now ≡ true = ground arith in
      let count : (now - (midnight - 1)) / day_ms ≡ 0 = omega arith in rw (e, past, count) refl
