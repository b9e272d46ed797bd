-- ===== src/Format/Bytes.antt =====
-- Code: frontend/src/utils/format.ts.
-- The unit, the rounding and the printed number of `formatBytes`.
use vps_dashboard.Common.{
  ℕ, zero, suc, ◌+◌, ◌-◌, ◌*◌, ◌/◌, ◌^◌, ◌≤◌, ◌<◌, ◌≡◌, refl, ◌≢◌, ◌⊎◌, inl, inr, arith, Text,
  codes, decimal, value_from, value_from-decimal, value_from-snoc, decimal-digits, filter,
  filter-append, All, ◌==◌, [], ◌∷◌, ◌++◌, get_elem?, some, ap, ap₂, ◌∙◌, not,
}
use native.Mathlib.Nat.{pow-suc, pow-succ', div-div-eq-div-mul}
use vps_dashboard.Format.{
  units, unit_index, rounded, last_digits, fixed, unit_text, shown_decimals, format_bytes,
}

-- The unit is the largest of the five that is not more than the size.
pub record IsUnitOf (n i : ℕ) : Type 0 where
  pub listed : i ≤ 4
  pub fits : 1024 ^ i ≤ n
  pub largest : i < 4 → n < 1024 ^ suc i

unit_index-cases :
    (n : ℕ)
    → n ≢ 0
    → ((unit_index n ≡ 0) × (n < 1024))
      ⊎ ((unit_index n ≡ 1) × (1024 ≤ n) × (n < 1048576))
      ⊎ ((unit_index n ≡ 2) × (1048576 ≤ n) × (n < 1073741824))
      ⊎ ((unit_index n ≡ 3) × (1073741824 ≤ n) × (n < 1099511627776))
      ⊎ ((unit_index n ≡ 4) × (1099511627776 ≤ n))
unfolding unit_index
unit_index-cases n h = ground arith

pub unit_index-IsUnitOf : (n : ℕ) → n ≢ 0 → IsUnitOf n (unit_index n)
unit_index-IsUnitOf n h = elim (unit_index-cases n h) [
  | inl c ↦ rw c.0 (omega arith)
  | inr (inl c) ↦ rw c.0 (omega arith)
  | inr (inr (inl c)) ↦ rw c.0 (omega arith)
  | inr (inr (inr (inl c))) ↦ rw c.0 (omega arith)
  | inr (inr (inr (inr c))) ↦ rw c.0 (omega arith)
]

-- The rounded number is within half a step of the quotient, and a half goes up.
pub rounded_bounds :
    (a b d : ℕ)
    → 0 < b
    → (2 * (rounded a b d * b) ≤ 2 * (a * 10 ^ d) + b)
      × (2 * (a * 10 ^ d) < 2 * (rounded a b d * b) + b)
unfolding rounded
rounded_bounds a b d h = grind arith

-- The number that a printed text denotes once its point is taken out.
abbrev pub without_point : Text → Text
without_point = filter (λ c. not (c == b'.'))

abbrev Pointless : Text → Type 0
Pointless s = without_point s ≡ s

Pointless-append : (s t : Text) → Pointless s → Pointless t → Pointless (s ++ t)
Pointless-append s t h k = filter-append _ s t ∙ ap₂ ◌++◌ h k

Pointless-last_digits : (d n : ℕ) → Pointless (last_digits d n)
unfolding last_digits
Pointless-last_digits zero n = refl
Pointless-last_digits (suc d) n =
    Pointless-append (last_digits d (n / 10)) _ (Pointless-last_digits d (n / 10)) (ground arith)

Pointless-digits : (s : Text) → All (λ c. b'0' ≤ c) s → Pointless s
Pointless-digits [] h = refl
Pointless-digits (c ∷ s) h = ground (arith, Pointless-digits s h.1)

Pointless-decimal : (n : ℕ) → Pointless (decimal n)
Pointless-decimal n = Pointless-digits (decimal n) (decimal-digits n)

value_from-last_digits : (d n : ℕ) → value_from (n / 10 ^ d) (last_digits d n) ≡ n
unfolding last_digits value_from
value_from-last_digits zero n = omega arith
value_from-last_digits (suc d) n =
    rw
      (
        value_from-snoc,
        pow-succ',
        ← div-div-eq-div-mul n 10 (10 ^ d),
        value_from-last_digits d (n / 10),
      )
      (omega arith)

value_from-append :
    (acc : ℕ) (s t : Text) → value_from acc (s ++ t) ≡ value_from (value_from acc s) t
unfolding value_from
value_from-append acc [] t = refl
value_from-append acc (c ∷ s) t = value_from-append (acc * 10 + (c - b'0')) s t

fixed-suc : (n d : ℕ) → fixed n (suc d) ≡ decimal (n / 10 ^ suc d) ++ b'.' ∷ last_digits (suc d) n
unfolding fixed
fixed-suc n d = ground arith

fixed_zero : (n : ℕ) → fixed n 0 ≡ decimal n
unfolding fixed
fixed_zero n = refl

without_point-fixed :
    (n d : ℕ) → without_point (fixed n (suc d)) ≡ decimal (n / 10 ^ suc d) ++ last_digits (suc d) n
without_point-fixed n d = rw fixed-suc (
    filter-append _ (decimal (n / 10 ^ suc d)) _
    ∙ ap₂ ◌++◌ (Pointless-decimal (n / 10 ^ suc d)) (Pointless-last_digits (suc d) n))

-- The printed text of `fixed`, read without its point, is the number.
pub value_from-fixed : (n d : ℕ) → value_from 0 (without_point (fixed n d)) ≡ n
value_from-fixed n zero = rw (fixed_zero, Pointless-decimal) (value_from-decimal n)
value_from-fixed n (suc d) =
    rw (without_point-fixed, value_from-append, value_from-decimal)
      (value_from-last_digits (suc d) n)

-- What a shown size says: a number with `decimals` digits after the point, none for plain bytes,
-- and the unit that suits the size.
pub record Shows (bytes decimals : ℕ) (shown : Text) : Type 0 where
  pub index : ℕ
  pub number : Text
  pub unit : Text
  pub suits : IsUnitOf bytes index
  pub named : get_elem? units index ≡ some unit
  pub text : shown ≡ number ++ b' ' ∷ unit
  pub not_above :
      2 * (value_from 0 (without_point number) * 1024 ^ index)
      ≤ 2 * (bytes * 10 ^ shown_decimals index decimals) + 1024 ^ index
  pub not_below :
      2 * (bytes * 10 ^ shown_decimals index decimals)
      < 2 * (value_from 0 (without_point number) * 1024 ^ index) + 1024 ^ index

unit_of : (i : ℕ) → i ≤ 4 → (u : Text) × (get_elem? units i ≡ some u)
unit_of zero h = (codes "B", refl)
unit_of (suc zero) h = (codes "KB", refl)
unit_of (suc (suc zero)) h = (codes "MB", refl)
unit_of (suc (suc (suc zero))) h = (codes "GB", refl)
unit_of (suc (suc (suc (suc zero)))) h = (codes "TB", refl)
unit_of (suc (suc (suc (suc (suc i))))) h = absurd (omega arith)

format_bytes-parts :
    (bytes decimals : ℕ)
    → bytes ≢ 0
    → format_bytes bytes decimals
      ≡ fixed
          (rounded bytes (1024 ^ unit_index bytes) (shown_decimals (unit_index bytes) decimals))
          (shown_decimals (unit_index bytes) decimals)
        ++ b' ' ∷ unit_text (get_elem? units (unit_index bytes))
unfolding format_bytes
format_bytes-parts bytes decimals h = ground arith

pow-pos : (i : ℕ) → 0 < 1024 ^ i
pow-pos zero = omega arith
pow-pos (suc i) = rw pow-suc (omega (arith, pow-pos i))

-- `formatBytes` of a positive size names the largest unit that is at most the size (terabytes at
-- most), and shows the quotient rounded to the nearest digit, halves upwards.
pub format_bytes-Shows :
    (bytes decimals : ℕ) → bytes ≢ 0 → Shows bytes decimals (format_bytes bytes decimals)
format_bytes-Shows bytes decimals h =
    let i = unit_index bytes in
    let d = shown_decimals i decimals in
    let suits = unit_index-IsUnitOf bytes h in
    let (u, named) = unit_of i suits.listed in
    let (above, below) = rounded_bounds bytes (1024 ^ i) d (pow-pos i) in
    record {
      index = i;
      number = fixed (rounded bytes (1024 ^ i) d) d;
      unit = u;
      suits = suits;
      named = named;
      text =
          format_bytes-parts bytes decimals h
          ∙ ap (λ o. fixed (rounded bytes (1024 ^ i) d) d ++ b' ' ∷ unit_text o) named;
      not_above = rw value_from-fixed above;
      not_below = rw value_from-fixed below;
    }

kilobytes : (bytes : ℕ) → 1024 ≤ bytes → bytes < 1048576 → unit_index bytes ≡ 1
unfolding unit_index
kilobytes bytes h k = ground arith

tenths : (bytes : ℕ) → 1048525 ≤ bytes → bytes < 1048576 → rounded bytes (1024 ^ 1) 1 ≡ 10240
unfolding rounded
tenths bytes h k = omega arith

shown : fixed 10240 1 ++ b' ' ∷ codes "KB" ≡ codes "1024.0 KB"
unfolding fixed decimal
shown = refl

-- Just below a unit the rounding reaches 1024: sizes from 1048525 to 1048575 bytes are all shown
-- as "1024.0 KB", and not as "1.0 MB".
pub format_bytes_carry :
    (bytes : ℕ) → 1048525 ≤ bytes → bytes < 1048576 → format_bytes bytes 1 ≡ codes "1024.0 KB"
format_bytes_carry bytes h k =
    let e : unit_index bytes ≡ 1 = kilobytes bytes (omega arith) k in
    format_bytes-parts bytes 1 (omega arith) ∙ rw e (rw (tenths bytes h k) shown)
