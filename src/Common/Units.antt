-- ===== src/Common/Units.antt =====
-- Text that the program walks is a list of UTF-16 code units, as JavaScript has it; the native
-- `String` stands where whole texts are only compared or handed on.
use Prim.Native.Nat.{ℕ, ◌+◌, ◌-◌, ◌*◌, ◌/◌, ◌%◌, ◌≤◌, ◌<◌, suc, zero}
use mathlib.Core.Path.{◌≡◌, refl}
use mathlib.Core.Logic.{inl, inr}
use Prim.Native.Char.{code}
use Prim.Native.String.{String}
use mathlib.Core.Bool.{Bool, true, false}
use mathlib.Core.List.{List, [], ◌∷◌, ◌++◌}
use native.Mathlib.Omega.{arith}
use vps_dashboard.Common.Tests.{ltb, if◌then◌else◌, Bool-cases}
use vps_dashboard.Common.Filters.{All, All-append}

abbrev pub Text : Type 0
Text = List ℕ

-- The code units of a literal from the basic plane.
abbrev pub codes : String → Text
codes String.[] = []
codes (String.◌∷◌ c s) = code c ∷ codes s

-- The decimal digits of a number, as `String(n)` and a template literal write it.
decimal_fuel : ℕ → ℕ → Text
decimal_fuel zero n = []
decimal_fuel (suc f) n =
    let rest = decimal_fuel f (n / 10) in
    if ltb n 10 then (n + b'0') ∷ [] else rest ++ (n % 10 + b'0') ∷ []

unfoldable pub decimal : ℕ → Text
unfolding decimal_fuel
decimal n = decimal_fuel (suc n) n

decimal_test : decimal 1024 ≡ codes "1024"
unfolding decimal
decimal_test = refl

-- `text.length` is 0: the empty text is falsy.
abbrev pub is_empty {ℓ} : {A : Type ℓ} → List A → Bool
is_empty [] = true
is_empty (c ∷ s) = false

-- The value that decimal digits denote, most significant digit first.
unfoldable pub value_from : ℕ → Text → ℕ
value_from acc [] = acc
value_from acc (c ∷ s) = value_from (acc * 10 + (c - b'0')) s

pub value_from-snoc :
    (acc c : ℕ) (s : Text) → value_from acc (s ++ c ∷ []) ≡ value_from acc s * 10 + (c - b'0')
unfolding value_from
value_from-snoc acc c [] = refl
value_from-snoc acc c (d ∷ s) = value_from-snoc (acc * 10 + (d - b'0')) c s

value_from-decimal_fuel : (f n : ℕ) → n < f → value_from 0 (decimal_fuel f n) ≡ n
unfolding decimal_fuel value_from
value_from-decimal_fuel zero n h = elim h [ ]
value_from-decimal_fuel (suc f) n h = elim (Bool-cases (ltb n 10)) [
  | inl small ↦ rw small (omega arith)
  | inr large ↦
      rw (large, value_from-snoc, value_from-decimal_fuel f (n / 10) (ground arith)) (omega arith)
]

-- Reading the printed digits gives the number back.
pub value_from-decimal : (n : ℕ) → value_from 0 (decimal n) ≡ n
unfolding decimal
value_from-decimal n = value_from-decimal_fuel (suc n) n (omega arith)

decimal_fuel-digits : (f n : ℕ) → All (λ c. b'0' ≤ c) (decimal_fuel f n)
unfolding decimal_fuel
decimal_fuel-digits zero n = tt
decimal_fuel-digits (suc f) n = elim (Bool-cases (ltb n 10)) [
  | inl small ↦ rw small (omega arith)
  | inr large ↦
      rw large
        (All-append _ (decimal_fuel f (n / 10)) _ (decimal_fuel-digits f (n / 10)) (omega arith))
]

-- Every printed unit is at least the digit 0.
pub decimal-digits : (n : ℕ) → All (λ c. b'0' ≤ c) (decimal n)
unfolding decimal
decimal-digits n = decimal_fuel-digits (suc n) n

decimal_fuel-top : (f n : ℕ) → All (λ c. c ≤ b'9') (decimal_fuel f n)
unfolding decimal_fuel
decimal_fuel-top zero n = tt
decimal_fuel-top (suc f) n = elim (Bool-cases (ltb n 10)) [
  | inl small ↦ rw small ((ground arith), tt)
  | inr large ↦
      rw large
        (All-append _ (decimal_fuel f (n / 10)) _ (decimal_fuel-top f (n / 10)) (omega arith))
]

-- Every printed unit is at most the digit 9.
pub decimal-top : (n : ℕ) → All (λ c. c ≤ b'9') (decimal n)
unfolding decimal
decimal-top n = decimal_fuel-top (suc n) n
