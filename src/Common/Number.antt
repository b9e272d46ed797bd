-- ===== src/Common/Number.antt =====
-- The JavaScript numbers that the dashboard only compares, clamps and prints (percentages and the
-- coordinates read from JSON): any total order that holds the integers. `JSON.parse` yields no NaN,
-- so `<` is total on them. The integers of the program (times, sizes, ids, counts) are native
-- numbers and do not go through this interface.
use vps_dashboard.Common.{ℕ, ◌≡◌, ◌⊎◌, Bool, true, arith, leb, Text, decimal, refl}

pub record Number : Type 1 where
  pub N : Type 0
  pub le : N → N → Bool
  pub of_ℕ : ℕ → N
  pub to_fixed : N → ℕ → Text
  pub le_total : (a b : N) → (le a b ≡ true) ⊎ (le b a ≡ true)
  pub le_trans : (a b c : N) → le a b ≡ true → le b c ≡ true → le a c ≡ true
  pub le_antisym : (a b : N) → le a b ≡ true → le b a ≡ true → a ≡ b
  pub le-of_ℕ : (m n : ℕ) → le (of_ℕ m) (of_ℕ n) ≡ leb m n

pub nat_total : (a b : ℕ) → (leb a b ≡ true) ⊎ (leb b a ≡ true)
nat_total a b = ground arith

pub nat_trans : (a b c : ℕ) → leb a b ≡ true → leb b c ≡ true → leb a c ≡ true
nat_trans a b c h k = ground arith

pub nat_antisym : (a b : ℕ) → leb a b ≡ true → leb b a ≡ true → a ≡ b
nat_antisym a b h k = ground arith

-- Whole numbers meet the interface.
abbrev pub whole : Number
whole = record {
  N = ℕ;
  le = leb;
  of_ℕ = λ n. n;
  to_fixed = λ n d. decimal n;
  le_total = nat_total;
  le_trans = nat_trans;
  le_antisym = nat_antisym;
  le-of_ℕ = λ m n. refl;
}
