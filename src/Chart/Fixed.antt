-- ===== src/Chart/Fixed.antt =====
-- Numbers with thirty-two binary places, quotients and products rounded down: the arithmetic that the
-- charts of frontend/src/components/MetricsChart.tsx need can be had.
use Prim.Native.Nat.{◌/◌}
use native.Mathlib.Nat.{
  div-le_of_le-mul, mul-le-mul_right, mul-div_left, mul-div_right, zero-div, le-div_iff_mul-le,
  mul-div-le, div-mul-le_self, lt-mul-div-succ, mul-div-mul_right,
}
use vps_dashboard.Common.{ℕ, ◌+◌, ◌-◌, ◌*◌, ◌≤◌, ◌<◌, ◌≡◌, ap, ◌∙◌, arith, true, leb, decimal}
use vps_dashboard.Common.Number.{Number, nat_total, nat_trans, nat_antisym}
use vps_dashboard.Chart.{Plane}

from_leb : (a b : ℕ) → leb a b ≡ true → a ≤ b
from_leb a b h = ground arith

to_leb : (a b : ℕ) → a ≤ b → leb a b ≡ true
to_leb a b h = ground arith

pub leb-scaled : (m n : ℕ) → leb (m * 4294967296) (n * 4294967296) ≡ leb m n
leb-scaled m n = ground arith

abbrev pub fixed : Number
fixed = record {
  N = ℕ;
  le = leb;
  of_ℕ = λ n. n * 4294967296;
  to_fixed = λ n d. decimal (n / 4294967296);
  le_total = nat_total;
  le_trans = nat_trans;
  le_antisym = nat_antisym;
  le-of_ℕ = leb-scaled;
}

abbrev divided : ℕ → ℕ → ℕ
divided a b = a * 4294967296 / b

abbrev times : ℕ → ℕ → ℕ
times a b = a * b / 4294967296

div-le-div : (a b c : ℕ) → a ≤ b → 0 < c → a / c ≤ b / c
div-le-div a b c h pos = (le-div_iff_mul-le pos).1 (omega (arith, div-mul-le_self a c, h))

pub div_unit :
    (a b : ℕ)
    → leb 0 a ≡ true
    → leb a b ≡ true
    → leb 4294967296 b ≡ true
    → (leb 0 (divided a b) ≡ true) × (leb (divided a b) 4294967296 ≡ true)
div_unit a b h k l =
    let scaled = mul-le-mul_right 4294967296 (from_leb a b k) in
    (to_leb 0 _ (omega arith), to_leb _ 4294967296 (div-le_of_le-mul b scaled))

pub nonneg : (a : ℕ) → leb 0 a ≡ true
nonneg a = to_leb 0 a (omega arith)

pub mul_unit :
    (t h : ℕ)
    → leb 0 t ≡ true
    → leb t 4294967296 ≡ true
    → leb 0 h ≡ true
    → (leb 0 (times t h) ≡ true) × (leb (times t h) h ≡ true)
mul_unit t h a b c = (
  nonneg (times t h),
  to_leb _ h (div-le_of_le-mul 4294967296 (mul-le-mul_right h (from_leb t 4294967296 b))),
)

pub mul_mono : (s t h : ℕ) → leb s t ≡ true → leb 0 h ≡ true → leb (times s h) (times t h) ≡ true
mul_mono s t h k l =
    to_leb _ _
      (div-le-div (s * h) (t * h) 4294967296 (mul-le-mul_right h (from_leb s t k)) (omega arith))

pub div_mono :
    (a b c : ℕ) → leb a b ≡ true → leb 4294967296 c ≡ true → leb (divided a c) (divided b c) ≡ true
div_mono a b c k l = to_leb _ _ (
    div-le-div (a * 4294967296) (b * 4294967296) c (mul-le-mul_right 4294967296 (from_leb a b k))
      (omega (arith, from_leb 4294967296 c l)))

pub sub_anti : (h s t : ℕ) → leb s t ≡ true → leb (h - t) (h - s) ≡ true
sub_anti h s t k = ground arith

pub sub_within :
    (h t : ℕ) → leb 0 t ≡ true → leb t h ≡ true → (leb 0 (h - t) ≡ true) × (leb (h - t) h ≡ true)
sub_within h t a b = (to_leb 0 (h - t) (omega arith), to_leb (h - t) h (omega arith))

pub zero_div : (b : ℕ) → divided 0 b ≡ 0
zero_div b = zero-div b

pub self_div : (a : ℕ) → leb 4294967296 a ≡ true → divided a a ≡ 4294967296
self_div a h = mul-div_right 4294967296 (omega (arith, from_leb 4294967296 a h))

pub one_mul : (h : ℕ) → times 4294967296 h ≡ h
one_mul h = mul-div_right h (omega arith)

pub zero_mul : (h : ℕ) → times 0 h ≡ 0
zero_mul h = omega arith

-- The scale cancels in a quotient of whole numbers, and in a product with one.
quotient : (w k : ℕ) → divided (w * 4294967296) (k * 4294967296) ≡ w * 4294967296 / k
quotient w k = mul-div-mul_right (w * 4294967296) k (omega arith)

product : (k s : ℕ) → times (k * 4294967296) s ≡ k * s
product k s = ap (λ n. n / 4294967296) (grind arith) ∙ mul-div_left (k * s) (omega arith)

pub mul_div_near :
    (w k : ℕ)
    → w ≤ 4294967296
    → 1 ≤ k
    → k ≤ 4294967296
    → (leb
          ((w - 1) * 4294967296)
          (times (k * 4294967296) (divided (w * 4294967296) (k * 4294967296)))
        ≡ true)
      × (leb
            (times (k * 4294967296) (divided (w * 4294967296) (k * 4294967296)))
            ((w + 1) * 4294967296)
          ≡ true)
mul_div_near w k narrow one few =
    let same : times (k * 4294967296) (divided (w * 4294967296) (k * 4294967296))
        ≡ k * (w * 4294967296 / k) =
      product k _ ∙ ap (k *◌) (quotient w k) in
    let above = mul-div-le (w * 4294967296) k in
    let below : w * 4294967296 < k * (w * 4294967296 / k + 1) =
      lt-mul-div-succ (w * 4294967296) (omega (arith, one)) in
    let split : k * (w * 4294967296 / k + 1) ≡ k * (w * 4294967296 / k) + k = grind arith in
    (to_leb _ _ (omega (arith, same, below, split, few)), to_leb _ _ (omega (arith, same, above)))

abbrev pub binary : Plane fixed
binary = record {
  div = divided;
  mul = times;
  sub = λ a b. a - b;
  show = λ n. decimal (n / 4294967296);
  div_unit = div_unit;
  div_nonneg = λ a b h k. nonneg (divided a b);
  mul_unit = mul_unit;
  zero_mul = zero_mul;
  mul_mono = mul_mono;
  sub_within = sub_within;
  div_mono = div_mono;
  sub_anti = sub_anti;
  zero_div = λ b h. zero_div b;
  self_div = self_div;
  one_mul = one_mul;
  sub_zero = λ h. omega arith;
  sub_self = λ h. omega arith;
  mul_div_near = mul_div_near;
}
