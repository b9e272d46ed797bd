-- ===== src/Common/Filters.antt =====
-- The array methods that take a test: `filter`, `find`, `some`, `includes`.
use Prim.Native.Nat.{ℕ, zero, suc, ◌≤◌}
use Prim.Native.String.{String}
use mathlib.Core.Path.{◌≡◌, refl, ap, subst}
use mathlib.Core.Bool.{Bool, true, false, ◌&&◌, ◌||◌}
use mathlib.Core.Logic.{inl, inr}
use mathlib.Core.Option.{Option, none, some}
use mathlib.Core.List.{List, [], ◌∷◌, ◌++◌, map, Sublistᴰ}
use native.Mathlib.Omega.{arith}
use text.Mathlib.TextEquality.{eq_iff}
use vps_dashboard.Common.Tests.{◌===◌, if◌then◌else◌, Bool-cases}
use vps_dashboard.Common.Lists.{length, take}

module _ {ℓ} {A : Type ℓ} where
  abbrev pub filter : (A → Bool) → List A → List A
  filter p [] = []
  filter p (x ∷ xs) = let rest = filter p xs in if p x then x ∷ rest else rest

  abbrev pub find : (A → Bool) → List A → Option A
  find p [] = none
  find p (x ∷ xs) = let rest = find p xs in if p x then some x else rest

  -- the method `some`
  abbrev pub any : (A → Bool) → List A → Bool
  any p [] = false
  any p (x ∷ xs) = p x || any p xs

  abbrev pub All {κ} : (A → Type κ) → List A → Type κ
  All P [] = Unit
  All P (x ∷ xs) = P x × All P xs

  pub All-append {κ} : (P : A → Type κ) (xs ys : List A) → All P xs → All P ys → All P (xs ++ ys)
  All-append P [] ys h k = k
  All-append P (x ∷ xs) ys h k = (h.0, All-append P xs ys h.1 k)

  pub filter-append :
      (p : A → Bool) (xs ys : List A) → filter p (xs ++ ys) ≡ filter p xs ++ filter p ys
  filter-append p [] ys = refl
  filter-append p (x ∷ xs) ys = ground (arith, filter-append p xs ys)

  pub length-filter-le : (p : A → Bool) (xs : List A) → length (filter p xs) ≤ length xs
  length-filter-le p [] = omega arith
  length-filter-le p (x ∷ xs) = ground (arith, length-filter-le p xs)

  pub All-filter : (p : A → Bool) (xs : List A) → All (λ x. p x ≡ true) (filter p xs)
  All-filter p [] = tt
  All-filter p (x ∷ xs) = ground (arith, All-filter p xs)

  pub All-filter_mono {κ} :
      (P : A → Type κ) (p : A → Bool) (xs : List A) → All P xs → All P (filter p xs)
  All-filter_mono P p [] h = h
  All-filter_mono P p (x ∷ xs) h = elim (Bool-cases (p x)) [
    | inl kept ↦ rw kept (h.0, All-filter_mono P p xs h.1)
    | inr dropped ↦ rw dropped (All-filter_mono P p xs h.1)
  ]

  pub All-mono {κ μ} :
      (P : A → Type κ) (Q : A → Type μ)
      → ((x : A) → P x → Q x)
      → (xs : List A) → All P xs
      → All Q xs
  All-mono P Q f [] h = tt
  All-mono P Q f (x ∷ xs) h = (f x h.0, All-mono P Q f xs h.1)

  pub filter_idempotent : (p : A → Bool) (xs : List A) → filter p (filter p xs) ≡ filter p xs
  filter_idempotent p [] = refl
  filter_idempotent p (x ∷ xs) = ground (arith, filter_idempotent p xs)

  -- A filter that every element passes changes nothing.
  pub filter-All : (p : A → Bool) (xs : List A) → All (λ x. p x ≡ true) xs → filter p xs ≡ xs
  filter-All p [] h = refl
  filter-All p (x ∷ xs) h = ground (arith, filter-All p xs h.1)

  pub find-eq-some : (p : A → Bool) (xs : List A) (a : A) → find p xs ≡ some a → p a ≡ true
  find-eq-some p [] a h = cc
  find-eq-some p (x ∷ xs) a h = ground (arith, find-eq-some p xs a)

  pub All-find {κ} :
      (P : A → Type κ) (p : A → Bool) (xs : List A) (a : A) → find p xs ≡ some a → All P xs → P a
  All-find P p [] a h all = cc
  All-find P p (x ∷ xs) a h all = elim (Bool-cases (p x)) [
    | inl hit ↦ let e : x ≡ a = ground arith in subst P e all.0
    | inr miss ↦ All-find P p xs a (ground arith) all.1
  ]

  pub any-append : (p : A → Bool) (xs ys : List A) → any p (xs ++ ys) ≡ (any p xs || any p ys)
  any-append p [] ys = refl
  any-append p (x ∷ xs) ys = ground (arith, any-append p xs ys)

module _ {ℓ κ} {A : Type ℓ} {B : Type κ} (f : A → B) (p : B → Bool) where
  pub map-filter : (xs : List A) → map f (filter (λ x. p (f x)) xs) ≡ filter p (map f xs)
  map-filter [] = refl
  map-filter (x ∷ xs) = ground (arith, map-filter xs)

  pub any-map : (xs : List A) → any (λ x. p (f x)) xs ≡ any p (map f xs)
  any-map [] = refl
  any-map (x ∷ xs) = ap (p (f x) ||◌) (any-map xs)

module _ {ℓ} {A : Type ℓ} where
  -- A filter keeps the order.
  pub filter-Sublistᴰ : (p : A → Bool) (xs : List A) → Sublistᴰ (filter p xs) xs
  filter-Sublistᴰ p [] = Sublistᴰ.slnil
  filter-Sublistᴰ p (x ∷ xs) = keep (p x) (filter-Sublistᴰ p xs)
    where
      keep :
          (b : Bool)
          → Sublistᴰ (filter p xs) xs
          → Sublistᴰ (if b then x ∷ filter p xs else filter p xs) (x ∷ xs)
      keep true s = Sublistᴰ.cons-cons refl s
      keep false s = Sublistᴰ.cons s

  nil-Sublistᴰ : (xs : List A) → Sublistᴰ [] xs
  nil-Sublistᴰ [] = Sublistᴰ.slnil
  nil-Sublistᴰ (x ∷ xs) = Sublistᴰ.cons (nil-Sublistᴰ xs)

  pub take-Sublistᴰ : (n : ℕ) (xs : List A) → Sublistᴰ (take n xs) xs
  take-Sublistᴰ zero xs = nil-Sublistᴰ xs
  take-Sublistᴰ (suc n) [] = Sublistᴰ.slnil
  take-Sublistᴰ (suc n) (x ∷ xs) = Sublistᴰ.cons-cons refl (take-Sublistᴰ n xs)

pub map-Sublistᴰ {ℓ κ} :
    {A : Type ℓ} {B : Type κ} (f : A → B) {xs ys : List A}
    → Sublistᴰ xs ys
    → Sublistᴰ (map f xs) (map f ys)
map-Sublistᴰ f Sublistᴰ.slnil = Sublistᴰ.slnil
map-Sublistᴰ f (Sublistᴰ.cons s) = Sublistᴰ.cons (map-Sublistᴰ f s)
map-Sublistᴰ f (Sublistᴰ.cons-cons e s) = Sublistᴰ.cons-cons (ap f e) (map-Sublistᴰ f s)

abbrev pub includes : List String → String → Bool
includes xs a = any (λ x. x === a) xs

pub includes-filter :
    (p : String → Bool) (xs : List String) (a : String)
    → includes (filter p xs) a ≡ (includes xs a && p a)
includes-filter p [] a = refl
includes-filter p (x ∷ xs) a = elim (Bool-cases (x === a)) [
  | inl same ↦ let e : x ≡ a = (eq_iff x a).0 same in ground (arith, includes-filter p xs a)
  | inr other ↦ ground (arith, includes-filter p xs a)
]

-- No text stands twice in the list.
abbrev pub Distinct : List String → Type 0
Distinct [] = Unit
Distinct (x ∷ xs) = (includes xs x ≡ false) × Distinct xs

pub Distinct-filter : (p : String → Bool) (xs : List String) → Distinct xs → Distinct (filter p xs)
Distinct-filter p [] h = tt
Distinct-filter p (x ∷ xs) h = ground (arith, Distinct-filter p xs, includes-filter p xs x)

pub Distinct-concat :
    (xs : List String) (a : String) → includes xs a ≡ false → Distinct xs → Distinct (xs ++ a ∷ [])
Distinct-concat [] a h d = (refl, tt)
Distinct-concat (x ∷ xs) a h d =
    ground
      (arith, Distinct-concat xs a, any-append (λ y. y === x) xs (a ∷ []), eq_iff x a, eq_iff a x)
