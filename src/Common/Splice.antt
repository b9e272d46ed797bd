-- ===== src/Common/Splice.antt =====
-- The two uses of `splice`: taking one element out, and putting one in.
use Prim.Native.Nat.{ℕ, zero, suc, ◌≤◌, ◌<◌}
use Prim.Native.String.{String}
use mathlib.Core.Path.{◌≡◌, refl, ap, subst}
use mathlib.Core.Bool.{true, false, ◌||◌}
use mathlib.Core.Option.{some}
use mathlib.Core.List.{List, [], ◌∷◌, map, Perm}
use mathlib.Core.List.Perm
use native.Mathlib.Omega.{arith}
use text.Mathlib.TextEquality.{eq_iff}
use vps_dashboard.Common.Lists.{length, get_elem?}
use vps_dashboard.Common.Filters.{includes, Distinct, All}
use vps_dashboard.Common.Tests.{◌===◌}

module _ {ℓ} {A : Type ℓ} where
  -- `xs.splice(at, 0, item)`: an index past the end means the end.
  abbrev pub insert_at : List A → ℕ → A → List A
  insert_at xs zero item = item ∷ xs
  insert_at [] (suc at) item = item ∷ []
  insert_at (first ∷ xs) (suc at) item = first ∷ insert_at xs at item

  -- What `xs.splice(at, 1)` leaves.
  abbrev pub erase_idx : List A → ℕ → List A
  erase_idx [] at = []
  erase_idx (first ∷ xs) zero = xs
  erase_idx (first ∷ xs) (suc at) = first ∷ erase_idx xs at

  pub get_elem?-eq-some_of_lt :
      (xs : List A) (at : ℕ) → at < length xs → (first : A) × (get_elem? xs at ≡ some first)
  get_elem?-eq-some_of_lt [] at h = elim h [ ]
  get_elem?-eq-some_of_lt (first ∷ xs) zero h = (first, refl)
  get_elem?-eq-some_of_lt (first ∷ xs) (suc at) h = get_elem?-eq-some_of_lt xs at (omega arith)

  pub lt-length_of_get_elem? :
      (xs : List A) (at : ℕ) (first : A) → get_elem? xs at ≡ some first → at < length xs
  lt-length_of_get_elem? [] at first h = cc
  lt-length_of_get_elem? (item ∷ xs) zero first h = omega arith
  lt-length_of_get_elem? (item ∷ xs) (suc at) first h =
      omega (arith, lt-length_of_get_elem? xs at first h)

  pub length-insert_at :
      (xs : List A) (at : ℕ) (item : A) → length (insert_at xs at item) ≡ suc (length xs)
  length-insert_at xs zero item = refl
  length-insert_at [] (suc at) item = refl
  length-insert_at (first ∷ xs) (suc at) item = ap suc (length-insert_at xs at item)

  pub length-erase_idx :
      (xs : List A) (at : ℕ) → at < length xs → suc (length (erase_idx xs at)) ≡ length xs
  length-erase_idx [] at h = elim h [ ]
  length-erase_idx (first ∷ xs) zero h = refl
  length-erase_idx (first ∷ xs) (suc at) h = ap suc (length-erase_idx xs at (omega arith))

  pub get_elem?-insert_at :
      (xs : List A) (at : ℕ) (item : A)
      → at ≤ length xs
      → get_elem? (insert_at xs at item) at ≡ some item
  get_elem?-insert_at xs zero item h = refl
  get_elem?-insert_at [] (suc at) item h = absurd (omega arith)
  get_elem?-insert_at (first ∷ xs) (suc at) item h = get_elem?-insert_at xs at item (omega arith)

  pub erase_idx-insert_at :
      (xs : List A) (at : ℕ) (item : A) → at ≤ length xs → erase_idx (insert_at xs at item) at ≡ xs
  erase_idx-insert_at xs zero item h = refl
  erase_idx-insert_at [] (suc at) item h = absurd (omega arith)
  erase_idx-insert_at (first ∷ xs) (suc at) item h =
      ap (first ∷◌) (erase_idx-insert_at xs at item (omega arith))

  pub insert_at-erase_idx :
      (xs : List A) (at : ℕ) (item : A)
      → get_elem? xs at ≡ some item
      → insert_at (erase_idx xs at) at item ≡ xs
  insert_at-erase_idx [] at item h = cc
  insert_at-erase_idx (first ∷ xs) zero item h = cc
  insert_at-erase_idx (first ∷ xs) (suc at) item h = cc (insert_at-erase_idx xs at item h)

  insert_at-perm : (xs : List A) (at : ℕ) (item : A) → Perm (item ∷ xs) (insert_at xs at item)
  insert_at-perm xs zero item = Perm.refl (item ∷ xs)
  insert_at-perm [] (suc at) item = Perm.refl (item ∷ [])
  insert_at-perm (first ∷ xs) (suc at) item =
      Perm.trans (Perm.swap first item xs) (Perm.cons first (insert_at-perm xs at item))

  -- Taking an element out and putting it in elsewhere permutes the array.
  pub splice-perm :
      (xs : List A) (at j : ℕ) (item : A)
      → get_elem? xs at ≡ some item
      → Perm xs (insert_at (erase_idx xs at) j item)
  splice-perm xs at j item h =
      Perm.trans
        (subst (λ l. Perm l (item ∷ erase_idx xs at)) (insert_at-erase_idx xs at item h)
          (Perm.symm (insert_at-perm (erase_idx xs at) at item)))
        (insert_at-perm (erase_idx xs at) j item)

module _ {ℓ κ} {A : Type ℓ} {B : Type κ} (f : A → B) where
  pub map-insert_at :
      (xs : List A) (at : ℕ) (item : A)
      → map f (insert_at xs at item) ≡ insert_at (map f xs) at (f item)
  map-insert_at xs zero item = refl
  map-insert_at [] (suc at) item = refl
  map-insert_at (first ∷ xs) (suc at) item = ap (f first ∷◌) (map-insert_at xs at item)

  pub map-erase_idx : (xs : List A) (at : ℕ) → map f (erase_idx xs at) ≡ erase_idx (map f xs) at
  map-erase_idx [] at = refl
  map-erase_idx (first ∷ xs) zero = refl
  map-erase_idx (first ∷ xs) (suc at) = ap (f first ∷◌) (map-erase_idx xs at)

  pub get_elem?-map :
      (xs : List A) (at : ℕ) (first : A)
      → get_elem? xs at ≡ some first
      → get_elem? (map f xs) at ≡ some (f first)
  get_elem?-map [] at first h = cc
  get_elem?-map (item ∷ xs) zero first h = cc
  get_elem?-map (item ∷ xs) (suc at) first h = get_elem?-map xs at first h

module _ {ℓ κ} {A : Type ℓ} (P : A → Type κ) where
  All-insert_at : (xs : List A) (i : ℕ) (y : A) → P y → All P xs → All P (insert_at xs i y)
  All-insert_at xs zero y p h = (p, h)
  All-insert_at [] (suc i) y p h = (p, tt)
  All-insert_at (x ∷ xs) (suc i) y p h = (h.0, All-insert_at xs i y p h.1)

  All-erase_idx : (xs : List A) (i : ℕ) → All P xs → All P (erase_idx xs i)
  All-erase_idx [] i h = h
  All-erase_idx (x ∷ xs) zero h = h.1
  All-erase_idx (x ∷ xs) (suc i) h = (h.0, All-erase_idx xs i h.1)

  pub All-get_elem? : (xs : List A) (i : ℕ) (x : A) → get_elem? xs i ≡ some x → All P xs → P x
  All-get_elem? [] i x h a = cc
  All-get_elem? (y ∷ xs) zero x h a = subst P (cc) a.0
  All-get_elem? (y ∷ xs) (suc i) x h a = All-get_elem? xs i x h a.1

  pub All-splice :
      (xs : List A) (i j : ℕ) (x : A)
      → get_elem? xs i ≡ some x
      → All P xs
      → All P (insert_at (erase_idx xs i) j x)
  All-splice xs i j x h a =
      All-insert_at (erase_idx xs i) j x (All-get_elem? xs i x h a) (All-erase_idx xs i a)

includes-insert_at :
    (xs : List String) (i : ℕ) (a b : String)
    → includes (insert_at xs i a) b ≡ ((a === b) || includes xs b)
includes-insert_at xs zero a b = refl
includes-insert_at [] (suc i) a b = refl
includes-insert_at (x ∷ xs) (suc i) a b = ground (arith, includes-insert_at xs i a b)

Distinct-insert_at :
    (xs : List String) (i : ℕ) (a : String)
    → includes xs a ≡ false
    → Distinct xs
    → Distinct (insert_at xs i a)
Distinct-insert_at xs zero a h d = (h, d)
Distinct-insert_at [] (suc i) a h d = (refl, tt)
Distinct-insert_at (x ∷ xs) (suc i) a h d =
    ground (arith, includes-insert_at xs i a x, Distinct-insert_at xs i a, eq_iff x a, eq_iff a x)

includes-erase_idx :
    (xs : List String) (i : ℕ) (a b : String)
    → get_elem? xs i ≡ some a
    → includes xs b ≡ ((a === b) || includes (erase_idx xs i) b)
includes-erase_idx [] i a b h = cc
includes-erase_idx (x ∷ xs) zero a b h = ground arith
includes-erase_idx (x ∷ xs) (suc i) a b h = ground (arith, includes-erase_idx xs i a b)

Distinct-erase_idx :
    (xs : List String) (i : ℕ) (a : String)
    → get_elem? xs i ≡ some a
    → Distinct xs
    → Distinct (erase_idx xs i) × (includes (erase_idx xs i) a ≡ false)
Distinct-erase_idx [] i a h d = cc
Distinct-erase_idx (x ∷ xs) zero a h d = ground arith
Distinct-erase_idx (x ∷ xs) (suc i) a h d = ground (
  arith,
  Distinct-erase_idx xs i a,
  includes-erase_idx xs i a x,
  includes-erase_idx xs i a a,
  eq_iff x a,
  eq_iff a x,
  eq_iff a a,
)

pub includes_of_get_elem? :
    (xs : List String) (i : ℕ) (a : String) → get_elem? xs i ≡ some a → includes xs a ≡ true
includes_of_get_elem? [] i a h = cc
includes_of_get_elem? (x ∷ xs) zero a h = ground (arith, eq_iff x a)
includes_of_get_elem? (x ∷ xs) (suc i) a h = ground (arith, includes_of_get_elem? xs i a)

-- Moving an element keeps the texts of a list distinct, and the same.
pub Distinct-splice :
    (xs : List String) (i j : ℕ) (a : String)
    → get_elem? xs i ≡ some a
    → Distinct xs
    → Distinct (insert_at (erase_idx xs i) j a)
Distinct-splice xs i j a h d =
    let (rest, new) = Distinct-erase_idx xs i a h d in
    Distinct-insert_at (erase_idx xs i) j a new rest
