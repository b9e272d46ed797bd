-- ===== src/Crosswatch/Unique.antt =====
-- Code: frontend/src/hooks/useCrosswatch.ts.
-- The movies without repetitions.
use mathlib.Core.List.{Sublistᴰ, append_assoc, append-nil}
use vps_dashboard.Common.{
  ℕ, ◌≡◌, ◌≢◌, refl, sym, ◌∙◌, subst, arith, Bool, true, false, not, ◌&&◌, ◌||◌, List, [], ◌∷◌,
  ◌++◌, map, ◌==◌, if◌then◌else◌, Bool-cases, inl, inr,
}
use vps_dashboard.Types.{TraktMovie, TraktWatchedMovie}
use vps_dashboard.Crosswatch.{id_of, has, unseen, all_trakt_movies, unique_from}

-- No id stands twice, and none of them is in `seen` or 0.
abbrev pub IsFresh : List ℕ → List TraktMovie → Type 0
IsFresh seen [] = Unit
IsFresh seen (m ∷ ms) = (id_of m ≢ 0) × (has seen (id_of m) ≡ false) × IsFresh (id_of m ∷ seen) ms

pub unseen-IsFresh : (seen : List ℕ) (ms : List TraktMovie) → IsFresh seen (unseen seen ms)
unfolding unseen
unseen-IsFresh seen [] = tt
unseen-IsFresh seen (m ∷ ms) =
    ground (arith, unseen-IsFresh seen ms, unseen-IsFresh (id_of m ∷ seen) ms)

-- The ids kept are those of the list but 0 and those seen before.
pub has-unseen :
    (seen : List ℕ) (ms : List TraktMovie) (x : ℕ)
    → has (map id_of (unseen seen ms)) x
      ≡ (has (map id_of ms) x && (not (x == 0) && not (has seen x)))
unfolding unseen
has-unseen seen [] x = refl
has-unseen seen (m ∷ ms) x = elim (Bool-cases (id_of m == x)) [
  | inl same ↦
      let e : id_of m ≡ x = ground arith in
      subst
        (λ y.
          has (map id_of (unseen seen (m ∷ ms))) y
          ≡ (has (map id_of (m ∷ ms)) y && (not (y == 0) && not (has seen y))))
        e (ground (arith, has-unseen seen ms (id_of m), has-unseen (id_of m ∷ seen) ms (id_of m)))
  | inr other ↦ ground (arith, has-unseen seen ms x, has-unseen (id_of m ∷ seen) ms x)
]

pub unseen-Sublistᴰ : (seen : List ℕ) (ms : List TraktMovie) → Sublistᴰ (unseen seen ms) ms
unfolding unseen
unseen-Sublistᴰ seen [] = Sublistᴰ.slnil
unseen-Sublistᴰ seen (m ∷ ms) =
    choose (id_of m == 0 || has seen (id_of m)) (unseen-Sublistᴰ seen ms)
      (unseen-Sublistᴰ (id_of m ∷ seen) ms)
  where
    choose :
        (b : Bool) {xs ys : List TraktMovie}
        → Sublistᴰ xs ms
        → Sublistᴰ ys ms
        → Sublistᴰ (if b then xs else m ∷ ys) (m ∷ ms)
    choose true s t = Sublistᴰ.cons s
    choose false s t = Sublistᴰ.cons-cons refl t

-- The ids are proper and no id stands twice.
abbrev pub IsUnique : List ℕ → Type 0
IsUnique [] = Unit
IsUnique (x ∷ xs) = (x ≢ 0) × (has xs x ≡ false) × IsUnique xs

absent :
    (seen : List ℕ) (ms : List TraktMovie) (x : ℕ)
    → has seen x ≡ true
    → IsFresh seen ms
    → has (map id_of ms) x ≡ false
absent seen [] x h fresh = refl
absent seen (m ∷ ms) x h (proper, new, rest) = elim (Bool-cases (id_of m == x)) [
  | inl same ↦ let e : id_of m ≡ x = ground arith in cc (subst (λ y. has seen y ≡ false) e new, h)
  | inr other ↦ ground (arith, absent (id_of m ∷ seen) ms x (ground arith) rest)
]

pub ids-IsUnique :
    (seen : List ℕ) (ms : List TraktMovie) → IsFresh seen ms → IsUnique (map id_of ms)
ids-IsUnique seen [] fresh = tt
ids-IsUnique seen (m ∷ ms) (proper, new, rest) = (
  proper,
  absent (id_of m ∷ seen) ms (id_of m) (ground arith) rest,
  ids-IsUnique (id_of m ∷ seen) ms rest,
)

-- The movies to complete are a selection, in order, of the watchlist followed by the watched
-- movies, and every id of those but 0 stands among them exactly once.
pub all_trakt_movies_lem :
    (wl : List TraktMovie) (ws : List TraktWatchedMovie)
    → Sublistᴰ (all_trakt_movies wl ws) (wl ++ map (λ w. w.movie) ws)
      × IsUnique (map id_of (all_trakt_movies wl ws))
      × ((x : ℕ)
          → has (map id_of (all_trakt_movies wl ws)) x
            ≡ (has (map id_of (wl ++ map (λ w. w.movie) ws)) x && not (x == 0)))
unfolding all_trakt_movies
all_trakt_movies_lem wl ws =
    let all = wl ++ map (λ w. w.movie) ws in
    (
      unseen-Sublistᴰ [] all,
      ids-IsUnique [] (unseen [] all) (unseen-IsFresh [] all),
      (λ x. has-unseen [] all x ∙ ground arith),
    )

has-concat :
    (unique : List TraktMovie) (m : TraktMovie) (x : ℕ)
    → has (map id_of (unique ++ m ∷ [])) x ≡ (has (map id_of unique) x || (id_of m == x))
has-concat [] m x = ground arith
has-concat (u ∷ unique) m x = ground (arith, has-concat unique m x)

unique_from-eq :
    (seen : List ℕ) (unique ms : List TraktMovie)
    → ((x : ℕ) → has seen x ≡ has (map id_of unique) x)
    → unique_from unique ms ≡ unique ++ unseen seen ms
unfolding unique_from unseen
unique_from-eq seen unique [] same = sym (append-nil unique)
unique_from-eq seen unique (m ∷ ms) same = elim (Bool-cases (id_of m == 0 || has seen (id_of m))) [
  | inl skip ↦ ground (arith, same (id_of m), unique_from-eq seen unique ms same)
  | inr keep ↦
      let same' : (x : ℕ) → has (id_of m ∷ seen) x ≡ has (map id_of (unique ++ m ∷ [])) x =
        λ x. ground (arith, same x, has-concat unique m x) in
      ground (
        arith,
        same (id_of m),
        unique_from-eq (id_of m ∷ seen) (unique ++ m ∷ []) ms same',
        append_assoc unique (m ∷ []) (unseen (id_of m ∷ seen) ms),
      )
]

-- The two ways to drop repetitions, the filter with a set and the map that keeps the first movie of
-- an id, give the same movies in the same order.
pub unique_from-eq-unseen : (ms : List TraktMovie) → unique_from [] ms ≡ unseen [] ms
unique_from-eq-unseen ms = unique_from-eq [] [] ms (λ x. refl)
