-- ===== src/Containers/Stats.antt =====
-- Code: frontend/src/components/ContainerList.tsx.
-- Which statistics a row shows.
use vps_dashboard.Common.{
  ◌≡◌, refl, sym, subst, arith, String, true, List, [], ◌∷◌, find, eq_iff, length, ◌===◌, Text,
  codes, All, Bool-cases, inl, inr,
}
use vps_dashboard.Types.{ContainerStats}
use vps_dashboard.Format.{text_eq}
use vps_dashboard.Containers.{starts_with, stats_match, find_stats}

starts_with-eq-text_eq : (s p : Text) → length s ≡ length p → starts_with s p ≡ text_eq s p
starts_with-eq-text_eq [] [] h = refl
starts_with-eq-text_eq [] (d ∷ p) h = ground arith
starts_with-eq-text_eq (c ∷ s) [] h = ground arith
starts_with-eq-text_eq (c ∷ s) (d ∷ p) h = ground (arith, starts_with-eq-text_eq s p (omega arith))

text_eq_sym : (s t : Text) → text_eq s t ≡ text_eq t s
text_eq_sym [] [] = refl
text_eq_sym [] (d ∷ t) = refl
text_eq_sym (c ∷ s) [] = refl
text_eq_sym (c ∷ s) (d ∷ t) = ground (arith, text_eq_sym s t)

text_eq_refl : (s : Text) → text_eq s s ≡ true
text_eq_refl [] = refl
text_eq_refl (c ∷ s) = ground (arith, text_eq_refl s)

module _ {Num : Type 0} where
  stats_match-eq :
      (id : String) (s : ContainerStats Num)
      → length (codes s.id) ≡ length (codes id)
      → stats_match id s ≡ text_eq (codes s.id) (codes id)
  stats_match-eq id s h = elim (Bool-cases (s.id === id)) [
    | inl same ↦
        let e : s.id ≡ id = (eq_iff s.id id).0 same in
        rw same
          (sym (subst (λ x. text_eq (codes s.id) (codes x) ≡ true) e (text_eq_refl (codes s.id))))
    | inr other ↦ rw other (
        ground (
          arith,
          starts_with-eq-text_eq (codes id) (codes s.id) (sym h),
          starts_with-eq-text_eq (codes s.id) (codes id) h,
          text_eq_sym (codes s.id) (codes id),
        ))
  ]

  -- If all ids have as many code units as the one looked for, the search by a common beginning
  -- is the search for the same id.
  pub find_stats-same_length :
      (stats : List (ContainerStats Num)) (id : String)
      → All (λ s. length (codes s.id) ≡ length (codes id)) stats
      → find_stats stats id ≡ find (λ s. text_eq (codes s.id) (codes id)) stats
  unfolding find_stats
  find_stats-same_length [] id h = refl
  find_stats-same_length (s ∷ stats) id h =
      ground (arith, stats_match-eq id s h.0, find_stats-same_length stats id h.1)
