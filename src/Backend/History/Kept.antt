-- ===== src/Backend/History/Kept.antt =====
-- Code: internal/host/history.go.
-- The samples that Record keeps.
use mathlib.Core.List.{append-nil, append_assoc}
use vps_dashboard.Common.{
  ℕ, zero, suc, ◌-◌, ◌≤◌, ◌≡◌, refl, sym, ap, ◌∙◌, arith, true, false, List, [], ◌∷◌, ◌++◌, map,
  length, leb, ltb, if◌then◌else◌, All, All-append, All-mono, Bool-cases, inl, inr, drop, take_last,
  length-take_last, filter-All, subst,
}
use vps_dashboard.Backend.History.{
  Sample, History, drop_old, capped, record_sample, recorded, in_range,
}
use vps_dashboard.Backend.History.Spaced.{IsApart}

module _ {Num : Type 0} where
  capped-eq : (n : ℕ) (ss : List (Sample Num)) → capped n ss ≡ take_last n ss
  capped-eq n ss = elim (Bool-cases (ltb n (length ss))) [
    | inl over ↦ rw over refl
    | inr within ↦ let none_left : length ss - n ≡ 0 = ground arith in rw (within, none_left) refl
  ]

  drop_old-eq :
      (cutoff : ℕ) (ss : List (Sample Num)) → IsApart 0 ss → drop_old cutoff ss ≡ in_range cutoff ss
  unfolding drop_old
  drop_old-eq cutoff [] h = refl
  drop_old-eq cutoff (s ∷ ss) h = elim (Bool-cases (ltb s.timestamp cutoff)) [
    | inl old ↦
        let left : leb cutoff s.timestamp ≡ false = ground arith in
        rw (old, left) (drop_old-eq cutoff ss h.1)
    | inr new ↦
        let kept : leb cutoff s.timestamp ≡ true = ground arith in
        rw (new, kept)
          (ap (s ∷◌) (
            sym (
              filter-All (λ t. leb cutoff t.timestamp) ss
                (All-mono _ (λ t. leb cutoff t.timestamp ≡ true) (λ t k. ground arith) ss h.0))))
  ]

  -- If the samples and the new one are in the order of their times, Record keeps exactly the
  -- last ones, as many as the buffer may hold, of those that are not older than the retention,
  -- and never more than the buffer may hold.
  pub record_sample-eq :
      (now : ℕ) (s : Sample Num) (h : History Num)
      → IsApart 0 (h.samples ++ s ∷ [])
      → ((record_sample now s h).samples
          ≡ take_last h.max_len (in_range (now - h.retain) (h.samples ++ s ∷ [])))
        × (length (record_sample now s h).samples ≤ h.max_len)
  unfolding record_sample
  record_sample-eq now s h ordered =
      let all = h.samples ++ s ∷ [] in
      let kept = drop_old (now - h.retain) all in
      (
        capped-eq h.max_len kept
            ∙ ap (take_last h.max_len) (drop_old-eq (now - h.retain) all ordered),
        omega (arith, ap length (capped-eq h.max_len kept), length-take_last h.max_len kept),
      )

  length-record_sample :
      (now : ℕ) (s : Sample Num) (h : History Num)
      → length (record_sample now s h).samples ≤ (record_sample now s h).max_len
  unfolding record_sample
  length-record_sample now s h =
      let kept = drop_old (now - h.retain) (h.samples ++ s ∷ []) in
      omega (arith, ap length (capped-eq h.max_len kept), length-take_last h.max_len kept)

  IsApart-drop_old :
      (d cutoff : ℕ) (ss ts : List (Sample Num))
      → IsApart d (ss ++ ts)
      → IsApart d (drop_old cutoff ss ++ ts)
  unfolding drop_old
  IsApart-drop_old d cutoff [] ts h = h
  IsApart-drop_old d cutoff (s ∷ ss) ts h =
      elim (ltb s.timestamp cutoff)
        as (λ c. IsApart d ((if c then drop_old cutoff ss else s ∷ ss) ++ ts)) [
          | true ↦ IsApart-drop_old d cutoff ss ts h.1
          | false ↦ h
        ]

  IsApart-drop_front :
      (d n : ℕ) (ss ts : List (Sample Num)) → IsApart d (ss ++ ts) → IsApart d (drop n ss ++ ts)
  IsApart-drop_front d zero ss ts h = h
  IsApart-drop_front d (suc n) [] ts h = h
  IsApart-drop_front d (suc n) (s ∷ ss) ts h = IsApart-drop_front d n ss ts h.1

  pub recorded-IsApart :
      (d : ℕ) (ticks : List (ℕ × Sample Num)) (h : History Num)
      → IsApart d (h.samples ++ map (λ t. t.1) ticks)
      → IsApart d (recorded h ticks).samples
  unfolding recorded record_sample
  recorded-IsApart d [] h apart = subst (IsApart d) (append-nil h.samples) apart
  recorded-IsApart d ((now, s) ∷ ticks) h apart =
      let later = map (λ t. t.1) ticks in
      let all = h.samples ++ s ∷ [] in
      let kept = drop_old (now - h.retain) all in
      recorded-IsApart d ticks (record_sample now s h) (
        rw (capped-eq h.max_len kept) (
          IsApart-drop_front d (length kept - h.max_len) kept later
            (IsApart-drop_old d (now - h.retain) all later (rw (append_assoc) apart))))

  All-drop_old :
      (P : Sample Num → Type 0) (cutoff : ℕ) (ss : List (Sample Num))
      → All P ss
      → All P (drop_old cutoff ss)
  unfolding drop_old
  All-drop_old P cutoff [] h = h
  All-drop_old P cutoff (s ∷ ss) h =
      elim (ltb s.timestamp cutoff) as (λ c. All P (if c then drop_old cutoff ss else s ∷ ss)) [
        | true ↦ All-drop_old P cutoff ss h.1
        | false ↦ h
      ]

  pub All-drop :
      (P : Sample Num → Type 0) (n : ℕ) (ss : List (Sample Num)) → All P ss → All P (drop n ss)
  All-drop P zero ss h = h
  All-drop P (suc n) [] h = h
  All-drop P (suc n) (s ∷ ss) h = All-drop P n ss h.1

  pub record_sample-All :
      (P : Sample Num → Type 0) (now : ℕ) (s : Sample Num) (h : History Num)
      → All P h.samples
      → P s
      → All P (record_sample now s h).samples
  unfolding record_sample
  record_sample-All P now s h all p =
      let kept = drop_old (now - h.retain) (h.samples ++ s ∷ []) in
      rw (capped-eq h.max_len kept) (
        All-drop P (length kept - h.max_len) kept (
          All-drop_old P (now - h.retain) (h.samples ++ s ∷ [])
            (All-append P h.samples (s ∷ []) all (p, tt))))

  -- What holds of every sample that is recorded holds of those kept, and they are not too many.
  pub recorded-All :
      (P : Sample Num → Type 0) (ticks : List (ℕ × Sample Num)) (h : History Num)
      → All P h.samples
      → length h.samples ≤ h.max_len
      → All (λ t. P t.1) ticks
      → All P (recorded h ticks).samples × (length (recorded h ticks).samples ≤ h.max_len)
  unfolding recorded
  recorded-All P [] h all few new = (all, few)
  recorded-All P ((now, s) ∷ ticks) h all few new =
      recorded-All P ticks (record_sample now s h) (record_sample-All P now s h all new.0)
        (length-record_sample now s h) new.1
