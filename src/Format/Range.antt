-- ===== src/Format/Range.antt =====
-- Code: frontend/src/utils/format.ts.
-- Clamping, shortening and the colour of a container's state.
use vps_dashboard.Common.{
  ℕ, ◌-◌, ◌≤◌, ◌<◌, ◌≡◌, arith, Text, true, [], ◌∷◌, ◌++◌, length, take, length-append, length-take,
}
use vps_dashboard.Common.Number.{Number}
use vps_dashboard.Format.{clamp, short_name}

module _ (num : Number) where
  open num use {N, le, le_total, le_trans, le_antisym}

  -- `clamp` stays within its bounds, and returns a value that is within them as it is, provided
  -- that the lower bound is at most the upper.
  pub clamp_bounds :
      (value lo hi : N)
      → le lo hi ≡ true
      → (le lo (clamp num value lo hi) ≡ true)
        × (le (clamp num value lo hi) hi ≡ true)
        × (le lo value ≡ true → le value hi ≡ true → clamp num value lo hi ≡ value)
  unfolding clamp
  clamp_bounds value lo hi h = ground (
    arith,
    le_total lo value,
    le_total hi value,
    le_total lo hi,
    le_total hi hi,
    le_total lo lo,
    le_antisym hi value,
    le_antisym lo value,
    le_antisym lo hi,
  )

-- A shortened name has at most `max` code units, and a name that fits is shown whole; a longer one
-- keeps its first `max - 1` units and ends in an ellipsis.
pub short_name_lem :
    (name : Text) (max : ℕ)
    → 0 < max
    → (length (short_name name max) ≤ max)
      × (length name ≤ max → short_name name max ≡ name)
      × (max < length name → short_name name max ≡ take (max - 1) name ++ 0x2026 ∷ [])
unfolding short_name
short_name_lem name max h =
    ground (arith, length-append (take (max - 1) name) (0x2026 ∷ []), length-take (max - 1) name)
