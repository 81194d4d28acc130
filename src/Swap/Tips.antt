-- ===== src/Swap/Tips.antt =====
-- The part of the profit that is paid as a tip (crates/types/swap/src/tips.rs), in ten thousandths.
pub mod Value
use kabu.Base.{ℕ, ◌-◌, ◌*◌, ◌/◌, ◌%◌, ◌^◌, ◌≤◌, List, [], ◌∷◌, arith, ltb, if◌then◌else◌}
use kabu.Types.{u256_mod}

-- `SLOPES`, without the first point, which is `START_PCT` at zero.
abbrev slopes : List (ℕ × ℕ)
slopes = (10 ^ 19, 7000) ∷ (10 ^ 19 * 5, 5000) ∷ []

-- The loop of `tips_pct_advanced`: the point where the current slope starts, and those that follow.
pub follow_slopes : ℕ → ℕ → ℕ → List (ℕ × ℕ) → ℕ
follow_slopes profit start_point start_pct [] = start_pct
follow_slopes profit start_point start_pct ((x, y) ∷ points) =
    if ltb profit x
    then start_pct - (start_pct - y) * (profit - start_point) % u256_mod / (x - start_point)
    else follow_slopes profit x y points

pub tips_pct_advanced : ℕ → ℕ
unfolding follow_slopes
tips_pct_advanced profit = follow_slopes profit 0 9900 slopes

-- The percentage of the tips, in ten thousandths and before a random part is taken off it, never grows
-- with the profit, and lies between 5000 and 9900.
pub tips_pct_advanced-antitone :
    (profit more : ℕ)
    → profit ≤ more
    → (tips_pct_advanced more ≤ tips_pct_advanced profit)
      × (tips_pct_advanced profit ≤ 9900)
      × (5000 ≤ tips_pct_advanced more)
unfolding tips_pct_advanced
tips_pct_advanced-antitone profit more h = (ground arith, ground arith, ground arith)
