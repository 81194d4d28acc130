-- ===== src/Market/Paths/Membership.antt =====
-- The membership test on lists of identifiers.
use kabu.Base.{ℕ, ◌≡◌, ◌||◌, List, [], ◌∷◌, ◌++◌, arith, ◌==◌}
use kabu.Market.Paths.{mem}

pub mem-append : (i : ℕ) (xs : List ℕ) (j : ℕ) → mem i (xs ++ j ∷ []) ≡ (mem i xs || j == i)
mem-append i [] j = ground arith
mem-append i (x ∷ xs) j = ground (arith, mem-append i xs j)
