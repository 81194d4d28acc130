-- ===== src/Swap/Tests.antt =====
-- Calculations and splits of small lines.
use kabu.Base.{◌≤◌, ◌≡◌, refl, [], ◌∷◌, arith}
use kabu.Market.{new_token, new_path}
use kabu.Swap.{SwapLine, ok, split, calculate_with_in_amount, from_path}
use kabu.Swap.Samples.{pool, line}
use kabu.Swap.Split.{split-calculate}
use kabu.Swap.Tips.{tips_pct_advanced, tips_pct_advanced-antitone}

tips_example :
    (tips_pct_advanced 20000000000000000000 ≤ tips_pct_advanced 1000000000000000000)
    × (tips_pct_advanced 1000000000000000000 ≤ 9900)
    × (5000 ≤ tips_pct_advanced 20000000000000000000)
tips_example = tips_pct_advanced-antitone 1000000000000000000 20000000000000000000 (omega arith)

abbrev head : SwapLine
head = from_path (new_path (new_token 1 ∷ new_token 2 ∷ []) (pool 10 900 ∷ []))

abbrev tail : SwapLine
tail = from_path (new_path (new_token 2 ∷ new_token 1 ∷ []) (pool 11 5000 ∷ []))

calculate_example :
    calculate_with_in_amount line.path 400
    ≡ ok (
      5000,
      14,
      record { amount_in = 400; amount_out = 900 }
          ∷ record { amount_in = 900; amount_out = 5000 }
          ∷ [],
    )
unfolding split calculate_with_in_amount
calculate_example =
    split-calculate line head tail 1 400 900 5000 7 7
      (record { amount_in = 400; amount_out = 900 } ∷ [])
      (record { amount_in = 900; amount_out = 5000 } ∷ []) (omega arith) (omega arith) refl refl
      refl
