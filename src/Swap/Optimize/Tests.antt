-- ===== src/Swap/Optimize/Tests.antt =====
-- A search in which a smaller amount than the first is the best.
use kabu.Base.{refl, some, [], ◌∷◌}
use kabu.Swap.{SwapLine, set, calculate_with_in_amount, calculate_loop}
use kabu.Swap.Samples.{line}
use kabu.Swap.Optimize.{optimize_with_in_amount}
use kabu.Swap.Optimize.Kept.{IsCalculated, optimize-IsCalculated}

abbrev found : SwapLine
found = record line {
  amount_in = set 30;
  amount_out = set 5000;
  gas_used = some 14;
  calculation_results =
      record { amount_in = 30; amount_out = 900 }
      ∷ record { amount_in = 900; amount_out = 5000 }
      ∷ [];
}

optimize_example : IsCalculated line.path found
unfolding optimize_with_in_amount calculate_with_in_amount calculate_loop
optimize_example = optimize-IsCalculated line found 400 refl
