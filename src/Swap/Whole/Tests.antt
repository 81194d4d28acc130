-- ===== src/Swap/Whole/Tests.antt =====
-- The steps of a line.
use kabu.Base.{◌≡◌, refl, some, arith}
use kabu.Swap.{SwapLine, set}
use kabu.Swap.Samples.{line}
use kabu.Swap.Step.{SwapStep}
use kabu.Swap.Whole.{
  backrun_swap_steps, backrun_swap_line, get_pools_vec, to_swap_steps, arb_profit,
}
use kabu.Swap.Whole.Steps.{to_swap_steps-keeps}

abbrev paying : SwapLine
paying = record line { amount_in = set 400; amount_out = set 5000 }

steps_keep_example :
    (a : SwapStep) × (b : SwapStep) × (to_swap_steps (backrun_swap_line paying) 77
      ≡ some (some (a, b)))
    × (get_pools_vec (backrun_swap_steps a b) ≡ get_pools_vec (backrun_swap_line paying))
    × (arb_profit (backrun_swap_steps a b) ≡ arb_profit (backrun_swap_line paying))
steps_keep_example =
    to_swap_steps-keeps paying 77 refl (omega arith) (_, _, refl, refl, refl) (omega arith)
      (omega arith)
