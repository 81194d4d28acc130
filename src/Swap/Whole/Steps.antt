-- ===== src/Swap/Whole/Steps.antt =====
-- The steps of a line that comes back to its first token.
use mathlib.Core.List.{append-nil}
use kabu.Base.{ℕ, ◌≤◌, ◌≡◌, ap, ◌∙◌, none, some, [], ◌∷◌, ◌++◌, arith, length}
use kabu.Swap.{SwapLine}
use kabu.Swap.Split.{IsLine}
use kabu.Swap.Step.{SwapStep}
use kabu.Swap.Step.Flash.{to_swap_steps-Parts}
use kabu.Swap.Step.Calculate.Single.{IsRound, Fits, arb_profit-one}
use kabu.Swap.Whole.{
  backrun_swap_steps, backrun_swap_line, get_pools_vec, to_swap_steps, arb_profit,
}

-- A line that comes back to its first token, with amounts that fit 256 bits where they are set, has
-- two steps, and these have its pools, in its order, and its profit.
pub to_swap_steps-keeps :
    (line : SwapLine) (multicaller : ℕ)
    → IsLine line.path
    → 1 ≤ length line.path.pools
    → IsRound line
    → Fits line.amount_in
    → Fits line.amount_out
    → (a : SwapStep) × (b : SwapStep) × (to_swap_steps (backrun_swap_line line) multicaller
        ≡ some (some (a, b)))
      × (get_pools_vec (backrun_swap_steps a b) ≡ get_pools_vec (backrun_swap_line line))
      × (arb_profit (backrun_swap_steps a b) ≡ arb_profit (backrun_swap_line line))
unfolding to_swap_steps get_pools_vec arb_profit
to_swap_steps-keeps line multicaller l h round fits_in fits_out =
    let (head, tail, e, (ps, _, x, y, _)) = to_swap_steps-Parts line multicaller l h in
    (
      record { swap_line_vec = head ∷ []; swap_to = multicaller; swap_from = none },
      record { swap_line_vec = tail ∷ []; swap_to = multicaller; swap_from = none },
      ground (arith, e),
      ap (λ rest. head.path.pools ++ rest) (append-nil tail.path.pools) ∙ ps,
      arb_profit-one multicaller line head tail round fits_in fits_out x y,
    )
