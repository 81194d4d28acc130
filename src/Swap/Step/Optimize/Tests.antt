-- ===== src/Swap/Step/Optimize/Tests.antt =====
-- A search that pays more turn by turn, until the second pool gives no more.
use kabu.Base.{ℕ, ◌+◌, ◌*◌, ◌/◌, refl, true, none, some, [], ◌∷◌, leb, if◌then◌else◌, ◌≤ℤ◌, ◌>>=◌}
use kabu.Market.{Pool, uniswap_v2, new_token, new_path}
use kabu.Swap.{
  SwapLine, set, not_set, calculate_with_in_amount, calculate_with_out_amount, calculate_loop,
  calculate_back_loop,
}
use kabu.Swap.Step.{SwapStep, get_in_amount, get_out_amount, sum_amounts, add}
use kabu.Swap.Step.Calculate.{
  arb_result, can_calculate_in_amount, step_calculate_with_in_amount, calculate_in_lines,
}
use kabu.Swap.Step.Optimize.{or_stop, with_tried, judge_best, optimize_swap_steps, first_search}
use kabu.Swap.Step.Optimize.Improves.{optimize_swap_steps-improves}

abbrev pool : ℕ → (ℕ → ℕ) → Pool
pool id out = record {
  pool_id = id;
  address = id;
  class = uniswap_v2;
  swap_directions = [];
  can_flash_swap = true;
  can_calculate_in_amount = true;
  calculate_out_amount = λ from to amount. some (out amount, 7);
  calculate_in_amount = λ from to amount. some (amount / 2 + 1, 7);
}

abbrev buy : SwapLine
buy = record {
  path = new_path (new_token 1 ∷ new_token 2 ∷ []) (pool 10 (λ x. x * 2) ∷ []);
  amount_in = not_set;
  amount_out = not_set;
  calculation_results = [];
  gas_used = none;
}

abbrev sell : SwapLine
sell = record {
  path =
      new_path (new_token 2 ∷ new_token 1 ∷ [])
        (pool 11 (λ x. if leb (x * 3) 7000 then x * 3 else 7000) ∷ []);
  amount_in = not_set;
  amount_out = set 3;
  calculation_results = [];
  gas_used = none;
}

abbrev step : SwapLine → SwapStep
step l = record { swap_line_vec = l ∷ []; swap_to = 77; swap_from = none }

abbrev with_amounts : SwapLine → ℕ → ℕ → SwapLine
with_amounts l x y = record l { amount_in = set x; amount_out = set y }

abbrev first : SwapStep × SwapStep
first = (step (with_amounts buy 1000 2000), step (with_amounts sell 2000 6000))

abbrev bought : SwapStep
bought = step (record (with_amounts buy 1201 2400) {
  gas_used = some 7;
  calculation_results = record { amount_in = 2400; amount_out = 1201 } ∷ [];
})

abbrev sold : SwapStep
sold = step (record (with_amounts sell 2400 7000) { gas_used = some 7 })

optimize_steps_example : arb_result first.0 first.1 ≤ℤ arb_result bought sold
unfolding ◌>>=◌ calculate_with_in_amount calculate_with_out_amount calculate_loop
    calculate_back_loop get_in_amount get_out_amount sum_amounts add arb_result
    can_calculate_in_amount step_calculate_with_in_amount calculate_in_lines optimize_swap_steps
    or_stop with_tried judge_best
optimize_steps_example =
    optimize_swap_steps-improves (step buy) (step sell) (some 1000) (first_search first.0 first.1)
      100 bought sold refl refl refl
