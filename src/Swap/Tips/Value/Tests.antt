-- ===== src/Swap/Tips/Value/Tests.antt =====
-- The tips of two swaps together, with more tips than profit in WETH and little balance.
use kabu.Base.{
  ℕ, ◌+◌, ◌%◌, ◌^◌, ◌≤◌, ◌≡◌, refl, ◌⊎◌, true, some, List, [], ◌∷◌, arith, lookup, insert, values,
  ◌>>=◌,
}
use kabu.Market.{
  get_eth_price, calc_eth_value, calc_token_value_from_eth, Token, new_token, new_path,
}
use kabu.Types.{u256_mod}
use kabu.Swap.{abs_profit, abs_profit_eth, SwapLine, set, from_path}
use kabu.Swap.Whole.{
  arb_profit, arb_profit_sum, arb_profit_eth, arb_profit_eth_sum, get_first_token, Swap,
  backrun_swap_line, multiple, end, entry,
}
use kabu.Swap.Tips.Value.{
  collect_tips, sum_where, settle_loop, settle, multiple_tips, tips_and_value_for_swap_type, Tips,
}
use kabu.Swap.Tips.Value.Bounds.{total_tips, weth_profit}
use kabu.Swap.Tips.Value.Covered.{tips_and_value_covered}
use kabu.Swap.Samples.{pool}

abbrev weth : Token
weth = record (new_token 1) { weth = true }

-- A token of which ten are worth an ether.
abbrev cheap : Token
cheap = record (new_token 3) { eth_price = some (10 ^ 17) }

abbrev round : Token → SwapLine
round token =
    record (from_path
      (new_path (token ∷ new_token 2 ∷ token ∷ []) (pool 10 900 ∷ pool 11 5000 ∷ []))) {
        amount_in = set 400;
        amount_out = set 5000;
      }

abbrev both : Swap
both =
    multiple (entry (backrun_swap_line (round weth)) (entry (backrun_swap_line (round cheap)) end))

abbrev settled : List Tips
settled =
    record { token_in = weth; profit = 4600; profit_eth = 4600; tips = 5500; min_change = 2325 }
    ∷ record { token_in = cheap; profit = 4600; profit_eth = 46000; tips = 0; min_change = 2302 }
    ∷ []

tips_covered_example :
    (paid : ℕ) × ((1000 ≡ paid) ⊎ (1000 ≡ (paid + 100) % u256_mod))
    × (total_tips settled ≤ weth_profit settled + paid)
    × (paid ≤ 1000)
unfolding ◌>>=◌ calc_eth_value calc_token_value_from_eth get_eth_price abs_profit abs_profit_eth
    arb_profit arb_profit_sum arb_profit_eth arb_profit_eth_sum get_first_token collect_tips
    sum_where settle_loop settle multiple_tips tips_and_value_for_swap_type lookup insert values
tips_covered_example =
    tips_and_value_covered both (some 5049) (some 100) 1000 49 settled 1000
      (omega arith, omega arith) (omega arith) refl
