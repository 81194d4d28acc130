-- ===== src/Swap/Samples.antt =====
-- Lines over three pools with simple rates.
use kabu.Base.{ℕ, true, none, some, [], ◌∷◌}
use kabu.Market.{Pool, uniswap_v2, new_token, new_path}
use kabu.Swap.{SwapLine, from_path}

-- A pool that gives the same amount for any other, at a cost of gas of 7.
abbrev pub pool : ℕ → ℕ → Pool
pool id out = record {
  pool_id = id;
  address = id;
  class = uniswap_v2;
  swap_directions = [];
  can_flash_swap = true;
  can_calculate_in_amount = true;
  calculate_out_amount = λ from to amount. some (out, 7);
  calculate_in_amount = λ from to amount. none;
}

abbrev pub line : SwapLine
line =
    from_path
      (new_path (new_token 1 ∷ new_token 2 ∷ new_token 1 ∷ []) (pool 10 900 ∷ pool 11 5000 ∷ []))

-- It begins with the same pool, and comes back through another.
abbrev pub fork : SwapLine
fork =
    from_path
      (new_path (new_token 1 ∷ new_token 2 ∷ new_token 1 ∷ []) (pool 10 900 ∷ pool 12 4000 ∷ []))
