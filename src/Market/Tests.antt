-- ===== src/Market/Tests.antt =====
-- A market of two pools that trade a basic token and another one.
use kabu.Base.{
  ℕ, ◌+◌, ◌*◌, ◌≡◌, refl, true, false, some, List, [], ◌∷◌, arith, length, any, All, lookup, none,
}
use kabu.Market.{Token, Pool, SwapDirection, SwapPath, Hasher, uniswap_v2, new_with_data, same_path}
use kabu.Market.Store.{
  Market, add_token, get_token_by_symbol, add_pool_manager_cell, get_pool_id_for_cell,
  is_pool_disabled, get_token_or_default,
}
use kabu.Market.Store.Trades.{
  is_pool_disabled-nil, adds_token, adds_pool, disables_pool, IsMarket, run, run-new-IsMarket,
}
use kabu.Market.Store
use kabu.Market.Builder.{build_swap_path_vec}
use kabu.Market.Builder.Routes.{is_arbitrage}
use kabu.Market.Builder.Search.{is_unique, build_swap_path_vec-All}
use kabu.Market.Builder.Complete.{there_and_back, build_swap_path_vec-finds}

abbrev basic_token : Token
basic_token = new_with_data 1 none none (some 18) true false

abbrev other_token : Token
other_token = new_with_data 2 none none (some 18) false false

abbrev both_ways : List SwapDirection
both_ways = record { token_from = 1; token_to = 2 } ∷ record { token_from = 2; token_to = 1 } ∷ []

abbrev pool : ℕ → Pool
pool id = record {
  pool_id = id;
  address = id;
  class = uniswap_v2;
  swap_directions = both_ways;
  can_flash_swap = true;
  can_calculate_in_amount = true;
  calculate_out_amount = λ from to amount. some (amount, 0);
  calculate_in_amount = λ from to amount. some (amount, 0);
}

abbrev sum_hash : Hasher
sum_hash xs ys = length xs + 10 * length ys

abbrev two_pools : Market
two_pools = record {
  pools = (10, pool 10) ∷ (11, pool 11) ∷ [];
  pools_disabled = [];
  pools_manager_cells = [];
  tokens = (1, basic_token) ∷ (2, other_token) ∷ [];
  token_symbols = (1, 1) ∷ (2, 2) ∷ [];
  token_tokens = (1, 2 ∷ 2 ∷ []) ∷ (2, 1 ∷ 1 ∷ []) ∷ [];
  token_token_pools = (1, (2, 10 ∷ 11 ∷ []) ∷ []) ∷ (2, (1, 10 ∷ 11 ∷ []) ∷ []) ∷ [];
  token_pools = (1, 10 ∷ 11 ∷ []) ∷ (2, 10 ∷ 11 ∷ []) ∷ [];
  swap_paths = record { paths = []; pool_paths = []; path_hash_map = []; disabled_directions = [] };
}

two_pools-IsMarket : IsMarket two_pools
unfolding lookup
two_pools-IsMarket = record {
  token_keyed = λ a t q. ground arith;
  pool_keyed = λ id p q. ground arith;
  trades = λ from to id. ground arith;
  sales = λ from id. ground arith;
  none_disabled = λ id. is_pool_disabled-nil two_pools id refl;
}

abbrev changed : List (Pool × List SwapDirection)
changed = (pool 10, both_ways) ∷ []

search_example :
    (ps : List SwapPath) × (build_swap_path_vec two_pools changed ≡ some ps)
    × All (λ p. any (λ e. is_arbitrage two_pools e.0 p) changed ≡ true) ps
    × (is_unique ps ≡ true)
search_example =
    build_swap_path_vec-All two_pools changed two_pools-IsMarket ((refl, (refl, tt)), tt)

finds_example :
    (ps : List SwapPath) × (build_swap_path_vec two_pools changed ≡ some ps)
    × (any (λ q. same_path q (there_and_back basic_token other_token (pool 10) (pool 11))) ps
        ≡ true)
unfolding lookup
finds_example =
    build_swap_path_vec-finds two_pools changed (pool 11) 11 0 0 (pool 10) both_ways
      (record { token_from = 1; token_to = 2 }) two_pools-IsMarket ((refl, (refl, tt)), tt) refl
      refl refl refl refl (λ q. omega arith) refl

store_example : IsMarket (
    run sum_hash Store.new (
      adds_token (λ a. a) basic_token
      ∷ adds_pool (pool 10)
      ∷ disables_pool (λ from to pool_id. 100 * pool_id + from) 10 1 2 true
      ∷ []))
store_example = run-new-IsMarket sum_hash (
    adds_token (λ a. a) basic_token
    ∷ adds_pool (pool 10)
    ∷ disables_pool (λ from to pool_id. 100 * pool_id + from) 10 1 2 true
    ∷ [])
