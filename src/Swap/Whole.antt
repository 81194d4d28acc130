-- ===== src/Swap/Whole.antt =====
-- Whole swaps (crates/types/swap/src/swap.rs): one line, two steps, or several swaps. Sums wrap at
-- 256 bits, those of gas at 64.
pub mod Pools
pub mod Steps
mod Tests
use kabu.Base.{
  ℕ, zero, suc, ◌+◌, ◌-◌, ◌*◌, ◌/◌, ◌%◌, ◌^◌, ◌≤◌, ◌<◌, ◌≡◌, refl, sym, ap, ◌∙◌, ◌≢◌, ◌↔◌, ◌⊎◌, inl,
  inr, Bool, true, false, ◌&&◌, ◌||◌, not, Option, none, some, List, [], ◌∷◌, ◌++◌, map, reverse,
  arith, ltb, leb, ◌==◌, if◌then◌else◌, ltb→lt, lt→ltb, leb→le, ==_iff, ==_refl, Bool-cases,
  Option-cases, is_some, get_or_else, length, get_elem?, take, drop, head?, get_last?, any, All,
  length-append, take-append-drop, length-take, length-drop, get_last?-append, All-append, HashMap,
  lookup, contains_key, insert, erase, retain, alter, values, lookup-insert, lookup-insert_self,
  lookup-insert_ne, lookup-erase, lookup-retain_key, IsMap, insert-IsMap, lookup-retain,
  retain-IsMap, erase-IsMap, any-values,
}
use kabu.Market.{Token, Pool}
use kabu.Types.{u64_mod, u256_mod}
use kabu.Swap.{SwapLine, abs_profit, abs_profit_eth, line_first_token}
use kabu.Swap.Step.{SwapStep, to_swap_steps as line_to_swap_steps}
use kabu.Swap.Step.Calculate.{
  arb_profit as step_arb_profit, arb_profit_eth as step_arb_profit_eth,
  get_first_token as step_first_token,
}

-- `nothing` is `Swap::None`.
mutual
  pub data Swap : Type 0 where
    nothing : Swap
    exchange_swap_line : SwapLine → Swap
    backrun_swap_steps : SwapStep → SwapStep → Swap
    backrun_swap_line : SwapLine → Swap
    multiple : Swaps → Swap

  pub data Swaps : Type 0 where
    end : Swaps
    entry : Swap → Swaps → Swaps

-- An outer `none` is an index out of range.
unfoldable pub to_swap_steps : Swap → ℕ → Option (Option (SwapStep × SwapStep))
to_swap_steps (backrun_swap_line line) multicaller = elim (line_to_swap_steps line multicaller) [
  | none ↦ none
  | some steps ↦ some (some steps)
]
to_swap_steps (backrun_swap_steps sp0 sp1) multicaller = some (some (sp0, sp1))
to_swap_steps _ multicaller = some none

unfoldable mutual
  pub arb_profit : Swap → ℕ
  arb_profit (backrun_swap_line line) = abs_profit line
  arb_profit (backrun_swap_steps sp0 sp1) = step_arb_profit sp0 sp1
  arb_profit (multiple swaps) = arb_profit_sum 0 swaps
  arb_profit nothing = 0
  arb_profit (exchange_swap_line line) = 0

  pub arb_profit_sum : ℕ → Swaps → ℕ
  arb_profit_sum total end = total
  arb_profit_sum total (entry s swaps) = arb_profit_sum ((total + arb_profit s) % u256_mod) swaps

abbrev pub lines_gas : ℕ → List SwapLine → ℕ
lines_gas total [] = total
lines_gas total (line ∷ lines) = lines_gas ((total + get_or_else line.gas_used 0) % u64_mod) lines

mutual
  pub pre_estimate_gas : Swap → ℕ
  pre_estimate_gas (exchange_swap_line line) = get_or_else line.gas_used 0
  pre_estimate_gas (backrun_swap_line line) = get_or_else line.gas_used 0
  pre_estimate_gas (backrun_swap_steps sp0 sp1) =
      (lines_gas 0 sp0.swap_line_vec + lines_gas 0 sp1.swap_line_vec) % u64_mod
  pre_estimate_gas (multiple swaps) = gas_sum 0 swaps
  pre_estimate_gas nothing = 0

  pub gas_sum : ℕ → Swaps → ℕ
  gas_sum total end = total
  gas_sum total (entry s swaps) = gas_sum ((total + pre_estimate_gas s) % u64_mod) swaps

-- `none` is a panic, the division by a price of zero.
unfoldable mutual
  pub arb_profit_eth : Swap → Option ℕ
  arb_profit_eth (exchange_swap_line line) = some 0
  arb_profit_eth (backrun_swap_line line) = abs_profit_eth line
  arb_profit_eth (backrun_swap_steps sp0 sp1) = step_arb_profit_eth sp0 sp1
  arb_profit_eth (multiple swaps) = arb_profit_eth_sum 0 swaps
  arb_profit_eth nothing = some 0

  pub arb_profit_eth_sum : ℕ → Swaps → Option ℕ
  arb_profit_eth_sum total end = some total
  arb_profit_eth_sum total (entry s swaps) = elim (arb_profit_eth s) [
    | none ↦ none
    | some profit ↦ arb_profit_eth_sum ((total + profit) % u256_mod) swaps
  ]

unfoldable pub get_first_token : Swap → Option Token
get_first_token (exchange_swap_line line) = line_first_token line
get_first_token (backrun_swap_line line) = line_first_token line
get_first_token (backrun_swap_steps sp0 sp1) = step_first_token sp0
get_first_token (multiple swaps) = none
get_first_token nothing = none

-- What the lines have, one after the other.
abbrev pub of_lines : (Pool → ℕ) → List SwapLine → List ℕ
of_lines f [] = []
of_lines f (line ∷ lines) = map f line.path.pools ++ of_lines f lines

abbrev pub pools_of : List SwapLine → List Pool
pools_of [] = []
pools_of (line ∷ lines) = line.path.pools ++ pools_of lines

mutual
  pub get_pool_id_vec : Swap → List ℕ
  get_pool_id_vec (exchange_swap_line line) = map (λ p. p.pool_id) line.path.pools
  get_pool_id_vec (backrun_swap_line line) = map (λ p. p.pool_id) line.path.pools
  get_pool_id_vec (backrun_swap_steps sp0 sp1) =
      of_lines (λ p. p.pool_id) (sp0.swap_line_vec ++ sp1.swap_line_vec)
  get_pool_id_vec (multiple swaps) = get_pool_id_vecs swaps
  get_pool_id_vec nothing = []

  pub get_pool_id_vecs : Swaps → List ℕ
  get_pool_id_vecs end = []
  get_pool_id_vecs (entry s swaps) = get_pool_id_vec s ++ get_pool_id_vecs swaps

mutual
  pub get_pool_address_vec : Swap → List ℕ
  get_pool_address_vec (exchange_swap_line line) = map (λ p. p.address) line.path.pools
  get_pool_address_vec (backrun_swap_line line) = map (λ p. p.address) line.path.pools
  get_pool_address_vec (backrun_swap_steps sp0 sp1) =
      of_lines (λ p. p.address) (sp0.swap_line_vec ++ sp1.swap_line_vec)
  get_pool_address_vec (multiple swaps) = get_pool_address_vecs swaps
  get_pool_address_vec nothing = []

  pub get_pool_address_vecs : Swaps → List ℕ
  get_pool_address_vecs end = []
  get_pool_address_vecs (entry s swaps) = get_pool_address_vec s ++ get_pool_address_vecs swaps

mutual
  pub get_pools_vec : Swap → List Pool
  get_pools_vec (exchange_swap_line line) = line.path.pools
  get_pools_vec (backrun_swap_line line) = line.path.pools
  get_pools_vec (backrun_swap_steps sp0 sp1) = pools_of (sp0.swap_line_vec ++ sp1.swap_line_vec)
  get_pools_vec (multiple swaps) = get_pools_vecs swaps
  get_pools_vec nothing = []

  pub get_pools_vecs : Swaps → List Pool
  get_pools_vecs end = []
  get_pools_vecs (entry s swaps) = get_pools_vec s ++ get_pools_vecs swaps
