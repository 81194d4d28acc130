-- ===== src/Swap/Tips/Value/Covered.antt =====
-- What pays for the tips: the profit in WETH and the value that is sent.
use kabu.Swap.Tips.Value.Bounds.{
  total_tips, weth_profit, count_weth, Covered, single_tips-Covered, settle-Covered,
}
use kabu.Base.{
  ℕ, ◌+◌, ◌%◌, ◌≤◌, ◌≡◌, refl, ◌⊎◌, inl, inr, Option, none, some, List, arith, get_or_else, values,
  done, fails, Gives, gives, gives_error, Gives-done, >>=-Gives, >>=-Gives_after, Gives-map,
}
use mathlib.Core.Path.{subst}
use kabu.Swap.Tips.{tips_pct_advanced, tips_pct_advanced-antitone}
use kabu.Swap.Whole.{
  Swap, Swaps, nothing, exchange_swap_line, backrun_swap_steps, backrun_swap_line, multiple,
}
use kabu.Types.{u256_mod}
use kabu.Swap.Tips.Value.{
  multiple_tips, randomize_tips_pct, not_implemented, tips_and_value_for_swap_type, Tips,
  single_tips,
}

-- What is paid for the tips is covered, and the value is that or, for several swaps, 100 more.
abbrev pub Paid : ℕ → List Tips × ℕ → Type 0
Paid eth_balance (ts, value) =
    (paid : ℕ) × ((value ≡ paid) ⊎ (value ≡ (paid + 100) % u256_mod))
    × Covered eth_balance (ts, paid)

multiple_tips-Paid :
    (swaps : Swaps) (pct : ℕ) (gas_cost : Option ℕ) (eth_balance : ℕ)
    → Gives (Paid eth_balance) (multiple_tips swaps pct gas_cost eth_balance)
unfolding multiple_tips
multiple_tips-Paid swaps pct gas_cost eth_balance = >>=-Gives _ _ _ λ _ _. >>=-Gives _ _ _ λ _ _.
    >>=-Gives _ _ _ λ _ _. >>=-Gives _ _ _ λ m _.
      >>=-Gives_after _ _ _ _ (settle-Covered eth_balance (values m))
        λ settled c. gives _ (settled.1, inr refl, c)

single_tips-Paid :
    (swap : Swap) (pct : ℕ) (gas_cost : Option ℕ) (eth_balance : ℕ)
    → pct ≤ 10000
    → Gives (Paid eth_balance) (single_tips swap pct gas_cost eth_balance)
single_tips-Paid swap pct gas_cost eth_balance h =
    Gives-map (Covered eth_balance) (Paid eth_balance) (single_tips swap pct gas_cost eth_balance)
      (λ r c. (r.1, inl refl, c)) (single_tips-Covered swap pct gas_cost eth_balance h)

-- A percentage, where one is given, that lies between 49 and 10000 ten thousandths.
abbrev pub IsSensible : Option ℕ → Type 0
IsSensible none = Unit
IsSensible (some pct) = (49 ≤ pct) × (pct ≤ 10000)

randomize_le :
    (tips_pct : Option ℕ) (profit random : ℕ)
    → IsSensible tips_pct
    → randomize_tips_pct (get_or_else tips_pct (tips_pct_advanced profit)) random ≤ 10000
randomize_le none profit random h =
    let (_, most, least) = tips_pct_advanced-antitone profit profit (omega arith) in
    omega (arith, most, least)
randomize_le (some pct) profit random h = omega (arith, h.0, h.1)

tips_and_value-Paid :
    (swap : Swap) (tips_pct gas_cost : Option ℕ) (eth_balance random : ℕ)
    → IsSensible tips_pct
    → Gives
        (Paid eth_balance)
        (tips_and_value_for_swap_type swap tips_pct gas_cost eth_balance random)
unfolding tips_and_value_for_swap_type
tips_and_value-Paid swap tips_pct gas_cost eth_balance random h =
    >>=-Gives _ _ _
      λ profit _. >>=-Gives _ _ _ λ _ _. by_kind swap (randomize_le tips_pct profit random h)
  where
    by_kind :
        (s : Swap) {pct : ℕ}
        → pct ≤ 10000
        → Gives (Paid eth_balance) (elim s [
          | backrun_swap_line line ↦ single_tips (backrun_swap_line line) pct gas_cost eth_balance
          | backrun_swap_steps a b ↦ single_tips (backrun_swap_steps a b) pct gas_cost eth_balance
          | multiple swaps ↦ multiple_tips swaps pct gas_cost eth_balance
          | _ ↦ fails not_implemented
        ])
    by_kind nothing k = gives_error _
    by_kind (exchange_swap_line line) k = gives_error _
    by_kind (backrun_swap_line line) k = single_tips-Paid (backrun_swap_line line) _ _ _ k
    by_kind (backrun_swap_steps a b) k = single_tips-Paid (backrun_swap_steps a b) _ _ _ k
    by_kind (multiple swaps) k = multiple_tips-Paid swaps _ _ _

-- Where tips are calculated, at a percentage that is not given or lies between 49 and 10000, and at
-- most one entry is of WETH, the tips together are at most the profit in WETH and what is paid
-- beside it, which the balance has; the value is what is paid, or 100 more for several swaps.
pub tips_and_value_covered :
    (swap : Swap) (tips_pct gas_cost : Option ℕ) (eth_balance random : ℕ) (ts : List Tips)
    (value : ℕ)
    → IsSensible tips_pct
    → count_weth ts ≤ 1
    → tips_and_value_for_swap_type swap tips_pct gas_cost eth_balance random ≡ done (ts, value)
    → (paid : ℕ) × ((value ≡ paid) ⊎ (value ≡ (paid + 100) % u256_mod))
      × (total_tips ts ≤ weth_profit ts + paid)
      × (paid ≤ eth_balance)
tips_and_value_covered swap tips_pct gas_cost eth_balance random ts value h one e =
    let (paid, is_paid, c) =
      Gives-done (Paid eth_balance) (ts, value)
        (subst (Gives (Paid eth_balance)) e
          (tips_and_value-Paid swap tips_pct gas_cost eth_balance random h)) in
    (paid, is_paid, c.0 one, c.1)
