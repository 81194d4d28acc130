-- ===== src/Swap/Tips/Value.antt =====
-- The tips of a whole swap and the value that is sent with them (crates/types/swap/src/tips.rs).
-- Sums and products wrap at 256 bits; the random number is an argument. The order of the entries,
-- that of a hash map in the code, is here that in which their tokens come first.
pub mod Bounds
pub mod Covered
mod Tests
use kabu.Base.{
  ℕ, zero, suc, ◌+◌, ◌-◌, ◌*◌, ◌/◌, ◌%◌, ◌^◌, ◌≤◌, ◌<◌, ◌≡◌, refl, sym, ap, ◌∙◌, ◌≢◌, ◌↔◌, ◌⊎◌, inl,
  inr, Bool, true, false, ◌&&◌, ◌||◌, not, Option, none, some, List, [], ◌∷◌, ◌++◌, map, reverse,
  arith, ltb, leb, ◌==◌, if◌then◌else◌, ltb→lt, lt→ltb, leb→le, ==_iff, ==_refl, Bool-cases,
  Option-cases, is_some, get_or_else, length, get_elem?, take, drop, head?, get_last?, any, All,
  length-append, take-append-drop, length-take, length-drop, get_last?-append, All-append, HashMap,
  lookup, contains_key, insert, erase, retain, alter, values, lookup-insert, lookup-insert_self,
  lookup-insert_ne, lookup-erase, lookup-retain_key, IsMap, insert-IsMap, lookup-retain,
  retain-IsMap, erase-IsMap, any-values, Outcome, done, fails, panics, ◌>>=◌,
}
use kabu.Market.{Token, calc_eth_value, calc_token_value_from_eth}
use kabu.Types.{u256_mod}
use kabu.Swap.Tips.{tips_pct_advanced}
use kabu.Swap.Whole.{
  Swap, Swaps, nothing, exchange_swap_line, backrun_swap_steps, backrun_swap_line, multiple, end,
  entry, arb_profit, arb_profit_eth, get_first_token,
}

pub record Tips : Type 0 where
  pub token_in : Token
  pub profit : ℕ
  pub profit_eth : ℕ
  pub tips : ℕ
  pub min_change : ℕ

pub data TipsError : Type 0 where
  not_enough_profit no_profit no_first_token calc_eth_value_failed : TipsError
  no_profit_exceeding_gas subtraction_overflown not_implemented : TipsError

abbrev pub TipsResult {ℓ} : Type ℓ → Type ℓ
TipsResult A = Outcome TipsError A

-- `x.ok_or_eyre(e)?` and `x.unwrap()`
abbrev pub ok_or {ℓ} : {A : Type ℓ} → TipsError → Option A → TipsResult A
ok_or e none = fails e
ok_or e (some a) = done a

abbrev pub or_panic {ℓ} : {A : Type ℓ} → Option A → TipsResult A
or_panic none = panics
or_panic (some a) = done a

abbrev pub checked_sub : ℕ → ℕ → TipsResult ℕ
checked_sub a b = if leb b a then done (a - b) else fails subtraction_overflown

abbrev pub randomize_tips_pct : ℕ → ℕ → ℕ
randomize_tips_pct tips_pct random = (tips_pct + (2 ^ 32 - random % 50)) % 2 ^ 32

-- Nine tenths of the balance, `eth_balance * 9000 / 10000`.
abbrev pub most_of : ℕ → ℕ
most_of eth_balance = eth_balance * 9000 % u256_mod / 10000

-- The profit in ether of a profit of the token, where it can be calculated.
abbrev pub eth_value_of : Token → ℕ → TipsResult ℕ
eth_value_of token profit = or_panic (calc_eth_value token profit) >>= ok_or calc_eth_value_failed

abbrev pub refuse : Bool → TipsError → TipsResult {0} Unit
refuse b e = if b then fails e else done tt

-- The error where the gas costs more than the profit.
abbrev pub pays_gas : Option ℕ → ℕ → TipsError → TipsResult {0} Unit
pays_gas none profit e = done tt
pays_gas (some gas_cost) profit e = refuse (ltb profit gas_cost) e

-- The part for one line or two steps.
pub single_tips : Swap → ℕ → Option ℕ → ℕ → TipsResult (List Tips × ℕ)
single_tips swap tips_pct gas_cost eth_balance =
    let profit = arb_profit swap in
    let gas = get_or_else gas_cost 0 in
    refuse (profit == 0) no_profit >>= λ _.
    ok_or no_first_token (get_first_token swap) >>= λ token_in.
    eth_value_of token_in profit >>= λ profit_eth.
    pays_gas gas_cost profit_eth no_profit_exceeding_gas >>= λ _.
    checked_sub profit_eth gas >>= λ rest.
    let tips = rest * tips_pct % u256_mod / 10000 in
    or_panic (calc_token_value_from_eth token_in ((gas + tips) % u256_mod)) >>= λ min_change.
    let capped = not token_in.weth && ltb (most_of eth_balance) tips in
    let paid = if capped then most_of eth_balance else tips in
    done (
      record {
        token_in = token_in;
        profit = profit;
        profit_eth = profit_eth;
        tips = paid;
        min_change = min_change;
      }
          ∷ [],
      if token_in.weth then 0 else paid,
    )

-- The entry of a token, with the amounts of one more swap.
abbrev pub empty_tips : Token → Tips
empty_tips token = record { token_in = token; profit = 0; profit_eth = 0; tips = 0; min_change = 0 }

abbrev pub add_tips : ℕ → ℕ → ℕ → ℕ → Tips → Tips
add_tips profit profit_eth tips min_change t = record t {
  profit = (t.profit + profit) % u256_mod;
  profit_eth = (t.profit_eth + profit_eth) % u256_mod;
  tips = (t.tips + tips) % u256_mod;
  min_change = (t.min_change + min_change) % u256_mod;
}

-- The loop over the swaps, with the gas of each.
pub collect_tips : ℕ → ℕ → Swaps → HashMap Tips → TipsResult (HashMap Tips)
collect_tips tips_pct gas end m = done m
collect_tips tips_pct gas (entry swap swaps) m =
    let profit = arb_profit swap in
    ok_or no_first_token (get_first_token swap) >>= λ token_in.
    refuse (profit == 0) no_profit >>= λ _. eth_value_of token_in profit >>= λ profit_eth.
    checked_sub profit_eth gas >>= λ rest.
    let tips = rest * tips_pct % u256_mod / 10000 in
    or_panic (calc_token_value_from_eth token_in ((tips + gas) % u256_mod)) >>= λ min_change.
    collect_tips tips_pct gas swaps
      (alter token_in.address (empty_tips token_in) (add_tips profit profit_eth tips min_change) m)

-- Sums over the entries that are of WETH, or that are not.
pub sum_where : Bool → (Tips → ℕ) → ℕ → List Tips → ℕ
sum_where weth f total [] = total
sum_where weth f total (t ∷ ts) =
    let rest = sum_where weth f ((total + f t) % u256_mod) ts in
    let skipped = sum_where weth f total ts in
    if t.token_in.weth then (if weth then rest else skipped) else (if weth then skipped else rest)

-- What an entry of WETH is given, with the value so far: all tips, as far as its profit and the
-- balance allow.
abbrev pub settle_weth : ℕ → ℕ → ℕ → ℕ → TipsResult (ℕ × ℕ)
settle_weth total profit_eth eth_balance value =
    let needed = if ltb profit_eth total then total - profit_eth else value in
    if ltb eth_balance needed
    then (checked_sub total needed >>= λ rest.
        done ((rest + most_of eth_balance) % u256_mod, most_of eth_balance))
    else done (total, needed)

-- The loop over the entries where one is of WETH.
pub settle_loop : ℕ → ℕ → ℕ → ℕ → List Tips → TipsResult (List Tips × ℕ)
settle_loop total profit_eth eth_balance value [] = done ([], value)
settle_loop total profit_eth eth_balance value (t ∷ ts) =
    (if t.token_in.weth then settle_weth total profit_eth eth_balance value else done (0, value))
    >>= λ s. settle_loop total profit_eth eth_balance s.1 ts >>= λ rest.
        done (record t { tips = s.0 } ∷ rest.0, rest.1)

-- The other entries get nothing beside the first.
abbrev pub without_tips : List Tips → List Tips
without_tips [] = []
without_tips (t ∷ ts) = record t { tips = 0 } ∷ without_tips ts

abbrev pub first_gets : ℕ → List Tips → List Tips
first_gets value [] = []
first_gets value (t ∷ ts) = record t { tips = value } ∷ without_tips ts

abbrev pub has_weth : List Tips → Bool
has_weth ts = any (λ t. t.token_in.weth) ts

abbrev pub sum_tips : ℕ → List Tips → ℕ
sum_tips total [] = total
sum_tips total (t ∷ ts) = sum_tips ((total + t.tips) % u256_mod) ts

pub settle : ℕ → List Tips → TipsResult (List Tips × ℕ)
unfolding settle_loop sum_where
settle eth_balance ts =
    if has_weth ts
    then (let total =
          (sum_where true (λ t. t.tips) 0 ts + sum_where false (λ t. t.tips) 0 ts) % u256_mod in
        settle_loop total (sum_where true (λ t. t.profit_eth) 0 ts) eth_balance 0 ts)
    else (let total = sum_tips 0 ts in
        let value = if leb eth_balance total then most_of eth_balance else total in
        done (first_gets value ts, value))

abbrev pub count_swaps : Swaps → ℕ
count_swaps end = 0
count_swaps (entry s ss) = suc (count_swaps ss)

-- The part for several swaps.
pub multiple_tips : Swaps → ℕ → Option ℕ → ℕ → TipsResult (List Tips × ℕ)
unfolding collect_tips settle
multiple_tips swaps tips_pct gas_cost eth_balance =
    or_panic (arb_profit_eth (multiple swaps)) >>= λ profit_eth.
    pays_gas gas_cost profit_eth no_profit_exceeding_gas >>= λ _.
    (if count_swaps swaps == 0 then panics else done (get_or_else gas_cost 0 / count_swaps swaps))
    >>= λ gas. collect_tips tips_pct gas swaps [] >>= λ m.
        settle eth_balance (values m) >>= λ settled. done (settled.0, (settled.1 + 100) % u256_mod)

pub tips_and_value_for_swap_type : Swap → Option ℕ → Option ℕ → ℕ → ℕ → TipsResult (List Tips × ℕ)
unfolding single_tips multiple_tips
tips_and_value_for_swap_type swap tips_pct gas_cost eth_balance random =
    or_panic (arb_profit_eth swap) >>= λ total_profit_eth.
    let pct =
      randomize_tips_pct (get_or_else tips_pct (tips_pct_advanced total_profit_eth)) random in
    pays_gas gas_cost total_profit_eth not_enough_profit >>= λ _. elim swap [
      | backrun_swap_line line ↦ single_tips (backrun_swap_line line) pct gas_cost eth_balance
      | backrun_swap_steps a b ↦ single_tips (backrun_swap_steps a b) pct gas_cost eth_balance
      | multiple swaps ↦ multiple_tips swaps pct gas_cost eth_balance
      | _ ↦ fails not_implemented
    ]
