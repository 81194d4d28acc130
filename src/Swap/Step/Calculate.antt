-- ===== src/Swap/Step/Calculate.antt =====
-- The calculations and the profit of steps (crates/types/swap/src/swap_step.rs).
pub mod Single
use kabu.Base.{
  ℕ, ◌+◌, ◌-◌, ◌/◌, ◌%◌, Bool, true, ◌&&◌, Option, none, some, List, [], ◌∷◌, leb, ◌==◌,
  if◌then◌else◌, get_or_else, head?, get_last?, Outcome, done, fails, panics, ◌>>=◌, ℤ, sub_ℕ,
}
use kabu.Market.{Token, Pool, calc_eth_value}
use kabu.Types.{u64_mod, u256_mod}
use kabu.Swap.{
  SwapLine, SwapAmountType, set, ok, err, panicked, calculate_with_in_amount,
  calculate_with_out_amount, can_flash_swap,
}
use kabu.Swap.Step.{SwapStep, amount_of, get_in_amount, get_out_amount}

pub data StepError : Type 0 where
  in_amount_not_set error_calculating_out_amount too_many_steps : StepError
  cannot_optimize_swap_step optimization_failed : StepError

-- The result of a fallible method of steps.
abbrev pub StepResult {ℓ} : Type ℓ → Type ℓ
StepResult A = Outcome StepError A

abbrev pub all_calculate : List Pool → Bool
all_calculate [] = true
all_calculate (p ∷ ps) = p.can_calculate_in_amount && all_calculate ps

abbrev all_lines : (SwapLine → Bool) → List SwapLine → Bool
all_lines p [] = true
all_lines p (line ∷ lines) = p line && all_lines p lines

-- `SwapStep::can_flash_swap` and `can_calculate_in_amount`
pub step_can_flash_swap : SwapStep → Bool
step_can_flash_swap s = all_lines can_flash_swap s.swap_line_vec

unfoldable pub can_calculate_in_amount : SwapStep → Bool
can_calculate_in_amount s = all_lines (λ line. all_calculate line.path.pools) s.swap_line_vec

-- `get_first_token`, the token that all lines begin with, and its address.
pub common_first : Option Token → List SwapLine → Option Token
common_first found [] = found
common_first found (line ∷ lines) = elim (head? line.path.tokens) [
  | none ↦ none
  | some t ↦ elim found [
    | none ↦ common_first (some t) lines
    | some a ↦
        let rest = common_first (some a) lines in if a.address == t.address then rest else none
  ]
]

pub get_first_token : SwapStep → Option Token
unfolding common_first
get_first_token s = common_first none s.swap_line_vec

pub get_first_token_address : SwapStep → Option ℕ
unfolding get_first_token
get_first_token_address s = elim (get_first_token s) [ none ↦ none | some t ↦ some t.address ]

pub get_first_pool : SwapStep → Option Pool
get_first_pool s = elim s.swap_line_vec [
  | [] ↦ none
  | line ∷ lines ↦ elim lines [ [] ↦ head? line.path.pools | other ∷ rest ↦ none ]
]

pub get_last_pool : SwapStep → Option Pool
get_last_pool s = elim s.swap_line_vec [
  | [] ↦ none
  | line ∷ lines ↦ elim lines [ [] ↦ get_last? line.path.pools | other ∷ rest ↦ none ]
]

-- The amount that is given for all lines, or the one that is set.
abbrev pub given_or : Option ℕ → SwapAmountType → Option ℕ
given_or (some amount) old = some amount
given_or none old = amount_of old

-- The loop of `calculate_with_in_amount`: the lines as it leaves them, also where it fails, beside
-- the amount out and the gas.
unfoldable pub calculate_in_lines :
    Option ℕ → ℕ → ℕ → List SwapLine → List SwapLine × StepResult (ℕ × ℕ)
calculate_in_lines amount out gas [] = ([], done (out, gas))
calculate_in_lines amount out gas (line ∷ lines) = elim (given_or amount line.amount_in) [
  | none ↦ (line ∷ lines, fails in_amount_not_set)
  | some x ↦
      let entered = record line { amount_in = set x } in
      elim (calculate_with_in_amount line.path x) [
        | panicked ↦ (entered ∷ lines, panics)
        | err e ↦ (entered ∷ lines, fails error_calculating_out_amount)
        | ok (y, used, results) ↦
            let (rest, r) =
              calculate_in_lines amount ((out + y) % u256_mod) ((gas + used) % u64_mod) lines in
            (record entered { amount_out = set y } ∷ rest, r)
      ]
]

unfoldable pub step_calculate_with_in_amount : SwapStep → Option ℕ → SwapStep × StepResult (ℕ × ℕ)
unfolding calculate_in_lines
step_calculate_with_in_amount s amount =
    let (lines, r) = calculate_in_lines amount 0 0 s.swap_line_vec in
    (record s { swap_line_vec = lines }, r)

-- The loop of `calculate_with_out_amount`.
pub calculate_out_lines : Option ℕ → ℕ → ℕ → List SwapLine → List SwapLine × StepResult (ℕ × ℕ)
calculate_out_lines amount total gas [] = ([], done (total, gas))
calculate_out_lines amount total gas (line ∷ lines) = elim (given_or amount line.amount_out) [
  | none ↦ (line ∷ lines, fails in_amount_not_set)
  | some x ↦
      let entered = record line { amount_out = set x } in
      elim (calculate_with_out_amount line.path x) [
        | panicked ↦ (entered ∷ lines, panics)
        | err e ↦ (entered ∷ lines, fails error_calculating_out_amount)
        | ok (y, used, results) ↦
            let (rest, r) =
              calculate_out_lines amount ((total + y) % u256_mod) ((gas + used) % u64_mod) lines in
            (record entered { amount_in = set y } ∷ rest, r)
      ]
]

pub step_calculate_with_out_amount : SwapStep → Option ℕ → SwapStep × StepResult (ℕ × ℕ)
unfolding calculate_out_lines
step_calculate_with_out_amount s amount =
    let (lines, r) = calculate_out_lines amount 0 0 s.swap_line_vec in
    (record s { swap_line_vec = lines }, r)

abbrev pub u256_max : ℕ
u256_max = u256_mod - 1

abbrev pub i256_max : ℕ
i256_max = u256_mod / 2 - 1

-- `I256::try_from(x).unwrap_or(d)`; what it gives here is never negative.
abbrev pub to_i256_or : ℕ → ℕ → ℕ
to_i256_or x d = if leb x i256_max then x else d

unfoldable pub arb_result : SwapStep → SwapStep → ℤ
arb_result step_0 step_1 =
    sub_ℕ (to_i256_or (get_or_else (get_out_amount step_1) 0) 0)
      (to_i256_or (get_or_else (get_in_amount step_0) u256_max) i256_max)

pub arb_profit : SwapStep → SwapStep → ℕ
arb_profit step_0 step_1 =
    let in_amount = get_or_else (get_in_amount step_0) u256_max in
    let out_amount = get_or_else (get_out_amount step_1) 0 in
    if leb out_amount in_amount then 0 else out_amount - in_amount

-- An outer `none` is a panic.
pub arb_profit_eth : SwapStep → SwapStep → Option ℕ
unfolding arb_profit get_first_token
arb_profit_eth step_0 step_1 = elim (get_first_token step_0) [
  | none ↦ some 0
  | some t ↦ elim (calc_eth_value t (arb_profit step_0 step_1)) [
    | none ↦ none
    | some value ↦ some (get_or_else value 0)
  ]
]
