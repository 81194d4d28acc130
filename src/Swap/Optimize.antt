-- ===== src/Swap/Optimize.antt =====
-- `SwapLine::optimize_with_in_amount`: the search for the amount with the best profit, in at most
-- thirty turns. Products and sums wrap at 256 bits, and profits are signed.
pub mod Kept
mod Tests
use kabu.Base.{
  ℕ, zero, suc, ◌+◌, ◌-◌, ◌*◌, ◌/◌, ◌%◌, ◌^◌, ◌≤◌, ◌<◌, ◌≡◌, refl, sym, ap, ◌∙◌, ◌≢◌, ◌↔◌, ◌⊎◌, inl,
  inr, Bool, true, false, ◌&&◌, ◌||◌, not, Option, none, some, List, [], ◌∷◌, ◌++◌, map, reverse,
  arith, ltb, leb, ◌==◌, if◌then◌else◌, ltb→lt, lt→ltb, leb→le, ==_iff, ==_refl, Bool-cases,
  Option-cases, is_some, get_or_else, length, get_elem?, take, drop, head?, get_last?, any, All,
  length-append, take-append-drop, length-take, length-drop, get_last?-append, All-append, HashMap,
  lookup, contains_key, insert, erase, retain, alter, values, lookup-insert, lookup-insert_self,
  lookup-insert_ne, lookup-erase, lookup-retain_key, IsMap, insert-IsMap, lookup-retain,
  retain-IsMap, erase-IsMap, any-values,
}
use kabu.Market.{SwapPath}
use kabu.Types.{u256_mod}
use kabu.Swap.{
  SwapLine, SwapAmountType, set, Result, ok, err, panicked, SwapError, CalculationResult,
  calculate_with_in_amount,
}

-- `I256::from_raw(a) - I256::from_raw(b)`, its comparison and its sign.
abbrev sub_raw : ℕ → ℕ → ℕ
sub_raw a b = (a + (u256_mod - b)) % u256_mod

abbrev signed_lt : ℕ → ℕ → Bool
signed_lt a b = ltb ((a + u256_mod / 2) % u256_mod) ((b + u256_mod / 2) % u256_mod)

abbrev is_negative : ℕ → Bool
is_negative a = leb (u256_mod / 2) a

-- The variables of the loop.
pub record Search : Type 0 where
  pub current_in_amount : ℕ
  pub best_profit : Option ℕ
  pub current_step : ℕ
  pub inc_direction : Bool
  pub first_step_change : Bool
  pub next_amount : ℕ
  pub prev_in_amount : ℕ

-- How a turn ends: the loop goes on, or it stops with the line, an error or a panic.
pub data Turn : Type 0 where
  continues : SwapLine → Search → Turn
  stops : Result SwapLine → Turn

abbrev start : ℕ → Search
start in_amount = record {
  current_in_amount = in_amount;
  best_profit = none;
  current_step = 10000;
  inc_direction = true;
  first_step_change = false;
  next_amount = in_amount;
  prev_in_amount = 0;
}

-- The end of a turn, where the next amount is set.
abbrev advance : Search → Search
advance s =
    let change = s.current_in_amount * s.current_step % u256_mod / 1000 in
    record s {
      prev_in_amount = s.current_in_amount;
      next_amount =
          if s.inc_direction
          then (s.current_in_amount + change) % u256_mod
          else sub_raw s.current_in_amount change;
    }

abbrev store : SwapLine → ℕ → ℕ → ℕ → List CalculationResult → SwapLine
store line amount out gas results = record line {
  amount_in = set amount;
  amount_out = set out;
  gas_used = some gas;
  calculation_results = results;
}

-- The step becomes a tenth, and the loop ends with a step of one.
abbrev shorten : SwapLine → Search → Turn
shorten line s = if s.current_step == 1 then stops (ok line) else continues line (advance s)

-- The step is shortened at the end of a way down, and elsewhere.
abbrev back_up : Search → ℕ → Search
back_up s profit = record s {
  inc_direction = true;
  current_step = s.current_step / 10;
  best_profit = some profit;
  first_step_change = true;
}

abbrev slow_down : Search → Search
slow_down s = record s { current_step = s.current_step / 10; first_step_change = true }

-- A turn whose profit is worse than the best.
worsen : SwapLine → Search → ℕ → Turn
worsen line s profit =
    if s.first_step_change && (s.inc_direction && ltb s.current_step 1000)
    then continues line (
        advance (record s {
          inc_direction = false;
          current_in_amount = s.prev_in_amount;
          first_step_change = true;
        }))
    else (if s.first_step_change && not s.inc_direction
        then shorten line (back_up s profit)
        else shorten line (slow_down s))

judge : SwapLine → Search → ℕ → ℕ → List CalculationResult → Turn
unfolding worsen
judge line s out gas results =
    let profit = sub_raw out s.next_amount in
    let stored = store line s.next_amount out gas results in
    elim s.best_profit [
      | none ↦
          if out == 0 || is_negative profit
          then stops (ok stored)
          else continues stored
              (advance (record s { best_profit = some profit; current_in_amount = s.next_amount }))
      | some best ↦
          if signed_lt profit best || out == 0
          then worsen line s profit
          else continues stored (
              advance (record s {
                best_profit = some profit;
                current_in_amount = s.next_amount;
                first_step_change = false;
              }))
    ]

-- A calculation that fails ends the first turn, and counts as nothing in the others.
turn : Bool → SwapLine → Search → Turn
unfolding judge
turn is_first line s = elim (calculate_with_in_amount line.path s.next_amount) [
  | ok (out, gas, results) ↦ judge line s out gas results
  | err e ↦ if is_first then stops (err e) else judge line s 0 0 []
  | panicked ↦ stops panicked
]

pub optimize_loop : ℕ → Bool → SwapLine → Search → Result SwapLine
unfolding turn
optimize_loop zero is_first line s = ok line
optimize_loop (suc n) is_first line s = elim (turn is_first line s) [
  | continues line' s' ↦ optimize_loop n false line' s'
  | stops r ↦ r
]

pub optimize_with_in_amount : SwapLine → ℕ → Result SwapLine
unfolding optimize_loop
optimize_with_in_amount line in_amount = optimize_loop 30 true line (start in_amount)
