-- ===== src/Swap.antt =====
-- Swap lines (crates/types/swap/src/swap_line.rs): a path with its amounts. `swap_to`, which the
-- methods only clear, is left out, and so are the floats of the display. The gas of a line wraps at
-- 64 bits, and signed amounts are 256-bit numbers in two's complement, as in the code.
pub mod Split
pub mod Optimize
pub mod Tips
pub mod Step
pub mod Whole
pub mod Samples
mod Tests
use kabu.Base.{
  ℕ, zero, suc, ◌+◌, ◌-◌, ◌*◌, ◌/◌, ◌%◌, ◌^◌, ◌≤◌, ◌<◌, ◌≡◌, refl, sym, ap, ◌∙◌, ◌≢◌, ◌↔◌, ◌⊎◌, inl,
  inr, Bool, true, false, ◌&&◌, ◌||◌, not, Option, none, some, List, [], ◌∷◌, ◌++◌, map, reverse,
  arith, ltb, leb, ◌==◌, if◌then◌else◌, ltb→lt, lt→ltb, leb→le, ==_iff, ==_refl, Bool-cases,
  Option-cases, is_some, get_or_else, length, get_elem?, take, drop, head?, get_last?, any, All,
  length-append, take-append-drop, length-take, length-drop, get_last?-append, All-append, HashMap,
  lookup, contains_key, insert, erase, retain, alter, values, lookup-insert, lookup-insert_self,
  lookup-insert_ne, lookup-erase, lookup-retain_key, IsMap, insert-IsMap, lookup-retain,
  retain-IsMap, erase-IsMap, any-values,
}
use kabu.Market.{calc_eth_value, Token, Pool, SwapPath, new_path, same_token}
use kabu.Types.{u64_mod, u256_mod}

pub data SwapAmountType : Type 0 where
  not_set : SwapAmountType
  set : ℕ → SwapAmountType
  stack0 : SwapAmountType
  relative_stack : ℕ → SwapAmountType
  balance : ℕ → SwapAmountType

-- The errors of a calculation; `calculation_failed` is that of the pool.
pub data SwapErrorKind : Type 0 where
  zero_out_amount almost_zero_out_amount max_in_amount zero_in_amount : SwapErrorKind
  calculation_failed : SwapErrorKind

pub record SwapError : Type 0 where
  pub kind : SwapErrorKind
  pub pool : ℕ
  pub token_from : ℕ
  pub token_to : ℕ
  pub is_in_amount : Bool
  pub amount : ℕ

-- `panicked` is an index out of range.
pub data Result (A : Type 0) : Type 0 where
  ok : A → Result A
  err : SwapError → Result A
  panicked : Result A

pub record CalculationResult : Type 0 where
  pub amount_in : ℕ
  pub amount_out : ℕ

pub record SwapLine : Type 0 where
  pub path : SwapPath
  pub amount_in : SwapAmountType
  pub amount_out : SwapAmountType
  pub calculation_results : List CalculationResult
  pub gas_used : Option ℕ

-- `SwapLine::from(SwapPath)`
abbrev pub from_path : SwapPath → SwapLine
from_path path = record {
  path = path;
  amount_in = not_set;
  amount_out = not_set;
  calculation_results = [];
  gas_used = none;
}

-- `none` is a slice out of range.
unfoldable pub split : SwapLine → ℕ → Option (SwapLine × SwapLine)
split line pool_index =
    let ts = line.path.tokens in
    let ps = line.path.pools in
    if ltb pool_index (length ts) && leb pool_index (length ps)
    then some (
      record (from_path (new_path (take (suc pool_index) ts) (take pool_index ps))) {
        amount_in = line.amount_in;
      },
      record (from_path (new_path (drop pool_index ts) (drop pool_index ps))) {
        amount_out = line.amount_out;
      },
    )
    else none

abbrev pub all_flash : List Pool → Bool
all_flash [] = true
all_flash (p ∷ ps) = p.can_flash_swap && all_flash ps

abbrev pub can_flash_swap : SwapLine → Bool
can_flash_swap line = all_flash line.path.pools

pub abs_profit : SwapLine → ℕ
abs_profit line = elim (head? line.path.tokens) [
  | none ↦ 0
  | some token_in ↦ elim (get_last? line.path.tokens) [
    | none ↦ 0
    | some token_out ↦ if not (same_token token_in token_out) then 0 else (elim line.amount_in [
      | set amount_in ↦ elim line.amount_out [
        | set amount_out ↦ if ltb amount_in amount_out then amount_out - amount_in else 0
        | _ ↦ 0
      ]
      | _ ↦ 0
    ])
  ]
]

abbrev pub line_first_token : SwapLine → Option Token
line_first_token line = head? line.path.tokens

-- `none` is a panic, the division by a price of zero.
pub abs_profit_eth : SwapLine → Option ℕ
unfolding abs_profit
abs_profit_eth line = elim (line_first_token line) [
  | none ↦ some 0
  | some first_token ↦ elim (calc_eth_value first_token (abs_profit line)) [
    | none ↦ none
    | some value ↦ some (get_or_else value 0)
  ]
]

abbrev pub min_valid_out_amount : ℕ
min_valid_out_amount = 0x100

abbrev pub in_error : SwapErrorKind → Pool → Token → Token → ℕ → SwapError
in_error kind pool from to amount = record {
  kind = kind;
  pool = pool.pool_id;
  token_from = from.address;
  token_to = to.address;
  is_in_amount = true;
  amount = amount;
}

-- The loop of `calculate_with_in_amount`, with its variables: the current amount, the final one, the
-- gas and the results.
pub calculate_loop :
    List Token
    → List Pool
    → ℕ
    → ℕ
    → ℕ
    → List CalculationResult
    → Result (ℕ × ℕ × List CalculationResult)
calculate_loop ts [] current final gas results = ok (final, gas, results)
calculate_loop [] (p ∷ ps) current final gas results = panicked
calculate_loop (a ∷ []) (p ∷ ps) current final gas results = panicked
calculate_loop (a ∷ b ∷ ts) (p ∷ ps) current final gas results =
    elim (p.calculate_out_amount a.address b.address current) [
      | none ↦ err (in_error calculation_failed p a b current)
      | some (out, used) ↦
          if out == 0
          then err (in_error zero_out_amount p a b current)
          else (if ltb out min_valid_out_amount
              then err (in_error almost_zero_out_amount p a b current)
              else calculate_loop (b ∷ ts) ps out out ((gas + used) % u64_mod)
                  (results ++ record { amount_in = current; amount_out = out } ∷ []))
    ]

pub calculate_with_in_amount : SwapPath → ℕ → Result (ℕ × ℕ × List CalculationResult)
unfolding calculate_loop
calculate_with_in_amount path in_amount = calculate_loop path.tokens path.pools in_amount 0 0 []

abbrev pub out_error : SwapErrorKind → Pool → Token → Token → ℕ → SwapError
out_error kind pool from to amount = record {
  kind = kind;
  pool = pool.pool_id;
  token_from = from.address;
  token_to = to.address;
  is_in_amount = false;
  amount = amount;
}

-- The loop of `calculate_with_out_amount`, over the reversed tokens and pools.
pub calculate_back_loop :
    List Token
    → List Pool
    → ℕ
    → ℕ
    → ℕ
    → List CalculationResult
    → Result (ℕ × ℕ × List CalculationResult)
calculate_back_loop ts [] current final gas results = ok (final, gas, results)
calculate_back_loop [] (p ∷ ps) current final gas results = panicked
calculate_back_loop (b ∷ []) (p ∷ ps) current final gas results = panicked
calculate_back_loop (b ∷ a ∷ ts) (p ∷ ps) current final gas results =
    elim (p.calculate_in_amount a.address b.address current) [
      | none ↦ err (out_error calculation_failed p a b current)
      | some (amount, used) ↦
          if amount == u256_mod - 1
          then err (out_error max_in_amount p a b current)
          else (if amount == 0
              then err (out_error zero_in_amount p a b current)
              else calculate_back_loop (a ∷ ts) ps amount amount ((gas + used) % u64_mod)
                  (results ++ record { amount_in = current; amount_out = amount } ∷ []))
    ]

pub calculate_with_out_amount : SwapPath → ℕ → Result (ℕ × ℕ × List CalculationResult)
unfolding calculate_back_loop
calculate_with_out_amount path out_amount =
    calculate_back_loop (reverse path.tokens) (reverse path.pools) out_amount 0 0 []
