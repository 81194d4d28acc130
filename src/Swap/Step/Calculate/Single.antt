-- ===== src/Swap/Step/Calculate/Single.antt =====
-- The profit of two steps of one line each, as that of a line.
use kabu.Base.{
  ℕ, ◌+◌, ◌-◌, ◌%◌, ◌<◌, ◌≡◌, refl, true, Option, none, some, [], ◌∷◌, arith, ltb, leb,
  if◌then◌else◌, get_or_else, head?, get_last?,
}
use kabu.Market.{same_token, Token}
use kabu.Types.{u256_mod}
use kabu.Swap.{SwapLine, SwapAmountType, set, not_set, stack0, relative_stack, balance, abs_profit}
use kabu.Swap.Step.{SwapStep, amount_of, get_in_amount, get_out_amount, sum_amounts}
use kabu.Swap.Step.Calculate.{arb_profit, u256_max}

-- A step of one line.
abbrev pub one : ℕ → SwapLine → SwapStep
one multicaller line = record { swap_line_vec = line ∷ []; swap_to = multicaller; swap_from = none }

-- An amount that is set fits 256 bits.
abbrev pub Fits : SwapAmountType → Type 0
Fits (set x) = x < u256_mod
Fits _ = Unit

-- The line comes back to its first token.
abbrev pub IsRound : SwapLine → Type 0
IsRound line =
    (from : Token) × (to : Token) × (head? line.path.tokens ≡ some from)
    × (get_last? line.path.tokens ≡ some to)
    × (same_token from to ≡ true)

abbrev gain : SwapAmountType → SwapAmountType → ℕ
gain x y = elim x [ set a ↦ elim y [ set b ↦ if ltb a b then b - a else 0 | _ ↦ 0 ] | _ ↦ 0 ]

abs_profit-gain :
    (line : SwapLine) → IsRound line → abs_profit line ≡ gain line.amount_in line.amount_out
unfolding abs_profit
abs_profit-gain line (from, to, e, f, s) = ground (arith, e, f, s)

abbrev given : Option ℕ → Option ℕ
given none = none
given (some x) = some ((0 + x) % u256_mod)

none_in :
    (y : Option ℕ)
    → (let b = get_or_else (given y) 0 in if leb b u256_max then 0 else b - u256_max) ≡ 0
none_in none = refl
none_in (some y) = ground arith

gain-lem :
    (x y : SwapAmountType)
    → Fits x
    → Fits y
    → (let a = get_or_else (given (amount_of x)) u256_max in
        let b = get_or_else (given (amount_of y)) 0 in if leb b a then 0 else b - a)
      ≡ gain x y
gain-lem (set a) (set b) h k = ground arith
gain-lem (set a) not_set h k = ground arith
gain-lem (set a) stack0 h k = ground arith
gain-lem (set a) (relative_stack b) h k = ground arith
gain-lem (set a) (balance b) h k = ground arith
gain-lem not_set y h k = none_in (amount_of y)
gain-lem stack0 y h k = none_in (amount_of y)
gain-lem (relative_stack a) y h k = none_in (amount_of y)
gain-lem (balance a) y h k = none_in (amount_of y)

pub arb_profit-one :
    (multicaller : ℕ) (line head tail : SwapLine)
    → IsRound line
    → Fits line.amount_in
    → Fits line.amount_out
    → head.amount_in ≡ line.amount_in
    → tail.amount_out ≡ line.amount_out
    → arb_profit (one multicaller head) (one multicaller tail) ≡ abs_profit line
unfolding arb_profit get_in_amount get_out_amount sum_amounts
arb_profit-one multicaller line head tail round h k e f =
    rw (e, f, abs_profit-gain line round) (gain-lem line.amount_in line.amount_out h k)
