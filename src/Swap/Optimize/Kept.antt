-- ===== src/Swap/Optimize/Kept.antt =====
-- What the search keeps: the amounts of the line are those of one calculation.
use kabu.Base.{
  ℕ, zero, suc, ◌≡◌, refl, ap, ◌∙◌, ◌≢◌, inl, inr, Bool, true, false, ◌&&◌, ◌||◌, not, none, some,
  List, [], arith, ltb, ◌==◌, Bool-cases, Option-cases,
}
use kabu.Market.{SwapPath}
use kabu.Swap.{
  SwapLine, set, Result, ok, err, panicked, CalculationResult, calculate_with_in_amount,
}
use kabu.Swap.Optimize.{
  Search, Turn, continues, stops, start, store, shorten, back_up, slow_down, worsen, judge, turn,
  sub_raw, signed_lt, is_negative, optimize_loop, optimize_with_in_amount,
}

-- The line holds a calculation of its own: what its amount in gives.
pub record IsCalculated (path : SwapPath) (line : SwapLine) : Type 0 where
  pub same_path : line.path ≡ path
  pub amount : ℕ
  pub out : ℕ
  pub gas : ℕ
  pub amount_in_set : line.amount_in ≡ set amount
  pub amount_out_set : line.amount_out ≡ set out
  pub gas_set : line.gas_used ≡ some gas
  pub calculated : calculate_with_in_amount path amount ≡ ok (out, gas, line.calculation_results)

-- What the loop keeps: a best profit is there, and the line is calculated.
abbrev Keeps : SwapPath → Turn → Type 0
Keeps path (continues line s) = IsCalculated path line × (s.best_profit ≢ none)
Keeps path (stops (ok line)) = IsCalculated path line
Keeps path (stops (err e)) = Unit
Keeps path (stops panicked) = Unit

store-IsCalculated :
    (line : SwapLine) (amount out gas : ℕ) (results : List CalculationResult)
    → calculate_with_in_amount line.path amount ≡ ok (out, gas, results)
    → IsCalculated line.path (store line amount out gas results)
store-IsCalculated line amount out gas results q = record {
  same_path = refl;
  amount = amount;
  out = out;
  gas = gas;
  amount_in_set = refl;
  amount_out_set = refl;
  gas_set = refl;
  calculated = q;
}

shorten-Keeps :
    (path : SwapPath) (line : SwapLine) (s : Search)
    → IsCalculated path line
    → s.best_profit ≢ none
    → Keeps path (shorten line s)
shorten-Keeps path line s c b = elim (Bool-cases (s.current_step == 1)) [
  | inl y ↦ rw y c
  | inr y ↦ rw y (c, b)
]

worsen-Keeps :
    (path : SwapPath) (line : SwapLine) (s : Search) (profit : ℕ)
    → IsCalculated path line
    → s.best_profit ≢ none
    → Keeps path (worsen line s profit)
unfolding worsen
worsen-Keeps path line s profit c b =
    elim (Bool-cases (s.first_step_change && (s.inc_direction && ltb s.current_step 1000))) [
      | inl y ↦ rw (worsen, y) (c, b)
      | inr y ↦ elim (Bool-cases (s.first_step_change && not s.inc_direction)) [
        | inl z ↦
            rw (worsen, y, z)
              (shorten-Keeps path line (back_up s profit) c (λ q. absurd (ground (arith, q))))
        | inr z ↦ rw (worsen, y, z) (shorten-Keeps path line (slow_down s) c b)
      ]
    ]

judge-Keeps :
    (line : SwapLine) (s : Search) (out gas : ℕ) (results : List CalculationResult)
    → calculate_with_in_amount line.path s.next_amount ≡ ok (out, gas, results)
    → (s.best_profit ≢ none → IsCalculated line.path line)
    → Keeps line.path (judge line s out gas results)
unfolding judge
judge-Keeps line s out gas results q c =
    let stored = store-IsCalculated line s.next_amount out gas results q in
    elim (Option-cases s.best_profit) [
      | inl e ↦ elim (Bool-cases (out == 0 || is_negative (sub_raw out s.next_amount))) [
        | inl y ↦ rw (judge, e, y) stored
        | inr y ↦ rw (judge, e, y) (stored, λ r. absurd (ground (arith, r)))
      ]
      | inr (best, e) ↦
          let has : s.best_profit ≢ none = λ r. absurd (ground (arith, e, r)) in
          elim (Bool-cases (signed_lt (sub_raw out s.next_amount) best || out == 0)) [
            | inl y ↦
                rw (judge, e, y)
                  (worsen-Keeps line.path line s (sub_raw out s.next_amount) (c has) has)
            | inr y ↦ rw (judge, e, y) (stored, λ r. absurd (ground (arith, r)))
          ]
    ]

judge-Keeps_zero :
    (line : SwapLine) (s : Search)
    → s.best_profit ≢ none
    → IsCalculated line.path line
    → Keeps line.path (judge line s 0 0 [])
unfolding judge
judge-Keeps_zero line s b c = elim (Option-cases s.best_profit) [
  | inl e ↦ absurd (b e)
  | inr (best, e) ↦ elim (Bool-cases (signed_lt (sub_raw 0 s.next_amount) best)) [
    | inl y ↦ rw (judge, e, y) (worsen-Keeps line.path line s (sub_raw 0 s.next_amount) c b)
    | inr y ↦ rw (judge, e, y) (worsen-Keeps line.path line s (sub_raw 0 s.next_amount) c b)
  ]
]

turn-Keeps :
    (is_first : Bool) (line : SwapLine) (s : Search)
    → (is_first ≡ false → s.best_profit ≢ none)
    → (s.best_profit ≢ none → IsCalculated line.path line)
    → Keeps line.path (turn is_first line s)
unfolding turn
turn-Keeps is_first line s b c = by_result (calculate_with_in_amount line.path s.next_amount) refl
  where
    by_result :
        (r : Result (ℕ × ℕ × List CalculationResult))
        → calculate_with_in_amount line.path s.next_amount ≡ r
        → Keeps line.path (turn is_first line s)
    by_result (ok (out, gas, results)) e = rw (turn, e) (judge-Keeps line s out gas results e c)
    by_result panicked e = rw (turn, e) tt
    by_result (err x) e = elim (Bool-cases is_first) [
      | inl y ↦ rw (turn, e, y) tt
      | inr y ↦ rw (turn, e, y) (judge-Keeps_zero line s (b y) (c (b y)))
    ]

own_path :
    (path : SwapPath) (line : SwapLine) → IsCalculated path line → IsCalculated line.path line
own_path path line c = record {
  same_path = refl;
  amount = c.amount;
  out = c.out;
  gas = c.gas;
  amount_in_set = c.amount_in_set;
  amount_out_set = c.amount_out_set;
  gas_set = c.gas_set;
  calculated = ap (λ p. calculate_with_in_amount p c.amount) c.same_path ∙ c.calculated;
}

moved_path :
    (path : SwapPath) (line : SwapLine) (r : Turn)
    → line.path ≡ path
    → Keeps line.path r
    → Keeps path r
moved_path path line r e k = rw e at k

optimize_loop-IsCalculated :
    (n : ℕ) (path : SwapPath) (line out : SwapLine) (s : Search)
    → s.best_profit ≢ none
    → IsCalculated path line
    → optimize_loop n false line s ≡ ok out
    → IsCalculated path out
unfolding optimize_loop
optimize_loop-IsCalculated zero path line out s b c q =
    let same : line ≡ out = ground arith in rw same at c
optimize_loop-IsCalculated (suc n) path line out s b c q =
    by_turn (turn false line s) refl
      (moved_path path line (turn false line s) c.same_path
        (turn-Keeps false line s (λ e. b) (λ e. own_path path line c)))
      (λ line' s'. optimize_loop-IsCalculated n path line' out s')
  where
    by_turn :
        (r : Turn)
        → turn false line s ≡ r
        → Keeps path r
        → ((line' : SwapLine) (s' : Search)
            → s'.best_profit ≢ none
            → IsCalculated path line'
            → optimize_loop n false line' s' ≡ ok out
            → IsCalculated path out)
        → IsCalculated path out
    by_turn (continues line' s') e k rest = rest line' s' k.1 k.0 (ground (arith, e))
    by_turn (stops (ok line')) e k rest = let same : line' ≡ out = ground (arith, e) in rw same at k
    by_turn (stops (err x)) e k rest = absurd (ground (arith, e))
    by_turn (stops panicked) e k rest = absurd (ground (arith, e))

-- When the search gives a line, its amounts, gas and results are those of one calculation of the
-- path, at the amount in that it sets; the path is the same.
pub optimize-IsCalculated :
    (line out : SwapLine) (in_amount : ℕ)
    → optimize_with_in_amount line in_amount ≡ ok out
    → IsCalculated line.path out
unfolding optimize_with_in_amount optimize_loop
optimize-IsCalculated line out in_amount q =
    by_turn (turn true line (start in_amount)) refl
      (turn-Keeps true line (start in_amount) (λ e. absurd (ground arith)) (λ e. absurd (e refl)))
  where
    by_turn :
        (r : Turn)
        → turn true line (start in_amount) ≡ r
        → Keeps line.path r
        → IsCalculated line.path out
    by_turn (continues line' s') e k =
        optimize_loop-IsCalculated 29 line.path line' out s' k.1 k.0 (ground (arith, e))
    by_turn (stops (ok line')) e k = let same : line' ≡ out = ground (arith, e) in rw same at k
    by_turn (stops (err x)) e k = absurd (ground (arith, e))
    by_turn (stops panicked) e k = absurd (ground (arith, e))
