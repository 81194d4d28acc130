-- ===== src/Swap/Step/Optimize.antt =====
-- The search for the best amounts of two steps (crates/types/swap/src/swap_step.rs):
-- `optimize_with_middle_amount` and `optimize_with_in_amount`. Sums and products wrap at 256 bits.
pub mod Improves
mod Tests
use kabu.Base.{
  ℕ, zero, suc, ◌+◌, ◌-◌, ◌*◌, ◌/◌, ◌%◌, Bool, true, false, ◌||◌, Option, none, some, List, [], ◌∷◌,
  ltb, leb, ◌==◌, if◌then◌else◌, length, get_elem?, ℤ, ltb_ℤ, is_positive, done, fails, panics,
  ◌>>=◌,
}
use kabu.Types.{u256_mod}
use kabu.Swap.{
  SwapLine, set, Result, ok, err, panicked, CalculationResult, calculate_with_in_amount,
  calculate_with_out_amount,
}
use kabu.Swap.Step.{SwapStep, new, add, amount_of, get_in_amount, get_out_amount}
use kabu.Swap.Step.Calculate.{
  StepResult, in_amount_not_set, too_many_steps, cannot_optimize_swap_step, optimization_failed,
  u256_max, arb_result, step_calculate_with_in_amount, can_calculate_in_amount,
}

-- The variables of the loops: the best steps, those of the next try, and the best profit.
pub record Search : Type 0 where
  pub step_0 : SwapStep
  pub step_1 : SwapStep
  pub step_0_calc : SwapStep
  pub step_1_calc : SwapStep
  pub best_profit : Option ℤ

-- How a turn ends: the loop goes on, or it stops with the steps, an error or a panic.
pub data Turn : Type 0 where
  continues : Search → Turn
  stops : StepResult (SwapStep × SwapStep) → Turn

-- A helper for a turn that may stop inside.
pub or_stop {ℓ} : {A : Type ℓ} → StepResult A → (A → Turn) → Turn
or_stop (done a) f = f a
or_stop (fails e) f = stops (fails e)
or_stop panics f = stops panics

-- `x?` for an amount of a step, and `unwrap()` and an index, which panic.
abbrev pub asked : Option ℕ → StepResult ℕ
asked none = fails in_amount_not_set
asked (some x) = done x

abbrev pub unwrapped {ℓ} : {A : Type ℓ} → Option A → StepResult A
unwrapped none = panics
unwrapped (some x) = done x

-- `r.unwrap_or((d, 0, vec![]))`
abbrev pub calculated_or :
    ℕ → Result (ℕ × ℕ × List CalculationResult) → StepResult (ℕ × ℕ × List CalculationResult)
calculated_or d (ok r) = done r
calculated_or d (err e) = done (d, 0, [])
calculated_or d panicked = panics

-- The steps, where they pay, and else the error.
abbrev pub if_pays : Search → StepResult (SwapStep × SwapStep) → StepResult (SwapStep × SwapStep)
if_pays s other =
    if is_positive (arb_result s.step_0 s.step_1) then done (s.step_0, s.step_1) else other

-- The step with all lines, the one at an index from the try: these lines are added one by one.
pub add_lines : SwapStep → ℕ → ℕ → List SwapLine → List SwapLine → StepResult SwapStep
unfolding add
add_lines merged i ci [] calc = done merged
add_lines merged i ci (line ∷ lines) calc =
    (if ci == i then unwrapped (get_elem? calc ci) else done line) >>= λ chosen.
    unwrapped (add merged chosen) >>= λ next. add_lines next i (suc ci) lines calc

-- The loop over the index `i`: the best of these steps among those that are accepted.
pub best_merged :
    (SwapStep → StepResult Bool)
    → (SwapStep → SwapStep → StepResult Bool)
    → SwapStep
    → List SwapLine
    → ℕ
    → ℕ
    → Option SwapStep
    → StepResult (Option SwapStep)
unfolding add_lines
best_merged accepts improves step calc i zero best = done best
best_merged accepts improves step calc i (suc n) best =
    add_lines (new step.swap_to) i 0 step.swap_line_vec calc >>= λ merged.
    accepts merged >>= λ accepted.
    (if accepted
      then (elim best [
        | none ↦ done (some merged)
        | some b ↦ improves b merged >>= λ better. done (if better then some merged else some b)
      ])
      else done best)
    >>= λ next. best_merged accepts improves step calc (suc i) n next

abbrev pub accepts_all : SwapStep → StepResult Bool
accepts_all s = done true

-- `best.get_in_amount()? > merged.get_in_amount()?`
abbrev pub less_in : SwapStep → SwapStep → StepResult Bool
less_in b m = asked (get_in_amount b) >>= λ x. asked (get_in_amount m) >>= λ y. done (ltb y x)

-- `best.get_out_amount()? < merged.get_out_amount()?`
abbrev pub more_out : SwapStep → SwapStep → StepResult Bool
more_out b m = asked (get_out_amount b) >>= λ x. asked (get_out_amount m) >>= λ y. done (ltb x y)

-- The end of a turn: the merged steps become the best where their profit is better.
pub judge : Search → SwapStep → SwapStep → Turn
judge s merged_0 merged_1 =
    let profit = arb_result merged_0 merged_1 in
    let kept = record s { step_0 = merged_0; step_1 = merged_1; best_profit = some profit } in
    elim s.best_profit [
      | none ↦ continues kept
      | some best ↦
          if ltb_ℤ best profit
          then continues kept
          else stops (if_pays s (fails cannot_optimize_swap_step))
    ]

-- The four amounts that a turn asks for first.
abbrev pub amounts_set : Search → StepResult ℕ
amounts_set s = asked (get_in_amount s.step_0) >>= λ a. asked (get_out_amount s.step_0) >>= λ b.
    asked (get_in_amount s.step_1) >>= λ c. asked (get_out_amount s.step_1)

-- How the lines of a try are changed: by the index, or the loop returns the best steps.
pub data Tried : Type 0 where
  tried : List SwapLine → Tried
  returns : Tried

abbrev pub keep_line : SwapLine → Tried → Tried
keep_line line (tried lines) = tried (line ∷ lines)
keep_line line returns = returns

-- The line of the first step with more out, and of the second with more in.
abbrev pub more_of_0 : SwapLine → ℕ → ℕ → StepResult SwapLine
more_of_0 calc amount_out step =
    if leb u256_mod (amount_out + step)
    then done (record calc { amount_in = set u256_max })
    else (unwrapped (amount_of calc.amount_out) >>= λ old.
        if old == amount_out + step
        then done calc
        else (calculated_or u256_max (calculate_with_out_amount calc.path (amount_out + step))
            >>= λ r. done (record calc {
              amount_in = set r.0;
              amount_out = set (amount_out + step);
              gas_used = some r.1;
              calculation_results = r.2;
            })))

abbrev pub more_of_1 : SwapLine → ℕ → ℕ → StepResult SwapLine
more_of_1 calc amount_in step =
    if leb u256_mod (amount_in + step)
    then done (record calc { amount_out = set 0 })
    else (unwrapped (amount_of calc.amount_in) >>= λ old.
        if old == amount_in + step
        then done calc
        else (calculated_or 0 (calculate_with_in_amount calc.path (amount_in + step)) >>= λ r.
            done (record calc {
              amount_out = set r.0;
              amount_in = set (amount_in + step);
              gas_used = some r.1;
            })))

-- The loops over the lines of the tries, with the lines of the best step.
pub try_out : ℕ → List SwapLine → List SwapLine → StepResult Tried
try_out step lines [] = done (tried [])
try_out step [] (calc ∷ calcs) = panics
try_out step (line ∷ lines) (calc ∷ calcs) = unwrapped (amount_of line.amount_out) >>= λ amount_out.
    if leb amount_out step
    then done returns
    else (more_of_0 calc amount_out step >>= λ changed.
        try_out step lines calcs >>= λ rest. done (keep_line changed rest))

pub try_in : ℕ → List SwapLine → List SwapLine → StepResult Tried
try_in step lines [] = done (tried [])
try_in step [] (calc ∷ calcs) = panics
try_in step (line ∷ lines) (calc ∷ calcs) = unwrapped (amount_of line.amount_in) >>= λ amount_in.
    if leb amount_in step || amount_in == u256_max
    then done returns
    else (more_of_1 calc amount_in step >>= λ changed.
        try_in step lines calcs >>= λ rest. done (keep_line changed rest))

pub with_tried : Search → Tried → (List SwapLine → Turn) → Turn
with_tried s returns f = stops (done (s.step_0, s.step_1))
with_tried s (tried lines) f = f lines

pub judge_best : Search → Option SwapStep → Option SwapStep → Turn
unfolding judge
judge_best s none best_1 = stops (if_pays s (fails cannot_optimize_swap_step))
judge_best s (some m) none = stops (if_pays s (fails cannot_optimize_swap_step))
judge_best s (some m) (some k) = judge s m k

-- A turn of `optimize_with_middle_amount`.
pub middle_turn : ℕ → Search → Turn
unfolding try_out try_in best_merged
middle_turn step s = or_stop (amounts_set s) λ _.
    or_stop (try_out step s.step_0.swap_line_vec s.step_0_calc.swap_line_vec) λ out.
      with_tried s out λ lines_0.
        or_stop (try_in step s.step_1.swap_line_vec s.step_1_calc.swap_line_vec) λ into.
          with_tried s into λ lines_1.
            let t = record s {
              step_0_calc = record s.step_0_calc { swap_line_vec = lines_0 };
              step_1_calc = record s.step_1_calc { swap_line_vec = lines_1 };
            } in
            or_stop
              (best_merged accepts_all less_in s.step_0 lines_0 0 (length s.step_0.swap_line_vec)
                none)
              λ best_0.
                or_stop
                  (best_merged accepts_all more_out s.step_1 lines_1 0
                    (length s.step_1.swap_line_vec) none)
                  λ best_1. judge_best t best_0 best_1

-- The loop, with the turns that are left of thirty.
pub search_loop : (Search → Turn) → ℕ → Search → StepResult (SwapStep × SwapStep)
search_loop turn zero s = if_pays s (fails too_many_steps)
search_loop turn (suc n) s = elim (turn s) [ continues t ↦ search_loop turn n t | stops r ↦ r ]

-- The amount in of each line of the second step: its share of what the first gives.
pub share_lines : ℕ → ℕ → List SwapLine → StepResult (List SwapLine)
share_lines out_0 out_1 [] = done []
share_lines out_0 out_1 (line ∷ lines) = unwrapped (amount_of line.amount_out) >>= λ x.
    if out_1 == 0
    then panics
    else (share_lines out_0 out_1 lines >>= λ rest.
        done (record line { amount_in = set (out_0 * x % u256_mod / out_1) } ∷ rest))

-- What a call on a step leaves, where it does not panic.
abbrev pub left_by {ℓ} : {A : Type ℓ} → SwapStep × StepResult A → StepResult SwapStep
left_by (t, done a) = done t
left_by (t, fails e) = done t
left_by (t, panics) = panics

-- The step as a call leaves it, beside what it gives.
abbrev pub beside : SwapStep × StepResult (ℕ × ℕ) → StepResult (SwapStep × ℕ)
beside (t, done (x, gas)) = done (t, x)
beside (t, fails e) = fails e
beside (t, panics) = panics

abbrev pub first_search : SwapStep → SwapStep → Search
first_search t u =
    let profit = arb_result t u in
    record {
      step_0 = t;
      step_1 = u;
      step_0_calc = t;
      step_1_calc = u;
      best_profit = if is_positive profit then some profit else none;
    }

-- A twentieth of an amount: `amount * 500 / 10000`.
abbrev pub twentieth : ℕ → ℕ
twentieth amount = amount * 500 % u256_mod / 10000

-- What `optimize_with_middle_amount` does before its loop: the first steps, and the change that is
-- tried.
pub middle_start : SwapStep → SwapStep → Option ℕ → StepResult (Search × ℕ)
unfolding share_lines
middle_start step_0 step_1 middle_amount =
    beside (step_calculate_with_in_amount step_0 middle_amount) >>= λ first.
    let t = first.0 in
    asked (get_out_amount t) >>= λ out_0. asked (get_out_amount step_1) >>= λ out_1.
    share_lines out_0 out_1 step_1.swap_line_vec >>= λ lines.
    left_by (step_calculate_with_in_amount (record step_1 { swap_line_vec = lines }) none) >>= λ u.
    done (first_search t u, twentieth first.1)

pub optimize_with_middle_amount : SwapStep → SwapStep → Option ℕ → StepResult (SwapStep × SwapStep)
unfolding middle_start search_loop middle_turn
optimize_with_middle_amount step_0 step_1 middle_amount =
    middle_start step_0 step_1 middle_amount >>= λ s. search_loop (middle_turn s.1) 30 s.0

-- A line with more in, where its amount is more than the change.
abbrev pub more_in : ℕ → SwapLine → SwapLine → StepResult SwapLine
more_in step line calc = unwrapped (amount_of line.amount_in) >>= λ amount.
    if leb amount step
    then done calc
    else (unwrapped (amount_of calc.amount_in) >>= λ old.
        if old == amount - step
        then done calc
        else (calculated_or 0 (calculate_with_in_amount calc.path ((amount + step) % u256_mod))
            >>= λ r. done (record calc {
              amount_in = set ((amount + step) % u256_mod);
              amount_out = set r.0;
              gas_used = some r.1;
              calculation_results = r.2;
            })))

pub try_more_in : ℕ → List SwapLine → List SwapLine → StepResult (List SwapLine)
try_more_in step lines [] = done []
try_more_in step [] (calc ∷ calcs) = panics
try_more_in step (line ∷ lines) (calc ∷ calcs) = more_in step line calc >>= λ changed.
    try_more_in step lines calcs >>= λ rest. done (changed ∷ rest)

-- `step_0.get_in_amount()? >= step && merged.get_in_amount()? == step_0.get_in_amount()? + step`
abbrev pub accepts_more : ℕ → SwapStep → SwapStep → StepResult Bool
accepts_more step step_0 merged = asked (get_in_amount step_0) >>= λ x.
    if ltb x step
    then done false
    else (asked (get_in_amount merged) >>= λ y. done (y == (x + step) % u256_mod))

-- `merged.get_in_amount()? == best_0.get_out_amount()?`
abbrev pub accepts_middle : SwapStep → SwapStep → StepResult Bool
accepts_middle best_0 merged =
    asked (get_in_amount merged) >>= λ x. asked (get_out_amount best_0) >>= λ y. done (x == y)

-- The part of a turn that changes the second step.
pub in_turn_1 : Search → SwapStep → Turn
unfolding try_more_in best_merged
in_turn_1 s best_0 =
    or_stop
      (asked (get_out_amount best_0) >>= λ x.
        asked (get_in_amount s.step_1) >>= λ y. done ((x + (u256_mod - y)) % u256_mod))
      λ change.
        or_stop (try_more_in change s.step_1.swap_line_vec s.step_1_calc.swap_line_vec) λ lines_1.
          let t = record s { step_1_calc = record s.step_1_calc { swap_line_vec = lines_1 } } in
          or_stop
            (best_merged (accepts_middle best_0) more_out s.step_1 lines_1 0
              (length s.step_1.swap_line_vec) none)
            λ best_1. judge_best t (some best_0) best_1

-- A turn of `optimize_with_in_amount`.
pub in_turn : ℕ → Search → Turn
unfolding try_more_in best_merged
in_turn step s = or_stop (amounts_set s) λ _.
    or_stop (try_more_in step s.step_0.swap_line_vec s.step_0_calc.swap_line_vec) λ lines_0.
      let t = record s { step_0_calc = record s.step_0_calc { swap_line_vec = lines_0 } } in
      or_stop
        (best_merged (accepts_more step s.step_0) more_out s.step_0 lines_0 0
          (length s.step_0.swap_line_vec) none)
        λ found. elim found [
          | none ↦ stops (if_pays t (fails optimization_failed))
          | some best_0 ↦ in_turn_1 t best_0
        ]

pub in_start : SwapStep → SwapStep → Option ℕ → StepResult (Search × ℕ)
unfolding share_lines
in_start step_0 step_1 in_amount =
    beside (step_calculate_with_in_amount step_0 in_amount) >>= λ first.
    let t = first.0 in
    asked (get_in_amount t) >>= λ amount. asked (get_out_amount t) >>= λ out_0.
    asked (get_out_amount step_1) >>= λ out_1.
    share_lines out_0 out_1 step_1.swap_line_vec >>= λ lines.
    beside (step_calculate_with_in_amount (record step_1 { swap_line_vec = lines }) none)
    >>= λ second. done (first_search t second.0, twentieth amount)

pub optimize_with_in_amount : SwapStep → SwapStep → Option ℕ → StepResult (SwapStep × SwapStep)
unfolding in_start search_loop in_turn
optimize_with_in_amount step_0 step_1 in_amount =
    in_start step_0 step_1 in_amount >>= λ s. search_loop (in_turn s.1) 30 s.0

pub optimize_swap_steps : SwapStep → SwapStep → Option ℕ → StepResult (SwapStep × SwapStep)
unfolding optimize_with_middle_amount optimize_with_in_amount
optimize_swap_steps step_0 step_1 middle_amount =
    if can_calculate_in_amount step_0
    then optimize_with_middle_amount step_0 step_1 middle_amount
    else optimize_with_in_amount step_0 step_1 middle_amount
