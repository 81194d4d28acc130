-- ===== src/Swap/Step/Optimize/Improves.antt =====
-- The search for the best amounts of two steps never gives less profit than its first steps, where
-- these pay.
use mathlib.Core.Path.{subst}
use kabu.Base.{
  ℕ, zero, suc, ◌≡◌, refl, sym, ap, ◌∙◌, inl, inr, true, Option, none, some, List, arith,
  if◌then◌else◌, Bool-cases, Gives, gives, Gives-done, >>=-Gives, ℤ, ◌≤ℤ◌, ltb_ℤ, is_positive, done,
  fails, panics, ◌>>=◌,
}
use kabu.Swap.{SwapLine}
use kabu.Swap.Step.{SwapStep}
use kabu.Swap.Step.Calculate.{
  StepResult, StepError, arb_result, can_calculate_in_amount, cannot_optimize_swap_step,
  too_many_steps, optimization_failed,
}
use kabu.Swap.Step.Optimize.{
  Search, Turn, continues, stops, or_stop, if_pays, judge, judge_best, Tried, tried, returns,
  with_tried, middle_turn, in_turn_1, in_turn, search_loop, first_search, middle_start, in_start,
  optimize_with_middle_amount, optimize_with_in_amount, optimize_swap_steps,
}

judge-eq :
    (s : Search) (a b : SwapStep) (best : ℤ)
    → s.best_profit ≡ some best
    → judge s a b ≡ (
        if ltb_ℤ best (arb_result a b)
        then continues (record s { step_0 = a; step_1 = b; best_profit = some (arb_result a b) })
        else stops (if_pays s (fails cannot_optimize_swap_step)))
unfolding judge
judge-eq s a b best e = ground (arith, e)

module _ (least : ℤ) where
  -- The best profit is that of the best steps, and at least the least one.
  record Keeps (s : Search) : Type 0 where
    best : s.best_profit ≡ some (arb_result s.step_0 s.step_1)
    at_least : least ≤ℤ arb_result s.step_0 s.step_1

  abbrev Good : StepResult (SwapStep × SwapStep) → Type 0
  Good (done (a, b)) = least ≤ℤ arb_result a b
  Good (fails e) = Unit
  Good panics = Unit

  data KeepsTurn : Turn → Type 0 where
    goes_on : (s : Search) → Keeps s → KeepsTurn (continues s)
    ends : (r : StepResult (SwapStep × SwapStep)) → Good r → KeepsTurn (stops r)

  or_stop-Keeps {ℓ} :
      {A : Type ℓ} (r : StepResult A) (f : A → Turn)
      → ((a : A) → KeepsTurn (f a))
      → KeepsTurn (or_stop r f)
  unfolding or_stop
  or_stop-Keeps (done a) f h = h a
  or_stop-Keeps (fails e) f h = ends (fails e) tt
  or_stop-Keeps panics f h = ends panics tt

  if_pays-Good : (s : Search) (e : StepError) → Keeps s → Good (if_pays s (fails e))
  if_pays-Good s e k = elim (Bool-cases (is_positive (arb_result s.step_0 s.step_1))) [
    | inl y ↦ rw y k.at_least
    | inr y ↦ rw y tt
  ]

  judge-Keeps : (s : Search) (a b : SwapStep) → Keeps s → KeepsTurn (judge s a b)
  judge-Keeps s a b k =
      let best = arb_result s.step_0 s.step_1 in
      let profit = arb_result a b in
      let kept = record s { step_0 = a; step_1 = b; best_profit = some profit } in
      let judged = judge-eq s a b best k.best in
      elim (Bool-cases (ltb_ℤ best profit)) [
        | inl y ↦
            let least_kept : least ≤ℤ profit = ground (arith, y, k.at_least) in
            subst KeepsTurn (sym (rw y at judged))
              (goes_on kept (record { best = refl; at_least = least_kept }))
        | inr y ↦
            subst KeepsTurn (sym (rw y at judged))
              (ends _ (if_pays-Good s cannot_optimize_swap_step k))
      ]

  judge_best-Keeps : (s : Search) (a b : Option SwapStep) → Keeps s → KeepsTurn (judge_best s a b)
  unfolding judge_best
  judge_best-Keeps s none b k = ends _ (if_pays-Good s cannot_optimize_swap_step k)
  judge_best-Keeps s (some a) none k = ends _ (if_pays-Good s cannot_optimize_swap_step k)
  judge_best-Keeps s (some a) (some b) k = judge-Keeps s a b k

  with_tried-Keeps :
      (s : Search) (t : Tried) (f : List SwapLine → Turn)
      → Keeps s
      → ((lines : List SwapLine) → KeepsTurn (f lines))
      → KeepsTurn (with_tried s t f)
  unfolding with_tried
  with_tried-Keeps s returns f k h = ends _ k.at_least
  with_tried-Keeps s (tried lines) f k h = h lines

  middle_turn-Keeps : (step : ℕ) (s : Search) → Keeps s → KeepsTurn (middle_turn step s)
  unfolding middle_turn
  middle_turn-Keeps step s k = or_stop-Keeps _ _ λ _. or_stop-Keeps _ _ λ out.
      with_tried-Keeps s out _ k λ lines_0. or_stop-Keeps _ _ λ into.
        with_tried-Keeps s into _ k λ lines_1. or_stop-Keeps _ _ λ best_0.
          or_stop-Keeps _ _ λ best_1.
            judge_best-Keeps _ best_0 best_1 (record { best = k.best; at_least = k.at_least })

  in_turn_1-Keeps : (s : Search) (best_0 : SwapStep) → Keeps s → KeepsTurn (in_turn_1 s best_0)
  unfolding in_turn_1
  in_turn_1-Keeps s best_0 k = or_stop-Keeps _ _ λ change. or_stop-Keeps _ _ λ lines_1.
      or_stop-Keeps _ _ λ best_1.
        judge_best-Keeps _ (some best_0) best_1 (record { best = k.best; at_least = k.at_least })

  in_found-Keeps :
      (s : Search) (found : Option SwapStep)
      → Keeps s
      → KeepsTurn (elim found [
        | none ↦ stops (if_pays s (fails optimization_failed))
        | some best_0 ↦ in_turn_1 s best_0
      ])
  in_found-Keeps s none k = ends _ (if_pays-Good s optimization_failed k)
  in_found-Keeps s (some best_0) k = in_turn_1-Keeps s best_0 k

  in_turn-Keeps : (step : ℕ) (s : Search) → Keeps s → KeepsTurn (in_turn step s)
  unfolding in_turn
  in_turn-Keeps step s k = or_stop-Keeps _ _ λ _. or_stop-Keeps _ _ λ lines_0.
      or_stop-Keeps _ _
        λ found. in_found-Keeps _ found (record { best = k.best; at_least = k.at_least })

  turn-Good :
      (turn : Search → Turn) (n : ℕ)
      → ((u : Search) → Keeps u → Good (search_loop turn n u))
      → (t : Turn) → KeepsTurn t
      → Good (elim t [ continues u ↦ search_loop turn n u | stops r ↦ r ])
  turn-Good turn n rest (continues u) (goes_on _ k) = rest u k
  turn-Good turn n rest (stops r) (ends _ g) = g

  search_loop-Good :
      (turn : Search → Turn)
      → ((s : Search) → Keeps s → KeepsTurn (turn s))
      → (n : ℕ) (s : Search) → Keeps s
      → Good (search_loop turn n s)
  unfolding search_loop
  search_loop-Good turn h zero s k = if_pays-Good s too_many_steps k
  search_loop-Good turn h (suc n) s k =
      turn-Good turn n (λ u. search_loop-Good turn h n u) (turn s) (h s k)

-- What the search begins with: the first steps and the change that is tried.
abbrev pub start : SwapStep → SwapStep → Option ℕ → StepResult (Search × ℕ)
start step_0 step_1 amount =
    if can_calculate_in_amount step_0
    then middle_start step_0 step_1 amount
    else in_start step_0 step_1 amount

-- A search that begins with its own steps.
abbrev Begun : Search × ℕ → Type 0
Begun (s, change) = s ≡ first_search s.step_0 s.step_1

middle_start-Begins :
    (step_0 step_1 : SwapStep) (amount : Option ℕ) → Gives Begun (middle_start step_0 step_1 amount)
unfolding middle_start
middle_start-Begins step_0 step_1 amount = >>=-Gives _ _ _ λ _ _.
    >>=-Gives _ _ _
      λ _ _. >>=-Gives _ _ _ λ _ _. >>=-Gives _ _ _ λ _ _. >>=-Gives _ _ _ λ _ _. gives _ refl

in_start-Begins :
    (step_0 step_1 : SwapStep) (amount : Option ℕ) → Gives Begun (in_start step_0 step_1 amount)
unfolding in_start
in_start-Begins step_0 step_1 amount = >>=-Gives _ _ _ λ _ _. >>=-Gives _ _ _ λ _ _.
    >>=-Gives _ _ _
      λ _ _. >>=-Gives _ _ _ λ _ _. >>=-Gives _ _ _ λ _ _. >>=-Gives _ _ _ λ _ _. gives _ refl

first-Keeps :
    (s : Search)
    → s ≡ first_search s.step_0 s.step_1
    → is_positive (arb_result s.step_0 s.step_1) ≡ true
    → Keeps (arb_result s.step_0 s.step_1) s
first-Keeps s e p = record { best = ap (λ u. u.best_profit) e ∙ rw p refl; at_least = ground arith }

searched :
    (turn : ℕ → Search → Turn)
    → ((least : ℤ) (step : ℕ) (s : Search) → Keeps least s → KeepsTurn least (turn step s))
    → (r : StepResult (Search × ℕ)) → Gives Begun r
    → (s : Search) (change : ℕ) (a b : SwapStep) → r ≡ done (s, change)
    → is_positive (arb_result s.step_0 s.step_1) ≡ true
    → (r >>= λ t. search_loop (turn t.1) 30 t.0) ≡ done (a, b)
    → arb_result s.step_0 s.step_1 ≤ℤ arb_result a b
unfolding ◌>>=◌
searched turn h r begins s change a b began pays found =
    let least = arb_result s.step_0 s.step_1 in
    let first =
      first-Keeps s (Gives-done Begun (s, change) (subst (Gives Begun) began begins)) pays in
    let ran : search_loop (turn change) 30 s ≡ done (a, b) = rw began at found in
    subst (Good least) ran (search_loop-Good least (turn change) (h least change) 30 s first)

-- Where the first steps of the search, those that the amounts of the call lead to, pay, the steps
-- that `optimize_swap_steps` gives have at least their profit.
pub optimize_swap_steps-improves :
    (step_0 step_1 : SwapStep) (amount : Option ℕ) (s : Search) (change : ℕ) (a b : SwapStep)
    → start step_0 step_1 amount ≡ done (s, change)
    → is_positive (arb_result s.step_0 s.step_1) ≡ true
    → optimize_swap_steps step_0 step_1 amount ≡ done (a, b)
    → arb_result s.step_0 s.step_1 ≤ℤ arb_result a b
unfolding optimize_swap_steps optimize_with_middle_amount optimize_with_in_amount
optimize_swap_steps-improves step_0 step_1 amount s change a b began pays found =
    elim (Bool-cases (can_calculate_in_amount step_0)) [
      | inl y ↦
          searched middle_turn middle_turn-Keeps _ (middle_start-Begins step_0 step_1 amount) s
            change a b (rw y at began) pays (rw y at found)
      | inr y ↦
          searched in_turn in_turn-Keeps _ (in_start-Begins step_0 step_1 amount) s change a b
            (rw y at began) pays (rw y at found)
    ]
