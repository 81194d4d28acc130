-- ===== src/Multicaller/Encode/Agree.antt =====
-- The two ways to encode a swap agree.
use kabu.Base.{
  ℕ, suc, ◌≡◌, refl, sym, ap, ◌∙◌, false, Option, none, some, List, [], ◌∷◌, arith, ◌==◌, done,
  ◌>>=◌, Gives, gives, >>=-Gives, >>=-Gives_after, Gives-done, >>=_cong,
}
use kabu.Swap.{SwapLine}
use mathlib.Core.Path.{subst}
use kabu.Multicaller.{MulticallerCalls}
use kabu.Swap.Step.{SwapStep}
use kabu.Swap.Tips.Value.{count_swaps}
use kabu.Swap.Whole.{
  Swap, Swaps, nothing, exchange_swap_line, backrun_swap_steps, backrun_swap_line, multiple, end,
  entry, to_swap_steps,
}
use kabu.Multicaller.Lines.{swap_type_not_covered, EncodeError, aa, SwapOpcodesEncoder, AbiEncoder}
use kabu.Multicaller.Steps.{encode_do_calls, encode_swap_steps, to_call_data}
use kabu.Multicaller.Encode.{
  covered, make_calls, make_first, make_each, steps_of, steps_of_each, encode_each, swap_calls,
  with_tips, encode,
}

covered-eq :
    (e : EncodeError) (o : Option (Option (SwapStep × SwapStep))) (x : SwapStep × SwapStep)
    → covered e o ≡ done x
    → o ≡ some (some x)
covered-eq e none x h = absurd (ground (arith, h))
covered-eq e (some none) x h = absurd (ground (arith, h))
covered-eq e (some (some y)) x h = ground (arith, h)

two_not_one : (n : ℕ) → (suc (suc n) == 1) ≡ false
two_not_one n = ground arith

module _ (encoder : SwapOpcodesEncoder) (abi : AbiEncoder) (multicaller : ℕ) where
  data Stepped : Swaps → List (SwapStep × SwapStep) → Type 0 where
    ended : Stepped end []
    stepped :
        (s : Swap) (ss : Swaps) (x : SwapStep × SwapStep) (xs : List (SwapStep × SwapStep))
        → to_swap_steps s multicaller ≡ some (some x)
        → Stepped ss xs
        → Stepped (entry s ss) (x ∷ xs)

  steps_of_each-Stepped :
      (ss : Swaps) → Gives (Stepped ss) (steps_of_each encoder abi multicaller ss)
  unfolding steps_of_each
  steps_of_each-Stepped end = gives _ ended
  steps_of_each-Stepped (entry s ss) = >>=-Gives _ _ _ λ x e.
      >>=-Gives_after _ _ _ _ (steps_of_each-Stepped ss)
        λ xs h. gives _ (stepped s ss x xs (covered-eq aa _ x e) h)

  make_calls-line :
      (line : SwapLine) (x : SwapStep × SwapStep)
      → to_swap_steps (backrun_swap_line line) multicaller ≡ some (some x)
      → make_calls encoder abi multicaller (backrun_swap_line line)
        ≡ encode_swap_steps encoder abi multicaller x.0 x.1
  unfolding make_calls ◌>>=◌
  make_calls-line line x e = rw e refl

  make_calls-steps :
      (s : Swap) (x : SwapStep × SwapStep)
      → to_swap_steps s multicaller ≡ some (some x)
      → make_calls encoder abi multicaller s ≡ encode_swap_steps encoder abi multicaller x.0 x.1
  unfolding make_calls to_swap_steps
  make_calls-steps nothing x e = absurd (ground (arith, e))
  make_calls-steps (exchange_swap_line line) x e = absurd (ground (arith, e))
  make_calls-steps (backrun_swap_line line) x e = make_calls-line line x e
  make_calls-steps (backrun_swap_steps a b) x e =
      let same : ◌≡◌ {A = SwapStep × SwapStep} (a, b) x = ground (arith, e) in
      ap (λ y. encode_swap_steps encoder abi multicaller y.0 y.1) same
  make_calls-steps (multiple ss) x e = absurd (ground (arith, e))

  make_each-steps :
      (ss : Swaps) (xs : List (SwapStep × SwapStep)) (calls : MulticallerCalls)
      → Stepped ss xs
      → make_each encoder abi multicaller calls ss ≡ encode_each encoder abi multicaller calls xs
  unfolding make_each encode_each
  make_each-steps _ _ calls ended = refl
  make_each-steps _ _ calls (stepped s ss x xs e h) =
      ap
        (λ r. r >>= λ inside. encode_do_calls encoder abi multicaller calls inside >>= λ next.
          make_each encoder abi multicaller next ss)
        (make_calls-steps s x e)
      ∙ >>=_cong _ _ _ λ inside. >>=_cong _ _ _ λ next. make_each-steps ss xs next h

  make_multiple-steps :
      (ss : Swaps) (x : SwapStep × SwapStep) (xs : List (SwapStep × SwapStep))
      → Stepped ss (x ∷ xs)
      → make_calls encoder abi multicaller (multiple ss)
        ≡ swap_calls encoder abi multicaller (multiple ss) (x ∷ xs)
  unfolding make_calls make_first swap_calls
  make_multiple-steps _ x _ (stepped s _ _ _ e ended) = make_calls-steps s x e
  make_multiple-steps _ x _ (stepped s _ _ _ e (stepped t ts y ys f h)) =
      rw (two_not_one (count_swaps ts)) (
        make_each-steps (entry s (entry t ts)) (x ∷ y ∷ ys) []
          (stepped s (entry t ts) x (y ∷ ys) e (stepped t ts y ys f h)))

  -- One swap has its own steps alone.
  abbrev Single : Swap → List (SwapStep × SwapStep) → Type 0
  Single swap xs =
      (z : SwapStep × SwapStep) × (xs ≡ z ∷ []) × (to_swap_steps swap multicaller ≡ some (some z))

  Single-steps :
      (swap : Swap) (xs : List (SwapStep × SwapStep))
      → Single swap xs
      → make_calls encoder abi multicaller swap ≡ swap_calls encoder abi multicaller swap xs
  unfolding swap_calls
  Single-steps swap xs (z, e, f) =
      subst
        (λ ys. make_calls encoder abi multicaller swap ≡ swap_calls encoder abi multicaller swap ys)
        (sym e) (make_calls-steps swap z f)

  -- The calls without tips, where the swap has steps.
  make_calls-swap_calls :
      (swap : Swap) (x : SwapStep × SwapStep) (xs : List (SwapStep × SwapStep))
      → steps_of encoder abi multicaller swap ≡ done (x ∷ xs)
      → make_calls encoder abi multicaller swap ≡ swap_calls encoder abi multicaller swap (x ∷ xs)
  unfolding steps_of
  make_calls-swap_calls nothing x xs e = absurd (ground (arith, e))
  make_calls-swap_calls (exchange_swap_line line) x xs e = absurd (ground (arith, e))
  make_calls-swap_calls (backrun_swap_line line) x xs e =
      Single-steps (backrun_swap_line line) (x ∷ xs) (
        Gives-done (Single (backrun_swap_line line)) (x ∷ xs) (
          subst (Gives (Single (backrun_swap_line line))) e
            (>>=-Gives _ _ _ λ z f. gives _ (z, refl, covered-eq swap_type_not_covered _ z f))))
  make_calls-swap_calls (backrun_swap_steps a b) x xs e =
      Single-steps (backrun_swap_steps a b) (x ∷ xs) (
        Gives-done (Single (backrun_swap_steps a b)) (x ∷ xs) (
          subst (Gives (Single (backrun_swap_steps a b))) e
            (>>=-Gives _ _ _ λ z f. gives _ (z, refl, covered-eq swap_type_not_covered _ z f))))
  make_calls-swap_calls (multiple ss) x xs e =
      make_multiple-steps ss x xs
        (Gives-done (Stepped ss) (x ∷ xs) (subst (Gives (Stepped ss)) e (steps_of_each-Stepped ss)))

  -- Where a swap has steps and no tips are asked for, `encode` gives the address and the packed
  -- calls that `make_calls` and `encode_calls` give.
  pub encode-make_calls :
      (swap : Swap) (x : SwapStep × SwapStep) (xs : List (SwapStep × SwapStep))
      (gas_cost sender eth_balance : Option ℕ) (random : ℕ)
      → steps_of encoder abi multicaller swap ≡ done (x ∷ xs)
      → encode encoder abi multicaller swap none gas_cost sender eth_balance random ≡ (
          make_calls encoder abi multicaller swap >>= λ calls.
          to_call_data encoder abi multicaller calls >>= λ called. done (called.0, called.1, []))
  unfolding encode with_tips ◌>>=◌
  encode-make_calls swap x xs gas_cost sender eth_balance random e =
      rw (e, make_calls-swap_calls swap x xs e) refl
