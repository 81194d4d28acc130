-- ===== src/Multicaller/Encode.antt =====
-- The calls of a whole swap, by the two ways of crates/execution/multicaller/src/multicaller_encoder.rs
-- and swap_encoder.rs.
pub mod Agree
mod Tests
use kabu.Base.{
  ℕ, zero, suc, ◌+◌, ◌-◌, ◌*◌, ◌/◌, ◌%◌, ◌^◌, ◌≤◌, ◌<◌, ◌≡◌, refl, sym, ap, ◌∙◌, ◌≢◌, ◌↔◌, ◌⊎◌, inl,
  inr, Bool, true, false, ◌&&◌, ◌||◌, not, Option, none, some, List, [], ◌∷◌, ◌++◌, map, reverse,
  arith, ltb, leb, ◌==◌, if◌then◌else◌, ltb→lt, lt→ltb, leb→le, ==_iff, ==_refl, Bool-cases,
  Option-cases, is_some, get_or_else, length, get_elem?, take, drop, head?, get_last?, any, All,
  length-append, take-append-drop, length-take, length-drop, get_last?-append, All-append, HashMap,
  lookup, contains_key, insert, erase, retain, alter, values, lookup-insert, lookup-insert_self,
  lookup-insert_ne, lookup-erase, lookup-retain_key, IsMap, insert-IsMap, lookup-retain,
  retain-IsMap, erase-IsMap, any-values, Outcome, done, fails, panics, ◌>>=◌,
}
use kabu.Multicaller.{MulticallerCalls}
use kabu.Swap.{SwapLine}
use kabu.Swap.Step.{SwapStep, to_swap_steps as line_to_swap_steps}
use kabu.Swap.Whole.{
  Swap, Swaps, nothing, exchange_swap_line, backrun_swap_steps, backrun_swap_line, multiple, end,
  entry, to_swap_steps,
}
use kabu.Swap.Tips.Value.{count_swaps, Tips, TipsResult, tips_and_value_for_swap_type}
use kabu.Multicaller.Lines.{
  aa, EncodeResult, EncodeError, encoding_failed, no_swap_steps, swap_type_not_covered,
  swap_type_not_supported, aa, tips_failed, SwapOpcodesEncoder, AbiEncoder,
  encode_swap_line_in_amount, encode_tips,
}
use kabu.Multicaller.Steps.{encode_do_calls, encode_swap_steps, to_call_data}

abbrev pub covered :
    EncodeError → Option (Option (SwapStep × SwapStep)) → EncodeResult (SwapStep × SwapStep)
covered e none = panics
covered e (some none) = fails e
covered e (some (some steps)) = done steps

-- The error of the tips as one of the encoding.
abbrev pub or_tips_failed {ℓ} : {A : Type ℓ} → TipsResult A → EncodeResult A
or_tips_failed (done a) = done a
or_tips_failed (fails e) = fails (tips_failed e)
or_tips_failed panics = panics

abbrev pub or_encoding_failed {ℓ} : {A : Type ℓ} → EncodeResult A → EncodeResult A
or_encoding_failed (done a) = done a
or_encoding_failed (fails e) = fails encoding_failed
or_encoding_failed panics = panics

module _ (encoder : SwapOpcodesEncoder) (abi : AbiEncoder) (multicaller : ℕ) where
  -- `MulticallerEncoder::make_calls`, for one swap and for each of several.
  unfoldable mutual
    pub make_calls : Swap → EncodeResult MulticallerCalls
    make_calls (backrun_swap_line line) =
        covered swap_type_not_covered (to_swap_steps (backrun_swap_line line) multicaller) >>= λ s.
        encode_swap_steps encoder abi multicaller s.0 s.1
    make_calls (backrun_swap_steps a b) = encode_swap_steps encoder abi multicaller a b
    make_calls (multiple swaps) =
        if count_swaps swaps == 1 then make_first swaps else make_each [] swaps
    make_calls nothing = fails swap_type_not_supported
    make_calls (exchange_swap_line line) = fails swap_type_not_supported

    pub make_first : Swaps → EncodeResult MulticallerCalls
    make_first end = panics
    make_first (entry s swaps) = make_calls s

    pub make_each : MulticallerCalls → Swaps → EncodeResult MulticallerCalls
    make_each calls end = done calls
    make_each calls (entry s swaps) = make_calls s >>= λ inside.
        encode_do_calls encoder abi multicaller calls inside >>= λ next. make_each next swaps

  -- The steps of each swap.
  pub steps_of_each : Swaps → EncodeResult (List (SwapStep × SwapStep))
  steps_of_each end = done []
  steps_of_each (entry s swaps) = covered aa (to_swap_steps s multicaller) >>= λ steps.
      steps_of_each swaps >>= λ rest. done (steps ∷ rest)

  pub steps_of : Swap → EncodeResult (List (SwapStep × SwapStep))
  unfolding steps_of_each
  steps_of (backrun_swap_line line) =
      covered swap_type_not_covered (to_swap_steps (backrun_swap_line line) multicaller) >>= λ s.
      done (s ∷ [])
  steps_of (backrun_swap_steps a b) =
      covered swap_type_not_covered (to_swap_steps (backrun_swap_steps a b) multicaller) >>= λ s.
      done (s ∷ [])
  steps_of (multiple swaps) = steps_of_each swaps
  steps_of nothing = done []
  steps_of (exchange_swap_line line) = done []

  pub encode_each : MulticallerCalls → List (SwapStep × SwapStep) → EncodeResult MulticallerCalls
  encode_each calls [] = done calls
  encode_each calls (s ∷ ss) = encode_swap_steps encoder abi multicaller s.0 s.1 >>= λ inside.
      encode_do_calls encoder abi multicaller calls inside >>= λ next. encode_each next ss

  -- The calls without the tips.
  pub swap_calls : Swap → List (SwapStep × SwapStep) → EncodeResult MulticallerCalls
  unfolding encode_each
  swap_calls (exchange_swap_line line) [] =
      or_encoding_failed (encode_swap_line_in_amount encoder multicaller line none)
  swap_calls swap [] = fails no_swap_steps
  swap_calls swap (s ∷ []) = encode_swap_steps encoder abi multicaller s.0 s.1
  swap_calls swap (s ∷ t ∷ ss) = encode_each [] (s ∷ t ∷ ss)

  abbrev pub add_each_tips : ℕ → MulticallerCalls → List Tips → MulticallerCalls
  add_each_tips sender calls [] = calls
  add_each_tips sender calls (t ∷ ts) =
      add_each_tips sender (encode_tips abi calls t.token_in.address t.min_change t.tips sender) ts

  -- The calls with the tips, where all that they need is given.
  pub with_tips :
      Swap
      → Option ℕ
      → Option ℕ
      → Option ℕ
      → Option ℕ
      → ℕ
      → MulticallerCalls
      → EncodeResult (MulticallerCalls × List Tips)
  with_tips swap (some pct) gas_cost (some sender) (some eth_balance) random calls =
      or_tips_failed (tips_and_value_for_swap_type swap (some pct) gas_cost eth_balance random)
      >>= λ t. done (add_each_tips sender calls t.0, t.0)
  with_tips swap pct gas_cost sender eth_balance random calls = done (calls, [])

  -- `SwapEncoder::encode`; the value that it returns is never set.
  pub encode :
      Swap → Option ℕ → Option ℕ → Option ℕ → Option ℕ → ℕ → EncodeResult (ℕ × List ℕ × List Tips)
  unfolding steps_of swap_calls with_tips
  encode swap pct gas_cost sender eth_balance random = steps_of swap >>= λ steps.
      swap_calls swap steps >>= λ calls.
      with_tips swap pct gas_cost sender eth_balance random calls >>= λ t.
      to_call_data encoder abi multicaller t.0 >>= λ called. done (called.0, called.1, t.1)
