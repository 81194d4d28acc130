-- ===== src/Multicaller/Steps.antt =====
-- The calls of two steps (crates/execution/multicaller/src/swapstep_encoder.rs).
use kabu.Base.{
  ℕ, Bool, true, false, ◌||◌, Option, none, some, List, [], ◌∷◌, reverse, ltb, if◌then◌else◌,
  length, done, fails, panics, ◌>>=◌,
}
use kabu.Market.{Token, Pool}
use kabu.Multicaller.{MulticallerCalls, call, new, add, merge, pack_do_calls_data}
use kabu.Swap.{SwapLine, balance, line_first_token}
use kabu.Swap.Step.{SwapStep, get_in_amount}
use kabu.Swap.Step.Calculate.{step_can_flash_swap, get_first_pool}
use kabu.Multicaller.Lines.{
  EncodeResult, wrong_opcode, SwapOpcodesEncoder, AbiEncoder, encode_swap_line_in_amount,
  encode_flash_swap_line_in_amount, encode_flash_swap_line_out_amount,
}

abbrev pub balancer_vault_address : ℕ
balancer_vault_address = 0xBA12222222228d8Ba445958a75a0704d566BF2C8

abbrev pub unwrap {ℓ} : {A : Type ℓ} → Option A → EncodeResult A
unwrap none = panics
unwrap (some a) = done a

abbrev pub packed_or : Option (List ℕ) → EncodeResult (List ℕ)
packed_or none = fails wrong_opcode
packed_or (some packed) = done packed

-- The last line takes the balance of the multicaller; a step without lines panics.
abbrev pub take_balance : ℕ → List SwapLine → EncodeResult (List SwapLine)
take_balance multicaller [] = panics
take_balance multicaller (line ∷ lines) =
    let rest = take_balance multicaller lines in
    elim lines [
      | [] ↦ done (record line { amount_in = balance multicaller } ∷ [])
      | other ∷ others ↦ rest >>= λ changed. done (line ∷ changed)
    ]

-- `SwapStep::first_token`
abbrev pub first_token : SwapStep → Option Token
first_token s = elim s.swap_line_vec [ [] ↦ none | line ∷ lines ↦ line_first_token line ]

module _ (encoder : SwapOpcodesEncoder) (abi : AbiEncoder) (multicaller : ℕ) where
  -- `OpcodesEncoderV2::pack_do_calls`
  abbrev pub pack_do_calls : MulticallerCalls → EncodeResult (List ℕ)
  pack_do_calls calls =
      packed_or (pack_do_calls_data calls) >>= λ packed. done (abi.do_calls packed)

  pub encode_do_calls : MulticallerCalls → MulticallerCalls → EncodeResult MulticallerCalls
  encode_do_calls calls inside =
      pack_do_calls inside >>= λ bytes. done (add calls (new call multicaller bytes none))

  -- Each line as a call of the multicaller itself.
  pub add_lines : MulticallerCalls → List SwapLine → EncodeResult MulticallerCalls
  unfolding encode_do_calls
  add_lines calls [] = done calls
  add_lines calls (line ∷ lines) =
      encode_swap_line_in_amount encoder multicaller line none >>= λ inside.
      encode_do_calls calls inside >>= λ next. add_lines next lines

  -- The lines of a step: one line as it is, with where its funds go to, and more as calls.
  abbrev pub add_step :
      MulticallerCalls → List SwapLine → Option Pool → EncodeResult MulticallerCalls
  add_step calls [] funds_to = done calls
  add_step calls (line ∷ []) funds_to =
      encode_swap_line_in_amount encoder multicaller line funds_to >>= λ inside.
      done (merge calls inside)
  add_step calls (line ∷ other ∷ lines) funds_to = add_lines calls (line ∷ other ∷ lines)

  -- The steps of a flash loan; those after the first take the balance.
  pub add_steps : Bool → MulticallerCalls → List SwapStep → EncodeResult MulticallerCalls
  unfolding add_lines
  add_steps first calls [] = done calls
  add_steps first calls (s ∷ ss) =
      (if first then done s.swap_line_vec else take_balance multicaller s.swap_line_vec)
      >>= λ lines. add_step calls lines none >>= λ next. add_steps false next ss

  pub encode_balancer_flash_loan : List SwapStep → EncodeResult MulticallerCalls
  unfolding add_steps
  encode_balancer_flash_loan [] = panics
  encode_balancer_flash_loan (first ∷ rest) = unwrap (first_token first) >>= λ token.
      unwrap (get_in_amount first) >>= λ in_amount. add_steps true [] (first ∷ rest) >>= λ calls.
      packed_or (pack_do_calls_data calls) >>= λ inside. done (
        new call balancer_vault_address
          (abi.balancer_flashloan token.address in_amount inside multicaller) none
        ∷ [])

  -- The loops over the reversed lines of the step that is flash swapped.
  pub flash_in_lines :
      Option Pool → MulticallerCalls → List SwapLine → EncodeResult MulticallerCalls
  flash_in_lines funds_to calls [] = done calls
  flash_in_lines funds_to calls (line ∷ lines) =
      encode_flash_swap_line_in_amount encoder multicaller line calls funds_to >>= λ next.
      flash_in_lines funds_to next lines

  pub flash_out_lines : MulticallerCalls → List SwapLine → EncodeResult MulticallerCalls
  flash_out_lines calls [] = done calls
  flash_out_lines calls (line ∷ lines) =
      encode_flash_swap_line_out_amount encoder multicaller line calls >>= λ next.
      flash_out_lines next lines

  pub encode_in_amount : SwapStep → SwapStep → EncodeResult MulticallerCalls
  unfolding add_lines flash_in_lines
  encode_in_amount flash_step swap_step =
      (if ltb 1 (length flash_step.swap_line_vec) || ltb 1 (length swap_step.swap_line_vec)
        then take_balance multicaller swap_step.swap_line_vec
        else done swap_step.swap_line_vec)
      >>= λ lines. add_step [] lines none >>= λ calls.
          flash_in_lines (get_first_pool (record swap_step { swap_line_vec = lines })) calls
            (reverse flash_step.swap_line_vec)

  pub encode_out_amount : SwapStep → SwapStep → EncodeResult MulticallerCalls
  unfolding add_lines flash_out_lines
  encode_out_amount swap_step flash_step =
      add_step [] swap_step.swap_line_vec (get_first_pool flash_step) >>= λ calls.
      flash_out_lines calls (reverse flash_step.swap_line_vec)

  pub encode_swap_steps : SwapStep → SwapStep → EncodeResult MulticallerCalls
  unfolding encode_in_amount encode_out_amount encode_balancer_flash_loan
  encode_swap_steps sp0 sp1 =
      if step_can_flash_swap sp0
      then encode_in_amount sp0 sp1
      else (if step_can_flash_swap sp1
          then encode_out_amount sp0 sp1
          else encode_balancer_flash_loan (sp0 ∷ sp1 ∷ []))

  pub to_call_data : MulticallerCalls → EncodeResult (ℕ × List ℕ)
  to_call_data calls = pack_do_calls calls >>= λ bytes. done (multicaller, bytes)
