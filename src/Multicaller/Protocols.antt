-- ===== src/Multicaller/Protocols.antt =====
-- The encoders of Uniswap v2 and v3 pools (uniswap2.rs, uniswap3.rs and swap_opcodes_encoders.rs of
-- crates/execution/multicaller/src/pool_opcodes_encoder). What pools answer and the ABI encodes is a
-- parameter.
pub mod Appending
pub mod Curve
mod Tests
use kabu.Base.{
  ℕ, zero, suc, ◌+◌, ◌-◌, ◌*◌, ◌/◌, ◌%◌, ◌^◌, ◌≤◌, ◌<◌, ◌≡◌, refl, sym, ap, ◌∙◌, ◌≢◌, ◌↔◌, ◌⊎◌, inl,
  inr, Bool, true, false, ◌&&◌, ◌||◌, not, Option, none, some, List, [], ◌∷◌, ◌++◌, map, reverse,
  arith, ltb, leb, ◌==◌, if◌then◌else◌, ltb→lt, lt→ltb, leb→le, ==_iff, ==_refl, Bool-cases,
  Option-cases, is_some, get_or_else, length, get_elem?, take, drop, head?, get_last?, any, All,
  length-append, take-append-drop, length-take, length-drop, get_last?-append, All-append, HashMap,
  lookup, contains_key, insert, erase, retain, alter, values, lookup-insert, lookup-insert_self,
  lookup-insert_ne, lookup-erase, lookup-retain_key, IsMap, insert-IsMap, lookup-retain,
  retain-IsMap, erase-IsMap, any-values,
}
use kabu.Base.{Outcome, done, fails, panics, ◌>>=◌}
use kabu.Market.{Pool, PoolClass, uniswap_v2, uniswap_v3, pancake_v3, maverick, curve}
use kabu.Multicaller.{
  MulticallerCall, MulticallerCalls, CallStack, call, internal_call, calculation_call, new,
  set_call_stack, set_return_stack, add, insert_first, merge, pack_do_calls_data, to_be_bytes,
}
use kabu.Multicaller.Stack.{build_call_stack}
use kabu.Swap.{SwapAmountType, set, not_set, stack0, relative_stack, balance}
use kabu.Multicaller.Lines.{
  EncodeResult, EncodeError, opcodes_failed, Payload, empty, opcodes, bytes, address, PoolEncoder,
  SwapOpcodesEncoder,
}
use kabu.Multicaller.Steps.{unwrap, packed_or}

pub record PoolAbi : Type 0 where
  pub fee : Pool → ℕ
  pub is_native : Pool → Bool
  pub contract : Pool → Option ℕ
  pub transfer_to : Pool → Option ℕ
  pub swap_in_amount_provided : Pool → ℕ → ℕ → ℕ → ℕ → List ℕ → Option (List ℕ)
  pub swap_out_amount_provided : Pool → ℕ → ℕ → ℕ → ℕ → List ℕ → Option (List ℕ)
  pub swap_in_amount_offset : Pool → ℕ → ℕ → Option ℕ
  pub swap_out_amount_offset : Pool → ℕ → ℕ → Option ℕ
  pub swap_in_amount_return_offset : Pool → ℕ → ℕ → Option ℕ
  pub swap_in_amount_return_script : Pool → ℕ → ℕ → Option (List ℕ)
  pub uni2_get_out_amount : ℕ → ℕ → ℕ → ℕ → ℕ → List ℕ
  pub uni2_get_in_amount : ℕ → ℕ → ℕ → ℕ → ℕ → List ℕ
  pub erc20_transfer : ℕ → ℕ → List ℕ
  pub erc20_approve : ℕ → ℕ → List ℕ
  pub weth_withdraw : ℕ → List ℕ
  pub weth_deposit : List ℕ
  pub erc20_balance_of : ℕ → List ℕ

-- `MulticallerOpcodesPayload::encode` and `is_empty`
pub encode_payload : Payload → EncodeResult (List ℕ)
encode_payload empty = done []
encode_payload (opcodes calls) = packed_or (pack_do_calls_data calls)
encode_payload (bytes bs) = done bs
encode_payload (address a) = done (to_be_bytes 20 a)

abbrev pub is_empty : Payload → Bool
is_empty empty = true
is_empty (bytes bs) = length bs == 0
is_empty (address a) = false
is_empty (opcodes calls) = length calls == 0

-- `x.ok_or(…)?`
abbrev pub asked {ℓ} : {A : Type ℓ} → Option A → EncodeResult A
asked none = fails opcodes_failed
asked (some a) = done a

abbrev pub amount_or_zero : SwapAmountType → ℕ
amount_or_zero (set x) = x
amount_or_zero _ = 0

abbrev pub is_set : SwapAmountType → Bool
is_set (set x) = true
is_set _ = false

abbrev pub stack_at : Bool → ℕ → ℕ → CallStack
stack_at is_relative stack_offset data_offset = record {
  is_relative = is_relative;
  stack_offset = stack_offset;
  data_offset = data_offset;
  data_len = 0x20;
}

-- The call with a place in the stack, where the amount is not set.
pub at_stack : SwapAmountType → Bool → ℕ → Option ℕ → MulticallerCall → EncodeResult MulticallerCall
at_stack amount is_relative stack_offset data_offset c =
    if is_set amount
    then done c
    else (unwrap data_offset >>= λ offset.
        done (set_call_stack c (stack_at is_relative stack_offset offset)))

-- The change of the calls inside a flash swap.
abbrev pub change_opcodes : (MulticallerCalls → MulticallerCalls) → Payload → Payload
change_opcodes f (opcodes calls) = opcodes (f calls)
change_opcodes f p = p

module _ (abi : PoolAbi) where
  abbrev pub swap_to : Option Pool → ℕ → ℕ
  swap_to none multicaller = multicaller
  swap_to (some p) multicaller = get_or_else (abi.transfer_to p) multicaller

  -- The transfer of an amount, or of the one in the stack.
  abbrev pub transfer_of : ℕ → ℕ → SwapAmountType → ℕ → MulticallerCall
  transfer_of token to amount stack_offset =
      let c = new call token (abi.erc20_transfer to (amount_or_zero amount)) none in
      if is_set amount then c else set_call_stack c (stack_at false stack_offset 0x24)

  pub uni2_swap_in : PoolEncoder
  uni2_swap_in calls from to amount p next payload multicaller = asked (abi.contract p) >>= λ pool.
      let get_out =
        new internal_call 0
          (abi.uni2_get_out_amount from to pool (amount_or_zero amount) (abi.fee p)) none in
      unwrap (build_call_stack abi.erc20_balance_of amount get_out 0x24 0x20 (some from))
      >>= λ stacked.
          asked (abi.swap_out_amount_provided p from to 1 (swap_to next multicaller) [])
          >>= λ swap_data. unwrap (abi.swap_out_amount_offset p from to) >>= λ offset. done (
              add (merge calls stacked)
                (set_call_stack (new call pool swap_data none) (stack_at true 0 offset)))

  -- The calls inside the flash swap of a v2 pool: the first gives back the amount that is set, and
  -- before them the funds go where the pool before this needs them.
  abbrev pub uni2_inside :
      ℕ → ℕ → ℕ → SwapAmountType → Option Pool → MulticallerCalls → MulticallerCalls
  uni2_inside from to pool amount prev inside =
      let returned =
        if is_set amount then add inside (transfer_of from pool amount 0) else inside in
      elim prev [
        | none ↦ returned
        | some q ↦ elim (abi.transfer_to q) [
          | none ↦ returned
          | some funds ↦ insert_first returned (transfer_of to funds not_set 0)
        ]
      ]

  pub uni2_flash_in : PoolEncoder
  uni2_flash_in calls from to amount p prev payload multicaller = asked (abi.contract p) >>= λ pool.
      encode_payload (change_opcodes (uni2_inside from to pool amount prev) payload) >>= λ inside.
      at_stack amount false 0 (some 0x24) (
        new internal_call 0
          (abi.uni2_get_out_amount from to pool (amount_or_zero amount) (abi.fee p)) none)
      >>= λ get_out.
          asked (abi.swap_out_amount_provided p from to 0 multicaller inside) >>= λ swap_data.
          unwrap (abi.swap_out_amount_offset p from to) >>= λ offset. done (
            add (add calls get_out)
              (set_call_stack (new call pool swap_data none) (stack_at true 0 offset)))

  abbrev pub uni2_inside_out :
      ℕ → ℕ → ℕ → ℕ → SwapAmountType → Option Pool → ℕ → MulticallerCalls → MulticallerCalls
  uni2_inside_out from to pool fee amount next multicaller inside =
      let c =
        new internal_call 0 (abi.uni2_get_in_amount from to pool (amount_or_zero amount) fee)
          none in
      let get_in = if is_set amount then c else set_call_stack c (stack_at false 0 0x24) in
      let funds = swap_to next multicaller in
      let asked_first = insert_first inside get_in in
      if funds == multicaller then asked_first else add asked_first (transfer_of to funds not_set 0)

  pub uni2_flash_out : PoolEncoder
  uni2_flash_out calls from to amount p next payload multicaller =
      asked (abi.contract p) >>= λ pool.
      encode_payload
        (change_opcodes (uni2_inside_out from to pool (abi.fee p) amount next multicaller) payload)
      >>= λ inside.
          asked (abi.swap_out_amount_provided p from to (amount_or_zero amount) multicaller inside)
          >>= λ swap_data.
              at_stack amount true 0 (abi.swap_out_amount_offset p from to)
                (new call pool swap_data none)
              >>= λ swap. done (add calls swap)

  -- The script that leaves what came out on the stack, where another pool follows.
  abbrev pub return_script : Pool → ℕ → ℕ → Option Pool → MulticallerCalls
  return_script p from to none = []
  return_script p from to (some next) = elim (abi.swap_in_amount_return_script p from to) [
    | none ↦ []
    | some script ↦ new calculation_call 0 script none ∷ []
  ]

  pub uni3_swap_in : PoolEncoder
  uni3_swap_in calls from to amount p next payload multicaller =
      (if is_empty payload then done (to_be_bytes 20 from) else encode_payload payload)
      >>= λ inside. asked (abi.contract p) >>= λ pool.
          asked (
            abi.swap_in_amount_provided p from to (amount_or_zero amount) (swap_to next multicaller)
              inside)
          >>= λ swap_data. unwrap (abi.swap_in_amount_return_offset p from to) >>= λ returned.
              asked (abi.swap_in_amount_offset p from to) >>= λ offset.
              unwrap (
                build_call_stack abi.erc20_balance_of amount
                  (set_return_stack (new call pool swap_data none) (stack_at true 0 returned))
                  offset 0x20 (some from))
              >>= λ stacked. done (merge (merge calls stacked) (return_script p from to next))

  pub uni3_flash_in : PoolEncoder
  uni3_flash_in calls from to amount p prev payload multicaller = asked (abi.contract p) >>= λ pool.
      encode_payload
        (change_opcodes (λ inside. add inside (transfer_of from pool amount 1)) payload)
      >>= λ inside.
          asked (
            abi.swap_in_amount_provided p from to (amount_or_zero amount) (swap_to prev multicaller)
              inside)
          >>= λ swap_data.
              at_stack amount false 0 (abi.swap_in_amount_offset p from to)
                (new call pool swap_data none)
              >>= λ swap. done (add calls swap)

  pub uni3_flash_out : PoolEncoder
  uni3_flash_out calls from to amount p next payload multicaller =
      asked (abi.contract p) >>= λ pool.
      encode_payload
        (change_opcodes (λ inside. add inside (transfer_of from pool not_set 1)) payload)
      >>= λ inside.
          asked (
            abi.swap_out_amount_provided p from to (amount_or_zero amount)
              (swap_to next multicaller) inside)
          >>= λ swap_data.
              at_stack amount true 0 (abi.swap_out_amount_offset p from to)
                (new call pool swap_data none)
              >>= λ swap. done (
                  if is_set amount
                  then add calls swap
                  else add (add calls (new calculation_call 0 (0x2 ∷ 0x2A ∷ 0x00 ∷ []) none)) swap)

  abbrev pub uniswap2_encoder : SwapOpcodesEncoder
  uniswap2_encoder = record {
    encode_swap_in_amount_provided = uni2_swap_in;
    encode_flash_swap_in_amount_provided = uni2_flash_in;
    encode_flash_swap_out_amount_provided = uni2_flash_out;
  }

  abbrev pub uniswap3_encoder : SwapOpcodesEncoder
  uniswap3_encoder = record {
    encode_swap_in_amount_provided = uni3_swap_in;
    encode_flash_swap_in_amount_provided = uni3_flash_in;
    encode_flash_swap_out_amount_provided = uni3_flash_out;
  }

  module _ (curve_encoder : SwapOpcodesEncoder) where
    -- `ProtocolSwapOpcodesEncoderV2`: the encoder of the class of a pool.
    abbrev pub encoder_of : PoolClass → Option SwapOpcodesEncoder
    encoder_of uniswap_v2 = some uniswap2_encoder
    encoder_of uniswap_v3 = some uniswap3_encoder
    encoder_of pancake_v3 = some uniswap3_encoder
    encoder_of maverick = some uniswap3_encoder
    encoder_of curve = some curve_encoder
    encoder_of class = none

    abbrev pub by_class : (SwapOpcodesEncoder → PoolEncoder) → PoolEncoder
    by_class choose calls from to amount p other payload multicaller =
        asked (encoder_of p.class) >>= λ e.
        choose e calls from to amount p other payload multicaller

    pub protocol_encoder : SwapOpcodesEncoder
    protocol_encoder = record {
      encode_swap_in_amount_provided = by_class (λ e. e.encode_swap_in_amount_provided);
      encode_flash_swap_in_amount_provided = by_class (λ e. e.encode_flash_swap_in_amount_provided);
      encode_flash_swap_out_amount_provided =
          by_class (λ e. e.encode_flash_swap_out_amount_provided);
    }
