-- ===== src/Multicaller/Protocols/Curve.antt =====
-- The encoder of Curve pools (crates/execution/multicaller/src/pool_opcodes_encoder/curve.rs), which
-- has no flash swaps.
use mathlib.Core.List.{append_assoc}
use kabu.Base.{
  ℕ, refl, Bool, true, ◌&&◌, ◌||◌, Option, none, some, [], ◌∷◌, ◌++◌, ◌==◌, if◌then◌else◌,
}
use kabu.Base.{done, fails, ◌>>=◌}
use kabu.Market.{Pool}
use kabu.Multicaller.{
  MulticallerCall, MulticallerCalls, call, static_call, new, set_call_stack, set_return_stack,
  merge,
}
use kabu.Multicaller.Stack.{build_multiple_stack}
use kabu.Multicaller.Lines.{SwapOpcodesEncoder, PoolEncoder, not_implemented, weth_address}
use kabu.Multicaller.Lines.Flash.{IsAppending}
use kabu.Multicaller.Steps.{unwrap}
use kabu.Multicaller.Protocols.{
  protocol_encoder, PoolAbi, encode_payload, asked, amount_or_zero, stack_at,
}
use kabu.Multicaller.Protocols.Appending.{protocol_encoder-IsEncoder, IsEncoder, after, added}

-- `NEED_BALANCE_MAP`: the pools that do not give back what came out.
abbrev need_balance : ℕ → Bool
need_balance pool =
    pool == 0xD51a44d3FaE010294C616388b506AcdA1bfAAE46
    || pool == 0xbEbc44782C7dB0a1A60Cb6fe97d0b483032FF1C7
    || pool == 0xA5407eAE9Ba41422680e2e00537571bcC53efBfD

module _ (abi : PoolAbi) where
  -- The calls after the swap: a deposit of the ether that came out, and for a pool that follows the
  -- question for the balance and the transfer to where it needs its funds.
  abbrev calls_after : Pool → ℕ → ℕ → Option Pool → ℕ → MulticallerCalls
  calls_after p pool to next multicaller =
      let deposit =
        set_call_stack (new call to abi.weth_deposit (some 0))
          (record { is_relative = true; stack_offset = 0; data_offset = 0; data_len = 0 }) in
      let balance =
        set_return_stack (new static_call to (abi.erc20_balance_of multicaller) none)
          (stack_at true 0 0x0) in
      (if abi.is_native p && to == weth_address then deposit ∷ [] else []) ++ (elim next [
        | none ↦ []
        | some q ↦ (if need_balance pool then balance ∷ [] else []) ++ (elim (abi.transfer_to q) [
          | none ↦ []
          | some funds ↦
              set_call_stack (new call to (abi.erc20_transfer funds 0) none) (stack_at true 0 0x24)
              ∷ []
        ])
      ])

  pub curve_swap_in : PoolEncoder
  curve_swap_in calls from to amount p next payload multicaller =
      let given = amount_or_zero amount in
      let in_native = abi.is_native p && from == weth_address in
      asked (abi.contract p) >>= λ pool. encode_payload payload >>= λ inside.
      asked (abi.swap_in_amount_provided p from to given multicaller inside) >>= λ swap_data.
      unwrap (abi.swap_in_amount_offset p from to) >>= λ offset.
      let swap = new call pool swap_data (if in_native then some given else none) in
      let returning =
        if need_balance pool then swap else set_return_stack swap (stack_at true 0 0x0) in
      let before : MulticallerCall × ℕ × ℕ =
        if in_native
        then (new call from (abi.weth_withdraw given) none, 0x4, 0x20)
        else (new call from (abi.erc20_approve pool given) none, 0x24, 0x20) in
      unwrap (
        build_multiple_stack abi.erc20_balance_of amount (before ∷ (returning, offset, 0x20) ∷ [])
          (some from))
      >>= λ stacked. done (merge calls stacked ++ calls_after p pool to next multicaller)

  -- The flash swaps of the trait, which are not implemented.
  pub no_flash : PoolEncoder
  no_flash calls from to amount p other payload multicaller = fails not_implemented

  abbrev pub curve_encoder : SwapOpcodesEncoder
  curve_encoder = record {
    encode_swap_in_amount_provided = curve_swap_in;
    encode_flash_swap_in_amount_provided = no_flash;
    encode_flash_swap_out_amount_provided = no_flash;
  }

  curve_swap_in-IsAppending : IsAppending curve_swap_in
  unfolding curve_swap_in
  curve_swap_in-IsAppending calls from to amount p next payload m = after calls _ _ _ λ pool.
      after calls _ _ _ λ inside. after calls _ _ _ λ packed.
        after calls _ _ _
          λ offset. after calls _ _ _ λ stacked. added calls _ _ (append_assoc calls stacked _)

  no_flash-IsAppending : IsAppending no_flash
  unfolding no_flash ◌>>=◌
  no_flash-IsAppending calls from to amount p other payload m = refl

  pub curve-IsEncoder : IsEncoder curve_encoder
  curve-IsEncoder = (curve_swap_in-IsAppending, no_flash-IsAppending, no_flash-IsAppending)

-- The encoder that chooses by the class of a pool adds its calls to those that it is given,
-- whatever the pools answer and the ABI encodes.
pub protocols-IsEncoder : (abi : PoolAbi) → IsEncoder (protocol_encoder abi (curve_encoder abi))
protocols-IsEncoder abi = protocol_encoder-IsEncoder abi (curve_encoder abi) (curve-IsEncoder abi)
