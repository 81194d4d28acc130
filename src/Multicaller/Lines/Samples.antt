-- ===== src/Multicaller/Lines/Samples.antt =====
-- An encoder that adds one call for each pool, and an encoding of the ABI that sets numbers side by
-- side.
use kabu.Base.{ℕ, none, List, [], ◌∷◌, ◌++◌, get_or_else, done}
use kabu.Multicaller.{call, new, pack_do_calls_data}
use kabu.Multicaller.Lines.{SwapOpcodesEncoder, PoolEncoder, AbiEncoder, Payload, opcodes}

-- The calls inside, packed.
abbrev pub packed : Payload → List ℕ
packed (opcodes cs) = get_or_else (pack_do_calls_data cs) []
packed p = []

abbrev pub one_call : PoolEncoder
one_call calls from to amount p other payload multicaller =
    done (calls ++ new call p.address (from ∷ to ∷ packed payload) none ∷ [])

abbrev pub encoder : SwapOpcodesEncoder
encoder = record {
  encode_swap_in_amount_provided = one_call;
  encode_flash_swap_in_amount_provided = one_call;
  encode_flash_swap_out_amount_provided = one_call;
}

abbrev pub abi : AbiEncoder
abi = record {
  do_calls = λ bytes. 1 ∷ bytes;
  balancer_flashloan = λ token amount bytes to. token ∷ amount ∷ to ∷ bytes;
  multicaller_transfer_tips_weth = λ min_balance tips to. min_balance ∷ tips ∷ to ∷ [];
  multicaller_transfer_tips = λ token min_balance tips to. token ∷ min_balance ∷ tips ∷ to ∷ [];
}
