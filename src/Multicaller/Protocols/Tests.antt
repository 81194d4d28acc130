-- ===== src/Multicaller/Protocols/Tests.antt =====
-- The encoder of the protocols.
use kabu.Base.{true, some, [], ◌∷◌}
use kabu.Multicaller.Protocols.Curve.{curve_encoder, protocols-IsEncoder}
use kabu.Multicaller.Protocols.{PoolAbi, protocol_encoder}
use kabu.Multicaller.Protocols.Appending.{IsEncoder}

abbrev abi : PoolAbi
abi = record {
  fee = λ p. 9970;
  is_native = λ p. true;
  contract = λ p. some p.address;
  transfer_to = λ p. some p.address;
  swap_in_amount_provided = λ p from to amount funds inside. some (from ∷ to ∷ amount ∷ inside);
  swap_out_amount_provided = λ p from to amount funds inside. some (to ∷ from ∷ amount ∷ inside);
  swap_in_amount_offset = λ p from to. some 0x44;
  swap_out_amount_offset = λ p from to. some 0x24;
  swap_in_amount_return_offset = λ p from to. some 0x20;
  swap_in_amount_return_script = λ p from to. some (0x8 ∷ 0x2A ∷ 0x00 ∷ []);
  uni2_get_out_amount = λ from to p amount fee. from ∷ to ∷ amount ∷ fee ∷ [];
  uni2_get_in_amount = λ from to p amount fee. to ∷ from ∷ amount ∷ fee ∷ [];
  erc20_transfer = λ to amount. to ∷ amount ∷ [];
  erc20_approve = λ to amount. amount ∷ to ∷ [];
  weth_withdraw = λ amount. amount ∷ [];
  weth_deposit = [];
  erc20_balance_of = λ owner. owner ∷ [];
}

protocols_example : IsEncoder (protocol_encoder abi (curve_encoder abi))
protocols_example = protocols-IsEncoder abi
