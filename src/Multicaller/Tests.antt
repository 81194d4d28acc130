-- ===== src/Multicaller/Tests.antt =====
-- A batch of an internal call with both stack codes and a call with a value.
use kabu.Base.{ℕ, ◌≡◌, refl, true, none, some, List, [], ◌∷◌, arith, get_or_else}
use kabu.Multicaller.{
  MulticallerCall, MulticallerCalls, internal_call, call, new, pack_do_calls_data,
}
use kabu.Swap.{balance}
use kabu.Multicaller.Stack.{
  build_call_stack, build_multiple_stack, calls_with, build_stacks-calls_with,
}
use kabu.Multicaller.Unpack.{views, read_calls, read_calls-pack_do_calls_data}

abbrev first : MulticallerCall
first = record (new internal_call 0 (0x33 ∷ 0x44 ∷ []) none) {
  call_stack =
      some (record { is_relative = true; stack_offset = 0; data_offset = 24; data_len = 0x20 });
  return_stack =
      some (record { is_relative = true; stack_offset = 1; data_offset = 44; data_len = 0x20 });
}

abbrev second : MulticallerCall
second = new call 0xABCD (1 ∷ 2 ∷ 3 ∷ []) (some 1000)

abbrev batch : MulticallerCalls
batch = first ∷ second ∷ []

packed_example : read_calls 2 (get_or_else (pack_do_calls_data batch) []) ≡ (views batch, [])
unfolding pack_do_calls_data
packed_example =
    read_calls-pack_do_calls_data batch (get_or_else (pack_do_calls_data batch) [])
      (
        record { data_fits = omega arith; value_fits = omega arith; to_fits = omega arith },
        (record { data_fits = omega arith; value_fits = omega arith; to_fits = omega arith }, tt),
      )
      refl

-- Two calls that take the balance of the account 9 in the token 70.
abbrev balance_of : ℕ → List ℕ
balance_of owner = 0x70 ∷ 0xA0 ∷ owner ∷ []

abbrev both : List (MulticallerCall × ℕ × ℕ)
both = (first, 4, 32) ∷ (second, 36, 32) ∷ []

stack_example :
    (build_multiple_stack balance_of (balance 9) both (some 70)
      ≡ calls_with balance_of (balance 9) both (some 70))
    × (build_call_stack balance_of (balance 9) first 4 32 (some 70)
        ≡ calls_with balance_of (balance 9) ((first, 4, 32) ∷ []) (some 70))
stack_example = build_stacks-calls_with balance_of (balance 9) first 4 32 both (some 70)
