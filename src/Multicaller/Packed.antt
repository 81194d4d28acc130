-- ===== src/Multicaller/Packed.antt =====
-- What the packed bytes of a call show.
use kabu.Base.{
  ℕ, ◌+◌, ◌*◌, ◌/◌, ◌%◌, ◌^◌, ◌<◌, ◌≡◌, ◌≢◌, inl, inr, Bool, true, false, ◌&&◌, not, some, arith,
  ◌==◌, if◌then◌else◌, Option-cases, get_or_else, length,
}
use kabu.Multicaller.{
  data_start, MulticallerCall, encode_data_offset, encode_call_stack, encode_return_stack,
  value_call_selector, selector,
}
use kabu.Multicaller.Bits.{bit_or-high, bit_or-low, bit_and-mask}

encode_data_offset-eq :
    (is_relative : Bool) (stack_offset data_offset data_len : ℕ)
    → encode_data_offset is_relative stack_offset data_offset data_len
      ≡ (((if is_relative then 1 else 0) * 8 + stack_offset % 8) * 256 + data_len % 256) * 4096
        + data_offset % 4096
unfolding encode_data_offset
encode_data_offset-eq true stack_offset data_offset data_len = ground (
  arith,
  bit_and-mask 3 stack_offset,
  bit_and-mask 8 (data_len % 2 ^ 32),
  bit_and-mask 12 data_offset,
  bit_or-low 23 1 (stack_offset % 8 * 2 ^ 20) (omega arith),
  bit_or-low 20 (8 + stack_offset % 8) (data_len % 256 * 2 ^ 12) (omega arith),
  bit_or-low 12 ((8 + stack_offset % 8) * 256 + data_len % 256) (data_offset % 4096) (omega arith),
)
encode_data_offset-eq false stack_offset data_offset data_len = ground (
  arith,
  bit_and-mask 3 stack_offset,
  bit_and-mask 8 (data_len % 2 ^ 32),
  bit_and-mask 12 data_offset,
  bit_or-low 23 0 (stack_offset % 8 * 2 ^ 20) (omega arith),
  bit_or-low 20 (stack_offset % 8) (data_len % 256 * 2 ^ 12) (omega arith),
  bit_or-low 12 ((stack_offset % 8) * 256 + data_len % 256) (data_offset % 4096) (omega arith),
)

-- The four fields of a stack code are the flag, three bits of the stack offset, eight of the length
-- and twelve of the data offset, and the code fits 24 bits.
pub encode_data_offset_lem :
    (is_relative : Bool) (stack_offset data_offset data_len : ℕ)
    → let code = encode_data_offset is_relative stack_offset data_offset data_len in
      (code < 2 ^ 24)
      × (code / 2 ^ 23 ≡ (if is_relative then 1 else 0))
      × (code / 2 ^ 20 % 8 ≡ stack_offset % 8)
      × (code / 2 ^ 12 % 256 ≡ data_len % 256)
      × (code % 4096 ≡ data_offset % 4096)
encode_data_offset_lem true stack_offset data_offset data_len =
    let e = encode_data_offset-eq true stack_offset data_offset data_len in
    (omega (arith, e), omega (arith, e), omega (arith, e), omega (arith, e), omega (arith, e))
encode_data_offset_lem false stack_offset data_offset data_len =
    let e = encode_data_offset-eq false stack_offset data_offset data_len in
    (omega (arith, e), omega (arith, e), omega (arith, e), omega (arith, e), omega (arith, e))

pub encode_call_stack-lt : (c : MulticallerCall) → encode_call_stack c < 2 ^ 24
unfolding encode_call_stack
encode_call_stack-lt c = elim (Option-cases c.call_stack) [
  | inl e ↦ ground (arith, e)
  | inr (s, e) ↦ ground (
    arith,
    e,
    (encode_data_offset_lem s.is_relative s.stack_offset
        ((s.data_offset + data_start c.call_type) % 2 ^ 32) s.data_len).0,
  )
]

pub encode_return_stack-lt : (c : MulticallerCall) → encode_return_stack c < 2 ^ 24
unfolding encode_return_stack
encode_return_stack-lt c = elim (Option-cases c.return_stack) [
  | inl e ↦ ground (arith, e)
  | inr (s, e) ↦
      ground
        (arith, e, (encode_data_offset_lem s.is_relative s.stack_offset s.data_offset s.data_len).0)
]

-- The number of a call without a value: from above, the code of the call, the stack code of what it
-- returns, that of what it takes, and the length of its data.
pub selector-eq :
    (c : MulticallerCall) (code : ℕ)
    → code < 2 ^ 15
    → length c.call_data < 2 ^ 16
    → (code == value_call_selector && not (get_or_else c.value 0 == 0)) ≡ false
    → selector c code
      ≡ ((code * 2 ^ 40 + encode_return_stack c) * 2 ^ 24 + encode_call_stack c) * 2 ^ 16
        + length c.call_data
unfolding selector
selector-eq c code p q ne =
    let len = length c.call_data in
    let takes = encode_call_stack c in
    let returns = encode_return_stack c in
    let a = encode_call_stack-lt c in
    let b = encode_return_stack-lt c in
    ground (
      arith,
      a,
      b,
      bit_or-low 96 0 (code * 2 ^ 80) (omega arith),
      bit_or-low 80 code len (omega arith),
      bit_or-high 16 (code * 2 ^ 64) len takes (omega arith),
      bit_or-low 64 code takes (omega (arith, a)),
      bit_or-high 40 (code * 2 ^ 40) (takes * 2 ^ 16 + len) returns (omega (arith, a)),
      bit_or-low 40 code returns (omega (arith, b)),
    )

-- The number of a call with a value: a flag, the value, and the length of the data.
pub selector-eq_value :
    (c : MulticallerCall) (value : ℕ)
    → c.value ≡ some value
    → value ≢ 0
    → value < 2 ^ 79
    → length c.call_data < 2 ^ 16
    → selector c value_call_selector ≡ 2 ^ 95 + value * 2 ^ 16 + length c.call_data
unfolding selector
selector-eq_value c value e ne p q =
    let len = length c.call_data in
    ground (
      arith,
      e,
      bit_or-high 95 0 (value * 2 ^ 16) 1 (omega arith),
      bit_or-low 95 0 1 (omega arith),
      bit_or-low 16 (2 ^ 79 + value) len (omega arith),
    )
