-- ===== src/Multicaller.antt =====
-- Calls of the multicaller and their packing (crates/types/blockchain/src/opcodes.rs and
-- crates/execution/multicaller/src/opcodes_encoder.rs). Bytes are numbers; 32-bit and 256-bit
-- operations wrap. The call that wraps the packed data is a library's.
pub mod Bits
pub mod Bytes
pub mod Packed
pub mod Unpack
pub mod Stack
pub mod Lines
pub mod Steps
pub mod Protocols
pub mod Encode
mod Tests
use Prim.Native.Nat.{bit_and, bit_or}
use mathlib.Core.Option
use kabu.Base.{
  ℕ, zero, suc, ◌+◌, ◌-◌, ◌*◌, ◌/◌, ◌%◌, ◌^◌, ◌≤◌, ◌<◌, ◌≡◌, refl, sym, ap, ◌∙◌, ◌≢◌, ◌↔◌, ◌⊎◌, inl,
  inr, Bool, true, false, ◌&&◌, ◌||◌, not, Option, none, some, List, [], ◌∷◌, ◌++◌, map, reverse,
  arith, ltb, leb, ◌==◌, if◌then◌else◌, ltb→lt, lt→ltb, leb→le, ==_iff, ==_refl, Bool-cases,
  Option-cases, is_some, get_or_else, length, get_elem?, take, drop, head?, get_last?, any, All,
  length-append, take-append-drop, length-take, length-drop, get_last?-append, All-append, HashMap,
  lookup, contains_key, insert, erase, retain, alter, values, lookup-insert, lookup-insert_self,
  lookup-insert_ne, lookup-erase, lookup-retain_key, IsMap, insert-IsMap, lookup-retain,
  retain-IsMap, erase-IsMap, any-values,
}
use kabu.Types.{u256_mod}

pub data CallType : Type 0 where
  unknown call delegate_call static_call internal_call calculation_call custom_call : CallType

pub record CallStack : Type 0 where
  pub is_relative : Bool
  pub stack_offset : ℕ
  pub data_offset : ℕ
  pub data_len : ℕ

pub record MulticallerCall : Type 0 where
  pub call_type : CallType
  pub call_data : List ℕ
  pub to : ℕ
  pub value : Option ℕ
  pub call_stack : Option CallStack
  pub return_stack : Option CallStack

abbrev pub new : CallType → ℕ → List ℕ → Option ℕ → MulticallerCall
new call_type to call_data value = record {
  call_type = call_type;
  call_data = call_data;
  to = to;
  value = value;
  call_stack = none;
  return_stack = none;
}

abbrev pub set_call_stack : MulticallerCall → CallStack → MulticallerCall
set_call_stack c s = record c { call_stack = some s }

abbrev pub set_return_stack : MulticallerCall → CallStack → MulticallerCall
set_return_stack c s = record c { return_stack = some s }

-- `MulticallerCalls`, with `add`, `insert` and `merge`.
abbrev pub MulticallerCalls : Type 0
MulticallerCalls = List MulticallerCall

abbrev pub add : MulticallerCalls → MulticallerCall → MulticallerCalls
add cs c = cs ++ c ∷ []

abbrev pub insert_first : MulticallerCalls → MulticallerCall → MulticallerCalls
insert_first cs c = c ∷ cs

abbrev pub merge : MulticallerCalls → MulticallerCalls → MulticallerCalls
merge cs ds = cs ++ ds

abbrev u32_mod : ℕ
u32_mod = 2 ^ 32

-- `a << k` on 256 bits.
abbrev pub shl : ℕ → ℕ → ℕ
shl a k = a * 2 ^ k % u256_mod

pub encode_data_offset : Bool → ℕ → ℕ → ℕ → ℕ
encode_data_offset is_relative stack_offset data_offset data_len =
    let relative = if is_relative then 0x800000 else 0 in
    let with_stack = bit_or relative (bit_and stack_offset 0x7 * 2 ^ 20 % u32_mod) in
    let with_len = bit_or with_stack (bit_and (data_len % u32_mod) 0xFF * 2 ^ 12 % u32_mod) in
    bit_or with_len (bit_and data_offset 0xFFF)

-- The offset of the data in the packed call.
abbrev pub data_start : CallType → ℕ
data_start internal_call = 0xC
data_start calculation_call = 0xC
data_start c = 0x20

pub encode_call_stack : MulticallerCall → ℕ
unfolding encode_data_offset
encode_call_stack c = elim c.call_stack [
  | none ↦ 0xFFFFFF
  | some s ↦
      encode_data_offset s.is_relative s.stack_offset
        ((s.data_offset + data_start c.call_type) % u32_mod) s.data_len
]

pub encode_return_stack : MulticallerCall → ℕ
unfolding encode_data_offset
encode_return_stack c = elim c.return_stack [
  | none ↦ 0xFFFFFF
  | some s ↦ encode_data_offset s.is_relative s.stack_offset s.data_offset s.data_len
]

abbrev pub value_call_selector : ℕ
value_call_selector = 0x7FFA

-- The code of the call; `none` is the error `WRONG_OPCODE`.
pub selector_call : MulticallerCall → Option ℕ
selector_call c = elim c.call_type [
  | call ↦ if is_some c.value then some value_call_selector else some 0x7FFC
  | delegate_call ↦ some 0x7FFF
  | internal_call ↦ some 0x7FFD
  | static_call ↦ some 0x7FFE
  | calculation_call ↦ some 0x7FFB
  | _ ↦ none
]

-- `U256::to_be_bytes`, for any count of bytes.
pub to_be_bytes : ℕ → ℕ → List ℕ
to_be_bytes zero x = []
to_be_bytes (suc n) x = to_be_bytes n (x / 256) ++ (x % 256) ∷ []

abbrev pub has_address : CallType → Bool
has_address internal_call = false
has_address calculation_call = false
has_address c = true

-- The number that the first twelve bytes show.
pub selector : MulticallerCall → ℕ → ℕ
unfolding encode_call_stack encode_return_stack
selector c code =
    let value = get_or_else c.value 0 in
    let len = shl (length c.call_data) 0 in
    if code == value_call_selector && not (value == 0)
    then bit_or (bit_or (shl value 0x10) (shl 1 95)) len
    else bit_or (bit_or (bit_or (bit_or 0 (shl code 80)) len) (shl (encode_call_stack c) 16))
        (shl (encode_return_stack c) 40)

pub pack_opcode : MulticallerCall → Option (List ℕ)
unfolding selector_call selector to_be_bytes
pack_opcode c = elim (selector_call c) [
  | none ↦ none
  | some code ↦ some (
      drop 20 (to_be_bytes 32 (selector c code))
      ++ ((if has_address c.call_type then to_be_bytes 20 c.to else []) ++ c.call_data))
]

pub pack_do_calls_data : MulticallerCalls → Option (List ℕ)
unfolding pack_opcode
pack_do_calls_data [] = some []
pack_do_calls_data (c ∷ cs) = elim (pack_opcode c) [
  | none ↦ none
  | some bytes ↦ Option.map (λ rest. bytes ++ rest) (pack_do_calls_data cs)
]
