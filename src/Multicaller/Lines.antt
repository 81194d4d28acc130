-- ===== src/Multicaller/Lines.antt =====
-- The calls of a line (crates/execution/multicaller/src/swapline_encoder.rs). The encoders of the
-- protocols are an interface, the encoding by the ABI a parameter.
pub mod Split
pub mod Flash
pub mod Samples
mod Tests
use kabu.Base.{
  ℕ, zero, suc, ◌+◌, ◌-◌, ◌*◌, ◌/◌, ◌%◌, ◌^◌, ◌≤◌, ◌<◌, ◌≡◌, refl, sym, ap, ◌∙◌, ◌≢◌, ◌↔◌, ◌⊎◌, inl,
  inr, Bool, true, false, ◌&&◌, ◌||◌, not, Option, none, some, List, [], ◌∷◌, ◌++◌, map, reverse,
  arith, ltb, leb, ◌==◌, if◌then◌else◌, ltb→lt, lt→ltb, leb→le, ==_iff, ==_refl, Bool-cases,
  Option-cases, is_some, get_or_else, length, get_elem?, take, drop, head?, get_last?, any, All,
  length-append, take-append-drop, length-take, length-drop, get_last?-append, All-append, HashMap,
  lookup, contains_key, insert, erase, retain, alter, values, lookup-insert, lookup-insert_self,
  lookup-insert_ne, lookup-erase, lookup-retain_key, IsMap, insert-IsMap, lookup-retain,
  retain-IsMap, erase-IsMap, any-values, Outcome, done, fails, panics, ◌>>=◌,
}
use kabu.Market.{Token, Pool}
use kabu.Multicaller.{
  MulticallerCall, MulticallerCalls, internal_call, new, add, pack_do_calls_data,
}
use kabu.Swap.{SwapLine, SwapAmountType, relative_stack}
use kabu.Swap.Tips.Value.{TipsError}

pub data EncodeError : Type 0 where
  opcodes_failed wrong_opcode not_implemented encoding_failed no_swap_steps : EncodeError
  swap_type_not_covered swap_type_not_supported aa : EncodeError
  tips_failed : TipsError → EncodeError

abbrev pub EncodeResult {ℓ} : Type ℓ → Type ℓ
EncodeResult A = Outcome EncodeError A

pub data Payload : Type 0 where
  empty : Payload
  opcodes : MulticallerCalls → Payload
  bytes : List ℕ → Payload
  address : ℕ → Payload

abbrev pub PoolEncoder : Type 0
PoolEncoder =
    MulticallerCalls
    → ℕ
    → ℕ
    → SwapAmountType
    → Pool
    → Option Pool
    → Payload
    → ℕ
    → EncodeResult MulticallerCalls

-- `SwapOpcodesEncoderTrait`, as far as lines use it: each adds the calls of a pool.
pub record SwapOpcodesEncoder : Type 0 where
  pub encode_swap_in_amount_provided : PoolEncoder
  pub encode_flash_swap_in_amount_provided : PoolEncoder
  pub encode_flash_swap_out_amount_provided : PoolEncoder

-- What the ABI encodes.
pub record AbiEncoder : Type 0 where
  pub do_calls : List ℕ → List ℕ
  pub balancer_flashloan : ℕ → ℕ → List ℕ → ℕ → List ℕ
  pub multicaller_transfer_tips_weth : ℕ → ℕ → ℕ → List ℕ
  pub multicaller_transfer_tips : ℕ → ℕ → ℕ → ℕ → List ℕ

abbrev pub weth_address : ℕ
weth_address = 0xC02aaA39b223FE8D0A0e5C4F27eAD9083C756Cc2

-- The amount of the line for the last pool of a loop, and what is on the stack for the others.
abbrev pub last_amount : SwapAmountType → List Pool → SwapAmountType
last_amount amount [] = amount
last_amount amount (p ∷ ps) = relative_stack 0

-- The pool that follows, or the one that the funds go to.
abbrev pub next_or : Option Pool → List Pool → Option Pool
next_or funds_to [] = funds_to
next_or funds_to (p ∷ ps) = some p

module _ (encoder : SwapOpcodesEncoder) (multicaller : ℕ) where
  -- The loop of `encode_flash_swap_line_in_amount`, over the reversed tokens and pools.
  pub flash_in_loop :
      SwapAmountType
      → MulticallerCalls
      → MulticallerCalls
      → Option Pool
      → List Token
      → List Pool
      → EncodeResult MulticallerCalls
  flash_in_loop amount flash inside prev tokens [] = done flash
  flash_in_loop amount flash inside prev (to ∷ from ∷ tokens) (p ∷ ps) =
      encoder.encode_flash_swap_in_amount_provided flash from.address to.address
        (last_amount amount ps) p prev (opcodes inside) multicaller
      >>= λ next. flash_in_loop amount next next (some p) (from ∷ tokens) ps
  flash_in_loop amount flash inside prev tokens (p ∷ ps) = panics

  pub encode_flash_swap_line_in_amount :
      SwapLine → MulticallerCalls → Option Pool → EncodeResult MulticallerCalls
  unfolding flash_in_loop
  encode_flash_swap_line_in_amount line inside funds_to =
      flash_in_loop line.amount_in [] inside funds_to (reverse line.path.tokens)
        (reverse line.path.pools)

  -- The loop of `encode_flash_swap_line_out_amount`.
  pub flash_out_loop :
      SwapAmountType
      → MulticallerCalls
      → MulticallerCalls
      → List Token
      → List Pool
      → EncodeResult MulticallerCalls
  flash_out_loop amount flash inside tokens [] = done flash
  flash_out_loop amount flash inside (from ∷ to ∷ tokens) (p ∷ ps) =
      encoder.encode_flash_swap_out_amount_provided [] from.address to.address
        (last_amount amount ps) p (head? ps) (opcodes inside) multicaller
      >>= λ next. flash_out_loop amount next next (to ∷ tokens) ps
  flash_out_loop amount flash inside tokens (p ∷ ps) = panics

  pub encode_flash_swap_line_out_amount :
      SwapLine → MulticallerCalls → EncodeResult MulticallerCalls
  unfolding flash_out_loop
  encode_flash_swap_line_out_amount line inside =
      flash_out_loop line.amount_out [] inside line.path.tokens line.path.pools

  -- The loop of `encode_swap_line_in_amount`.
  pub line_loop :
      SwapAmountType
      → MulticallerCalls
      → Option Pool
      → List Token
      → List Pool
      → EncodeResult MulticallerCalls
  line_loop amount calls funds_to tokens [] = done calls
  line_loop amount calls funds_to (from ∷ to ∷ tokens) (p ∷ ps) =
      encoder.encode_swap_in_amount_provided calls from.address to.address amount p
        (next_or funds_to ps) empty multicaller
      >>= λ next. line_loop (relative_stack 0) next funds_to (to ∷ tokens) ps
  line_loop amount calls funds_to tokens (p ∷ ps) = panics

  pub encode_swap_line_in_amount : SwapLine → Option Pool → EncodeResult MulticallerCalls
  unfolding line_loop
  encode_swap_line_in_amount line funds_to =
      line_loop line.amount_in [] funds_to line.path.tokens line.path.pools

-- The call that pays tips in a token.
pub encode_tips : AbiEncoder → MulticallerCalls → ℕ → ℕ → ℕ → ℕ → MulticallerCalls
encode_tips abi calls token_address min_balance tips to =
    let call_data =
      if token_address == weth_address
      then abi.multicaller_transfer_tips_weth min_balance tips to
      else abi.multicaller_transfer_tips token_address min_balance tips to in
    add calls (new internal_call 0 call_data none)
