-- ===== src/Multicaller/Lines/Flash.antt =====
-- The flash swap of a line of two pools.
use kabu.Base.{ℕ, ◌≡◌, ◌∙◌, Option, some, [], ◌∷◌, ◌++◌, >>=_cong, >>=_done, done, ◌>>=◌}
use kabu.Market.{Token, Pool}
use kabu.Multicaller.{MulticallerCalls}
use kabu.Swap.{SwapLine, SwapAmountType, relative_stack}
use kabu.Multicaller.Lines.{
  SwapOpcodesEncoder, PoolEncoder, Payload, opcodes, encode_flash_swap_line_in_amount,
  flash_in_loop,
}

-- The encoder of a pool adds its calls to those that it is given, whatever these are.
abbrev pub IsAppending : PoolEncoder → Type 0
IsAppending encode =
    (calls : MulticallerCalls) (from to : ℕ) (amount : SwapAmountType) (p : Pool)
    (other : Option Pool) (payload : Payload) (multicaller : ℕ)
    → encode calls from to amount p other payload multicaller
      ≡ (encode [] from to amount p other payload multicaller >>= λ piece. done (calls ++ piece))

-- The calls of a line of two pools are those of its second pool and then those of its first, and
-- the calls of the second pool stand inside those of the first as well.
pub flash_in_two :
    (encoder : SwapOpcodesEncoder) (multicaller : ℕ) (line : SwapLine) (a b c : Token) (p q : Pool)
    (inside : MulticallerCalls) (funds_to : Option Pool)
    → IsAppending encoder.encode_flash_swap_in_amount_provided
    → line.path.tokens ≡ a ∷ b ∷ c ∷ []
    → line.path.pools ≡ p ∷ q ∷ []
    → encode_flash_swap_line_in_amount encoder multicaller line inside funds_to ≡ (
        encoder.encode_flash_swap_in_amount_provided [] b.address c.address
          (relative_stack 0)
          q
          funds_to
          (opcodes inside)
          multicaller
        >>= λ second.
            encoder.encode_flash_swap_in_amount_provided [] a.address b.address line.amount_in p
              (some q)
              (opcodes second)
              multicaller
            >>= λ first. done (second ++ first))
unfolding encode_flash_swap_line_in_amount flash_in_loop
flash_in_two encoder multicaller line a b c p q inside funds_to appends ts ps =
    rw (ts, ps)
      (>>=_cong _ _ _ λ second.
        >>=_done _
        ∙ appends second a.address b.address line.amount_in p (some q) (opcodes second) multicaller)
