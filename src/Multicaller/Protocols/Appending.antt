-- ===== src/Multicaller/Protocols/Appending.antt =====
-- The encoders of the protocols add their calls to those that they are given.
use mathlib.Core.List.{append_assoc}
use kabu.Base.{
  ◌≡◌, refl, sym, ap, ◌∙◌, Bool, true, false, Option, none, some, [], ◌∷◌, ◌++◌, if◌then◌else◌,
}
use kabu.Base.{done, ◌>>=◌, >>=_cong, >>=_assoc}
use kabu.Market.{
  unknown, uniswap_v2, uniswap_v3, uniswap_v4, maverick, maverick_v2, pancake_v3, curve,
  lido_st_eth, lido_wst_eth, rocket_pool, balancer_v1, balancer_v2, custom, PoolClass,
}
use kabu.Multicaller.{add, MulticallerCall, MulticallerCalls}
use kabu.Multicaller.Lines.{EncodeResult, SwapOpcodesEncoder}
use kabu.Multicaller.Lines.Flash.{IsAppending}
use kabu.Multicaller.Protocols.{
  is_set, PoolAbi, uni2_swap_in, uni2_flash_in, uni2_flash_out, uni3_swap_in, uni3_flash_in,
  uni3_flash_out, uniswap2_encoder, uniswap3_encoder, encoder_of, protocol_encoder, asked,
}

-- The result that adds the calls of another to these.
abbrev pub Adds :
    MulticallerCalls → EncodeResult MulticallerCalls → EncodeResult MulticallerCalls → Type 0
Adds calls r s = r ≡ (s >>= λ piece. done (calls ++ piece))

pub after {ℓ} :
    {A : Type ℓ} (calls : MulticallerCalls) (r : EncodeResult A)
    (f g : A → EncodeResult MulticallerCalls)
    → ((a : A) → Adds calls (f a) (g a))
    → Adds calls (r >>= f) (r >>= g)
after calls r f g h = >>=_cong r f _ h ∙ sym (>>=_assoc r g (λ piece. done (calls ++ piece)))

pub added : (calls xs ys : MulticallerCalls) → ys ≡ calls ++ xs → Adds calls (done ys) (done xs)
unfolding ◌>>=◌
added calls xs ys e = ap (λ cs. done cs) e

if_added :
    (calls : MulticallerCalls) (b : Bool) (x y : MulticallerCall)
    → (if b then add calls y else add (add calls x) y) ≡ calls ++ (if b then y ∷ [] else x ∷ y ∷ [])
if_added calls true x y = refl
if_added calls false x y = append_assoc calls (x ∷ []) (y ∷ [])

-- What lines rely on of an encoder: each of its operations adds its calls.
abbrev pub IsEncoder : SwapOpcodesEncoder → Type 0
IsEncoder e =
    IsAppending e.encode_swap_in_amount_provided
    × IsAppending e.encode_flash_swap_in_amount_provided
    × IsAppending e.encode_flash_swap_out_amount_provided

module _ (abi : PoolAbi) where
  uni2_swap_in-IsAppending : IsAppending (uni2_swap_in abi)
  unfolding uni2_swap_in
  uni2_swap_in-IsAppending calls from to amount p next payload m = after calls _ _ _ λ pool.
      after calls _ _ _ λ stacked.
        after calls _ _ _
          λ packed. after calls _ _ _ λ offset. added calls _ _ (append_assoc calls stacked _)

  uni2_flash_in-IsAppending : IsAppending (uni2_flash_in abi)
  unfolding uni2_flash_in
  uni2_flash_in-IsAppending calls from to amount p prev payload m = after calls _ _ _ λ pool.
      after calls _ _ _ λ inside. after calls _ _ _ λ get_out.
        after calls _ _ _ λ packed.
          after calls _ _ _ λ offset. added calls _ _ (append_assoc calls (get_out ∷ []) _)

  uni2_flash_out-IsAppending : IsAppending (uni2_flash_out abi)
  unfolding uni2_flash_out
  uni2_flash_out-IsAppending calls from to amount p next payload m = after calls _ _ _ λ pool.
      after calls _ _ _ λ inside.
        after calls _ _ _
          λ packed. after calls _ _ _ λ swap. added calls (swap ∷ []) (calls ++ swap ∷ []) refl

  uni3_swap_in-IsAppending : IsAppending (uni3_swap_in abi)
  unfolding uni3_swap_in
  uni3_swap_in-IsAppending calls from to amount p next payload m = after calls _ _ _ λ inside.
      after calls _ _ _ λ pool. after calls _ _ _ λ packed. after calls _ _ _ λ returned.
        after calls _ _ _
          λ offset. after calls _ _ _ λ stacked. added calls _ _ (append_assoc calls stacked _)

  uni3_flash_in-IsAppending : IsAppending (uni3_flash_in abi)
  unfolding uni3_flash_in
  uni3_flash_in-IsAppending calls from to amount p prev payload m = after calls _ _ _ λ pool.
      after calls _ _ _ λ inside.
        after calls _ _ _
          λ packed. after calls _ _ _ λ swap. added calls (swap ∷ []) (calls ++ swap ∷ []) refl

  uni3_flash_out-IsAppending : IsAppending (uni3_flash_out abi)
  unfolding uni3_flash_out
  uni3_flash_out-IsAppending calls from to amount p next payload m = after calls _ _ _ λ pool.
      after calls _ _ _ λ inside.
        after calls _ _ _ λ packed.
          after calls _ _ _ λ swap. added calls _ _ (if_added calls (is_set amount) _ swap)

  uniswap2-IsEncoder : IsEncoder (uniswap2_encoder abi)
  uniswap2-IsEncoder =
      (uni2_swap_in-IsAppending, uni2_flash_in-IsAppending, uni2_flash_out-IsAppending)

  uniswap3-IsEncoder : IsEncoder (uniswap3_encoder abi)
  uniswap3-IsEncoder =
      (uni3_swap_in-IsAppending, uni3_flash_in-IsAppending, uni3_flash_out-IsAppending)

  module _ (curve_encoder : SwapOpcodesEncoder) (law : IsEncoder curve_encoder) where
    abbrev IsEncoderOf : Option SwapOpcodesEncoder → Type 0
    IsEncoderOf none = Unit
    IsEncoderOf (some e) = IsEncoder e

    encoder_of-IsEncoder : (class : PoolClass) → IsEncoderOf (encoder_of abi curve_encoder class)
    encoder_of-IsEncoder uniswap_v2 = uniswap2-IsEncoder
    encoder_of-IsEncoder uniswap_v3 = uniswap3-IsEncoder
    encoder_of-IsEncoder pancake_v3 = uniswap3-IsEncoder
    encoder_of-IsEncoder maverick = uniswap3-IsEncoder
    encoder_of-IsEncoder curve = law
    encoder_of-IsEncoder unknown = tt
    encoder_of-IsEncoder uniswap_v4 = tt
    encoder_of-IsEncoder maverick_v2 = tt
    encoder_of-IsEncoder lido_st_eth = tt
    encoder_of-IsEncoder lido_wst_eth = tt
    encoder_of-IsEncoder rocket_pool = tt
    encoder_of-IsEncoder balancer_v1 = tt
    encoder_of-IsEncoder balancer_v2 = tt
    encoder_of-IsEncoder (custom n) = tt

    found-Adds :
        (o : Option SwapOpcodesEncoder) (calls : MulticallerCalls)
        (f : SwapOpcodesEncoder → MulticallerCalls → EncodeResult MulticallerCalls)
        → IsEncoderOf o
        → ((e : SwapOpcodesEncoder) → IsEncoder e → Adds calls (f e calls) (f e []))
        → Adds calls (asked o >>= λ e. f e calls) (asked o >>= λ e. f e [])
    unfolding ◌>>=◌
    found-Adds none calls f k h = refl
    found-Adds (some e) calls f k h = h e k

    -- Of the encoder that chooses by the class of a pool.
    pub protocol_encoder-IsEncoder : IsEncoder (protocol_encoder abi curve_encoder)
    unfolding protocol_encoder
    protocol_encoder-IsEncoder = (
      λ calls from to amount p next payload m.
          found-Adds (encoder_of abi curve_encoder p.class) calls
            (λ e cs. e.encode_swap_in_amount_provided cs from to amount p next payload m)
            (encoder_of-IsEncoder p.class) λ e k. k.0 calls from to amount p next payload m,
      λ calls from to amount p next payload m.
          found-Adds (encoder_of abi curve_encoder p.class) calls
            (λ e cs. e.encode_flash_swap_in_amount_provided cs from to amount p next payload m)
            (encoder_of-IsEncoder p.class) λ e k. k.1 calls from to amount p next payload m,
      λ calls from to amount p next payload m.
          found-Adds (encoder_of abi curve_encoder p.class) calls
            (λ e cs. e.encode_flash_swap_out_amount_provided cs from to amount p next payload m)
            (encoder_of-IsEncoder p.class) λ e k. k.2 calls from to amount p next payload m,
    )
