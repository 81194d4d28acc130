-- ===== src/Multicaller/Lines/Split.antt =====
-- The calls of a line, from those of its parts.
use mathlib.Core.List.{append_assoc, append-nil}
use kabu.Base.{
  ℕ, zero, suc, ◌≤◌, ◌<◌, ◌≡◌, refl, sym, ap, ◌∙◌, Option, some, List, [], ◌∷◌, ◌++◌, arith, length,
  take, drop, head?, done, ◌>>=◌, >>=_cong, >>=_assoc,
}
use kabu.Market.{Token, Pool}
use kabu.Multicaller.{MulticallerCalls}
use kabu.Swap.{SwapLine, SwapAmountType, relative_stack, split}
use kabu.Swap.Split.{split-parts, IsLine}
use kabu.Multicaller.Lines.{
  SwapOpcodesEncoder, EncodeResult, empty, encode_swap_line_in_amount, line_loop, next_or,
}
use kabu.Multicaller.Lines.Flash.{IsAppending}

abbrev amount_after : ℕ → SwapAmountType → SwapAmountType
amount_after zero amount = amount
amount_after (suc k) amount = relative_stack 0

amount_after_stack : (k : ℕ) → amount_after k (relative_stack 0) ≡ relative_stack 0
amount_after_stack zero = refl
amount_after_stack (suc k) = refl

next_or-take :
    (k : ℕ) (funds_to : Option Pool) (ps : List Pool)
    → k < length ps
    → next_or (head? (drop k ps)) (take k ps) ≡ next_or funds_to ps
next_or-take zero funds_to [] h = absurd (omega (arith, h))
next_or-take zero funds_to (p ∷ ps) h = refl
next_or-take (suc k) funds_to [] h = absurd (omega (arith, h))
next_or-take (suc k) funds_to (p ∷ ps) h = refl

module _ (encoder : SwapOpcodesEncoder) (multicaller : ℕ) where
  abbrev loop :
      SwapAmountType
      → MulticallerCalls
      → Option Pool
      → List Token
      → List Pool
      → EncodeResult MulticallerCalls
  loop = line_loop encoder multicaller

  loop-split :
      (k : ℕ) (amount : SwapAmountType) (calls : MulticallerCalls) (funds_to : Option Pool)
      (ts : List Token) (ps : List Pool)
      → k < length ps
      → loop amount calls funds_to ts ps ≡ (
          loop amount calls (head? (drop k ps)) (take (suc k) ts) (take k ps) >>= λ mid.
          loop (amount_after k amount) mid funds_to (drop k ts) (drop k ps))
  unfolding line_loop ◌>>=◌
  loop-split zero amount calls funds_to ts ps h = refl
  loop-split (suc k) amount calls funds_to ts [] h = refl
  loop-split (suc k) amount calls funds_to [] (p ∷ ps) h = refl
  loop-split (suc k) amount calls funds_to (a ∷ []) (p ∷ ps) h = refl
  loop-split (suc k) amount calls funds_to (a ∷ b ∷ ts) (p ∷ ps) h =
      let in_rest : k < length ps = omega (arith, h) in
      let stack = relative_stack 0 in
      let encode : Option Pool → EncodeResult MulticallerCalls = λ o.
        encoder.encode_swap_in_amount_provided calls a.address b.address amount p o empty
          multicaller in
      let funds = head? (drop k ps) in
      let first : MulticallerCalls → EncodeResult MulticallerCalls =
        λ n. loop stack n funds (take (suc k) (b ∷ ts)) (take k ps) in
      let second : SwapAmountType → MulticallerCalls → EncodeResult MulticallerCalls =
        λ x mid. loop x mid funds_to (drop k (b ∷ ts)) (drop k ps) in
      let rest : MulticallerCalls → EncodeResult MulticallerCalls =
        λ n. loop stack n funds_to (b ∷ ts) ps in
      ap (λ o. encode o >>= rest) (sym (next_or-take k funds_to ps in_rest))
      ∙ >>=_cong (encode (next_or funds (take k ps))) rest (λ n. first n >>= second stack)
          (λ n.
            loop-split k stack n funds_to (b ∷ ts) ps in_rest
            ∙ ap (λ x. first n >>= second x) (amount_after_stack k))
      ∙ sym (>>=_assoc (encode (next_or funds (take k ps))) first (second stack))

  module _ (appends : IsAppending encoder.encode_swap_in_amount_provided) where
    loop-from :
        (amount : SwapAmountType) (calls : MulticallerCalls) (funds_to : Option Pool)
        (ts : List Token) (ps : List Pool)
        → loop amount calls funds_to ts ps
          ≡ (loop amount [] funds_to ts ps >>= λ piece. done (calls ++ piece))
    unfolding line_loop ◌>>=◌
    loop-from amount calls funds_to ts [] = ap (λ cs. done cs) (sym (append-nil calls))
    loop-from amount calls funds_to [] (p ∷ ps) = refl
    loop-from amount calls funds_to (a ∷ []) (p ∷ ps) = refl
    loop-from amount calls funds_to (a ∷ b ∷ ts) (p ∷ ps) =
        let stack = relative_stack 0 in
        let added : MulticallerCalls → EncodeResult MulticallerCalls = λ z. done (calls ++ z) in
        let rest : MulticallerCalls → EncodeResult MulticallerCalls =
          λ n. loop stack n funds_to (b ∷ ts) ps in
        let one =
          encoder.encode_swap_in_amount_provided [] a.address b.address amount p
            (next_or funds_to ps) empty multicaller in
        ap (λ r. r >>= rest)
          (appends calls a.address b.address amount p (next_or funds_to ps) empty multicaller)
        ∙ >>=_assoc one added rest
        ∙ >>=_cong one (λ x. rest (calls ++ x)) (λ x. rest x >>= added)
            (λ x.
              loop-from stack (calls ++ x) funds_to (b ∷ ts) ps
              ∙ >>=_cong (rest []) (λ y. done ((calls ++ x) ++ y)) (λ y. done (calls ++ (x ++ y)))
                  (λ y. ap (λ cs. done cs) (append_assoc calls x y))
              ∙ sym (>>=_assoc (rest []) (λ y. done (x ++ y)) added)
              ∙ ap (λ r. r >>= added) (sym (loop-from stack x funds_to (b ∷ ts) ps)))
        ∙ sym (>>=_assoc one rest added)

    -- Where a line is split inside, its calls are those of its first part, which sends its funds to
    -- the first pool of the second, and then those of the second, which takes its amount from the
    -- stack.
    pub encode-split :
        (line head tail : SwapLine) (k : ℕ) (funds_to : Option Pool)
        → IsLine line.path
        → 1 ≤ k
        → k < length line.path.pools
        → split line k ≡ some (head, tail)
        → encode_swap_line_in_amount encoder multicaller line funds_to ≡ (
            encode_swap_line_in_amount encoder multicaller head (head? tail.path.pools) >>= λ first.
            encode_swap_line_in_amount encoder multicaller
              (record tail { amount_in = relative_stack 0 })
              funds_to
            >>= λ second. done (first ++ second))
    unfolding encode_swap_line_in_amount
    encode-split line head tail zero funds_to l h k e = absurd (omega (arith, h))
    encode-split line head tail (suc k) funds_to l h less e =
        let (u, v) = split-parts line head tail (suc k) l (omega (arith, less)) e in
        let ts = line.path.tokens in
        let ps = line.path.pools in
        rw (u, v)
          (loop-split (suc k) line.amount_in [] funds_to ts ps less
            ∙ >>=_cong _ _ _ λ first.
              loop-from (relative_stack 0) first funds_to (drop (suc k) ts) (drop (suc k) ps))
