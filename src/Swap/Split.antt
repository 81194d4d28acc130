-- ===== src/Swap/Split.antt =====
-- A line that is split: its parts make up the line again, and so do their calculations.
use mathlib.Core.List.{append_assoc, append-nil}
use kabu.Base.{
  sym, ℕ, zero, suc, ◌+◌, ◌%◌, ◌≤◌, ◌<◌, ◌≡◌, refl, ap, ◌∙◌, inl, inr, some, List, [], ◌∷◌, ◌++◌,
  arith, Option-cases, length, take, drop, head?, get_last?, take-append-drop, length-take,
  length-drop,
}
use kabu.Market.{Token, Pool, SwapPath, new_path}
use kabu.Types.{u64_mod}
use kabu.Swap.{
  not_set, calculate_with_in_amount, SwapLine, ok, CalculationResult, from_path, split,
  calculate_loop,
}

-- A path has one token more than pools.
abbrev pub IsLine : SwapPath → Type 0
IsLine p = length p.tokens ≡ suc (length p.pools)

pub append-take-drop : (k : ℕ) (ts : List Token) → take (suc k) ts ++ drop 1 (drop k ts) ≡ ts
append-take-drop zero [] = refl
append-take-drop zero (t ∷ ts) = refl
append-take-drop (suc k) [] = refl
append-take-drop (suc k) (t ∷ ts) = ap (◌∷◌ t) (append-take-drop k ts)

get_last?-take :
    (k : ℕ) (ts : List Token) → k < length ts → get_last? (take (suc k) ts) ≡ head? (drop k ts)
get_last?-take zero [] h = absurd (omega arith)
get_last?-take zero (t ∷ ts) h = refl
get_last?-take (suc k) [] h = absurd (omega arith)
get_last?-take (suc k) (t ∷ []) h = absurd (omega arith)
get_last?-take (suc k) (t ∷ u ∷ ts) h = get_last?-take k (u ∷ ts) (omega arith)

abbrev pub head_of : SwapLine → ℕ → SwapLine
head_of line k =
    record (from_path (new_path (take (suc k) line.path.tokens) (take k line.path.pools))) {
      amount_in = line.amount_in;
    }

abbrev pub tail_of : SwapLine → ℕ → SwapLine
tail_of line k = record (from_path (new_path (drop k line.path.tokens) (drop k line.path.pools))) {
  amount_out = line.amount_out;
}

pub split-eq :
    (line : SwapLine) (k : ℕ)
    → IsLine line.path
    → k ≤ length line.path.pools
    → split line k ≡ some (head_of line k, tail_of line k)
unfolding split
split-eq line k l h = ground arith

-- A line is split at every pool but the ends' out of range; the parts are lines, and their tokens
-- and pools make up those of the line, the token where they meet in both. The first part has the
-- amount that goes in, the second that which comes out.
pub split_lem :
    (line : SwapLine) (k : ℕ)
    → IsLine line.path
    → k ≤ length line.path.pools
    → (head : SwapLine) × (tail : SwapLine) × (split line k ≡ some (head, tail))
      × IsLine head.path
      × IsLine tail.path
      × (head.path.pools ++ tail.path.pools ≡ line.path.pools)
      × (head.path.tokens ++ drop 1 tail.path.tokens ≡ line.path.tokens)
      × (get_last? head.path.tokens ≡ head? tail.path.tokens)
      × (head.amount_in ≡ line.amount_in)
      × (tail.amount_out ≡ line.amount_out)
      × (tail.amount_in ≡ not_set)
unfolding split
split_lem line k l h =
    let ts = line.path.tokens in
    let ps = line.path.pools in
    (
      head_of line k,
      tail_of line k,
      ground arith,
      ground (arith, length-take (suc k) ts, length-take k ps),
      ground (arith, length-drop k ts, length-drop k ps),
      take-append-drop k ps,
      append-take-drop k ts,
      get_last?-take k ts (omega (arith, l)),
      refl,
      refl,
      refl,
    )

pub split-parts :
    (line head tail : SwapLine) (k : ℕ)
    → IsLine line.path
    → k ≤ length line.path.pools
    → split line k ≡ some (head, tail)
    → (head ≡ head_of line k) × (tail ≡ tail_of line k)
unfolding split
split-parts line head tail k l h e =
    let parts : ◌≡◌ {A = SwapLine × SwapLine} (head_of line k, tail_of line k) (head, tail) =
      ground (arith, e, l, h) in
    (sym (ap (λ x. x.0) parts), sym (ap (λ x. x.1) parts))

-- A calculation that goes through can be started with gas and results that are there.
calculate_loop-from :
    (ts : List Token) (ps : List Pool) (x f g h z used : ℕ) (rs qs out : List CalculationResult)
    → calculate_loop ts ps x f h qs ≡ ok (z, used, out)
    → calculate_loop ts ps x f ((g + h) % u64_mod) (rs ++ qs)
      ≡ ok (z, (g + used) % u64_mod, rs ++ out)
unfolding calculate_loop
calculate_loop-from ts [] x f g h z used rs qs out q = ground arith
calculate_loop-from [] (p ∷ ps) x f g h z used rs qs out q = absurd (ground arith)
calculate_loop-from (a ∷ []) (p ∷ ps) x f g h z used rs qs out q = absurd (ground arith)
calculate_loop-from (a ∷ b ∷ ts) (p ∷ ps) x f g h z used rs qs out q =
    elim (Option-cases (p.calculate_out_amount a.address b.address x)) [
      | inl e ↦ absurd (ground (arith, e))
      | inr ((y, cost), e) ↦
          let c : CalculationResult = record { amount_in = x; amount_out = y } in
          ground (
            arith,
            e,
            append_assoc rs qs (c ∷ []),
            calculate_loop-from (b ∷ ts) ps y y g ((h + cost) % u64_mod) z used rs (qs ++ c ∷ [])
                out,
          )
    ]

-- The gas fits 64 bits.
calculate_loop-lt :
    (ts : List Token) (ps : List Pool) (x f g z used : ℕ) (rs out : List CalculationResult)
    → g < u64_mod
    → calculate_loop ts ps x f g rs ≡ ok (z, used, out)
    → used < u64_mod
unfolding calculate_loop
calculate_loop-lt ts [] x f g z used rs out h q = ground arith
calculate_loop-lt [] (p ∷ ps) x f g z used rs out h q = absurd (ground arith)
calculate_loop-lt (a ∷ []) (p ∷ ps) x f g z used rs out h q = absurd (ground arith)
calculate_loop-lt (a ∷ b ∷ ts) (p ∷ ps) x f g z used rs out h q =
    elim (Option-cases (p.calculate_out_amount a.address b.address x)) [
      | inl e ↦ absurd (ground (arith, e))
      | inr ((y, cost), e) ↦
          let c : CalculationResult = record { amount_in = x; amount_out = y } in
          ground (
            arith,
            e,
            calculate_loop-lt (b ∷ ts) ps y y ((g + cost) % u64_mod) z used (rs ++ c ∷ []) out,
          )
    ]

-- The loop goes on after the first pools with what it had there.
calculate_loop-drop :
    (k : ℕ) (ts : List Token) (ps : List Pool) (x f g y used : ℕ) (rs out : List CalculationResult)
    → suc k ≤ length ps
    → calculate_loop (take (suc (suc k)) ts) (take (suc k) ps) x f g rs ≡ ok (y, used, out)
    → calculate_loop ts ps x f g rs
      ≡ calculate_loop (drop (suc k) ts) (drop (suc k) ps) y y used out
unfolding calculate_loop
calculate_loop-drop k ts [] x f g y used rs out h q = absurd (omega arith)
calculate_loop-drop k [] (p ∷ ps) x f g y used rs out h q = absurd (ground arith)
calculate_loop-drop k (a ∷ []) (p ∷ ps) x f g y used rs out h q = absurd (ground arith)
calculate_loop-drop zero (a ∷ b ∷ ts) (p ∷ ps) x f g y used rs out h q =
    elim (Option-cases (p.calculate_out_amount a.address b.address x)) [
      | inl e ↦ absurd (ground (arith, e))
      | inr ((w, cost), e) ↦ ground (arith, e)
    ]
calculate_loop-drop (suc k) (a ∷ b ∷ ts) (p ∷ ps) x f g y used rs out h q =
    elim (Option-cases (p.calculate_out_amount a.address b.address x)) [
      | inl e ↦ absurd (ground (arith, e))
      | inr ((w, cost), e) ↦
          let c : CalculationResult = record { amount_in = x; amount_out = w } in
          ground (
            arith,
            e,
            calculate_loop-drop k (b ∷ ts) ps w w ((g + cost) % u64_mod) y used (rs ++ c ∷ []) out,
          )
    ]

calculate_loop-any :
    (ts : List Token) (ps : List Pool) (x f e g : ℕ) (rs : List CalculationResult)
    → 0 < length ps
    → calculate_loop ts ps x f g rs ≡ calculate_loop ts ps x e g rs
unfolding calculate_loop
calculate_loop-any ts [] x f e g rs h = absurd (omega arith)
calculate_loop-any [] (p ∷ ps) x f e g rs h = refl
calculate_loop-any (a ∷ []) (p ∷ ps) x f e g rs h = refl
calculate_loop-any (a ∷ b ∷ ts) (p ∷ ps) x f e g rs h = refl

-- Where a line is split inside, the calculations of the two parts, the second from what the first
-- gives, make up that of the line: its amount, the sum of the gas, and the results in order.
pub split-calculate :
    (line head tail : SwapLine) (k x y z g used : ℕ) (rs out : List CalculationResult)
    → 0 < k
    → k < length line.path.pools
    → split line k ≡ some (head, tail)
    → calculate_with_in_amount head.path x ≡ ok (y, g, rs)
    → calculate_with_in_amount tail.path y ≡ ok (z, used, out)
    → calculate_with_in_amount line.path x ≡ ok (z, (g + used) % u64_mod, rs ++ out)
unfolding split calculate_with_in_amount
split-calculate line head tail zero x y z g used rs out p h s a b = absurd (omega arith)
split-calculate line head tail (suc k) x y z g used rs out p h s a b =
    let ts = line.path.tokens in
    let ps = line.path.pools in
    let at_head : head.path ≡ (head_of line (suc k)).path = ground arith in
    let at_tail : tail.path ≡ (tail_of line (suc k)).path = ground arith in
    let first : calculate_loop (take (suc (suc k)) ts) (take (suc k) ps) x 0 0 [] ≡ ok (y, g, rs) =
      rw at_head at a in
    let second : calculate_loop (drop (suc k) ts) (drop (suc k) ps) y 0 0 [] ≡ ok (z, used, out) =
      rw at_tail at b in
    let fits =
      calculate_loop-lt (take (suc (suc k)) ts) (take (suc k) ps) x 0 0 y g [] rs (omega arith)
        first in
    let low : (g + 0) % u64_mod ≡ g = omega (arith, fits) in
    let nothing : rs ++ [] ≡ rs = append-nil rs in
    calculate_loop-drop k ts ps x 0 0 y g [] rs (omega arith) first
    ∙ calculate_loop-any (drop (suc k) ts) (drop (suc k) ps) y y 0 g rs
        (omega (arith, length-drop (suc k) ps))
    ∙ rw (low, nothing) at
        (calculate_loop-from (drop (suc k) ts) (drop (suc k) ps) y 0 g 0 z used rs [] out second)
