-- ===== src/Swap/Step.antt =====
-- Swap steps (crates/types/swap/src/swap_step.rs): lines that run from one token to another, and the
-- merge of two lines with pools in common.
pub mod Merge
pub mod Flash
pub mod Calculate
pub mod Optimize
mod Tests
use Prim.Native.Nat.{max}
use kabu.Base.{
  ℕ, zero, suc, ◌+◌, ◌-◌, ◌*◌, ◌/◌, ◌%◌, ◌^◌, ◌≤◌, ◌<◌, ◌≡◌, refl, sym, ap, ◌∙◌, ◌≢◌, ◌↔◌, ◌⊎◌, inl,
  inr, Bool, true, false, ◌&&◌, ◌||◌, not, Option, none, some, List, [], ◌∷◌, ◌++◌, map, reverse,
  arith, ltb, leb, ◌==◌, if◌then◌else◌, ltb→lt, lt→ltb, leb→le, ==_iff, ==_refl, Bool-cases,
  Option-cases, is_some, get_or_else, length, get_elem?, take, drop, head?, get_last?, any, All,
  length-append, take-append-drop, length-take, length-drop, get_last?-append, All-append, HashMap,
  lookup, contains_key, insert, erase, retain, alter, values, lookup-insert, lookup-insert_self,
  lookup-insert_ne, lookup-erase, lookup-retain_key, IsMap, insert-IsMap, lookup-retain,
  retain-IsMap, erase-IsMap, any-values,
}
use kabu.Market.{Token, Pool, SwapPath, same_token, same_pool, contains_pool}
use kabu.Types.{u256_mod}
use kabu.Swap.{SwapLine, SwapAmountType, set, stack0, split, can_flash_swap}

-- The errors of `merge_swap_paths`, and a panic.
pub data MergeResult (A : Type 0) : Type 0 where
  merged : A → MergeResult A
  cannot_merge_different_tokens cannot_merge_both_sides more_common_pools : MergeResult A
  cannot_merge panicked : MergeResult A

pub record SwapStep : Type 0 where
  pub swap_line_vec : List SwapLine
  pub swap_to : ℕ
  pub swap_from : Option ℕ

abbrev pub new : ℕ → SwapStep
new swap_to = record { swap_line_vec = []; swap_to = swap_to; swap_from = none }

-- The unwrapped ends of a line; `none` is a panic.
abbrev pub get_ends : SwapLine → Option (Token × Token)
get_ends line = elim (head? line.path.tokens) [
  | none ↦ none
  | some first ↦ elim (get_last? line.path.tokens) [ none ↦ none | some last ↦ some (first, last) ]
]

abbrev pub same_ends : Token × Token → Token × Token → Bool
same_ends a b = same_token a.0 b.0 && same_token a.1 b.1

-- `none` is a panic; a line with other ends is not added.
unfoldable pub add : SwapStep → SwapLine → Option SwapStep
add s line = elim s.swap_line_vec [
  | [] ↦ some (record s { swap_line_vec = line ∷ [] })
  | first ∷ lines ↦ elim (get_ends first) [
    | none ↦ none
    | some a ↦ elim (get_ends line) [
      | none ↦ none
      | some b ↦
          if same_ends a b
          then some (record s { swap_line_vec = s.swap_line_vec ++ line ∷ [] })
          else some s
    ]
  ]
]

-- The amount, where it is set.
abbrev pub amount_of : SwapAmountType → Option ℕ
amount_of (set x) = some x
amount_of _ = none

-- The sum of the amounts, where all are set.
pub sum_amounts : (SwapLine → SwapAmountType) → ℕ → List SwapLine → Option ℕ
sum_amounts f total [] = some total
sum_amounts f total (line ∷ lines) = elim (amount_of (f line)) [
  | none ↦ none
  | some x ↦ sum_amounts f ((total + x) % u256_mod) lines
]

pub get_in_amount : SwapStep → Option ℕ
unfolding sum_amounts
get_in_amount s = sum_amounts (λ line. line.amount_in) 0 s.swap_line_vec

pub get_out_amount : SwapStep → Option ℕ
unfolding sum_amounts
get_out_amount s = sum_amounts (λ line. line.amount_out) 0 s.swap_line_vec

-- The loop of `merge_swap_paths` that counts the common pools at the start, over the tokens after
-- the first; it stops at the end of either line. `none` is an index out of range.
pub count_common : List Token → List Token → List Pool → List Pool → Option ℕ
count_common ts us [] qs = some 0
count_common ts us (p ∷ ps) [] = some 0
count_common [] us (p ∷ ps) (q ∷ qs) = none
count_common (t ∷ ts) [] (p ∷ ps) (q ∷ qs) = none
count_common (t ∷ ts) (u ∷ us) (p ∷ ps) (q ∷ qs) =
    let rest = count_common ts us ps qs in
    if same_pool p q && same_token t u
    then (elim rest [ none ↦ none | some n ↦ some (suc n) ])
    else some 0

abbrev pub count_start : SwapPath → SwapPath → Option ℕ
count_start a b = count_common (drop 1 a.tokens) (drop 1 b.tokens) a.pools b.pools

-- The loop of `merge_swap_paths` from the other end.
abbrev pub count_end : SwapPath → SwapPath → Option ℕ
count_end a b =
    count_common (drop 1 (reverse a.tokens)) (drop 1 (reverse b.tokens)) (reverse a.pools)
      (reverse b.pools)

-- The loops of `can_merge_swap_paths`, which has its own: the numbers of common pools at the start
-- and at the end.
pub matching : List Token → List Token → List Pool → List Pool → Option ℕ
matching ts us [] qs = some 0
matching ts us (p ∷ ps) [] = some 0
matching [] us (p ∷ ps) (q ∷ qs) = none
matching (t ∷ ts) [] (p ∷ ps) (q ∷ qs) = none
matching (t ∷ ts) (u ∷ us) (p ∷ ps) (q ∷ qs) =
    let rest = matching ts us ps qs in
    if same_pool p q && same_token t u
    then (elim rest [ none ↦ none | some n ↦ some (suc n) ])
    else some 0

abbrev matching_start : SwapPath → SwapPath → Option ℕ
matching_start a b = matching (drop 1 a.tokens) (drop 1 b.tokens) a.pools b.pools

abbrev matching_end : SwapPath → SwapPath → Option ℕ
matching_end a b =
    matching (drop 1 (reverse a.tokens)) (drop 1 (reverse b.tokens)) (reverse a.pools)
      (reverse b.pools)

pub common_pools : List Pool → SwapPath → ℕ
common_pools [] b = 0
common_pools (p ∷ ps) b =
    let rest = common_pools ps b in if contains_pool b p then suc rest else rest

-- `a && b` of the two tests on the counts.
abbrev pub both_sides : ℕ → ℕ → Bool
both_sides split_start split_end = ltb 0 split_start && ltb 0 split_end

-- `none` is a panic.
pub can_merge_swap_paths : SwapLine → SwapLine → Option Bool
unfolding matching
can_merge_swap_paths a b = elim (get_ends a) [
  | none ↦ none
  | some x ↦ elim (get_ends b) [
    | none ↦ none
    | some y ↦ if not (same_ends x y) then some false else (elim (matching_start a.path b.path) [
      | none ↦ none
      | some n ↦ elim (matching_end a.path b.path) [
        | none ↦ none
        | some k ↦ some (not (ltb 0 n && ltb 0 k))
      ]
    ])
  ]
]

-- `(a0.max(a1) * x / (a0 + a1)) >> 1`; `none` is the division by zero.
abbrev pub share : ℕ → ℕ → ℕ → Option ℕ
share a0 a1 x =
    let total = (a0 + a1) % u256_mod in
    if total == 0 then none else some (max a0 a1 * x % u256_mod / total / 2)

-- Both amounts, where both are set.
abbrev pub both_set : SwapAmountType → SwapAmountType → Option (ℕ × ℕ)
both_set (set a0) (set a1) = some (a0, a1)
both_set _ _ = none

-- The shares of both lines, or the types they had.
abbrev pub shares :
    SwapAmountType
    → SwapAmountType
    → SwapAmountType
    → SwapAmountType
    → Option (SwapAmountType × SwapAmountType)
shares amount_0 amount_1 old_0 old_1 = elim (both_set amount_0 amount_1) [
  | none ↦ some (old_0, old_1)
  | some (a0, a1) ↦ elim (share a0 a1 a0) [
    | none ↦ none
    | some x ↦ elim (share a0 a1 a1) [ none ↦ none | some y ↦ some (set x, set y) ]
  ]
]

abbrev pub half_max : SwapAmountType → SwapAmountType → SwapAmountType → SwapAmountType
half_max amount_0 amount_1 old = elim (both_set amount_0 amount_1) [
  | none ↦ old
  | some (a0, a1) ↦ set (max a0 a1 / 2)
]

abbrev pub add_two : SwapStep → SwapLine → SwapLine → Option SwapStep
add_two s a b = elim (add s a) [ none ↦ none | some t ↦ add t b ]

abbrev pub or_panicked : {A : Type 0} → Option A → MergeResult A
or_panicked none = panicked
or_panicked (some a) = merged a

-- The lines have their first pools in common: these are the first step.
pub merge_start : SwapLine → SwapLine → ℕ → ℕ → Option (SwapStep × SwapStep)
unfolding add
merge_start a b split_start multicaller = elim (split a split_start) [
  | none ↦ none
  | some (a_head, a_tail) ↦ elim (split b split_start) [
    | none ↦ none
    | some (b_head, b_tail) ↦
        elim (shares a.amount_out b.amount_out a_tail.amount_out b_tail.amount_out) [
          | none ↦ none
          | some (out_a, out_b) ↦
              let common = record a_head {
                amount_in = half_max a.amount_in b.amount_in a_head.amount_in;
              } in
              elim (add_two (new multicaller) (record a_tail { amount_out = out_a })
                (record b_tail { amount_out = out_b })) [
                  | none ↦ none
                  | some step_1 ↦ elim (add (new multicaller) common) [
                    | none ↦ none
                    | some step_0 ↦ some (step_0, step_1)
                  ]
                ]
        ]
  ]
]

-- The lines have their last pools in common: these are the second step.
pub merge_end : SwapLine → SwapLine → ℕ → ℕ → Option (SwapStep × SwapStep)
unfolding add
merge_end a b split_end multicaller = elim (split a (length a.path.pools - split_end)) [
  | none ↦ none
  | some (a_head, a_tail) ↦ elim (split b (length b.path.pools - split_end)) [
    | none ↦ none
    | some (b_head, b_tail) ↦
        elim (shares a.amount_in b.amount_in a_head.amount_in b_head.amount_in) [
          | none ↦ none
          | some (in_a, in_b) ↦
              let common = record a_tail {
                amount_out = half_max a.amount_out b.amount_out a_tail.amount_out;
              } in
              elim (add_two (new multicaller) (record a_head { amount_in = in_a })
                (record b_head { amount_in = in_b })) [
                  | none ↦ none
                  | some step_0 ↦ elim (add (new multicaller) common) [
                    | none ↦ none
                    | some step_1 ↦ some (step_0, step_1)
                  ]
                ]
        ]
  ]
]

pub merge_swap_paths : SwapLine → SwapLine → ℕ → MergeResult (SwapStep × SwapStep)
unfolding count_common common_pools merge_start merge_end
merge_swap_paths a b multicaller = elim (get_ends a) [
  | none ↦ panicked
  | some x ↦ elim (get_ends b) [
    | none ↦ panicked
    | some y ↦
        if not (same_ends x y)
        then cannot_merge_different_tokens
        else (elim (count_start a.path b.path) [
          | none ↦ panicked
          | some n ↦ elim (count_end a.path b.path) [
            | none ↦ panicked
            | some k ↦
                let common = common_pools a.path.pools b.path in
                if both_sides n k
                then cannot_merge_both_sides
                else (if (ltb 0 n && not (n == common)) || (ltb 0 k && not (k == common))
                    then more_common_pools
                    else (if ltb 0 n
                        then or_panicked (merge_start a b n multicaller)
                        else (if ltb 0 k
                            then or_panicked (merge_end a b k multicaller)
                            else cannot_merge)))
          ]
        ])
  ]
]

-- The loop of `SwapLine::to_swap_steps`: the first split with a part that can be flash swapped. An
-- outer `none` is a panic.
unfoldable pub find_flash : ℕ → ℕ → SwapLine → Option (Option (SwapLine × SwapLine))
find_flash zero i line = some none
find_flash (suc n) i line = elim (split line i) [
  | none ↦ none
  | some (head, tail) ↦
      let rest = find_flash n (suc i) line in
      if can_flash_swap head || can_flash_swap tail
      then some
          (some (head, if can_flash_swap head then record tail { amount_in = stack0 } else tail))
      else rest
]

abbrev or_split : Option (SwapLine × SwapLine) → SwapLine → Option (SwapLine × SwapLine)
or_split none line = split line 1
or_split (some parts) line = some parts

unfoldable pub to_swap_steps : SwapLine → ℕ → Option (SwapStep × SwapStep)
unfolding find_flash add
to_swap_steps line multicaller = elim (find_flash (length line.path.pools - 1) 1 line) [
  | none ↦ none
  | some found ↦ elim (or_split found line) [
    | none ↦ none
    | some (head, tail) ↦ elim (add (new multicaller) head) [
      | none ↦ none
      | some step_0 ↦ elim (add (new multicaller) tail) [
        | none ↦ none
        | some step_1 ↦ some (step_0, step_1)
      ]
    ]
  ]
]
