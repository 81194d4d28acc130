-- ===== src/Swap/Step/Merge/Start.antt =====
-- The merge of two lines that begin with the same pools.
use kabu.Base.{
  ℕ, suc, ◌≡◌, refl, sym, ap, ◌∙◌, inl, inr, true, some, List, [], ◌∷◌, ◌++◌, arith, Bool-cases,
  Option-cases, length, take, drop, length-take, take-append-drop,
}
use kabu.Market.{Token, addresses, pool_ids}
use kabu.Swap.{SwapLine}
use kabu.Swap.Split.{append-take-drop, IsLine, head_of, tail_of, split-eq}
use kabu.Swap.Step.{
  merged, SwapStep, add, get_ends, same_ends, count_start, count_end, merge_start, merge_swap_paths,
  shares, half_max,
}
use kabu.Swap.Step.Merge.{
  Stops, count_common-Stops, drop-drop_one, count_common-take, addresses-append, pool_ids-append,
  tail_of-ends,
}

-- The first step has one line, of as many pools as given, and the second two: the line of the first
-- step goes on, in the second, to all of the first line by one of them, and to the tokens and pools of
-- the second line by the other; the two of them have no pool more in common at their starts.
abbrev pub Forks : SwapLine → SwapLine → ℕ → SwapStep → SwapStep → Type 0
Forks a b n step_0 step_1 =
    (common : SwapLine) × (u : SwapLine) × (w : SwapLine) × (step_0.swap_line_vec ≡ common ∷ [])
    × (step_1.swap_line_vec ≡ u ∷ w ∷ [])
    × (length common.path.pools ≡ n)
    × Stops (drop 1 u.path.tokens) (drop 1 w.path.tokens) u.path.pools w.path.pools
    × (common.path.pools ++ u.path.pools ≡ a.path.pools)
    × (common.path.tokens ++ drop 1 u.path.tokens ≡ a.path.tokens)
    × (pool_ids (common.path.pools ++ w.path.pools) ≡ pool_ids b.path.pools)
    × (addresses (common.path.tokens ++ drop 1 w.path.tokens) ≡ addresses b.path.tokens)

stops :
    (a b : SwapLine) (n : ℕ)
    → count_start a.path b.path ≡ some n
    → Stops
        (drop 1 (drop n a.path.tokens))
        (drop 1 (drop n b.path.tokens))
        (drop n a.path.pools)
        (drop n b.path.pools)
stops a b n c =
    let found =
      count_common-Stops (drop 1 a.path.tokens) (drop 1 b.path.tokens) a.path.pools b.path.pools n
        c in
    rw (drop-drop_one n a.path.tokens, drop-drop_one n b.path.tokens) at found

same_pools :
    (a b : SwapLine) (n : ℕ)
    → count_start a.path b.path ≡ some n
    → pool_ids (take n a.path.pools ++ drop n b.path.pools) ≡ pool_ids b.path.pools
same_pools a b n c =
    let taken = count_common-take _ _ a.path.pools b.path.pools n c in
    pool_ids-append (take n a.path.pools) (drop n b.path.pools)
    ∙ ap (λ x. x ++ pool_ids (drop n b.path.pools)) taken.1
    ∙ sym (pool_ids-append (take n b.path.pools) (drop n b.path.pools))
    ∙ ap pool_ids (take-append-drop n b.path.pools)

same_first :
    (a b : SwapLine) (n : ℕ) (x y : Token × Token)
    → count_start a.path b.path ≡ some n
    → get_ends a ≡ some x
    → get_ends b ≡ some y
    → same_ends x y ≡ true
    → addresses (take (suc n) a.path.tokens) ≡ addresses (take (suc n) b.path.tokens)
same_first a b n x y c e f same = go a.path.tokens b.path.tokens refl refl
  where
    go :
        (ts us : List Token)
        → a.path.tokens ≡ ts
        → b.path.tokens ≡ us
        → addresses (take (suc n) a.path.tokens) ≡ addresses (take (suc n) b.path.tokens)
    go [] us p q = absurd (ground (arith, p))
    go (t ∷ ts) [] p q = absurd (ground (arith, p, q))
    go (t ∷ ts) (u ∷ us) p q =
        let taken = count_common-take ts us a.path.pools b.path.pools n (ground (arith, p, q)) in
        ground (arith, p, q, taken.0)

same_tokens :
    (a b : SwapLine) (n : ℕ) (x y : Token × Token)
    → count_start a.path b.path ≡ some n
    → get_ends a ≡ some x
    → get_ends b ≡ some y
    → same_ends x y ≡ true
    → addresses (take (suc n) a.path.tokens ++ drop 1 (drop n b.path.tokens))
      ≡ addresses b.path.tokens
same_tokens a b n x y c e f same =
    addresses-append (take (suc n) a.path.tokens) (drop 1 (drop n b.path.tokens))
    ∙ ap (λ z. z ++ addresses (drop 1 (drop n b.path.tokens))) (same_first a b n x y c e f same)
    ∙ sym (addresses-append (take (suc n) b.path.tokens) (drop 1 (drop n b.path.tokens)))
    ∙ ap addresses (append-take-drop n b.path.tokens)

merge_start-Forks :
    (a b : SwapLine) (n multicaller : ℕ) (x y : Token × Token) (step_0 step_1 : SwapStep)
    → IsLine a.path
    → IsLine b.path
    → count_start a.path b.path ≡ some (suc n)
    → get_ends a ≡ some x
    → get_ends b ≡ some y
    → same_ends x y ≡ true
    → merge_start a b (suc n) multicaller ≡ some (step_0, step_1)
    → Forks a b (suc n) step_0 step_1
unfolding merge_start add
merge_start-Forks a b n multicaller x y step_0 step_1 l k c e f same q =
    let taken = count_common-take _ _ a.path.pools b.path.pools (suc n) c in
    let split_a = split-eq a (suc n) l taken.2 in
    let split_b = split-eq b (suc n) k taken.3 in
    let (u, w, g, h, ends) = tail_of-ends a b n x y c e f same in
    let tail_a = tail_of a (suc n) in
    let tail_b = tail_of b (suc n) in
    elim (Option-cases (shares a.amount_out b.amount_out tail_a.amount_out tail_b.amount_out)) [
      | inl r ↦ absurd (ground (arith, split_a, split_b, r))
      | inr ((out_a, out_b), r) ↦
          let common = record (head_of a (suc n)) {
            amount_in = half_max a.amount_in b.amount_in a.amount_in;
          } in
          (
            common,
            record tail_a { amount_out = out_a },
            record tail_b { amount_out = out_b },
            ground (arith, split_a, split_b, r, g, h, ends),
            ground (arith, split_a, split_b, r, g, h, ends),
            ground (arith, length-take (suc n) a.path.pools, taken.2),
            stops a b (suc n) c,
            take-append-drop (suc n) a.path.pools,
            append-take-drop (suc n) a.path.tokens,
            same_pools a b (suc n) c,
            same_tokens a b (suc n) x y c e f same,
          )
    ]

-- When two lines that begin with the same pools are merged, these pools, all that the lines have in
-- common from their starts, are the first step, and the second step has the two ways on: each line is
-- the common part with one of them. (The lines have one token more than pools.)
pub merge_swap_paths-Forks :
    (a b : SwapLine) (n multicaller : ℕ) (step_0 step_1 : SwapStep)
    → IsLine a.path
    → IsLine b.path
    → count_start a.path b.path ≡ some (suc n)
    → merge_swap_paths a b multicaller ≡ merged (step_0, step_1)
    → Forks a b (suc n) step_0 step_1
unfolding merge_swap_paths
merge_swap_paths-Forks a b n multicaller step_0 step_1 l k c q = elim (Option-cases (get_ends a)) [
  | inl e ↦ absurd (ground (arith, e))
  | inr (x, e) ↦ elim (Option-cases (get_ends b)) [
    | inl f ↦ absurd (ground (arith, e, f))
    | inr (y, f) ↦ elim (Bool-cases (same_ends x y)) [
      | inr g ↦ absurd (ground (arith, e, f, g))
      | inl g ↦ elim (Option-cases (count_end a.path b.path)) [
        | inl i ↦ absurd (ground (arith, e, f, g, c, i))
        | inr (m, i) ↦
            merge_start-Forks a b n multicaller x y step_0 step_1 l k c e f g
              (ground (arith, e, f, g, c, i))
      ]
    ]
  ]
]
