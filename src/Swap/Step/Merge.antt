-- ===== src/Swap/Step/Merge.antt =====
-- What a merge of two lines gives.
pub mod Start
use kabu.Base.{
  ℕ, zero, suc, ◌≤◌, ◌<◌, ◌≡◌, refl, sym, ap, ◌≢◌, ◌↔◌, ◌⊎◌, inl, inr, true, false, some, List, [],
  ◌∷◌, ◌++◌, arith, Bool-cases, Option-cases, length, take, drop, reverse, head?, get_last?,
}
use kabu.Market.{Token, Pool, same_token, addresses, pool_ids}
use kabu.Swap.{SwapLine}
use kabu.Swap.Split.{tail_of}
use kabu.Swap.Step.{
  cannot_merge_different_tokens, cannot_merge_both_sides, get_ends, same_ends, count_common,
  matching, count_start, count_end, can_merge_swap_paths, merge_swap_paths,
}

-- The two loops count alike.
matching-count_common :
    (ts us : List Token) (ps qs : List Pool) → matching ts us ps qs ≡ count_common ts us ps qs
unfolding matching count_common
matching-count_common ts us [] qs = refl
matching-count_common ts us (p ∷ ps) [] = refl
matching-count_common [] us (p ∷ ps) (q ∷ qs) = refl
matching-count_common (t ∷ ts) [] (p ∷ ps) (q ∷ qs) = refl
matching-count_common (t ∷ ts) (u ∷ us) (p ∷ ps) (q ∷ qs) =
    ground (arith, matching-count_common ts us ps qs)

-- The fast check, which counts the common pools by loops of its own, says no exactly where the merge
-- finds that the tokens at the ends differ or that pools are common on both sides.
pub can_merge-merge :
    (a b : SwapLine) (multicaller : ℕ)
    → (can_merge_swap_paths a b ≡ some false) ↔ (
        (merge_swap_paths a b multicaller ≡ cannot_merge_different_tokens)
        ⊎ (merge_swap_paths a b multicaller ≡ cannot_merge_both_sides))
unfolding can_merge_swap_paths merge_swap_paths
can_merge-merge a b multicaller = elim (Option-cases (get_ends a)) [
  | inl e ↦ (λ q. ground (arith, e), λ q. ground (arith, e))
  | inr (x, e) ↦ elim (Option-cases (get_ends b)) [
    | inl f ↦ (λ q. ground (arith, e, f), λ q. ground (arith, e, f))
    | inr (y, f) ↦ elim (Bool-cases (same_ends x y)) [
      | inr g ↦ (λ q. ground (arith, e, f, g), λ q. ground (arith, e, f, g))
      | inl g ↦
          let start =
            matching-count_common (drop 1 a.path.tokens) (drop 1 b.path.tokens) a.path.pools
              b.path.pools in
          let end =
            matching-count_common (drop 1 (reverse a.path.tokens)) (drop 1 (reverse b.path.tokens))
              (reverse a.path.pools) (reverse b.path.pools) in
          elim (Option-cases (count_start a.path b.path)) [
            | inl i ↦
                (λ q. ground (arith, e, f, g, i, start), λ q. ground (arith, e, f, g, i, start))
            | inr (n, i) ↦ elim (Option-cases (count_end a.path b.path)) [
              | inl j ↦ (
                λ q. ground (arith, e, f, g, i, j, start, end),
                λ q. ground (arith, e, f, g, i, j, start, end),
              )
              | inr (k, j) ↦ (
                λ q. ground (arith, e, f, g, i, j, start, end),
                λ q. ground (arith, e, f, g, i, j, start, end),
              )
            ]
          ]
    ]
  ]
]

pub count_common-take :
    (ts us : List Token) (ps qs : List Pool) (n : ℕ)
    → count_common ts us ps qs ≡ some n
    → (addresses (take n ts) ≡ addresses (take n us))
      × (pool_ids (take n ps) ≡ pool_ids (take n qs))
      × (n ≤ length ps)
      × (n ≤ length qs)
unfolding count_common
count_common-take ts us [] qs n q = ground arith
count_common-take ts us (p ∷ ps) [] n q = ground arith
count_common-take [] us (p ∷ ps) (r ∷ qs) n q = absurd (ground arith)
count_common-take (t ∷ ts) [] (p ∷ ps) (r ∷ qs) n q = absurd (ground arith)
count_common-take (t ∷ ts) (u ∷ us) (p ∷ ps) (r ∷ qs) n q =
    elim (Option-cases (count_common ts us ps qs)) [
      | inl e ↦ ground (arith, e)
      | inr (k, e) ↦ ground (arith, e, count_common-take ts us ps qs k e)
    ]

-- The count stops where the next pools differ, or the tokens after them, or a line ends.
abbrev pub Stops : List Token → List Token → List Pool → List Pool → Type 0
Stops ts us [] qs = Unit {0}
Stops ts us (p ∷ ps) [] = Unit {0}
Stops [] us (p ∷ ps) (q ∷ qs) = Unit {0}
Stops (t ∷ ts) [] (p ∷ ps) (q ∷ qs) = Unit {0}
Stops (t ∷ ts) (u ∷ us) (p ∷ ps) (q ∷ qs) = (p.pool_id ≢ q.pool_id) ⊎ (t.address ≢ u.address)

pub count_common-Stops :
    (ts us : List Token) (ps qs : List Pool) (n : ℕ)
    → count_common ts us ps qs ≡ some n
    → Stops (drop n ts) (drop n us) (drop n ps) (drop n qs)
unfolding count_common
count_common-Stops ts us [] qs zero q = tt
count_common-Stops ts us [] qs (suc n) q = absurd (ground arith)
count_common-Stops ts us (p ∷ ps) [] zero q = tt
count_common-Stops ts us (p ∷ ps) [] (suc n) q = absurd (ground arith)
count_common-Stops [] us (p ∷ ps) (r ∷ qs) n q = absurd (ground arith)
count_common-Stops (t ∷ ts) [] (p ∷ ps) (r ∷ qs) n q = absurd (ground arith)
count_common-Stops (t ∷ ts) (u ∷ us) (p ∷ ps) (r ∷ qs) zero q =
    elim (Option-cases (count_common ts us ps qs)) [
      | inl e ↦ ground (arith, e)
      | inr (k, e) ↦ ground (arith, e)
    ]
count_common-Stops (t ∷ ts) (u ∷ us) (p ∷ ps) (r ∷ qs) (suc n) q =
    elim (Option-cases (count_common ts us ps qs)) [
      | inl e ↦ absurd (ground (arith, e))
      | inr (k, e) ↦ count_common-Stops ts us ps qs n (ground (arith, e))
    ]

drop_one-drop : (n : ℕ) (ts : List Token) → drop 1 (drop n ts) ≡ drop (suc n) ts
drop_one-drop zero ts = refl
drop_one-drop (suc n) [] = refl
drop_one-drop (suc n) (t ∷ ts) = drop_one-drop n ts

pub drop-drop_one : (n : ℕ) (ts : List Token) → drop n (drop 1 ts) ≡ drop 1 (drop n ts)
drop-drop_one zero ts = refl
drop-drop_one (suc n) [] = refl
drop-drop_one (suc n) (t ∷ ts) = sym (drop_one-drop n ts)

count_common-head :
    (ts us : List Token) (ps qs : List Pool) (n : ℕ)
    → count_common ts us ps qs ≡ some (suc n)
    → (t : Token) × (u : Token) × (head? (drop n ts) ≡ some t)
      × (head? (drop n us) ≡ some u)
      × (same_token t u ≡ true)
      × (n < length ts)
      × (n < length us)
unfolding count_common
count_common-head ts us [] qs n q = absurd (ground arith)
count_common-head ts us (p ∷ ps) [] n q = absurd (ground arith)
count_common-head [] us (p ∷ ps) (r ∷ qs) n q = absurd (ground arith)
count_common-head (t ∷ ts) [] (p ∷ ps) (r ∷ qs) n q = absurd (ground arith)
count_common-head (t ∷ ts) (u ∷ us) (p ∷ ps) (r ∷ qs) zero q =
    (t, u, refl, refl, ground arith, omega arith, omega arith)
count_common-head (t ∷ ts) (u ∷ us) (p ∷ ps) (r ∷ qs) (suc n) q =
    elim (Option-cases (count_common ts us ps qs)) [
      | inl e ↦ absurd (ground (arith, e))
      | inr (k, e) ↦
          let deeper : count_common ts us ps qs ≡ some (suc n) = ground (arith, e) in
          let (x, y, f, g, same, i, j) = count_common-head ts us ps qs n deeper in
          (x, y, f, g, same, omega (arith, i), omega (arith, j))
    ]

get_last?-drop : (k : ℕ) (ts : List Token) → k < length ts → get_last? (drop k ts) ≡ get_last? ts
get_last?-drop zero ts h = refl
get_last?-drop (suc k) [] h = absurd (omega arith)
get_last?-drop (suc k) (t ∷ []) h = absurd (omega arith)
get_last?-drop (suc k) (t ∷ u ∷ ts) h = get_last?-drop k (u ∷ ts) (omega arith)

pub addresses-append : (ts us : List Token) → addresses (ts ++ us) ≡ addresses ts ++ addresses us
addresses-append [] us = refl
addresses-append (t ∷ ts) us = ap (◌∷◌ t.address) (addresses-append ts us)

pub pool_ids-append : (ps qs : List Pool) → pool_ids (ps ++ qs) ≡ pool_ids ps ++ pool_ids qs
pool_ids-append [] qs = refl
pool_ids-append (p ∷ ps) qs = ap (◌∷◌ p.pool_id) (pool_ids-append ps qs)

-- The rests of two lines after their common pools run between the same tokens.
pub tail_of-ends :
    (a b : SwapLine) (n : ℕ) (x y : Token × Token)
    → count_start a.path b.path ≡ some (suc n)
    → get_ends a ≡ some x
    → get_ends b ≡ some y
    → same_ends x y ≡ true
    → (u : Token × Token) × (w : Token × Token) × (get_ends (tail_of a (suc n)) ≡ some u)
      × (get_ends (tail_of b (suc n)) ≡ some w)
      × (same_ends u w ≡ true)
tail_of-ends a b n x y c e f same = go a.path.tokens b.path.tokens refl refl
  where
    go :
        (ts us : List Token)
        → a.path.tokens ≡ ts
        → b.path.tokens ≡ us
        → (u : Token × Token) × (w : Token × Token) × (get_ends (tail_of a (suc n)) ≡ some u)
          × (get_ends (tail_of b (suc n)) ≡ some w)
          × (same_ends u w ≡ true)
    go [] us p q = absurd (ground (arith, p))
    go (t ∷ ts) [] p q = absurd (ground (arith, p, q))
    go (t ∷ ts) (u ∷ us) p q =
        let (v, w, g, h, st, i, j) =
          count_common-head ts us a.path.pools b.path.pools n (ground (arith, p, q)) in
        let last_t = get_last?-drop (suc n) (t ∷ ts) (omega (arith, i)) in
        let last_u = get_last?-drop (suc n) (u ∷ us) (omega (arith, j)) in
        (
          (v, x.1),
          (w, y.1),
          ground (arith, p, q, g, h, last_t, last_u),
          ground (arith, p, q, g, h, last_t, last_u),
          ground (arith, st),
        )
