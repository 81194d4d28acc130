-- ===== src/Market/Builder/Complete.antt =====
-- The search finds every closed path of two pools that it looks for.
use kabu.Base.{
  ℕ, zero, suc, ◌≡◌, refl, ◌≢◌, inl, inr, true, false, ◌&&◌, ◌||◌, not, some, List, [], ◌∷◌, ◌++◌,
  arith, if◌then◌else◌, ==_refl, Bool-cases, Option-cases, get_elem?, any, All, lookup,
}
use kabu.Market.{
  Token, Pool, SwapDirection, SwapPath, new_path, push_swap_hope, same_path, same_list, addresses,
  pool_ids, is_unknown,
}
use kabu.Market.Paths.{mem}
use kabu.Market.Store.{
  Market, is_basic_token, is_weth_token, get_token_or_default, get_pool, is_pool_disabled,
}
use kabu.Market.Store.Trades.{has_direction, IsMarket, get_pool-known}
use kabu.Market.Builder.{
  two_in_loop, build_swap_path_two_hopes_basic_in, build_swap_path_three_hopes_basic_in,
  build_swap_path_two_hopes_basic_out, build_swap_path_three_hopes_basic_out,
  build_swap_path_three_hopes_no_basic, extend, direction_paths, build_directions, build_pools,
  build_swap_path_vec,
}
use kabu.Market.Builder.Routes.{is_arbitrage}
use kabu.Market.Builder.Search.{
  Trades, is_unique, any-append, extend-keeps, extend_unique, direction_paths-All,
  build_directions-Extends, build_pools-Extends,
}

same_list-eq : (xs ys : List ℕ) → same_list xs ys ≡ true → xs ≡ ys
same_list-eq [] [] h = refl
same_list-eq (x ∷ xs) (y ∷ ys) h = ground (arith, same_list-eq xs ys)
same_list-eq [] (y ∷ ys) h = absurd (ground arith)
same_list-eq (x ∷ xs) [] h = absurd (ground arith)

same_list_refl : (xs : List ℕ) → same_list xs xs ≡ true
same_list_refl [] = refl
same_list_refl (x ∷ xs) = ground (arith, same_list_refl xs)

same_path_trans :
    (p q r : SwapPath) → same_path p q ≡ true → same_path q r ≡ true → same_path p r ≡ true
same_path_trans p q r a b =
    let tokens : addresses p.tokens ≡ addresses q.tokens =
      same_list-eq (addresses p.tokens) (addresses q.tokens) (ground arith) in
    let pools : pool_ids p.pools ≡ pool_ids q.pools =
      same_list-eq (pool_ids p.pools) (pool_ids q.pools) (ground arith) in
    rw (tokens, pools) b

any_trans :
    (xs : List SwapPath) (p r : SwapPath)
    → any (λ q. same_path q p) xs ≡ true
    → same_path p r ≡ true
    → any (λ q. same_path q r) xs ≡ true
any_trans [] p r a b = absurd (ground arith)
any_trans (x ∷ xs) p r a b = ground (arith, any_trans xs p r, same_path_trans x p r)

extend-has :
    (set ps : List SwapPath) (r : SwapPath)
    → any (λ q. same_path q r) ps ≡ true
    → any (λ q. same_path q r) (extend set ps) ≡ true
unfolding extend
extend-has set [] r a = absurd (ground arith)
extend-has set (p ∷ ps) r a = elim (Bool-cases (same_path p r)) [
  | inr other ↦
      extend-has (if any (λ q. same_path q p) set then set else set ++ p ∷ []) ps r
        (ground (arith, other))
  | inl same ↦ elim (Bool-cases (any (λ q. same_path q p) set)) [
    | inl y ↦ rw (extend, y) (extend-keeps set ps r (any_trans set p r y same))
    | inr y ↦
        rw (extend, y)
          (extend-keeps (set ++ p ∷ []) ps r
            (ground (arith, same, any-append (λ q. same_path q r) set (p ∷ []))))
  ]
]

-- The path through two pools and back.
abbrev pub there_and_back : Token → Token → Pool → Pool → SwapPath
there_and_back from to pool loop_pool = new_path (from ∷ to ∷ from ∷ []) (pool ∷ loop_pool ∷ [])

there_and_back_refl :
    (from to : Token) (pool loop_pool : Pool)
    → same_path (there_and_back from to pool loop_pool) (there_and_back from to pool loop_pool)
      ≡ true
there_and_back_refl from to pool loop_pool = ground (
  arith,
  same_list_refl (from.address ∷ to.address ∷ from.address ∷ []),
  same_list_refl (pool.pool_id ∷ loop_pool.pool_id ∷ []),
)

two_in_loop-finds :
    (m : Market) (pool loop_pool : Pool) (from to : Token) (id : ℕ) (ids : List ℕ)
    (ps : List SwapPath)
    → is_pool_disabled m id ≡ false
    → get_pool m id ≡ some loop_pool
    → loop_pool.pool_id ≢ pool.pool_id
    → mem id ids ≡ true
    → two_in_loop m pool from to ids ≡ some ps
    → any (λ q. same_path q (there_and_back from to pool loop_pool)) ps ≡ true
unfolding two_in_loop push_swap_hope
two_in_loop-finds m pool loop_pool from to id [] ps d g ne h q = absurd (ground arith)
two_in_loop-finds m pool loop_pool from to id (i ∷ ids) ps d g ne h q =
    elim (Option-cases (two_in_loop m pool from to ids)) [
      | inl e ↦ absurd (ground (arith, e, ==_refl to.address))
      | inr (rest, e) ↦
          let found = two_in_loop-finds m pool loop_pool from to id ids rest d g ne in
          ground
            (arith, d, g, e, found, there_and_back_refl from to pool loop_pool, ==_refl to.address)
    ]

All-Unit : (ps : List SwapPath) → All (λ p. Unit {0}) ps
All-Unit [] = tt
All-Unit (p ∷ ps) = (tt, All-Unit ps)

All-rest :
    (m : Market) (es : List (Pool × List SwapDirection))
    → All (λ e. (p : SwapPath) → is_arbitrage m e.0 p ≡ true → Unit {0}) es
All-rest m [] = tt
All-rest m (e ∷ es) = (λ p q. tt, All-rest m es)

module _ (m : Market) (v : IsMarket m) (loop_pool : Pool) (id : ℕ) where
  -- The stored pool trades the tokens of the direction back, and can be found.
  abbrev pub TradesBack : SwapDirection → Type 0
  TradesBack d =
      (lookup id m.pools ≡ some loop_pool)
      × (is_unknown loop_pool.class ≡ false)
      × (has_direction d.token_to d.token_from loop_pool.swap_directions ≡ true)

  abbrev goal : Pool → SwapDirection → SwapPath
  goal pool d =
      there_and_back (get_token_or_default m d.token_from) (get_token_or_default m d.token_to) pool
        loop_pool

  two_in-finds :
      (pool : Pool) (d : SwapDirection) (ps : List SwapPath)
      → TradesBack d
      → loop_pool.pool_id ≢ pool.pool_id
      → build_swap_path_two_hopes_basic_in m pool d.token_from d.token_to ≡ some ps
      → any (λ q. same_path q (goal pool d)) ps ≡ true
  unfolding build_swap_path_two_hopes_basic_in lookup
  two_in-finds pool d ps (stored, known, trades) ne q =
      elim (Option-cases (lookup d.token_to m.token_token_pools)) [
        | inl e ↦ absurd (ground (arith, e, stored, v.trades d.token_to d.token_from id))
        | inr (inner, e) ↦ elim (Option-cases (lookup d.token_from inner)) [
          | inl f ↦ absurd (ground (arith, e, f, stored, v.trades d.token_to d.token_from id))
          | inr (ids, f) ↦
              two_in_loop-finds m pool loop_pool (get_token_or_default m d.token_from)
                (get_token_or_default m d.token_to) id ids ps (v.none_disabled id)
                (get_pool-known m id loop_pool stored known) ne
                (ground (arith, e, f, stored, v.trades d.token_to d.token_from id))
                (ground (arith, e, f))
        ]
      ]

  direction_paths-finds :
      (pool : Pool) (d : SwapDirection) (ps : List SwapPath)
      → TradesBack d
      → loop_pool.pool_id ≢ pool.pool_id
      → is_basic_token m d.token_from ≡ true
      → direction_paths m pool d ≡ some ps
      → any (λ q. same_path q (goal pool d)) ps ≡ true
  unfolding direction_paths
  direction_paths-finds pool d ps t ne b q =
      elim (Option-cases (build_swap_path_two_hopes_basic_in m pool d.token_from d.token_to)) [
        | inl e ↦ absurd (ground (arith, b, e))
        | inr (found, e) ↦
            let has = two_in-finds pool d found t ne e in
            let from = d.token_from in
            let to = d.token_to in
            let outs =
              if is_basic_token m to
              then build_swap_path_two_hopes_basic_out m pool from to
                ++ build_swap_path_three_hopes_basic_out m pool from to
              else [] in
            let others =
              build_swap_path_three_hopes_basic_in m pool from to
              ++ (if (not (is_basic_token m from) && not (is_basic_token m to))
                    || (not (is_weth_token m from) && not (is_weth_token m to))
                  then build_swap_path_three_hopes_no_basic m pool from to
                  else []) in
            let same : ps ≡ outs ++ (found ++ others) = ground (arith, b, e) in
            rw same (
              ground (
                arith,
                has,
                any-append (λ x. same_path x (goal pool d)) outs (found ++ others),
                any-append (λ x. same_path x (goal pool d)) found others,
              ))
      ]

  build_directions-finds :
      (set : List SwapPath) (pool : Pool) (ds : List SwapDirection) (j : ℕ) (d : SwapDirection)
      → is_unique set ≡ true
      → Trades pool ds
      → get_elem? ds j ≡ some d
      → TradesBack d
      → loop_pool.pool_id ≢ pool.pool_id
      → is_basic_token m d.token_from ≡ true
      → (out : List SwapPath) × (build_directions m set pool ds ≡ some out)
        × (is_unique out ≡ true)
        × (any (λ q. same_path q (goal pool d)) out ≡ true)
  unfolding build_directions
  build_directions-finds set pool [] j d u t g b ne basic = absurd (ground arith)
  build_directions-finds set pool (x ∷ ds) zero d u t g b ne basic =
      let (ps, e, all) = direction_paths-All m v pool x t.0 in
      let same : x ≡ d = ground arith in
      let has = direction_paths-finds pool d ps b ne basic (rw same at e) in
      let (out, f, _, w, keeps) =
        build_directions-Extends m v (λ p. Unit) (extend set ps) pool ds (All-Unit _)
          (extend_unique set ps u) t.1 (λ p q. tt) in
      (out, ground (arith, e, f), w, keeps (goal pool d) (extend-has set ps (goal pool d) has))
  build_directions-finds set pool (x ∷ ds) (suc j) d u t g b ne basic =
      let (ps, e, all) = direction_paths-All m v pool x t.0 in
      let (out, f, w, has) =
        build_directions-finds (extend set ps) pool ds j d (extend_unique set ps u) t.1 g b ne
          basic in
      (out, ground (arith, e, f), w, has)

  build_pools-finds :
      (set : List SwapPath) (rest : List (Pool × List SwapDirection)) (i j : ℕ) (pool : Pool)
      (ds : List SwapDirection) (d : SwapDirection)
      → is_unique set ≡ true
      → All (λ e. Trades e.0 e.1) rest
      → get_elem? rest i ≡ some (pool, ds)
      → get_elem? ds j ≡ some d
      → TradesBack d
      → loop_pool.pool_id ≢ pool.pool_id
      → is_basic_token m d.token_from ≡ true
      → (out : List SwapPath) × (build_pools m set rest ≡ some out)
        × (any (λ q. same_path q (goal pool d)) out ≡ true)
  unfolding build_pools
  build_pools-finds set [] i j pool ds d u t h g b ne basic = absurd (ground arith)
  build_pools-finds set ((x, xs) ∷ rest) zero j pool ds d u t h g b ne basic =
      let at_pool : x ≡ pool = ground arith in
      let at_ds : xs ≡ ds = ground arith in
      let (mid, e, w, has) =
        build_directions-finds set pool ds j d u (rw (at_pool, at_ds) at t.0) g b ne basic in
      let (out, f, _, y, keeps) =
        build_pools-Extends m v (λ p. Unit) mid rest (All-Unit mid) w t.1 (All-rest m rest) in
      (out, ground (arith, e, f), keeps (goal pool d) has)
  build_pools-finds set ((x, xs) ∷ rest) (suc i) j pool ds d u t h g b ne basic =
      let (mid, e, _, w, keeps) =
        build_directions-Extends m v (λ p. Unit) set x xs (All-Unit set) u t.0 (λ p q. tt) in
      let (out, f, has) = build_pools-finds mid rest i j pool ds d w t.1 h g b ne basic in
      (out, ground (arith, e, f), has)

-- The search finds every path out of a basic token through a changed pool and back through another
-- pool that trades back. (The market's tables agree with its pools, the directions are trades of
-- their pools, and the pool back is stored, of a known class, and not the changed one.)
pub build_swap_path_vec-finds :
    (m : Market) (directions : List (Pool × List SwapDirection)) (loop_pool : Pool) (id i j : ℕ)
    (pool : Pool) (ds : List SwapDirection) (d : SwapDirection)
    → IsMarket m
    → All (λ e. Trades e.0 e.1) directions
    → get_elem? directions i ≡ some (pool, ds)
    → get_elem? ds j ≡ some d
    → lookup id m.pools ≡ some loop_pool
    → is_unknown loop_pool.class ≡ false
    → has_direction d.token_to d.token_from loop_pool.swap_directions ≡ true
    → loop_pool.pool_id ≢ pool.pool_id
    → is_basic_token m d.token_from ≡ true
    → (ps : List SwapPath) × (build_swap_path_vec m directions ≡ some ps)
      × (any
            (λ q. same_path q (
              there_and_back
                (get_token_or_default m d.token_from)
                (get_token_or_default m d.token_to)
                pool
                loop_pool))
            ps
          ≡ true)
unfolding build_swap_path_vec
build_swap_path_vec-finds m directions loop_pool id i j pool ds d v t h g stored known trades ne
      basic =
    build_pools-finds m v loop_pool id [] directions i j pool ds d refl t h g
      (stored, known, trades) ne basic
