-- ===== src/Market/Builder/Found.antt =====
-- What the whole search finds: only closed routes from basic tokens, each once.
use kabu.Base.{
  ℕ, ◌≡◌, inl, inr, true, some, List, [], arith, ltb, Bool-cases, Option-cases, All, lookup,
}
use kabu.Market.{Pool, SwapPath}
use kabu.Market.Store.{
  Market, is_basic_token, get_token_or_default, get_token_token_pools, get_token_pools_len,
}
use kabu.Market.Store.Trades.{has_direction, IsMarket}
use kabu.Market.Builder.{
  get_token_tokens, build_swap_path_three_hopes_no_basic, build_swap_path_three_hopes_basic_out,
  build_swap_path_three_hopes_basic_in, for_pools, three_in_at, three_out_at, no_basic_at,
  build_swap_path_two_hopes_basic_in, build_swap_path_two_hopes_basic_out,
}
use kabu.Market.Builder.Routes.{
  for_tokens-All, no_basic_body-All, three_in_body-All, three_out_body-All, AllArbitrage,
  get_token_token_pools-trades, two_out_body-All, for_pools-All, two_in_loop-All,
}

module _ (m : Market) (v : IsMarket m) (pool : Pool) (from to : ℕ) where
  abbrev pub PoolTrades : Type 0
  PoolTrades =
      has_direction (get_token_or_default m from).address (get_token_or_default m to).address
        pool.swap_directions
      ≡ true

  abbrev pub IsBasic : ℕ → Type 0
  IsBasic a = is_basic_token m (get_token_or_default m a).address ≡ true

  pub two_in-All :
      PoolTrades
      → IsBasic from
      → (ps : List SwapPath) × (build_swap_path_two_hopes_basic_in m pool from to ≡ some ps)
        × AllArbitrage m pool ps
  unfolding build_swap_path_two_hopes_basic_in
  two_in-All a b = elim (Option-cases (get_token_token_pools m to from)) [
    | inl e ↦ ([], ground (arith, e), tt)
    | inr (ids, e) ↦
        let (ps, q, all) =
          two_in_loop-All m pool (get_token_or_default m from) (get_token_or_default m to) ids a b
            (λ id p r g. get_token_token_pools-trades m to from id ids p v e r g) in
        (ps, ground (arith, e, q), all)
  ]

  pub two_out-All :
      PoolTrades
      → IsBasic to
      → AllArbitrage m pool (build_swap_path_two_hopes_basic_out m pool from to)
  unfolding build_swap_path_two_hopes_basic_out
  two_out-All a b = elim (Bool-cases (ltb (get_token_pools_len m from) 2)) [
    | inl few ↦ rw (build_swap_path_two_hopes_basic_out, few) tt
    | inr enough ↦ elim (Option-cases (get_token_token_pools m to from)) [
      | inl e ↦ rw (build_swap_path_two_hopes_basic_out, enough, e) tt
      | inr (ids, e) ↦
          rw (build_swap_path_two_hopes_basic_out, enough, e)
            (for_pools-All _ m ids _ (λ id p r g.
              two_out_body-All m pool (get_token_or_default m from) (get_token_or_default m to) p a
                (get_token_token_pools-trades m to from id ids p v e r g) b))
    ]
  ]

  default_basic : (a : ℕ) → (get_token_or_default m a).basic ≡ true → IsBasic a
  default_basic a h = elim (Option-cases (lookup a m.tokens)) [
    | inl e ↦ absurd (ground (arith, e))
    | inr (t, e) ↦ ground (arith, e, v.token_keyed a t e)
  ]

  -- The two inner loops, over the pools of two pairs of tokens.
  pairs-All :
      (P : SwapPath → Type 0) (a b c e : ℕ) (ids_1 ids_2 : List ℕ)
      (body : Pool → Pool → List SwapPath)
      → get_token_token_pools m a b ≡ some ids_1
      → get_token_token_pools m c e ≡ some ids_2
      → ((p q : Pool)
          → has_direction
              (get_token_or_default m a).address
              (get_token_or_default m b).address
              p.swap_directions
            ≡ true
          → has_direction
              (get_token_or_default m c).address
              (get_token_or_default m e).address
              q.swap_directions
            ≡ true
          → All P (body p q))
      → All P (for_pools m ids_1 (λ p. for_pools m ids_2 (body p)))
  pairs-All P a b c e ids_1 ids_2 body x y h = for_pools-All P m ids_1 _ (λ id p r g.
      for_pools-All P m ids_2 _ (λ j q s k.
        h p q (get_token_token_pools-trades m a b id ids_1 p v x r g)
          (get_token_token_pools-trades m c e j ids_2 q v y s k)))

  three_out_at-All :
      PoolTrades
      → IsBasic to
      → (middle : ℕ) → AllArbitrage m pool (three_out_at m pool from to middle)
  unfolding three_out_at
  three_out_at-All a b middle = elim (Bool-cases (ltb (get_token_pools_len m middle) 2)) [
    | inl few ↦ rw (three_out_at, few) tt
    | inr enough ↦ elim (Option-cases (get_token_token_pools m to middle)) [
      | inl e ↦ rw (three_out_at, enough, e) tt
      | inr (ids_1, e) ↦ elim (Option-cases (get_token_token_pools m middle from)) [
        | inl f ↦ rw (three_out_at, enough, e, f) tt
        | inr (ids_2, f) ↦
            rw (three_out_at, enough, e, f)
              (pairs-All _ to middle middle from ids_1 ids_2 _ e f (λ p q r s.
                three_out_body-All m pool (get_token_or_default m from) (get_token_or_default m to)
                  (get_token_or_default m middle) p q a r s b))
      ]
    ]
  ]

  three_in_at-All :
      PoolTrades
      → IsBasic from
      → (middle : ℕ) → AllArbitrage m pool (three_in_at m pool from to middle)
  unfolding three_in_at
  three_in_at-All a b middle = elim (Bool-cases (ltb (get_token_pools_len m middle) 2)) [
    | inl few ↦ rw (three_in_at, few) tt
    | inr enough ↦ elim (Option-cases (get_token_token_pools m to middle)) [
      | inl e ↦ rw (three_in_at, enough, e) tt
      | inr (ids_1, e) ↦ elim (Option-cases (get_token_token_pools m middle from)) [
        | inl f ↦ rw (three_in_at, enough, e, f) tt
        | inr (ids_2, f) ↦
            rw (three_in_at, enough, e, f)
              (pairs-All _ to middle middle from ids_1 ids_2 _ e f (λ p q r s.
                three_in_body-All m pool (get_token_or_default m from) (get_token_or_default m to)
                  (get_token_or_default m middle) p q a r s b))
      ]
    ]
  ]

  no_basic_at-All : PoolTrades → (a : ℕ) → AllArbitrage m pool (no_basic_at m pool from to a)
  unfolding no_basic_at
  no_basic_at-All h a = elim (Bool-cases (get_token_or_default m a).basic) [
    | inr y ↦ rw (no_basic_at, y) tt
    | inl y ↦ elim (Option-cases (get_token_token_pools m a from)) [
      | inl e ↦ rw (no_basic_at, y, e) tt
      | inr (ids_1, e) ↦ elim (Option-cases (get_token_token_pools m to a)) [
        | inl f ↦ rw (no_basic_at, y, e, f) tt
        | inr (ids_2, f) ↦
            rw (no_basic_at, y, e, f)
              (pairs-All _ a from to a ids_1 ids_2 _ e f (λ p q r s.
                no_basic_body-All m pool (get_token_or_default m from) (get_token_or_default m to)
                  (get_token_or_default m a) p q h r s (default_basic a y)))
      ]
    ]
  ]

  pub three_out-All :
      PoolTrades
      → IsBasic to
      → AllArbitrage m pool (build_swap_path_three_hopes_basic_out m pool from to)
  unfolding build_swap_path_three_hopes_basic_out
  three_out-All a b = elim (Option-cases (get_token_tokens m from)) [
    | inl e ↦ rw (build_swap_path_three_hopes_basic_out, e) tt
    | inr (middles, e) ↦ elim (Bool-cases (ltb (get_token_pools_len m from) 2)) [
      | inl few ↦ rw (build_swap_path_three_hopes_basic_out, e, few) tt
      | inr enough ↦
          rw (build_swap_path_three_hopes_basic_out, e, enough)
            (for_tokens-All _ middles _ (three_out_at-All a b))
    ]
  ]

  pub three_in-All :
      PoolTrades
      → IsBasic from
      → AllArbitrage m pool (build_swap_path_three_hopes_basic_in m pool from to)
  unfolding build_swap_path_three_hopes_basic_in
  three_in-All a b = elim (Bool-cases (ltb (get_token_pools_len m to) 2)) [
    | inl few ↦ rw (build_swap_path_three_hopes_basic_in, few) tt
    | inr enough ↦ elim (Option-cases (get_token_tokens m to)) [
      | inl e ↦ rw (build_swap_path_three_hopes_basic_in, enough, e) tt
      | inr (middles, e) ↦
          rw (build_swap_path_three_hopes_basic_in, enough, e)
            (for_tokens-All _ middles _ (three_in_at-All a b))
    ]
  ]

  pub no_basic-All :
      PoolTrades → AllArbitrage m pool (build_swap_path_three_hopes_no_basic m pool from to)
  unfolding build_swap_path_three_hopes_no_basic
  no_basic-All a = elim (Option-cases (get_token_tokens m from)) [
    | inl e ↦ rw (build_swap_path_three_hopes_no_basic, e) tt
    | inr (basics, e) ↦
        rw (build_swap_path_three_hopes_no_basic, e) (for_tokens-All _ basics _ (no_basic_at-All a))
  ]
