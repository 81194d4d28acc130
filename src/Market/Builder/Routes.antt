-- ===== src/Market/Builder/Routes.antt =====
-- What one turn of the loops makes: closed routes of distinct pools that start at a basic token.
use kabu.Base.{
  ℕ, ◌≡◌, refl, inl, inr, Bool, true, false, ◌&&◌, not, none, some, List, [], ◌∷◌, arith, ◌==◌,
  ==_refl, Bool-cases, Option-cases, head?, get_last?, All, All-append, lookup,
}
use kabu.Market.{
  Token, Pool, SwapPath, contains_pool, pool_ids, new_swap, push_swap_hope, insert_swap_hope,
}
use kabu.Market.Paths.{mem}
use kabu.Market.Store.{
  Market, is_basic_token, get_token_or_default, get_pool, is_pool_disabled, get_token_token_pools,
}
use kabu.Market.Store.Trades.{get_pool-some, has_direction, IsMarket}
use kabu.Market.Builder.{
  for_pools, for_tokens, two_in_loop, three_in_body, two_out_body, three_out_body, no_basic_body,
}

-- Every pool trades the token before it for the token after it.
abbrev pub is_route : List Token → List Pool → Bool
is_route (a ∷ b ∷ ts) (q ∷ qs) =
    has_direction a.address b.address q.swap_directions && is_route (b ∷ ts) qs
is_route (a ∷ []) [] = true
is_route _ _ = false

-- The first token is the last one, and basic.
abbrev pub is_closed : Market → List Token → Bool
is_closed m ts = elim (head? ts) [
  | none ↦ false
  | some a ↦ elim (get_last? ts) [
    | none ↦ false
    | some b ↦ a.address == b.address && is_basic_token m a.address
  ]
]

abbrev pub is_distinct : List ℕ → Bool
is_distinct [] = true
is_distinct (x ∷ xs) = not (mem x xs) && is_distinct xs

-- A closed route of distinct pools, the given one among them, from a basic token.
abbrev pub is_arbitrage : Market → Pool → SwapPath → Bool
is_arbitrage m pool p =
    is_route p.tokens p.pools
    && (is_closed m p.tokens && (is_distinct (pool_ids p.pools) && contains_pool p pool))

abbrev pub AllArbitrage : Market → Pool → List SwapPath → Type 0
AllArbitrage m pool = All (λ p. is_arbitrage m pool p ≡ true)

pub get_token_or_default-address :
    (m : Market) (a : ℕ) → IsMarket m → (get_token_or_default m a).address ≡ a
get_token_or_default-address m a v = elim (Option-cases (lookup a m.tokens)) [
  | inl e ↦ ground (arith, e)
  | inr (t, e) ↦ ground (arith, e, v.token_keyed a t e)
]

pub get_token_token_pools-trades :
    (m : Market) (from to id : ℕ) (ids : List ℕ) (p : Pool)
    → IsMarket m
    → get_token_token_pools m from to ≡ some ids
    → mem id ids ≡ true
    → get_pool m id ≡ some p
    → has_direction
        (get_token_or_default m from).address
        (get_token_or_default m to).address
        p.swap_directions
      ≡ true
get_token_token_pools-trades m from to id ids p v e h q =
    elim (Option-cases (lookup from m.token_token_pools)) [
      | inl f ↦ absurd (ground (arith, f))
      | inr (inner, f) ↦ elim (Option-cases (lookup id m.pools)) [
        | inl g ↦ absurd (ground (arith, g, get_pool-some m id p q))
        | inr (x, g) ↦
            rw (get_token_or_default-address m from v, get_token_or_default-address m to v)
              (ground (arith, e, f, get_pool-some m id p q, v.trades from to id))
      ]
    ]

pub two_out_body-All :
    (m : Market) (pool : Pool) (from to : Token) (loop_pool : Pool)
    → has_direction from.address to.address pool.swap_directions ≡ true
    → has_direction to.address from.address loop_pool.swap_directions ≡ true
    → is_basic_token m to.address ≡ true
    → AllArbitrage m pool (two_out_body pool from to loop_pool)
unfolding two_out_body insert_swap_hope
two_out_body-All m pool from to loop_pool a b c = ground (arith, ==_refl from.address)

pub three_out_body-All :
    (m : Market) (pool : Pool) (from to middle : Token) (pool_1 pool_2 : Pool)
    → has_direction from.address to.address pool.swap_directions ≡ true
    → has_direction to.address middle.address pool_1.swap_directions ≡ true
    → has_direction middle.address from.address pool_2.swap_directions ≡ true
    → is_basic_token m to.address ≡ true
    → AllArbitrage m pool (three_out_body pool from to middle pool_1 pool_2)
unfolding three_out_body insert_swap_hope
three_out_body-All m pool from to middle pool_1 pool_2 a b c d = ground arith

pub three_in_body-All :
    (m : Market) (pool : Pool) (from to middle : Token) (pool_1 pool_2 : Pool)
    → has_direction from.address to.address pool.swap_directions ≡ true
    → has_direction to.address middle.address pool_1.swap_directions ≡ true
    → has_direction middle.address from.address pool_2.swap_directions ≡ true
    → is_basic_token m from.address ≡ true
    → AllArbitrage m pool (three_in_body pool from to middle pool_1 pool_2)
unfolding three_in_body push_swap_hope
three_in_body-All m pool from to middle pool_1 pool_2 a b c d = ground arith

pub no_basic_body-All :
    (m : Market) (pool : Pool) (from to basic : Token) (pool_1 pool_2 : Pool)
    → has_direction from.address to.address pool.swap_directions ≡ true
    → has_direction basic.address from.address pool_1.swap_directions ≡ true
    → has_direction to.address basic.address pool_2.swap_directions ≡ true
    → is_basic_token m basic.address ≡ true
    → AllArbitrage m pool (no_basic_body pool from to basic pool_1 pool_2)
unfolding no_basic_body push_swap_hope insert_swap_hope
no_basic_body-All m pool from to basic pool_1 pool_2 a b c d = ground arith

pub for_pools-All :
    (P : SwapPath → Type 0) (m : Market) (ids : List ℕ) (body : Pool → List SwapPath)
    → ((id : ℕ) (p : Pool) → mem id ids ≡ true → get_pool m id ≡ some p → All P (body p))
    → All P (for_pools m ids body)
unfolding for_pools
for_pools-All P m [] body h = tt
for_pools-All P m (i ∷ ids) body h =
    let rest = for_pools-All P m ids body (λ id p r q. h id p (ground arith) q) in
    elim (Bool-cases (is_pool_disabled m i)) [
      | inl d ↦ rw (for_pools, d) rest
      | inr d ↦ elim (Option-cases (get_pool m i)) [
        | inl e ↦ rw (for_pools, d, e) rest
        | inr (p, e) ↦
            rw (for_pools, d, e)
              (All-append P (body p) (for_pools m ids body) (h i p (ground arith) e) rest)
      ]
    ]

pub for_tokens-All :
    (P : SwapPath → Type 0) (addresses : List ℕ) (body : ℕ → List SwapPath)
    → ((a : ℕ) → All P (body a))
    → All P (for_tokens addresses body)
unfolding for_tokens
for_tokens-All P [] body h = tt
for_tokens-All P (a ∷ addresses) body h =
    All-append P (body a) (for_tokens addresses body) (h a) (for_tokens-All P addresses body h)

-- The loop of `two_in` does not fail.
pub two_in_loop-All :
    (m : Market) (pool : Pool) (from to : Token) (ids : List ℕ)
    → has_direction from.address to.address pool.swap_directions ≡ true
    → is_basic_token m from.address ≡ true
    → ((id : ℕ) (p : Pool)
        → mem id ids ≡ true
        → get_pool m id ≡ some p
        → has_direction to.address from.address p.swap_directions ≡ true)
    → (ps : List SwapPath) × (two_in_loop m pool from to ids ≡ some ps) × AllArbitrage m pool ps
unfolding two_in_loop push_swap_hope
two_in_loop-All m pool from to [] a b h = ([], refl, tt)
two_in_loop-All m pool from to (i ∷ ids) a b h =
    let (ps, e, all) =
      two_in_loop-All m pool from to ids a b (λ id p r q. h id p (ground arith) q) in
    elim (Bool-cases (is_pool_disabled m i)) [
      | inl d ↦ (ps, ground (arith, d, e), all)
      | inr d ↦ elim (Option-cases (get_pool m i)) [
        | inl g ↦ (ps, ground (arith, d, e, g), all)
        | inr (p, g) ↦ elim (Bool-cases (contains_pool (new_swap from to pool) p)) [
          | inl c ↦ (ps, ground (arith, d, e, g, c), all)
          | inr c ↦
              let trades = h i p (ground arith) g in
              (
                record (new_swap from to pool) {
                  tokens = from ∷ to ∷ from ∷ [];
                  pools = pool ∷ p ∷ [];
                }
                    ∷ ps,
                ground (arith, d, e, g, c, ==_refl to.address),
                (ground (arith, a, b, c, trades), all),
              )
        ]
      ]
    ]
