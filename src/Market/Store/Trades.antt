-- ===== src/Market/Store/Trades.antt =====
-- The market's tables of trades agree with its pools.
use kabu.Base.{
  ℕ, ◌≡◌, refl, inl, inr, Bool, false, ◌&&◌, ◌||◌, none, some, List, [], ◌∷◌, ◌++◌, arith, ◌==◌,
  Option-cases, get_or_else, any, lookup, insert, lookup-insert,
}
use kabu.Market.{is_unknown, Hasher, DirectionHasher, SwapPath, Token, Pool, SwapDirection}
use kabu.Market.Paths.Membership.{mem-append}
use kabu.Market.Paths.{add, mem}
use kabu.Market.Store.{
  get_pool, set_path_disabled, set_pool_disabled, add_paths, Market, new, add_token,
  add_pool_manager_cell, add_direction, add_directions, add_pool, is_pool_disabled,
}

abbrev pub has_direction : ℕ → ℕ → List SwapDirection → Bool
has_direction from to = any (λ s. s.token_from == from && s.token_to == to)

abbrev pub sells : ℕ → List SwapDirection → Bool
sells from = any (λ s. s.token_from == from)

-- The pool is listed for the two tokens.
abbrev pub is_listed : Market → ℕ → ℕ → ℕ → Bool
is_listed m from to id =
    mem id (get_or_else (lookup to (get_or_else (lookup from m.token_token_pools) [])) [])

-- The pool is stored, and trades the first token for the second.
abbrev pub is_traded : Market → ℕ → ℕ → ℕ → Bool
is_traded m from to id = elim (lookup id m.pools) [
  | none ↦ false
  | some p ↦ has_direction from to p.swap_directions
]

abbrev pub is_listed_for : Market → ℕ → ℕ → Bool
is_listed_for m from id = mem id (get_or_else (lookup from m.token_pools) [])

abbrev pub is_sold_by : Market → ℕ → ℕ → Bool
is_sold_by m from id = elim (lookup id m.pools) [
  | none ↦ false
  | some p ↦ sells from p.swap_directions
]

-- Tokens and pools stand under their own keys, the pools of two tokens are exactly those that trade
-- them, the pools of a token exactly those that sell it, and no pool is disabled.
pub record IsMarket (m : Market) : Type 0 where
  pub token_keyed : (a : ℕ) (t : Token) → lookup a m.tokens ≡ some t → t.address ≡ a
  pub pool_keyed : (id : ℕ) (p : Pool) → lookup id m.pools ≡ some p → p.pool_id ≡ id
  pub trades : (from to id : ℕ) → is_listed m from to id ≡ is_traded m from to id
  pub sales : (from id : ℕ) → is_listed_for m from id ≡ is_sold_by m from id
  pub none_disabled : (id : ℕ) → is_pool_disabled m id ≡ false

is_listed-add_direction :
    (id : ℕ) (m : Market) (s : SwapDirection) (from to j : ℕ)
    → is_listed (add_direction id m s) from to j
      ≡ (is_listed m from to j || (id == j && (s.token_from == from && s.token_to == to)))
unfolding add_direction
is_listed-add_direction id m s from to j =
    let inner = get_or_else (lookup s.token_from m.token_token_pools) [] in
    let ids = get_or_else (lookup s.token_to inner) [] in
    ground (
      arith,
      lookup-insert from s.token_from (insert s.token_to (ids ++ id ∷ []) inner)
          m.token_token_pools,
      lookup-insert to s.token_to (ids ++ id ∷ []) inner,
      mem-append j ids id,
    )

is_listed_for-add_direction :
    (id : ℕ) (m : Market) (s : SwapDirection) (from j : ℕ)
    → is_listed_for (add_direction id m s) from j
      ≡ (is_listed_for m from j || (id == j && s.token_from == from))
unfolding add_direction
is_listed_for-add_direction id m s from j =
    let ids = get_or_else (lookup s.token_from m.token_pools) [] in
    ground
      (arith, lookup-insert from s.token_from (ids ++ id ∷ []) m.token_pools, mem-append j ids id)

is_listed-add_directions :
    (id : ℕ) (m : Market) (ds : List SwapDirection) (from to j : ℕ)
    → is_listed (add_directions id m ds) from to j
      ≡ (is_listed m from to j || (id == j && has_direction from to ds))
unfolding add_directions
is_listed-add_directions id m [] from to j = ground arith
is_listed-add_directions id m (s ∷ ds) from to j = ground (
  arith,
  is_listed-add_directions id (add_direction id m s) ds from to j,
  is_listed-add_direction id m s from to j,
)

is_listed_for-add_directions :
    (id : ℕ) (m : Market) (ds : List SwapDirection) (from j : ℕ)
    → is_listed_for (add_directions id m ds) from j
      ≡ (is_listed_for m from j || (id == j && sells from ds))
unfolding add_directions
is_listed_for-add_directions id m [] from j = ground arith
is_listed_for-add_directions id m (s ∷ ds) from j = ground (
  arith,
  is_listed_for-add_directions id (add_direction id m s) ds from j,
  is_listed_for-add_direction id m s from j,
)

add_directions-keeps :
    (id : ℕ) (m : Market) (ds : List SwapDirection)
    → let t = add_directions id m ds in
      (t.pools ≡ m.pools) × (t.tokens ≡ m.tokens) × (t.pools_disabled ≡ m.pools_disabled)
unfolding add_directions add_direction
add_directions-keeps id m [] = (refl, refl, refl)
add_directions-keeps id m (s ∷ ds) = add_directions-keeps id (add_direction id m s) ds

-- With no entry in the table, no pool is disabled.
pub is_pool_disabled-nil :
    (m : Market) (id : ℕ) → m.pools_disabled ≡ [] → is_pool_disabled m id ≡ false
unfolding is_pool_disabled lookup
is_pool_disabled-nil m id e = ground (arith, e)

pub new-IsMarket : IsMarket new
unfolding new lookup is_pool_disabled
new-IsMarket = record {
  token_keyed = λ a t q. cc;
  pool_keyed = λ id p q. cc;
  trades = λ from to id. refl;
  sales = λ from id. refl;
  none_disabled = λ id. refl;
}

pub add_token-IsMarket :
    (to_string : ℕ → ℕ) (m : Market) (t : Token) → IsMarket m → IsMarket (add_token to_string m t)
unfolding add_token is_pool_disabled
add_token-IsMarket to_string m t v = record {
  token_keyed = λ a x q. ground (arith, lookup-insert a t.address t m.tokens, v.token_keyed a x);
  pool_keyed = v.pool_keyed;
  trades = v.trades;
  sales = v.sales;
  none_disabled = v.none_disabled;
}

pub add_pool-IsMarket : (m n : Market) (p : Pool) → IsMarket m → add_pool m p ≡ some n → IsMarket n
unfolding add_pool is_pool_disabled
add_pool-IsMarket m n p v q = elim (Option-cases (lookup p.pool_id m.pools)) [
  | inr (x, e) ↦ absurd (ground (arith, e))
  | inl e ↦
      let t = add_directions p.pool_id m p.swap_directions in
      let keeps = add_directions-keeps p.pool_id m p.swap_directions in
      let same : n ≡ record t { pools = insert p.pool_id p t.pools } = ground (arith, e) in
      rw same (record {
        token_keyed = λ a x r. ground (arith, keeps, v.token_keyed a x);
        pool_keyed = λ id x r.
            ground (arith, keeps, lookup-insert id p.pool_id p m.pools, v.pool_keyed id x);
        trades = λ from to id. ground (
          arith,
          e,
          keeps,
          lookup-insert id p.pool_id p m.pools,
          is_listed-add_directions p.pool_id m p.swap_directions from to id,
          v.trades from to id,
        );
        sales = λ from id. ground (
          arith,
          e,
          keeps,
          lookup-insert id p.pool_id p m.pools,
          is_listed_for-add_directions p.pool_id m p.swap_directions from id,
          v.sales from id,
        );
        none_disabled = λ id. ground (arith, keeps, v.none_disabled id);
      })
]

add_paths-keeps :
    (hasher : Hasher) (m : Market) (ps : List SwapPath)
    → let t = (add_paths hasher m ps).0 in
      (t.pools ≡ m.pools)
      × (t.tokens ≡ m.tokens)
      × (t.pools_disabled ≡ m.pools_disabled)
      × (t.token_token_pools ≡ m.token_token_pools)
      × (t.token_pools ≡ m.token_pools)
unfolding add_paths
add_paths-keeps hasher m [] = (refl, refl, refl, refl, refl)
add_paths-keeps hasher m (p ∷ ps) =
    add_paths-keeps hasher (record m { swap_paths = (add hasher m.swap_paths p).0 }) ps

-- The calls that change the market.
pub data Call : Type 0 where
  adds_token : (ℕ → ℕ) → Token → Call
  adds_pool : Pool → Call
  adds_paths : List SwapPath → Call
  disables_pool : DirectionHasher → ℕ → ℕ → ℕ → Bool → Call
  disables_path : SwapPath → Bool → Call
  adds_cell : ℕ → ℕ → ℕ → Call

-- A pool that exists already leaves the market as it was.
pub step : Hasher → Market → Call → Market
step hasher m (adds_token to_string t) = add_token to_string m t
step hasher m (adds_pool p) = get_or_else (add_pool m p) m
step hasher m (adds_paths ps) = (add_paths hasher m ps).0
step hasher m (disables_pool direction_hash id from to disabled) =
    set_pool_disabled direction_hash m id from to disabled
step hasher m (disables_path p disable) = (set_path_disabled hasher m p disable).0
step hasher m (adds_cell pool_manager pool_id cell) =
    add_pool_manager_cell m pool_manager pool_id cell

pub run : Hasher → Market → List Call → Market
run hasher m [] = m
run hasher m (c ∷ cs) = run hasher (step hasher m c) cs

add_paths-IsMarket :
    (hasher : Hasher) (m : Market) (ps : List SwapPath)
    → IsMarket m
    → IsMarket (add_paths hasher m ps).0
unfolding is_pool_disabled
add_paths-IsMarket hasher m ps v =
    let keeps = add_paths-keeps hasher m ps in
    record {
      token_keyed = λ a x q. ground (arith, keeps, v.token_keyed a x);
      pool_keyed = λ id x q. ground (arith, keeps, v.pool_keyed id x);
      trades = λ from to id. ground (arith, keeps, v.trades from to id);
      sales = λ from id. ground (arith, keeps, v.sales from id);
      none_disabled = λ id. ground (arith, keeps, v.none_disabled id);
    }

step-IsMarket : (hasher : Hasher) (m : Market) (c : Call) → IsMarket m → IsMarket (step hasher m c)
unfolding step add_pool_manager_cell set_pool_disabled set_path_disabled is_pool_disabled
step-IsMarket hasher m (adds_token to_string t) v = add_token-IsMarket to_string m t v
step-IsMarket hasher m (adds_pool p) v = elim (Option-cases (add_pool m p)) [
  | inl e ↦ rw e v
  | inr (n, e) ↦ rw e (add_pool-IsMarket m n p v e)
]
step-IsMarket hasher m (adds_paths ps) v = add_paths-IsMarket hasher m ps v
step-IsMarket hasher m (disables_pool direction_hash id from to disabled) v = record {
  token_keyed = v.token_keyed;
  pool_keyed = v.pool_keyed;
  trades = v.trades;
  sales = v.sales;
  none_disabled = v.none_disabled;
}
step-IsMarket hasher m (disables_path p disable) v = record {
  token_keyed = v.token_keyed;
  pool_keyed = v.pool_keyed;
  trades = v.trades;
  sales = v.sales;
  none_disabled = v.none_disabled;
}
step-IsMarket hasher m (adds_cell pool_manager pool_id cell) v = record {
  token_keyed = v.token_keyed;
  pool_keyed = v.pool_keyed;
  trades = v.trades;
  sales = v.sales;
  none_disabled = v.none_disabled;
}

run-IsMarket :
    (hasher : Hasher) (m : Market) (cs : List Call) → IsMarket m → IsMarket (run hasher m cs)
unfolding run
run-IsMarket hasher m [] v = v
run-IsMarket hasher m (c ∷ cs) v =
    run-IsMarket hasher (step hasher m c) cs (step-IsMarket hasher m c v)

-- After any calls on an empty market, tokens and pools stand under their own keys, the pools listed
-- for two tokens are exactly the stored pools that trade the first for the second, those listed for
-- a token exactly the ones that sell it, and no pool counts as disabled, whatever was disabled.
pub run-new-IsMarket : (hasher : Hasher) (cs : List Call) → IsMarket (run hasher new cs)
run-new-IsMarket hasher cs = run-IsMarket hasher new cs new-IsMarket

-- What `get_pool` gives is stored, and what is stored is given if its class is known.
pub get_pool-some :
    (m : Market) (id : ℕ) (p : Pool) → get_pool m id ≡ some p → lookup id m.pools ≡ some p
unfolding get_pool
get_pool-some m id p q = elim (Option-cases (lookup id m.pools)) [
  | inl e ↦ absurd (ground (arith, e))
  | inr (x, e) ↦ ground (arith, e)
]

pub get_pool-known :
    (m : Market) (id : ℕ) (p : Pool)
    → lookup id m.pools ≡ some p
    → is_unknown p.class ≡ false
    → get_pool m id ≡ some p
unfolding get_pool
get_pool-known m id p q u = ground (arith, q)
