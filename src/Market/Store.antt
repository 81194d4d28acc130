-- ===== src/Market/Store.antt =====
-- `Market` (crates/types/market/src/market.rs). A method that changes the market returns the new one.
pub mod Trades
pub mod Lookups
use mathlib.Core.Option
use kabu.Base.{
  ℕ, zero, suc, ◌+◌, ◌-◌, ◌*◌, ◌/◌, ◌%◌, ◌^◌, ◌≤◌, ◌<◌, ◌≡◌, refl, sym, ap, ◌∙◌, ◌≢◌, ◌↔◌, ◌⊎◌, inl,
  inr, Bool, true, false, ◌&&◌, ◌||◌, not, Option, none, some, List, [], ◌∷◌, ◌++◌, map, reverse,
  arith, ltb, leb, ◌==◌, if◌then◌else◌, ltb→lt, lt→ltb, leb→le, ==_iff, ==_refl, Bool-cases,
  Option-cases, is_some, get_or_else, length, get_elem?, take, drop, head?, get_last?, any, All,
  length-append, take-append-drop, length-take, length-drop, get_last?-append, All-append, HashMap,
  lookup, contains_key, insert, erase, retain, alter, values, lookup-insert, lookup-insert_self,
  lookup-insert_ne, lookup-erase, lookup-retain_key, IsMap, insert-IsMap, lookup-retain,
  retain-IsMap, erase-IsMap, any-values,
}
use kabu.Market.{
  Token, Pool, SwapDirection, SwapPath, Hasher, DirectionHasher, new_token, get_symbol, is_unknown,
  new_path,
}
use kabu.Market.Paths.{SwapPaths, add, disable_path, disable_pool_paths, get_pool_paths_enabled_vec}
use kabu.Market.Paths

pub record Market : Type 0 where
  pub pools : HashMap Pool
  pub pools_disabled : HashMap Bool
  pub pools_manager_cells : HashMap (HashMap ℕ)
  pub tokens : HashMap Token
  pub token_symbols : HashMap ℕ
  pub token_tokens : HashMap (List ℕ)
  pub token_token_pools : HashMap (HashMap (List ℕ))
  pub token_pools : HashMap (List ℕ)
  pub swap_paths : SwapPaths

-- `Market::default`
pub new : Market
new = record {
  pools = [];
  pools_disabled = [];
  pools_manager_cells = [];
  tokens = [];
  token_symbols = [];
  token_tokens = [];
  token_token_pools = [];
  token_pools = [];
  swap_paths = Paths.new;
}

pub add_token : (ℕ → ℕ) → Market → Token → Market
add_token to_string m t = record m {
  token_symbols = insert (get_symbol to_string t) t.address m.token_symbols;
  tokens = insert t.address t m.tokens;
}

pub get_token_by_symbol : Market → ℕ → Option Token
get_token_by_symbol m symbol = elim (lookup symbol m.token_symbols) [
  | none ↦ none
  | some address ↦ lookup address m.tokens
]

pub add_pool_manager_cell : Market → ℕ → ℕ → ℕ → Market
add_pool_manager_cell m pool_manager pool_id cell = record m {
  pools_manager_cells = alter pool_manager [] (insert cell pool_id) m.pools_manager_cells;
}

abbrev pub is_pool_manager : Market → ℕ → Bool
is_pool_manager m pool_manager = contains_key pool_manager m.pools_manager_cells

pub get_pool_id_for_cell : Market → ℕ → ℕ → Option ℕ
get_pool_id_for_cell m pool_manager cell = elim (lookup pool_manager m.pools_manager_cells) [
  | none ↦ none
  | some cells ↦ lookup cell cells
]

abbrev pub get_token : Market → ℕ → Option Token
get_token m a = lookup a m.tokens

abbrev pub is_basic_token : Market → ℕ → Bool
is_basic_token m a = elim (lookup a m.tokens) [ none ↦ false | some t ↦ t.basic ]

abbrev pub is_weth_token : Market → ℕ → Bool
is_weth_token m a = elim (lookup a m.tokens) [ none ↦ false | some t ↦ t.weth ]

abbrev pub get_token_or_default : Market → ℕ → Token
get_token_or_default m a = get_or_else (lookup a m.tokens) (new_token a)

-- `entry(k).or_default().push(v)`
abbrev pub push_at : ℕ → ℕ → HashMap (List ℕ) → HashMap (List ℕ)
push_at k v = alter k [] (λ xs. xs ++ v ∷ [])

pub add_direction : ℕ → Market → SwapDirection → Market
add_direction id m s = record m {
  token_token_pools = alter s.token_from [] (push_at s.token_to id) m.token_token_pools;
  token_tokens = push_at s.token_from s.token_to m.token_tokens;
  token_pools = push_at s.token_from id m.token_pools;
}

pub add_directions : ℕ → Market → List SwapDirection → Market
add_directions id m [] = m
add_directions id m (s ∷ ss) = add_directions id (add_direction id m s) ss

-- `none` is the error that the pool exists already.
pub add_pool : Market → Pool → Option Market
add_pool m p =
    if contains_key p.pool_id m.pools
    then none
    else (let with_directions = add_directions p.pool_id m p.swap_directions in
        some (record with_directions { pools = insert p.pool_id p with_directions.pools }))

-- The new market, and the indices of the paths that were added.
pub add_paths : Hasher → Market → List SwapPath → Market × List ℕ
add_paths hasher m [] = (m, [])
add_paths hasher m (p ∷ ps) =
    let (paths, idx) = add hasher m.swap_paths p in
    let (m', idxs) = add_paths hasher (record m { swap_paths = paths }) ps in
    (m', elim idx [ none ↦ idxs | some i ↦ i ∷ idxs ])

abbrev pub get_pool_paths : Market → ℕ → Option (List SwapPath)
get_pool_paths m id = get_pool_paths_enabled_vec m.swap_paths id

-- A pool of unknown class is not found.
pub get_pool : Market → ℕ → Option Pool
get_pool m id = elim (lookup id m.pools) [
  | none ↦ none
  | some p ↦ if is_unknown p.class then none else some p
]

pub is_pool : Market → ℕ → Bool
is_pool m id = contains_key id m.pools

pub set_pool_disabled : DirectionHasher → Market → ℕ → ℕ → ℕ → Bool → Market
set_pool_disabled direction_hash m id from to disabled = record m {
  swap_paths = disable_pool_paths direction_hash m.swap_paths id from to disabled;
}

pub set_path_disabled : Hasher → Market → SwapPath → Bool → Market × Bool
set_path_disabled hasher m path disabled =
    let (paths, done) = disable_path hasher m.swap_paths path disabled in
    (record m { swap_paths = paths }, done)

pub is_pool_disabled : Market → ℕ → Bool
is_pool_disabled m id = get_or_else (lookup id m.pools_disabled) false

abbrev pub get_token_token_pools : Market → ℕ → ℕ → Option (List ℕ)
get_token_token_pools m from to = elim (lookup from m.token_token_pools) [
  | none ↦ none
  | some inner ↦ lookup to inner
]

abbrev pub get_token_tokens : Market → ℕ → Option (List ℕ)
get_token_tokens m from = lookup from m.token_tokens

abbrev pub get_token_pools : Market → ℕ → Option (List ℕ)
get_token_pools m a = lookup a m.token_pools

abbrev pub get_token_pools_len : Market → ℕ → ℕ
get_token_pools_len m a = elim (lookup a m.token_pools) [ none ↦ 0 | some ids ↦ length ids ]

-- `for x in xs { ys.push(f(x)?) }`
abbrev pub collect_all : {A B : Type 0} → (A → Option B) → List A → Option (List B)
collect_all f [] = some []
collect_all f (x ∷ xs) = elim (f x) [
  | none ↦ none
  | some y ↦ Option.map (λ ys. y ∷ ys) (collect_all f xs)
]

pub swap_path : Market → List ℕ → List ℕ → Option SwapPath
swap_path m token_addresses ids = elim (collect_all (get_token m) token_addresses) [
  | none ↦ none
  | some tokens ↦ elim (collect_all (get_pool m) ids) [
    | none ↦ none
    | some pools ↦ some (new_path tokens pools)
  ]
]
