-- ===== src/Market.antt =====
-- Tokens, pools, swap paths and the market's store (crates/types/market/src: token.rs, pool.rs,
-- swap_direction.rs, swap_path.rs, market.rs). Addresses, pool identifiers and strings are numbers,
-- since they are only compared. A pool is the record of what its trait object answers; prices and
-- reserves are read from a database that stays the same while a pool is asked.
pub mod Paths
pub mod Store
pub mod Builder
mod Tests
use mathlib.Core.Option
use kabu.Base.{
  ℕ, zero, suc, ◌+◌, ◌-◌, ◌*◌, ◌/◌, ◌%◌, ◌^◌, ◌≤◌, ◌<◌, ◌≡◌, refl, sym, ap, ◌∙◌, ◌≢◌, ◌↔◌, ◌⊎◌, inl,
  inr, Bool, true, false, ◌&&◌, ◌||◌, not, Option, none, some, List, [], ◌∷◌, ◌++◌, map, reverse,
  arith, ltb, leb, ◌==◌, if◌then◌else◌, ltb→lt, lt→ltb, leb→le, ==_iff, ==_refl, Bool-cases,
  Option-cases, is_some, get_or_else, length, get_elem?, take, drop, head?, get_last?, any, All,
  length-append, take-append-drop, length-take, length-drop, get_last?-append, All-append, HashMap,
  lookup, contains_key, insert, erase, retain, alter, values, lookup-insert, lookup-insert_self,
  lookup-insert_ne, lookup-erase, lookup-retain_key, IsMap, insert-IsMap, lookup-retain,
  retain-IsMap, erase-IsMap, any-values,
}
use kabu.Types.{u256_mod}

pub record Token : Type 0 where
  pub address : ℕ
  pub weth : Bool
  pub basic : Bool
  pub middle : Bool
  pub decimals : ℕ
  pub name : Option ℕ
  pub symbol : Option ℕ
  pub eth_price : Option ℕ

abbrev pub new_with_data : ℕ → Option ℕ → Option ℕ → Option ℕ → Bool → Bool → Token
new_with_data address symbol name decimals basic middle = record {
  address = address;
  weth = false;
  basic = basic;
  middle = middle;
  decimals = get_or_else decimals 18;
  name = name;
  symbol = symbol;
  eth_price = none;
}

-- `Token::new` and `Token::zero`
abbrev pub new_token : ℕ → Token
new_token address = new_with_data address none none (some 18) false false

abbrev pub zero_token : Token
zero_token = new_with_data 0 none none (some 18) false false

-- The string of an address is a parameter.
abbrev pub get_symbol : (ℕ → ℕ) → Token → ℕ
get_symbol to_string t = get_or_else t.symbol (to_string t.address)

-- `PartialEq for Token`
abbrev pub same_token : Token → Token → Bool
same_token a b = a.address == b.address

pub record SwapDirection : Type 0 where
  pub token_from : ℕ
  pub token_to : ℕ

pub data PoolClass : Type 0 where
  unknown uniswap_v2 uniswap_v3 uniswap_v4 maverick maverick_v2 pancake_v3 curve : PoolClass
  lido_st_eth lido_wst_eth rocket_pool balancer_v1 balancer_v2 : PoolClass
  custom : ℕ → PoolClass

-- `trait Pool`: the answers of a pool. A calculation takes the two tokens and an amount, and gives
-- the other amount and the gas, or fails.
pub record Pool : Type 0 where
  pub pool_id : ℕ
  pub address : ℕ
  pub class : PoolClass
  pub swap_directions : List SwapDirection
  pub can_flash_swap : Bool
  pub can_calculate_in_amount : Bool
  pub calculate_out_amount : ℕ → ℕ → ℕ → Option (ℕ × ℕ)
  pub calculate_in_amount : ℕ → ℕ → ℕ → Option (ℕ × ℕ)

-- `PartialEq for PoolWrapper`
abbrev pub same_pool : Pool → Pool → Bool
same_pool p q = p.pool_id == q.pool_id

abbrev pub is_unknown : PoolClass → Bool
is_unknown unknown = true
is_unknown c = false

-- `SwapPath`; its score, which is never set here, is left out.
pub record SwapPath : Type 0 where
  pub tokens : List Token
  pub pools : List Pool
  pub disabled : Bool
  pub disabled_pool : List ℕ

-- `SwapPath::new`
abbrev pub new_path : List Token → List Pool → SwapPath
new_path tokens pools = record {
  tokens = tokens;
  pools = pools;
  disabled = false;
  disabled_pool = [];
}

abbrev pub is_nil {ℓ} : {A : Type ℓ} → List A → Bool
is_nil [] = true
is_nil (x ∷ xs) = false

abbrev pub is_empty : SwapPath → Bool
is_empty p = is_nil p.tokens && is_nil p.pools

abbrev pub new_swap : Token → Token → Pool → SwapPath
new_swap from to pool = new_path (from ∷ to ∷ []) (pool ∷ [])

-- `none` is the error `NEW_SWAP_NOT_CONNECTED`.
pub push_swap_hope : SwapPath → Token → Token → Pool → Option SwapPath
push_swap_hope p from to pool =
    if is_empty p
    then some (record p { tokens = from ∷ to ∷ []; pools = pool ∷ [] })
    else (if same_token from (get_or_else (get_last? p.tokens) zero_token)
        then some (record p { tokens = p.tokens ++ to ∷ []; pools = p.pools ++ pool ∷ [] })
        else none)

pub insert_swap_hope : SwapPath → Token → Token → Pool → Option SwapPath
insert_swap_hope p from to pool =
    if is_empty p
    then some (record p { tokens = from ∷ to ∷ []; pools = pool ∷ [] })
    else (if same_token to (get_or_else (head? p.tokens) zero_token)
        then some (record p { tokens = from ∷ p.tokens; pools = pool ∷ p.pools })
        else none)

abbrev pub contains_pool : SwapPath → Pool → Bool
contains_pool p pool = any (λ q. same_pool q pool) p.pools

-- `PartialEq for SwapPath`
abbrev pub same_list : List ℕ → List ℕ → Bool
same_list [] [] = true
same_list (x ∷ xs) (y ∷ ys) = x == y && same_list xs ys
same_list _ _ = false

abbrev pub addresses : List Token → List ℕ
addresses = map (λ t. t.address)

abbrev pub pool_ids : List Pool → List ℕ
pool_ids = map (λ p. p.pool_id)

abbrev pub same_path : SwapPath → SwapPath → Bool
same_path p q =
    same_list (addresses p.tokens) (addresses q.tokens)
    && same_list (pool_ids p.pools) (pool_ids q.pools)

-- `SwapPath::get_hash` hashes the tokens and the pools with the standard library's hasher, which
-- the code that needs it takes as an argument.
abbrev pub Hasher : Type 0
Hasher = List ℕ → List ℕ → ℕ

-- `SwapDirection::get_hash_with_pool`, which is another argument.
abbrev pub DirectionHasher : Type 0
DirectionHasher = ℕ → ℕ → ℕ → ℕ

abbrev pub get_hash : Hasher → SwapPath → ℕ
get_hash hasher p = hasher (addresses p.tokens) (pool_ids p.pools)

-- `Token::get_exp`, `get_eth_price`, `calc_eth_value` and `calc_token_value_from_eth`. An outer
-- `none` is a panic: the division by a price of zero. Products wrap at 256 bits.
abbrev pub one_ether : ℕ
one_ether = 10 ^ 18

unfoldable pub get_eth_price : Token → Option ℕ
get_eth_price t = if t.weth then some one_ether else t.eth_price

unfoldable pub calc_eth_value : Token → ℕ → Option (Option ℕ)
calc_eth_value t value = elim (get_eth_price t) [
  | none ↦ some none
  | some price ↦ if price == 0 then none else some (some (value * one_ether % u256_mod / price))
]

unfoldable pub calc_token_value_from_eth : Token → ℕ → Option ℕ
calc_token_value_from_eth t eth_value = elim (get_eth_price t) [
  | none ↦ none
  | some price ↦ some (eth_value * price % u256_mod / one_ether)
]
