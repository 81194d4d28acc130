-- ===== src/Market/Paths.antt =====
-- `SwapPaths` (crates/types/market/src/swap_path.rs): the swap paths of the market by index, by
-- hash and by pool. The hash of a direction with its pool is a parameter, like that of a path.
pub mod Membership
pub mod Index
pub mod Disable
mod Tests
use kabu.Base.{
  ℕ, zero, suc, ◌+◌, ◌-◌, ◌*◌, ◌/◌, ◌%◌, ◌^◌, ◌≤◌, ◌<◌, ◌≡◌, refl, sym, ap, ◌∙◌, ◌≢◌, ◌↔◌, ◌⊎◌, inl,
  inr, Bool, true, false, ◌&&◌, ◌||◌, not, Option, none, some, List, [], ◌∷◌, ◌++◌, map, reverse,
  arith, ltb, leb, ◌==◌, if◌then◌else◌, ltb→lt, lt→ltb, leb→le, ==_iff, ==_refl, Bool-cases,
  Option-cases, is_some, get_or_else, length, get_elem?, take, drop, head?, get_last?, any, All,
  length-append, take-append-drop, length-take, length-drop, get_last?-append, All-append, HashMap,
  lookup, contains_key, insert, erase, retain, alter, values, lookup-insert, lookup-insert_self,
  lookup-insert_ne, lookup-erase, lookup-retain_key, IsMap, insert-IsMap, lookup-retain,
  retain-IsMap, erase-IsMap, any-values,
}
use kabu.Market.{SwapPath, Pool, Token, Hasher, DirectionHasher, get_hash, pool_ids}

pub record SwapPaths : Type 0 where
  pub paths : List SwapPath
  pub pool_paths : HashMap (List ℕ)
  pub path_hash_map : HashMap ℕ
  pub disabled_directions : HashMap Bool

pub new : SwapPaths
new = record { paths = []; pool_paths = []; path_hash_map = []; disabled_directions = [] }

-- `for pool in &path.pools { pool_paths.entry(id).or_default().push(path_idx) }`
pub index_pools : HashMap (List ℕ) → List ℕ → ℕ → HashMap (List ℕ)
index_pools m [] idx = m
index_pools m (id ∷ ids) idx = index_pools (alter id [] (λ xs. xs ++ idx ∷ []) m) ids idx

pub add : Hasher → SwapPaths → SwapPath → SwapPaths × Option ℕ
unfolding index_pools
add hasher s path =
    let path_hash = get_hash hasher path in
    let path_idx = length s.paths in
    if contains_key path_hash s.path_hash_map then (s, none) else (
      record {
        paths = s.paths ++ path ∷ [];
        pool_paths = index_pools s.pool_paths (pool_ids path.pools) path_idx;
        path_hash_map = insert path_hash path_idx s.path_hash_map;
        disabled_directions = s.disabled_directions;
      },
      some path_idx,
    )

-- `SwapPaths::from`
pub add_all : Hasher → SwapPaths → List SwapPath → SwapPaths
add_all hasher s [] = s
add_all hasher s (p ∷ ps) = add_all hasher (add hasher s p).0 ps

-- A change through `paths.get_mut(idx)`, which does nothing out of range.
abbrev pub modify : List SwapPath → ℕ → (SwapPath → SwapPath) → List SwapPath
modify [] i f = []
modify (p ∷ ps) zero f = f p ∷ ps
modify (p ∷ ps) (suc i) f = p ∷ modify ps i f

pub disable_path : Hasher → SwapPaths → SwapPath → Bool → SwapPaths × Bool
disable_path hasher s path disable = elim (lookup (get_hash hasher path) s.path_hash_map) [
  | none ↦ (s, false)
  | some idx ↦ elim (get_elem? s.paths idx) [
    | none ↦ (s, false)
    | some p ↦
        (record s { paths = modify s.paths idx (λ q. record q { disabled = disable }) }, true)
  ]
]

-- `iter().position(|item| item == id)`
abbrev pub position : ℕ → List ℕ → Option ℕ
position id [] = none
position id (x ∷ xs) =
    if x == id then some 0 else (elim (position id xs) [ none ↦ none | some i ↦ some (suc i) ])

abbrev pub mem : ℕ → List ℕ → Bool
mem id = any (λ x. x == id)

-- `entry.disabled = disabled`, and the pool is entered in `disabled_pool` once.
pub mark : ℕ → Bool → SwapPath → SwapPath
mark pool_id disabled p = record p {
  disabled = disabled;
  disabled_pool =
      if mem pool_id p.disabled_pool then p.disabled_pool else p.disabled_pool ++ pool_id ∷ [];
}

-- The body of the loop of `disable_pool_paths`.
pub mark_direction : ℕ → ℕ → ℕ → Bool → SwapPath → SwapPath
unfolding mark
mark_direction pool_id from to disabled p = elim (position pool_id (pool_ids p.pools)) [
  | none ↦ mark pool_id disabled p
  | some idx ↦ elim (get_elem? p.tokens idx) [
    | none ↦ p
    | some token_from ↦ elim (get_elem? p.tokens (idx + 1)) [
      | none ↦ p
      | some token_to ↦
          if token_from.address == from && token_to.address == to
          then mark pool_id disabled p
          else p
    ]
  ]
]

pub mark_all : List SwapPath → List ℕ → (SwapPath → SwapPath) → List SwapPath
mark_all paths [] f = paths
mark_all paths (i ∷ is) f = mark_all (modify paths i f) is f

-- The test of that loop that a path goes through the pool in the direction.
pub takes_direction : ℕ → ℕ → ℕ → SwapPath → Bool
takes_direction pool_id from to p = elim (position pool_id (pool_ids p.pools)) [
  | none ↦ false
  | some idx ↦ elim (get_elem? p.tokens idx) [
    | none ↦ false
    | some token_from ↦ elim (get_elem? p.tokens (idx + 1)) [
      | none ↦ false
      | some token_to ↦ token_from.address == from && token_to.address == to
    ]
  ]
]

-- What that loop enters in `disabled_directions`, with the paths as they change on the way.
pub enter_all :
    List SwapPath
    → List ℕ
    → (SwapPath → SwapPath)
    → (SwapPath → Bool)
    → ℕ
    → Bool
    → HashMap Bool
    → HashMap Bool
enter_all paths [] f takes hash disabled m = m
enter_all paths (i ∷ is) f takes hash disabled m =
    enter_all (modify paths i f) is f takes hash disabled (elim (get_elem? paths i) [
      | none ↦ m
      | some p ↦ if takes p then insert hash disabled m else m
    ])

pub disable_pool_paths : DirectionHasher → SwapPaths → ℕ → ℕ → ℕ → Bool → SwapPaths
unfolding mark_all mark_direction enter_all takes_direction
disable_pool_paths direction_hash s pool_id from to disabled = elim (lookup pool_id s.pool_paths) [
  | none ↦ s
  | some idxs ↦ record s {
    paths = mark_all s.paths idxs (mark_direction pool_id from to disabled);
    disabled_directions =
        enter_all s.paths idxs (mark_direction pool_id from to disabled)
          (takes_direction pool_id from to) (direction_hash from to pool_id) disabled
          s.disabled_directions;
  }
]

-- `disabled_pool.is_empty() || (disabled_pool.len() == 1 && disabled_pool.contains(pool_id))`
abbrev pub is_enabled_for : ℕ → SwapPath → Bool
is_enabled_for pool_id p =
    length p.disabled_pool == 0 || (length p.disabled_pool == 1 && mem pool_id p.disabled_pool)

pub enabled_paths : List SwapPath → ℕ → List ℕ → List SwapPath
enabled_paths paths pool_id [] = []
enabled_paths paths pool_id (i ∷ is) = elim (get_elem? paths i) [
  | none ↦ enabled_paths paths pool_id is
  | some p ↦
      if is_enabled_for pool_id p
      then p ∷ enabled_paths paths pool_id is
      else enabled_paths paths pool_id is
]

pub get_pool_paths_enabled_vec : SwapPaths → ℕ → Option (List SwapPath)
unfolding enabled_paths
get_pool_paths_enabled_vec s pool_id = elim (lookup pool_id s.pool_paths) [
  | none ↦ none
  | some idxs ↦
      let found = enabled_paths s.paths pool_id idxs in
      elim found [ [] ↦ none | p ∷ ps ↦ some (p ∷ ps) ]
]

pub get_path_by_hash : SwapPaths → ℕ → Option SwapPath
get_path_by_hash s hash = elim (lookup hash s.path_hash_map) [
  | none ↦ none
  | some idx ↦ get_elem? s.paths idx
]

abbrev pub disabled_only : List SwapPath → List SwapPath
disabled_only [] = []
disabled_only (p ∷ ps) = if p.disabled then p ∷ disabled_only ps else disabled_only ps

pub disabled_len : SwapPaths → ℕ
disabled_len s = length (disabled_only s.paths)
