-- ===== src/Market/Paths/Tests.antt =====
-- Two paths through one pool, and the calls on them.
use kabu.Base.{
  ℕ, ◌+◌, ◌*◌, ◌≡◌, refl, true, false, none, some, List, [], ◌∷◌, arith, length, get_elem?, lookup,
}
use kabu.Market.{Pool, SwapPath, Hasher, DirectionHasher, uniswap_v2, new_token, new_path, get_hash}
use kabu.Market.Paths.{SwapPaths, new, add, disable_pool_paths, is_enabled_for, get_path_by_hash}
use kabu.Market.Paths.Index.{
  Call, adds, disables_path, disables_pool, run, IsIndexed, run-new-IsIndexed, add-add,
}
use kabu.Market.Paths.Disable.{disable_pool_paths-excluded}

abbrev pool : ℕ → Pool
pool id = record {
  pool_id = id;
  address = id;
  class = uniswap_v2;
  swap_directions = [];
  can_flash_swap = true;
  can_calculate_in_amount = true;
  calculate_out_amount = λ from to amount. none;
  calculate_in_amount = λ from to amount. none;
}

abbrev path : SwapPath
path = new_path (new_token 1 ∷ new_token 2 ∷ new_token 1 ∷ []) (pool 10 ∷ pool 11 ∷ [])

abbrev hasher : Hasher
hasher xs ys = length xs + 10 * length ys

abbrev direction_hash : DirectionHasher
direction_hash from to pool_id = from + 10 * to + 100 * pool_id

abbrev calls : List Call
calls = adds path ∷ disables_pool direction_hash 10 1 2 true ∷ disables_path path true ∷ []

index_example : IsIndexed hasher (run hasher new calls)
index_example = run-new-IsIndexed hasher calls

add_example :
    let t = (add hasher (run hasher new calls) path).0 in
    (add hasher t path ≡ (t, none))
    × (q : SwapPath) × (get_path_by_hash t (get_hash hasher path) ≡ some q)
    × (get_hash hasher q ≡ get_hash hasher path)
add_example = add-add hasher (run hasher new calls) path (run-new-IsIndexed hasher calls)

abbrev one_path : SwapPaths
one_path = record {
  paths = path ∷ [];
  pool_paths = (10, 0 ∷ []) ∷ (11, 0 ∷ []) ∷ [];
  path_hash_map = (23, 0) ∷ [];
  disabled_directions = [];
}

-- The first pool is enabled, and the path is not shown for the second.
excluded_example :
    (q : SwapPath) × (get_elem? (disable_pool_paths direction_hash one_path 10 1 2 false).paths 0
      ≡ some q)
    × (q.disabled ≡ false)
    × (is_enabled_for 11 q ≡ false)
unfolding lookup
excluded_example =
    disable_pool_paths-excluded direction_hash one_path 10 1 2 11 0 false path refl refl
      (0, new_token 1, new_token 2, refl, refl, refl, refl, refl) (λ q. omega arith)
