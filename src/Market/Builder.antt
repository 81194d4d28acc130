-- ===== src/Market/Builder.antt =====
-- The search for closed swap paths through a changed pool
-- (crates/types/market/src/swap_path_builder.rs).
pub mod Routes
pub mod Found
pub mod Search
pub mod Complete
use mathlib.Core.Option
use kabu.Base.{
  ℕ, zero, suc, ◌+◌, ◌-◌, ◌*◌, ◌/◌, ◌%◌, ◌^◌, ◌≤◌, ◌<◌, ◌≡◌, refl, sym, ap, ◌∙◌, ◌≢◌, ◌↔◌, ◌⊎◌, inl,
  inr, Bool, true, false, ◌&&◌, ◌||◌, not, Option, none, some, List, [], ◌∷◌, ◌++◌, map, reverse,
  arith, ltb, leb, ◌==◌, if◌then◌else◌, ltb→lt, lt→ltb, leb→le, ==_iff, ==_refl, Bool-cases,
  Option-cases, is_some, get_or_else, length, get_elem?, take, drop, head?, get_last?, any, All,
  length-append, take-append-drop, length-take, length-drop, get_last?-append, All-append, HashMap,
  lookup, contains_key, insert, erase, retain, alter, values, lookup-insert, lookup-insert_self,
  lookup-insert_ne, lookup-erase, lookup-retain_key, IsMap, insert-IsMap, lookup-retain,
  retain-IsMap, erase-IsMap, any-values,
}
use kabu.Market.{
  Token, Pool, SwapDirection, SwapPath, new_swap, push_swap_hope, insert_swap_hope, contains_pool,
  same_path,
}
use kabu.Market.Store.{
  Market, is_basic_token, is_weth_token, get_token_or_default, get_pool, is_pool_disabled,
  get_token_token_pools, get_token_tokens, get_token_pools_len,
}

-- A loop over the pools: those that are disabled, and those that are not found, are skipped.
pub for_pools : Market → List ℕ → (Pool → List SwapPath) → List SwapPath
for_pools m [] body = []
for_pools m (id ∷ ids) body =
    if is_pool_disabled m id then for_pools m ids body else (elim (get_pool m id) [
      | none ↦ for_pools m ids body
      | some p ↦ body p ++ for_pools m ids body
    ])

-- A loop over the tokens, by address.
pub for_tokens : List ℕ → (ℕ → List SwapPath) → List SwapPath
for_tokens [] body = []
for_tokens (a ∷ addresses) body = body a ++ for_tokens addresses body

-- `let _ = swap.push_swap_hope(..)`: an error leaves the path as it was.
abbrev pub or_same : Option SwapPath → SwapPath → SwapPath
or_same = get_or_else

-- The loop of `build_swap_path_two_hopes_basic_in`; a failed push is its error.
pub two_in_loop : Market → Pool → Token → Token → List ℕ → Option (List SwapPath)
two_in_loop m pool token_from token_to [] = some []
two_in_loop m pool token_from token_to (id ∷ ids) =
    let rest = two_in_loop m pool token_from token_to ids in
    if is_pool_disabled m id then rest else (elim (get_pool m id) [
      | none ↦ rest
      | some loop_pool ↦
          let swap = new_swap token_from token_to pool in
          if contains_pool swap loop_pool
          then rest
          else (elim (push_swap_hope swap token_to token_from loop_pool) [
            | none ↦ none
            | some path ↦ Option.map (λ ps. path ∷ ps) rest
          ])
    ])

pub build_swap_path_two_hopes_basic_in : Market → Pool → ℕ → ℕ → Option (List SwapPath)
unfolding two_in_loop
build_swap_path_two_hopes_basic_in m pool from to = elim (get_token_token_pools m to from) [
  | none ↦ some []
  | some ids ↦ two_in_loop m pool (get_token_or_default m from) (get_token_or_default m to) ids
]

-- The bodies of the loops.
pub three_in_body : Pool → Token → Token → Token → Pool → Pool → List SwapPath
three_in_body pool token_from token_to token_middle pool_1 pool_2 =
    let swap = new_swap token_from token_to pool in
    if contains_pool swap pool_1
    then []
    else (let pushed = or_same (push_swap_hope swap token_to token_middle pool_1) swap in
        if contains_pool pushed pool_2
        then []
        else or_same (push_swap_hope pushed token_middle token_from pool_2) pushed ∷ [])

-- A turn of the loop over the tokens in the middle.
pub three_in_at : Market → Pool → ℕ → ℕ → ℕ → List SwapPath
unfolding for_pools three_in_body
three_in_at m pool from to middle =
    if ltb (get_token_pools_len m middle) 2 then [] else (elim (get_token_token_pools m to middle) [
      | none ↦ []
      | some ids_1 ↦ elim (get_token_token_pools m middle from) [
        | none ↦ []
        | some ids_2 ↦ for_pools m ids_1 (λ pool_1. for_pools m ids_2 (λ pool_2.
            three_in_body pool (get_token_or_default m from) (get_token_or_default m to)
              (get_token_or_default m middle) pool_1 pool_2))
      ]
    ])

pub build_swap_path_three_hopes_basic_in : Market → Pool → ℕ → ℕ → List SwapPath
unfolding for_tokens three_in_at
build_swap_path_three_hopes_basic_in m pool from to =
    if ltb (get_token_pools_len m to) 2 then [] else (elim (get_token_tokens m to) [
      | none ↦ []
      | some middles ↦ for_tokens middles (three_in_at m pool from to)
    ])

pub two_out_body : Pool → Token → Token → Pool → List SwapPath
two_out_body pool token_from token_to loop_pool =
    let swap = new_swap token_from token_to pool in
    if contains_pool swap loop_pool
    then []
    else or_same (insert_swap_hope swap token_to token_from loop_pool) swap ∷ []

pub build_swap_path_two_hopes_basic_out : Market → Pool → ℕ → ℕ → List SwapPath
unfolding for_pools two_out_body
build_swap_path_two_hopes_basic_out m pool from to =
    if ltb (get_token_pools_len m from) 2 then [] else (elim (get_token_token_pools m to from) [
      | none ↦ []
      | some ids ↦
          for_pools m ids
            (two_out_body pool (get_token_or_default m from) (get_token_or_default m to))
    ])

pub three_out_body : Pool → Token → Token → Token → Pool → Pool → List SwapPath
three_out_body pool token_from token_to token_middle pool_1 pool_2 =
    let swap = new_swap token_from token_to pool in
    if contains_pool swap pool_2
    then []
    else (let inserted = or_same (insert_swap_hope swap token_middle token_from pool_2) swap in
        if contains_pool inserted pool_1
        then []
        else or_same (insert_swap_hope inserted token_to token_middle pool_1) inserted ∷ [])

-- A turn of the loop over the tokens in the middle.
pub three_out_at : Market → Pool → ℕ → ℕ → ℕ → List SwapPath
unfolding for_pools three_out_body
three_out_at m pool from to middle =
    if ltb (get_token_pools_len m middle) 2 then [] else (elim (get_token_token_pools m to middle) [
      | none ↦ []
      | some ids_1 ↦ elim (get_token_token_pools m middle from) [
        | none ↦ []
        | some ids_2 ↦ for_pools m ids_1 (λ pool_1. for_pools m ids_2 (λ pool_2.
            three_out_body pool (get_token_or_default m from) (get_token_or_default m to)
              (get_token_or_default m middle) pool_1 pool_2))
      ]
    ])

pub build_swap_path_three_hopes_basic_out : Market → Pool → ℕ → ℕ → List SwapPath
unfolding for_tokens three_out_at
build_swap_path_three_hopes_basic_out m pool from to = elim (get_token_tokens m from) [
  | none ↦ []
  | some middles ↦
      if ltb (get_token_pools_len m from) 2
      then []
      else for_tokens middles (three_out_at m pool from to)
]

pub no_basic_body : Pool → Token → Token → Token → Pool → Pool → List SwapPath
no_basic_body pool token_from token_to token_basic pool_1 pool_2 =
    let swap = new_swap token_from token_to pool in
    if contains_pool swap pool_1
    then []
    else (let inserted = or_same (insert_swap_hope swap token_basic token_from pool_1) swap in
        if contains_pool inserted pool_2
        then []
        else or_same (push_swap_hope inserted token_to token_basic pool_2) inserted ∷ [])

-- A turn of the loop over the basic tokens.
pub no_basic_at : Market → Pool → ℕ → ℕ → ℕ → List SwapPath
unfolding for_pools no_basic_body
no_basic_at m pool from to a =
    let token_basic = get_token_or_default m a in
    if not token_basic.basic then [] else (elim (get_token_token_pools m a from) [
      | none ↦ []
      | some ids_1 ↦ elim (get_token_token_pools m to a) [
        | none ↦ []
        | some ids_2 ↦ for_pools m ids_1 (λ pool_1. for_pools m ids_2 (λ pool_2.
            no_basic_body pool (get_token_or_default m from) (get_token_or_default m to) token_basic
              pool_1 pool_2))
      ]
    ])

pub build_swap_path_three_hopes_no_basic : Market → Pool → ℕ → ℕ → List SwapPath
unfolding for_tokens no_basic_at
build_swap_path_three_hopes_no_basic m pool from to = elim (get_token_tokens m from) [
  | none ↦ []
  | some basics ↦ for_tokens basics (no_basic_at m pool from to)
]

-- `SwapPathSet`, in the order of insertion: a path that is there is not inserted again.
pub extend : List SwapPath → List SwapPath → List SwapPath
extend set [] = set
extend set (p ∷ ps) = extend (if any (λ q. same_path q p) set then set else set ++ p ∷ []) ps

-- What one direction of one pool adds.
pub direction_paths : Market → Pool → SwapDirection → Option (List SwapPath)
unfolding build_swap_path_two_hopes_basic_in
direction_paths m pool d =
    let from = d.token_from in
    let to = d.token_to in
    let outs =
      if is_basic_token m to
      then build_swap_path_two_hopes_basic_out m pool from to
        ++ build_swap_path_three_hopes_basic_out m pool from to
      else [] in
    let others =
      if (not (is_basic_token m from) && not (is_basic_token m to))
        || (not (is_weth_token m from) && not (is_weth_token m to))
      then build_swap_path_three_hopes_no_basic m pool from to
      else [] in
    if is_basic_token m from
    then Option.map
        (λ ps. outs ++ (ps ++ (build_swap_path_three_hopes_basic_in m pool from to ++ others)))
        (build_swap_path_two_hopes_basic_in m pool from to)
    else some (outs ++ others)

pub build_directions : Market → List SwapPath → Pool → List SwapDirection → Option (List SwapPath)
build_directions m set pool [] = some set
build_directions m set pool (d ∷ ds) = elim (direction_paths m pool d) [
  | none ↦ none
  | some ps ↦ build_directions m (extend set ps) pool ds
]

pub build_pools : Market → List SwapPath → List (Pool × List SwapDirection) → Option (List SwapPath)
build_pools m set [] = some set
build_pools m set ((pool, ds) ∷ rest) = elim (build_directions m set pool ds) [
  | none ↦ none
  | some set' ↦ build_pools m set' rest
]

-- `none` is an error of a push.
pub build_swap_path_vec : Market → List (Pool × List SwapDirection) → Option (List SwapPath)
unfolding build_pools
build_swap_path_vec m directions = build_pools m [] directions
