-- ===== src/Swap/Whole/Pools.antt =====
-- The pools of a whole swap, and what a line and its steps have in common.
use mathlib.Core.List.{map-append}
use kabu.Base.{ℕ, ◌≡◌, refl, sym, ap, ◌∙◌, List, [], ◌∷◌, ◌++◌, map}
use kabu.Market.{Pool}
use kabu.Swap.{SwapLine}
use kabu.Swap.Whole.{
  Swap, Swaps, nothing, exchange_swap_line, backrun_swap_steps, backrun_swap_line, multiple, end,
  entry, of_lines, pools_of, get_pool_id_vec, get_pool_id_vecs, get_pool_address_vec,
  get_pool_address_vecs, get_pools_vec, get_pools_vecs,
}

of_lines-map : (f : Pool → ℕ) (lines : List SwapLine) → of_lines f lines ≡ map f (pools_of lines)
of_lines-map f [] = refl
of_lines-map f (line ∷ lines) =
    ap (λ rest. map f line.path.pools ++ rest) (of_lines-map f lines)
    ∙ sym (map-append f line.path.pools (pools_of lines))

mutual
  unfolding get_pool_id_vec get_pool_id_vecs get_pools_vec get_pools_vecs

  ids-map : (s : Swap) → get_pool_id_vec s ≡ map (λ p. p.pool_id) (get_pools_vec s)
  ids-map nothing = refl
  ids-map (exchange_swap_line line) = refl
  ids-map (backrun_swap_line line) = refl
  ids-map (backrun_swap_steps a b) = of_lines-map _ (a.swap_line_vec ++ b.swap_line_vec)
  ids-map (multiple swaps) = ids-maps swaps

  ids-maps : (ss : Swaps) → get_pool_id_vecs ss ≡ map (λ p. p.pool_id) (get_pools_vecs ss)
  ids-maps end = refl
  ids-maps (entry s ss) =
      rw (ids-map s, ids-maps ss)
        (sym (map-append (λ p. p.pool_id) (get_pools_vec s) (get_pools_vecs ss)))

mutual
  unfolding get_pool_address_vec get_pool_address_vecs get_pools_vec get_pools_vecs

  addresses-map : (s : Swap) → get_pool_address_vec s ≡ map (λ p. p.address) (get_pools_vec s)
  addresses-map nothing = refl
  addresses-map (exchange_swap_line line) = refl
  addresses-map (backrun_swap_line line) = refl
  addresses-map (backrun_swap_steps a b) = of_lines-map _ (a.swap_line_vec ++ b.swap_line_vec)
  addresses-map (multiple swaps) = addresses-maps swaps

  addresses-maps :
      (ss : Swaps) → get_pool_address_vecs ss ≡ map (λ p. p.address) (get_pools_vecs ss)
  addresses-maps end = refl
  addresses-maps (entry s ss) =
      rw (addresses-map s, addresses-maps ss)
        (sym (map-append (λ p. p.address) (get_pools_vec s) (get_pools_vecs ss)))

-- The identifiers and the addresses of the pools of a swap are those of its vector of pools, in its
-- order.
pool_vecs_agree :
    (s : Swap)
    → (get_pool_id_vec s ≡ map (λ p. p.pool_id) (get_pools_vec s))
      × (get_pool_address_vec s ≡ map (λ p. p.address) (get_pools_vec s))
pool_vecs_agree s = (ids-map s, addresses-map s)
