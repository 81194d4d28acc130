-- ===== src/Market/Store/Lookups.antt =====
-- The tables of `Market` (crates/types/market/src/market.rs) that are read by symbol and by the
-- cell of a pool manager.
use kabu.Base.{
  ℕ, ◌≡◌, refl, none, some, [], ◌==◌, ◌&&◌, if◌then◌else◌, arith, Option-cases, lookup, insert,
  lookup-insert, inl, inr, Bool-cases,
}
use kabu.Market.{Token, get_symbol}
use kabu.Market.Store.{
  Market, add_token, get_token_by_symbol, add_pool_manager_cell, get_pool_id_for_cell,
}

-- After a token is added its symbol leads to it, whichever token had the symbol before. Another
-- symbol leads where it led, and to the new data of the token if it led to the token's address.
get_token_by_symbol-add_token :
    (to_string : ℕ → ℕ) (m : Market) (t : Token) (symbol : ℕ)
    → get_token_by_symbol (add_token to_string m t) symbol ≡ (
        if symbol == get_symbol to_string t then some t else elim (lookup symbol m.token_symbols) [
          | none ↦ none
          | some address ↦ if address == t.address then some t else lookup address m.tokens
        ])
unfolding get_token_by_symbol add_token
get_token_by_symbol-add_token to_string m t symbol =
    let symbols = lookup-insert symbol (get_symbol to_string t) t.address m.token_symbols in
    elim (Bool-cases (symbol == get_symbol to_string t)) [
      | inl y ↦ ground (arith, y, symbols, lookup-insert t.address t.address t m.tokens)
      | inr y ↦ elim (Option-cases (lookup symbol m.token_symbols)) [
        | inl e ↦ ground (arith, y, e, symbols)
        | inr (a, e) ↦ ground (arith, y, e, symbols, lookup-insert a t.address t m.tokens)
      ]
    ]

lookup-nil : (k : ℕ) → lookup {V = ℕ} k [] ≡ none
unfolding lookup
lookup-nil k = refl

-- A cell that is added leads to its pool, and every other cell of every manager leads where it led.
get_pool_id_for_cell-add_pool_manager_cell :
    (m : Market) (pool_manager pool_id cell other_manager other : ℕ)
    → get_pool_id_for_cell (add_pool_manager_cell m pool_manager pool_id cell) other_manager other
      ≡ (if other_manager == pool_manager && other == cell
          then some pool_id
          else get_pool_id_for_cell m other_manager other)
unfolding get_pool_id_for_cell add_pool_manager_cell
get_pool_id_for_cell-add_pool_manager_cell m pool_manager pool_id cell other_manager other =
    elim (Option-cases (lookup pool_manager m.pools_manager_cells)) [
      | inl e ↦ ground (
        arith,
        e,
        lookup-insert other_manager pool_manager (insert cell pool_id []) m.pools_manager_cells,
        lookup-insert other cell pool_id [],
        lookup-nil other,
      )
      | inr (cells, e) ↦ ground (
        arith,
        e,
        lookup-insert other_manager pool_manager (insert cell pool_id cells) m.pools_manager_cells,
        lookup-insert other cell pool_id cells,
      )
    ]
