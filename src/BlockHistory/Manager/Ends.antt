-- ===== src/BlockHistory/Manager/Ends.antt =====
-- The loop of `set_chain_head` stops, with a result or where the node fails.
use kabu.Base.{
  ℕ, zero, suc, ◌+◌, ◌<◌, ◌≡◌, refl, ◌⊎◌, inl, inr, Bool, ◌&&◌, not, Option, some, [], arith, ltb,
  leb, ◌==◌, Bool-cases, Option-cases, is_some, get_or_else, lookup,
}
use kabu.Types.{Header, KabuDataTypes}
use kabu.BlockHistory.{
  BlockHistory, BlockHistoryEntry, Result, ok, err, provider, block_is_empty, set_entry,
}
use kabu.BlockHistory.Manager.{Client, fetch_entry_by_hash, rewind}
use kabu.BlockHistory.Manager.Rewind.{
  StoreKnown, ClientKnown, fetch_entry-Known, set_entry-StoreKnown, name_entry,
}

-- The node has failed, or has no such block.
abbrev pub NodeFails : {A : Type 0} → Result A → Type 0
NodeFails r = (r ≡ err provider) ⊎ (r ≡ err block_is_empty)

fetch_entry-cases :
    {d : KabuDataTypes} (client : Client d) (k : ℕ)
    → ((e : BlockHistoryEntry d) × (fetch_entry_by_hash client k ≡ ok e))
      ⊎ NodeFails (fetch_entry_by_hash client k)
unfolding fetch_entry_by_hash
fetch_entry-cases {d} client k = elim (Option-cases (client.block_by_hash k)) [
  | inl a ↦ inr (inl (ground (arith, a)))
  | inr (found, a) ↦ elim (Option-cases found) [
    | inl b ↦ inr (inr (ground (arith, a, b)))
    | inr (block, b) ↦ elim (Option-cases (client.logs_at_block k)) [
      | inl l ↦ inr (inl (ground (arith, a, b, l)))
      | inr (logs, l) ↦ inl (
        record {
          header = d.get_header block;
          block = some block;
          logs = some logs;
          state_update = some (get_or_else (client.trace_block k) []);
        },
        ground (arith, a, b, l),
      )
    ]
  ]
]

-- A loop that ends, with a result or since the node has failed.
abbrev pub Ends : {d : KabuDataTypes} {S : Type 0} → Option (BlockHistory d S × Result ℕ) → Type 0
Ends {d} {S} o =
    (t : BlockHistory d S) × (r : Result ℕ) × (o ≡ some (t, r))
    × (((m : ℕ) × (r ≡ ok m)) ⊎ NodeFails r)

-- `set_chain_head` ends: its flag says whether the header was not stored and no block is higher.
abbrev pub HeadEnds :
    {d : KabuDataTypes} {S : Type 0}
    → BlockHistory d S
    → Header
    → Option (BlockHistory d S × Result (Bool × ℕ))
    → Type 0
HeadEnds {d} {S} s h o =
    (t : BlockHistory d S) × (r : Result (Bool × ℕ)) × (o ≡ some (t, r))
    × (((m : ℕ) × (r
            ≡ ok (
              not (is_some (lookup h.hash s.block_entries)) && leb s.latest_block_number h.number,
              m,
            )))
        ⊎ NodeFails r)

module _ {d : KabuDataTypes} {S : Type 0} (client : Client d) (height : ℕ → ℕ) where
  -- Under an equation the loop ends as what follows does.
  Ends-eq : (o p : Option (BlockHistory d S × Result ℕ)) → o ≡ p → Ends p → Ends o
  Ends-eq o p q x = rw q x

  pub rewind-Ends :
      (fuel : ℕ) (s : BlockHistory d S) (min_block k r : ℕ)
      → StoreKnown height s
      → ClientKnown height client
      → height k < fuel
      → Ends (rewind client fuel s min_block k r)
  unfolding rewind
  rewind-Ends zero s min_block k r v c b = elim b [ ]
  rewind-Ends (suc fuel) s min_block k r v c b = elim (Option-cases (lookup k s.block_entries)) [
    | inr (e, a) ↦
        let w = v k e a in
        let rest =
          rewind-Ends fuel (name_entry client height s e) min_block e.header.parent_hash (r + 1) v c
            (omega (arith, w.parent)) in
        elim (Bool-cases
          (get_or_else (lookup e.header.number s.block_numbers) 0 == e.header.hash)) [
            | inl canonical ↦ (s, ok r, ground (arith, a), inl (r, refl))
            | inr moved ↦ Ends-eq _ _ (ground (arith, a)) rest
          ]
    | inl a ↦ elim (fetch_entry-cases client k) [
      | inr (inl f) ↦ (s, err provider, ground (arith, a, f), inr (inl refl))
      | inr (inr f) ↦ (s, err block_is_empty, ground (arith, a, f), inr (inr refl))
      | inl (e, f) ↦
          let w = fetch_entry-Known client height k e c f in
          let rest =
            rewind-Ends fuel (set_entry s e) min_block e.header.parent_hash (r + 1)
              (set_entry-StoreKnown client height s k e v w) c (omega (arith, w.parent)) in
          elim (Bool-cases (ltb e.header.number min_block)) [
            | inl low ↦ (s, ok r, ground (arith, a, f), inl (r, refl))
            | inr high ↦ Ends-eq _ _ (ground (arith, a, f)) rest
          ]
    ]
  ]
