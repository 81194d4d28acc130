-- ===== src/BlockHistory/Blocks.antt =====
-- What `add_block` does to the store (crates/types/entities/src/block_history/block_history_impl.rs).
use Prim.Native.Nat.{max}
use kabu.Base.{
  ℕ, ◌-◌, ◌<◌, ◌≡◌, refl, ◌⊎◌, inl, inr, true, none, some, lookup, retain, any, values, ltb, ◌==◌,
  is_some, get_or_else, arith, lookup-insert_self, lookup-retain_key, Option-cases,
}
use kabu.Types.{Header, KabuDataTypes}
use kabu.BlockHistory.{
  BlockHistory, BlockHistoryEntry, ok, err, block_is_already_processed, header_entry, advance_head,
  prune, get_or_insert_entry_with_header, add_block,
}
use kabu.BlockHistory.Entries.{prune-entries_some}
use kabu.BlockHistory.Headers.{get_or_insert-latest}
use kabu.BlockHistory.Retention.{IsNamed}

module _ {d : KabuDataTypes} {S : Type 0} where
  prune-dropped :
      (s : BlockHistory d S) (h : Header) (k : ℕ) (x : BlockHistoryEntry d)
      → lookup k s.block_entries ≡ some x
      → lookup k (prune s h).block_entries ≡ none
      → (s.depth < h.number) × ¬ IsNamed (prune s h) k
  unfolding prune
  prune-dropped s h k x e q =
      let kept =
        lookup-retain_key
          (λ key.
            any (λ x. x == key)
              (values (retain (λ key _. ltb (h.number - s.depth) key) s.block_numbers)))
          k s.block_entries in
      (ground (arith, kept), λ named. ground (arith, kept))

  -- The entry is kept, or made with no data where the store has none or has dropped it.
  abbrev pub KeptOrNew : BlockHistory d S → BlockHistory d S → Header → BlockHistoryEntry d → Type 0
  KeptOrNew s t h x =
      (lookup h.hash s.block_entries ≡ some x)
      ⊎ (x ≡ header_entry d h)
        × ((y : BlockHistoryEntry d)
            → lookup h.hash s.block_entries ≡ some y
            → (s.depth < h.number) × ¬ IsNamed t h.hash)

  advance_head-same :
      (s : BlockHistory d S) (h : Header)
      → ((advance_head s h).block_entries ≡ s.block_entries) × ((advance_head s h).depth ≡ s.depth)
  unfolding advance_head
  advance_head-same s h = (ground arith, ground arith)

  get_or_insert-KeptOrNew :
      (s : BlockHistory d S) (h : Header)
      → let t = get_or_insert_entry_with_header s h in
        (x : BlockHistoryEntry d) × (lookup h.hash t.block_entries ≡ some x) × KeptOrNew s t h x
  unfolding get_or_insert_entry_with_header
  get_or_insert-KeptOrNew s h =
      let a = advance_head s h in
      let p = prune a h in
      let (same, depth) = advance_head-same s h in
      let put =
        lookup-insert_self h.hash (get_or_else (lookup h.hash p.block_entries) (header_entry d h))
          p.block_entries in
      elim (Option-cases (lookup h.hash p.block_entries)) [
        | inr (x, e) ↦ (
          x,
          ground (arith, put, e),
          inl (ground (arith, same, prune-entries_some a h h.hash x e)),
        )
        | inl e ↦ (
          header_entry d h,
          ground (arith, put, e),
          inr (
            refl,
            λ y q.
                let (deep, free) = prune-dropped a h h.hash y (ground (arith, same, q)) e in
                (ground (arith, depth, deep), free),
          ),
        )
      ]

  KeptOrNew-numbers :
      (s t u : BlockHistory d S) (h : Header) (x : BlockHistoryEntry d)
      → u.block_numbers ≡ t.block_numbers
      → KeptOrNew s t h x
      → KeptOrNew s u h x
  KeptOrNew-numbers s t u h x q k = rw q k

  add_block-numbers :
      (s : BlockHistory d S) (b : d.Block)
      → (add_block s b).0.block_numbers
        ≡ (get_or_insert_entry_with_header s (d.get_header b)).block_numbers
  unfolding add_block
  add_block-numbers s b = ground arith

  pub add_block_lem :
      (s : BlockHistory d S) (b : d.Block)
      → let h = d.get_header b in
        let (t, r) = add_block s b in
        (t.latest_block_number ≡ max s.latest_block_number h.number)
        × (x : BlockHistoryEntry d) × KeptOrNew s t h x
        × ((x.block ≡ none)
              × (lookup h.hash t.block_entries ≡ some (record x { block = some b }))
              × (r ≡ ok tt)
            ⊎ (is_some x.block ≡ true)
              × (lookup h.hash t.block_entries ≡ some x)
              × (r ≡ err block_is_already_processed))
  unfolding add_block
  add_block_lem s b =
      let h = d.get_header b in
      let t = get_or_insert_entry_with_header s h in
      let latest = get_or_insert-latest s h in
      let (x, e, kept) = get_or_insert-KeptOrNew s h in
      let here = KeptOrNew-numbers s t (add_block s b).0 h x (add_block-numbers s b) kept in
      elim (Option-cases x.block) [
        | inl n ↦
            let put = lookup-insert_self h.hash (record x { block = some b }) t.block_entries in
            (
              ground (arith, e, n, latest),
              x,
              here,
              inl (n, ground (arith, e, n, put), ground (arith, e, n)),
            )
        | inr (c, n) ↦ (
          ground (arith, e, n, latest),
          x,
          here,
          inr (ground (arith, n), ground (arith, e, n), ground (arith, e, n)),
        )
      ]
