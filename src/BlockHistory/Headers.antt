-- ===== src/BlockHistory/Headers.antt =====
-- What `add_block_header` does to the store, on every branch.
use Prim.Native.Nat.{max}
use kabu.Base.{
  ℕ, ◌+◌, ◌-◌, ◌≤◌, ◌<◌, ◌≡◌, true, false, none, some, lookup, retain, any, values, leb, ltb, ◌==◌,
  ◌⊎◌, lookup-insert_self, arith, lookup-retain_key, Bool-cases, inl, inr,
}
use kabu.Types.{Header, KabuDataTypes, u64_mod}
use kabu.BlockHistory.{
  BlockHistory, ok, err, block_is_already_processed, header_entry, advance_head, prune,
  get_or_insert_entry_with_header, contains_block, add_block_header,
}

module _ {d : KabuDataTypes} {S : Type 0} where
  pub prune-latest :
      (s : BlockHistory d S) (h : Header) → (prune s h).latest_block_number ≡ s.latest_block_number
  unfolding prune
  prune-latest s h = ground arith

  pub prune-depth : (s : BlockHistory d S) (h : Header) → (prune s h).depth ≡ s.depth
  unfolding prune
  prune-depth s h = ground arith

  -- Pruning brings no block in.
  pub prune_absent :
      (s : BlockHistory d S) (h : Header) (k : ℕ)
      → lookup k s.block_entries ≡ none
      → lookup k (prune s h).block_entries ≡ none
  unfolding prune
  prune_absent s h k e = ground (
    arith,
    lookup-retain_key
        (λ key.
          any (λ x. x == key)
            (values (retain (λ key _. ltb (h.number - s.depth) key) s.block_numbers)))
        k s.block_entries,
  )

  -- The number of a block stays in the table while the depth is not zero.
  pub prune-numbers :
      (s : BlockHistory d S) (h : Header)
      → 0 < s.depth
      → lookup h.number (prune s h).block_numbers ≡ lookup h.number s.block_numbers
  unfolding prune
  prune-numbers s h p =
      ground
        (arith, lookup-retain_key (λ key. ltb (h.number - s.depth) key) h.number s.block_numbers)

  pub get_or_insert-latest :
      (s : BlockHistory d S) (h : Header)
      → (get_or_insert_entry_with_header s h).latest_block_number
        ≡ max s.latest_block_number h.number
  unfolding get_or_insert_entry_with_header
  get_or_insert-latest s h = ground (arith, prune-latest (advance_head s h) h)

  pub get_or_insert-depth :
      (s : BlockHistory d S) (h : Header) → (get_or_insert_entry_with_header s h).depth ≡ s.depth
  unfolding get_or_insert_entry_with_header
  get_or_insert-depth s h = ground (arith, prune-depth (advance_head s h) h)

  advance_head-entries :
      (s : BlockHistory d S) (h : Header) → (advance_head s h).block_entries ≡ s.block_entries
  unfolding advance_head
  advance_head-entries s h = ground arith

  pub get_or_insert-entry :
      (s : BlockHistory d S) (h : Header)
      → lookup h.hash s.block_entries ≡ none
      → lookup h.hash (get_or_insert_entry_with_header s h).block_entries ≡ some (header_entry d h)
  unfolding get_or_insert_entry_with_header
  get_or_insert-entry s h e =
      let t = prune (advance_head s h) h in
      ground (
        arith,
        lookup-insert_self h.hash (header_entry d h) t.block_entries,
        advance_head-entries s h,
        prune_absent (advance_head s h) h h.hash,
      )

  pub get_or_insert-numbers :
      (s : BlockHistory d S) (h : Header)
      → 0 < s.depth
      → s.latest_block_number ≤ h.number
      → lookup h.number (get_or_insert_entry_with_header s h).block_numbers ≡ some h.hash
  unfolding get_or_insert_entry_with_header advance_head
  get_or_insert-numbers s h p q = ground (
    arith,
    lookup-insert_self h.number h.hash s.block_numbers,
    prune-numbers (advance_head s h) h,
  )

  -- A header that is new is stored with no data, and it is reported new exactly when no block is
  -- higher. The highest number is kept, and a new head is entered under its number. (The depth is
  -- not zero, and the numbers are short of the largest 64-bit number.)
  pub add_block_header_lem :
      (s : BlockHistory d S) (h : Header)
      → 0 < s.depth
      → s.latest_block_number + 1 < u64_mod
      → h.number + 1 < u64_mod
      → contains_block s h.hash ≡ false
      → let (t, r) = add_block_header s h in
        (r ≡ ok (leb s.latest_block_number h.number))
        × (t.latest_block_number ≡ max s.latest_block_number h.number)
        × (lookup h.hash t.block_entries ≡ some (header_entry d h))
        × ((lookup h.number t.block_numbers ≡ some h.hash) ⊎ (h.number < s.latest_block_number))
        × (t.depth ≡ s.depth)
  unfolding add_block_header
  add_block_header_lem s h p b c e =
      let latest = get_or_insert-latest s h in
      let depth = get_or_insert-depth s h in
      let entry = get_or_insert-entry s h in
      (
        ground (arith, latest, depth, entry),
        ground (arith, latest, depth, entry),
        ground (arith, latest, depth, entry),
        elim (Bool-cases (leb s.latest_block_number h.number)) [
          | inl y ↦ inl (ground (arith, get_or_insert-numbers s h, y))
          | inr y ↦ inr (ground (arith, y))
        ],
        ground (arith, latest, depth, entry),
      )

  -- A header that is already stored is refused, and nothing changes.
  pub add_block_header_again :
      (s : BlockHistory d S) (h : Header)
      → contains_block s h.hash ≡ true
      → add_block_header s h ≡ (s, err block_is_already_processed)
  unfolding add_block_header
  add_block_header_again s h e = ground arith
