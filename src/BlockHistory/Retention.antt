-- ===== src/BlockHistory/Retention.antt =====
-- What the store keeps: the window of numbers, and the blocks that a number names.
use kabu.Base.{
  ℕ, ◌+◌, ◌-◌, ◌<◌, ◌≡◌, ◌≢◌, true, none, some, if◌then◌else◌, ◌&&◌, leb, lookup-insert, lookup,
  contains_key, retain, any, values, ltb, ◌==◌, get_or_else, arith, lookup-insert_ne,
  lookup-retain_key,
}
use kabu.Types.{Header, KabuDataTypes}
use kabu.BlockHistory.{
  BlockHistory, header_entry, advance_head, prune, or_insert_entry, get_or_insert_entry_with_header,
}

module _ {d : KabuDataTypes} {S : Type 0} where
  -- Some number of the table names the hash.
  abbrev pub IsNamed : BlockHistory d S → ℕ → Type 0
  IsNamed s hash = any (λ x. x == hash) (values s.block_numbers) ≡ true

  prune-window :
      (s : BlockHistory d S) (h : Header) (n : ℕ)
      → s.depth < h.number
      → lookup n (prune s h).block_numbers
        ≡ (if ltb h.number (n + s.depth) then lookup n s.block_numbers else none)
  unfolding prune
  prune-window s h n p =
      ground (arith, lookup-retain_key (λ key. ltb (h.number - s.depth) key) n s.block_numbers)

  advance_head-numbers :
      (s : BlockHistory d S) (h : Header) (n : ℕ)
      → lookup n (advance_head s h).block_numbers ≡ (
          if (n == h.number) && leb s.latest_block_number h.number
          then some h.hash
          else lookup n s.block_numbers)
  unfolding advance_head
  advance_head-numbers s h n = ground (arith, lookup-insert n h.number h.hash s.block_numbers)

  prune-IsNamed :
      (s : BlockHistory d S) (h : Header) (k : ℕ)
      → s.depth < h.number
      → contains_key k (prune s h).block_entries ≡ true
      → IsNamed (prune s h) k
  unfolding prune
  prune-IsNamed s h k p e = ground (
    arith,
    lookup-retain_key
        (λ key.
          any (λ x. x == key)
            (values (retain (λ key _. ltb (h.number - s.depth) key) s.block_numbers)))
        k s.block_entries,
  )

  prune-IsNamed_state :
      (s : BlockHistory d S) (h : Header) (k : ℕ)
      → s.depth < h.number
      → contains_key k (prune s h).block_states ≡ true
      → IsNamed (prune s h) k
  unfolding prune
  prune-IsNamed_state s h k p e = ground (
    arith,
    lookup-retain_key
        (λ key.
          any (λ x. x == key)
            (values (retain (λ key _. ltb (h.number - s.depth) key) s.block_numbers)))
        k s.block_states,
  )

  advance_head-depth : (s : BlockHistory d S) (h : Header) → (advance_head s h).depth ≡ s.depth
  unfolding advance_head
  advance_head-depth s h = ground arith

  -- A header whose number is above the depth leaves, of the numbers that the table had and the
  -- header's own where no block is higher, those that are less than the depth below the header's;
  -- every other block that is kept is named by the table, and so is every block whose state is kept.
  pub get_or_insert_window :
      (s : BlockHistory d S) (h : Header)
      → s.depth < h.number
      → let t = get_or_insert_entry_with_header s h in
        ((n : ℕ)
          → lookup n t.block_numbers ≡ (
              if ltb h.number (n + s.depth)
              then (if (n == h.number) && leb s.latest_block_number h.number
                  then some h.hash
                  else lookup n s.block_numbers)
              else none))
        × ((k : ℕ) → k ≢ h.hash → contains_key k t.block_entries ≡ true → IsNamed t k)
        × ((k : ℕ) → contains_key k t.block_states ≡ true → IsNamed t k)
  unfolding get_or_insert_entry_with_header or_insert_entry
  get_or_insert_window s h p =
      let a = advance_head s h in
      let t = prune a h in
      (
        λ n. ground (arith, advance_head-depth s h, prune-window a h n, advance_head-numbers s h n),
        λ k ne e. ground (
          arith,
          advance_head-depth s h,
          prune-IsNamed a h k,
          lookup-insert_ne k h.hash (get_or_else (lookup h.hash t.block_entries) (header_entry d h))
              t.block_entries,
        ),
        λ k e. ground (arith, advance_head-depth s h, prune-IsNamed_state a h k),
      )
