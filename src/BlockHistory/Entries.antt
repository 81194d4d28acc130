-- ===== src/BlockHistory/Entries.antt =====
-- The invariant that ties the table of numbers to the blocks that are stored, and the entries'
-- fields that are written once.
use kabu.Base.{
  ℕ, ◌-◌, ◌≤◌, ◌≡◌, inl, inr, Option, none, some, arith, ltb, ◌==◌, ==_refl, Option-cases,
  get_or_else, any, lookup, retain, values, lookup-insert, lookup-retain_key, any-values,
}
use kabu.Types.{Header, KabuDataTypes}
use kabu.BlockHistory.{
  BlockHistory, BlockHistoryEntry, header_entry, advance_head, prune,
  get_or_insert_entry_with_header,
}

module _ {d : KabuDataTypes} {S : Type 0} where
  -- The number of the stored block with this hash.
  abbrev pub number_of : BlockHistory d S → ℕ → Option ℕ
  number_of s k = elim (lookup k s.block_entries) [ none ↦ none | some e ↦ some e.header.number ]

-- `world` gives the header of the block with a hash. Every stored block stands under its own hash,
-- with its header, and every number of the table names a stored block of that number, at most the
-- highest.
pub record IsConsistent {d : KabuDataTypes} {S : Type 0} (world : ℕ → Header) (s : BlockHistory d S)
    : Type 0 where
  pub keyed :
      (k : ℕ) (e : BlockHistoryEntry d) → lookup k s.block_entries ≡ some e → e.header ≡ world k
  pub numbered : (n k : ℕ) → lookup n s.block_numbers ≡ some k → number_of s k ≡ some n
  pub highest : (n k : ℕ) → lookup n s.block_numbers ≡ some k → n ≤ s.latest_block_number

module _ {d : KabuDataTypes} {S : Type 0} where
  pub prune-numbers_some :
      (s : BlockHistory d S) (h : Header) (n k : ℕ)
      → lookup n (prune s h).block_numbers ≡ some k
      → lookup n s.block_numbers ≡ some k
  unfolding prune
  prune-numbers_some s h n k e =
      ground (arith, lookup-retain_key (λ key. ltb (h.number - s.depth) key) n s.block_numbers)

  pub prune-entries_some :
      (s : BlockHistory d S) (h : Header) (k : ℕ) (e : BlockHistoryEntry d)
      → lookup k (prune s h).block_entries ≡ some e
      → lookup k s.block_entries ≡ some e
  unfolding prune
  prune-entries_some s h k e q = ground (
    arith,
    lookup-retain_key
        (λ key.
          any (λ x. x == key)
            (values (retain (λ key _. ltb (h.number - s.depth) key) s.block_numbers)))
        k s.block_entries,
  )

  prune-entries_named :
      (s : BlockHistory d S) (h : Header) (n k : ℕ)
      → lookup n (prune s h).block_numbers ≡ some k
      → lookup k (prune s h).block_entries ≡ lookup k s.block_entries
  unfolding prune
  prune-entries_named s h n k q =
      let numbers = retain (λ key (_ : ℕ). ltb (h.number - s.depth) key) s.block_numbers in
      ground (
        arith,
        any-values (λ x. x == k) n {v = k} numbers,
        ==_refl k,
        lookup-retain_key (λ key. any (λ x. x == key) (values numbers)) k s.block_entries,
      )

  prune-latest :
      (s : BlockHistory d S) (h : Header) → (prune s h).latest_block_number ≡ s.latest_block_number
  unfolding prune
  prune-latest s h = ground arith

  get_or_insert-numbered :
      (world : ℕ → Header) (s : BlockHistory d S) (h : Header)
      → IsConsistent world s
      → h ≡ world h.hash
      → (n k : ℕ) → lookup n (get_or_insert_entry_with_header s h).block_numbers ≡ some k
      → number_of (get_or_insert_entry_with_header s h) k ≡ some n
  unfolding get_or_insert_entry_with_header advance_head
  get_or_insert-numbered world s h v a n k e =
      let t = advance_head s h in
      let p = prune t h in
      elim (Option-cases (lookup h.hash p.block_entries)) [
        | inl q ↦ ground (
          arith,
          q,
          prune-numbers_some t h n k,
          prune-entries_named t h n k,
          lookup-insert n h.number h.hash s.block_numbers,
          lookup-insert k h.hash (header_entry d h) p.block_entries,
          v.numbered n k,
        )
        | inr (x, q) ↦ ground (
          arith,
          q,
          prune-numbers_some t h n k,
          prune-entries_named t h n k,
          prune-entries_some t h h.hash x,
          v.keyed h.hash x,
          lookup-insert n h.number h.hash s.block_numbers,
          lookup-insert k h.hash x p.block_entries,
          v.numbered n k,
        )
      ]

  pub get_or_insert-IsConsistent :
      (world : ℕ → Header) (s : BlockHistory d S) (h : Header)
      → IsConsistent world s
      → h ≡ world h.hash
      → IsConsistent world (get_or_insert_entry_with_header s h)
  unfolding get_or_insert_entry_with_header advance_head
  get_or_insert-IsConsistent world s h v a =
      let t = advance_head s h in
      let p = prune t h in
      let x = get_or_else (lookup h.hash p.block_entries) (header_entry d h) in
      record {
        keyed = λ k e q. ground (
          arith,
          lookup-insert k h.hash x p.block_entries,
          prune-entries_some t h k e,
          prune-entries_some t h h.hash e,
          v.keyed h.hash e,
          v.keyed k e,
        );
        numbered = get_or_insert-numbered world s h v a;
        highest = λ n k q. ground (
          arith,
          prune-latest t h,
          prune-numbers_some t h n k,
          lookup-insert n h.number h.hash s.block_numbers,
          v.highest n k,
        );
      }
