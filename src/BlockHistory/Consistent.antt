-- ===== src/BlockHistory/Consistent.antt =====
-- Every operation of the store keeps the invariant of `Entries`.
use kabu.Base.{
  ℕ, ◌+◌, ◌%◌, ◌≤◌, ◌<◌, ◌≡◌, refl, inl, inr, some, List, arith, ◌==◌, Bool-cases, Option-cases,
  is_some, lookup, lookup-insert,
}
use kabu.Types.{Header, KabuDataTypes, u64_mod}
use kabu.BlockHistory.{
  BlockHistory, BlockHistoryEntry, get_or_insert_entry_with_header, set_entry, add_block_header,
  add_block, add_state_diff, add_logs, put_entry,
}
use kabu.BlockHistory.Entries.{IsConsistent, get_or_insert-IsConsistent}
use kabu.BlockHistory.Headers.{get_or_insert-latest}

module _ {d : KabuDataTypes} {S : Type 0} (world : ℕ → Header) where
  -- A write to an entry that keeps its header.
  put_entry-IsConsistent :
      (s : BlockHistory d S) (hash : ℕ) (e x : BlockHistoryEntry d)
      → IsConsistent world s
      → lookup hash s.block_entries ≡ some e
      → x.header ≡ e.header
      → IsConsistent world (put_entry s hash x)
  put_entry-IsConsistent s hash e x v q p = record {
    keyed = λ k y r.
        ground (arith, lookup-insert k hash x s.block_entries, v.keyed k y, v.keyed hash e);
    numbered = λ n k r. ground (arith, lookup-insert k hash x s.block_entries, v.numbered n k);
    highest = v.highest;
  }

  pub set_entry-IsConsistent :
      (s : BlockHistory d S) (e : BlockHistoryEntry d)
      → IsConsistent world s
      → e.header ≡ world e.header.hash
      → e.header.number ≤ s.latest_block_number
      → IsConsistent world (set_entry s e)
  unfolding set_entry
  set_entry-IsConsistent s e v a p = record {
    keyed = λ k y r. ground (arith, lookup-insert k e.header.hash e s.block_entries, v.keyed k y);
    numbered = λ n k r. elim (Option-cases (lookup e.header.hash s.block_entries)) [
      | inl q ↦ ground (
        arith,
        q,
        lookup-insert k e.header.hash e s.block_entries,
        lookup-insert n e.header.number e.header.hash s.block_numbers,
        v.numbered n k,
      )
      | inr (x, q) ↦ ground (
        arith,
        q,
        v.keyed e.header.hash x,
        lookup-insert k e.header.hash e s.block_entries,
        lookup-insert n e.header.number e.header.hash s.block_numbers,
        v.numbered n k,
      )
    ];
    highest = λ n k r.
        ground
          (arith, lookup-insert n e.header.number e.header.hash s.block_numbers, v.highest n k);
  }

  pub add_block_header-IsConsistent :
      (s : BlockHistory d S) (h : Header)
      → s.latest_block_number + 1 < u64_mod
      → h.number + 1 < u64_mod
      → h ≡ world h.hash
      → IsConsistent world s
      → IsConsistent world (add_block_header s h).0
  unfolding add_block_header
  add_block_header-IsConsistent s h b c o v = elim (Option-cases (lookup h.hash s.block_entries)) [
    | inl q ↦
        let t = get_or_insert_entry_with_header s h in
        let w = get_or_insert-IsConsistent world s h v o in
        elim (Bool-cases (h.number == (t.latest_block_number + 1) % u64_mod)) [
          | inl y ↦ absurd (ground (arith, get_or_insert-latest s h))
          | inr y ↦ rw (q, add_block_header, y) w
        ]
    | inr (x, q) ↦ rw (q, add_block_header) v
  ]

  pub add_block-IsConsistent :
      (s : BlockHistory d S) (b : d.Block)
      → IsConsistent world s
      → d.get_header b ≡ world (d.get_header b).hash
      → IsConsistent world (add_block s b).0
  unfolding add_block
  add_block-IsConsistent s b v a =
      let h = d.get_header b in
      let t = get_or_insert_entry_with_header s h in
      let w = get_or_insert-IsConsistent world s h v a in
      elim (Option-cases (lookup h.hash t.block_entries)) [
        | inl q ↦ rw (q, add_block) w
        | inr (x, q) ↦ elim (Bool-cases (is_some x.block)) [
          | inl y ↦ rw (q, add_block, y) w
          | inr y ↦ rw (q, add_block, y) (put_entry-IsConsistent t h.hash x _ w q refl)
        ]
      ]

  pub add_state_diff-IsConsistent :
      (s : BlockHistory d S) (hash : ℕ) (diff : List d.Updates)
      → IsConsistent world s
      → IsConsistent world (add_state_diff s hash diff).0
  unfolding add_state_diff
  add_state_diff-IsConsistent s hash diff v = elim (Option-cases (lookup hash s.block_entries)) [
    | inl q ↦ rw (q, add_state_diff) v
    | inr (x, q) ↦ elim (Bool-cases (is_some x.state_update)) [
      | inl y ↦ rw (q, add_state_diff, y) v
      | inr y ↦ rw (q, add_state_diff, y) (put_entry-IsConsistent s hash x _ v q refl)
    ]
  ]

  pub add_logs-IsConsistent :
      (s : BlockHistory d S) (hash : ℕ) (logs : List d.Log)
      → IsConsistent world s
      → IsConsistent world (add_logs s hash logs).0
  unfolding add_logs
  add_logs-IsConsistent s hash logs v = elim (Option-cases (lookup hash s.block_entries)) [
    | inl q ↦ rw (q, add_logs) v
    | inr (x, q) ↦ elim (Bool-cases (is_some x.logs)) [
      | inl y ↦ rw (q, add_logs, y) v
      | inr y ↦ rw (q, add_logs, y) (put_entry-IsConsistent s hash x _ v q refl)
    ]
  ]
