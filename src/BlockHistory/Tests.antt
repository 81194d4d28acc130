-- ===== src/BlockHistory/Tests.antt =====
-- What the operations do on a small store.
use kabu.Base.{
  ℕ, ltb, leb, ◌==◌, ◌&&◌, if◌then◌else◌, ◌+◌, ◌<◌, ◌≡◌, refl, ◌≢◌, ◌⊎◌, true, none, some, [], ◌∷◌,
  arith, lookup, contains_key,
}
use kabu.BlockHistory.{
  BlockHistory, init, ok, header_entry, new, add_block_header, get_or_insert_entry_with_header,
}
use kabu.BlockHistory.Samples.{types, block, two_blocks}
use kabu.BlockHistory.Headers.{add_block_header_lem}
use kabu.BlockHistory.Retention.{IsNamed, get_or_insert_window}
use kabu.BlockHistory.Entries.{IsConsistent}
use kabu.BlockHistory.Histories.{
  adds_header, adds_block, adds_logs, run, run-new-IsConsistent, run-init-IsConsistent,
}

run_example : IsConsistent block (
    run (new types ℕ 3) (
      adds_header (block 1)
      ∷ adds_block (block 2)
      ∷ adds_logs 2 (5 ∷ [])
      ∷ adds_block (block 8)
      ∷ []))
run_example =
    run-new-IsConsistent block 3
      (adds_header (block 1)
        ∷ adds_block (block 2)
        ∷ adds_logs 2 (5 ∷ [])
        ∷ adds_block (block 8)
        ∷ [])
      ((refl, omega arith), ((refl, omega arith), (tt, ((refl, omega arith), tt))))

init_example : IsConsistent block (
    run (init types ℕ 100 3 (block 4)) (
      adds_header (block 1)
      ∷ adds_block (block 2)
      ∷ adds_logs 2 (5 ∷ [])
      ∷ adds_block (block 8)
      ∷ []))
init_example =
    run-init-IsConsistent {d = types} block 3 100 (block 4)
      (adds_header (block 1)
        ∷ adds_block (block 2)
        ∷ adds_logs 2 (5 ∷ [])
        ∷ adds_block (block 8)
        ∷ [])
      refl (omega arith)
      ((refl, omega arith), ((refl, omega arith), (tt, ((refl, omega arith), tt))))

window_example :
    let t = get_or_insert_entry_with_header (record two_blocks { depth = 2 }) (block 4) in
    ((n : ℕ)
      → lookup n t.block_numbers ≡ (
          if ltb 3 (n + 2)
          then (if (n == 3) && leb 1 3 then some 4 else lookup n two_blocks.block_numbers)
          else none))
    × ((k : ℕ) → k ≢ 4 → contains_key k t.block_entries ≡ true → IsNamed t k)
    × ((k : ℕ) → contains_key k t.block_states ≡ true → IsNamed t k)
window_example = get_or_insert_window (record two_blocks { depth = 2 }) (block 4) (omega arith)

header_example :
    let (t, r) = add_block_header two_blocks (block 3) in
    (r ≡ ok true)
    × (t.latest_block_number ≡ 2)
    × (lookup 3 t.block_entries ≡ some (header_entry types (block 3)))
    × ((lookup 2 t.block_numbers ≡ some 3) ⊎ (2 < 1))
    × (t.depth ≡ 10)
unfolding lookup
header_example =
    add_block_header_lem two_blocks (block 3) (omega arith) (omega arith) (omega arith) refl

-- The store has the header of block 4, with its logs, and no block.
abbrev with_header : BlockHistory types ℕ
with_header = record two_blocks {
  block_entries = (4, record (header_entry types (block 4)) { logs = some (5 ∷ []) }) ∷ [];
}
