-- ===== src/BlockHistory/Manager/Tests.antt =====
-- What the manager does on a small store: a new head with a missing parent, and a missing state.
use kabu.Base.{
  ℕ, ◌+◌, ◌-◌, ◌<◌, ◌≡◌, refl, ◌≢◌, inl, inr, none, some, [], ◌∷◌, arith, ◌==◌, Bool-cases, lookup,
  insert, values,
}
use kabu.BlockHistory.{
  BlockHistory, BlockHistoryEntry, Result, ok, err, panicked, block_is_already_processed,
  header_entry, new, add_block, add_block_header, get_or_insert_entry_with_header,
}
use kabu.BlockHistory.Manager.{Client, BlockHistoryState, set_chain_head, get_parent_state}
use kabu.BlockHistory.Samples.{types, block, node, fetched, two_blocks, four_blocks}
use kabu.BlockHistory.Manager.States.{
  HasState, Caches, get_parent_state-HasState, get_parent_state-total,
}
use kabu.BlockHistory.Manager.Rewind.{KnownBlock, StoreKnown, ClientKnown, Chain}
use kabu.BlockHistory.Manager.Ends.{HeadEnds}
use kabu.BlockHistory.Manager.Head.{set_chain_head-Chain, set_chain_head-total}

block-KnownBlock : (k : ℕ) → 0 < k → KnownBlock (λ n. n) k (block k)
block-KnownBlock k p = record {
  nonzero = λ q. omega arith;
  hash = refl;
  number = omega arith;
  parent = omega arith;
}

two_blocks-StoreKnown : StoreKnown (λ n. n) two_blocks
unfolding lookup
two_blocks-StoreKnown k e q = elim (Bool-cases (k == 1)) [
  | inl a ↦
      let key : k ≡ 1 = ground arith in
      let entry : e ≡ fetched 1 = ground arith in rw (key, entry) (block-KnownBlock 1 (omega arith))
  | inr a ↦ elim (Bool-cases (k == 2)) [
    | inl b ↦
        let key : k ≡ 2 = ground arith in
        let entry : e ≡ fetched 2 = ground arith in
        rw (key, entry) (block-KnownBlock 2 (omega arith))
    | inr b ↦ absurd (ground arith)
  ]
]

node-ClientKnown : ClientKnown (λ n. n) node
node-ClientKnown k b q =
    let entry : b ≡ block k = ground arith in rw entry (block-KnownBlock k (ground arith))

head_example :
    Chain node 0 two_blocks.block_numbers four_blocks 3 1
    × (lookup 3 four_blocks.block_numbers ≡ some 4)
    × (lookup 4 four_blocks.block_entries ≡ some (header_entry types (block 4)))
unfolding set_chain_head kabu.BlockHistory.get_first_block_number values add_block_header lookup
    get_or_insert_entry_with_header kabu.BlockHistory.Manager.rewind insert
    kabu.BlockHistory.Manager.fetch_entry_by_hash kabu.BlockHistory.set_entry
head_example =
    set_chain_head-Chain node (λ n. n) 9 two_blocks four_blocks (block 4) 0 1 (omega arith)
      (omega arith) (omega arith) two_blocks-StoreKnown node-ClientKnown
      (block-KnownBlock 4 (omega arith)) refl refl

head-total_example : HeadEnds two_blocks (block 4) (set_chain_head node 9 two_blocks (block 4))
head-total_example =
    set_chain_head-total node (λ n. n) 9 two_blocks (block 4) two_blocks-StoreKnown node-ClientKnown
      (block-KnownBlock 4 (omega arith)) (omega arith)

-- The number of a block is its state's effect.
abbrev summing : BlockHistoryState types
summing = record { State = ℕ; apply_update = λ db e. db + e.header.number }

abbrev three_blocks : BlockHistory types ℕ
three_blocks = record two_blocks {
  block_entries = (1, fetched 1) ∷ (2, fetched 2) ∷ (3, fetched 3) ∷ [];
}

abbrev three_states : BlockHistory types ℕ
three_states = record three_blocks { block_states = (1, 100) ∷ (2, 101) ∷ (3, 103) ∷ [] }

three_blocks-keyed :
    (k : ℕ) (e : BlockHistoryEntry types)
    → lookup k three_blocks.block_entries ≡ some e
    → (e.header.hash ≡ k) × (e.header.number + 1 ≡ k) × (e.header.parent_hash ≡ k - 1) × (k < 4)
unfolding lookup
three_blocks-keyed k e q = ground arith

parent_state_example :
    HasState summing three_blocks 3 103
    × Caches summing three_blocks three_states
    × (lookup 3 three_states.block_states ≡ some 103)
unfolding get_parent_state kabu.BlockHistory.Manager.find_state lookup
    kabu.BlockHistory.get_first_block_number values kabu.BlockHistory.Manager.apply_missed insert
parent_state_example =
    get_parent_state-HasState summing 9 three_blocks three_states 3 103
      (λ k e q. (three_blocks-keyed k e q).0) refl

parent_state-total_example : get_parent_state summing 9 three_blocks 3 ≢ none
parent_state-total_example =
    get_parent_state-total summing 9 three_blocks 3
      (λ k e p q r.
        omega (arith, three_blocks-keyed k e q, three_blocks-keyed e.header.parent_hash p r))
      (λ e q. omega (arith, three_blocks-keyed 3 e q)) (omega arith)
