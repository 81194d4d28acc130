-- ===== src/BlockHistory/Samples.antt =====
-- A chain of blocks 1, 2, 3, .. whose block k has the number k - 1, and a store of its first blocks.
use kabu.Base.{ℕ, ◌-◌, ◌*◌, ◌&&◌, none, some, [], ◌∷◌, leb, if◌then◌else◌}
use kabu.Types.{Header, KabuDataTypes}
use kabu.BlockHistory.{BlockHistory, BlockHistoryEntry, header_entry}
use kabu.BlockHistory.Manager.{Client}

abbrev pub types : KabuDataTypes
types = record { Block = Header; Log = ℕ; Updates = ℕ; get_header = λ h. h }

abbrev pub block : ℕ → Header
block k = record { hash = k; parent_hash = k - 1; number = k - 1; timestamp = 12 * k }

-- The node knows the first nine blocks.
abbrev pub node : Client types
node = record {
  block_by_hash = λ k. if leb 1 k && leb k 9 then some (some (block k)) else some none;
  logs_at_block = λ k. some (k ∷ []);
  trace_block = λ k. some (k ∷ []);
}

abbrev pub fetched : ℕ → BlockHistoryEntry types
fetched k = record {
  header = block k;
  block = some (block k);
  logs = some (k ∷ []);
  state_update = some (k ∷ []);
}

abbrev pub two_blocks : BlockHistory types ℕ
two_blocks = record {
  depth = 10;
  latest_block_number = 1;
  block_states = (1, 100) ∷ [];
  block_entries = (1, fetched 1) ∷ (2, fetched 2) ∷ [];
  block_numbers = (0, 1) ∷ (1, 2) ∷ [];
}

-- The store after the fourth block has become the head, with the third one fetched.
abbrev pub four_blocks : BlockHistory types ℕ
four_blocks = record {
  depth = 10;
  latest_block_number = 3;
  block_states = (1, 100) ∷ [];
  block_entries =
      (1, fetched 1) ∷ (2, fetched 2) ∷ (4, header_entry types (block 4)) ∷ (3, fetched 3) ∷ [];
  block_numbers = (0, 1) ∷ (1, 2) ∷ (3, 4) ∷ (2, 3) ∷ [];
}
