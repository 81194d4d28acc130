-- ===== src/Types.antt =====
-- The data types that the components share (crates/types/blockchain/src/kabu_data_types.rs), and
-- the results of fallible code. Hashes, addresses and numbers are native numbers.
use kabu.Base.{ℕ, ◌^◌}

abbrev pub u64_mod : ℕ
u64_mod = 2 ^ 64

abbrev pub u256_mod : ℕ
u256_mod = 2 ^ 256

-- The fields of alloy's header that the code reads.
pub record Header : Type 0 where
  pub hash : ℕ
  pub parent_hash : ℕ
  pub number : ℕ
  pub timestamp : ℕ

-- `trait KabuDataTypes`: the types of a network, which alloy defines. `Updates` is one
-- `GethStateUpdate`, and a block's state update is a list of them.
pub record KabuDataTypes : Type 1 where
  pub Block : Type 0
  pub Log : Type 0
  pub Updates : Type 0
  pub get_header : Block → Header
