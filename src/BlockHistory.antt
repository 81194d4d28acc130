-- ===== src/BlockHistory.antt =====
-- The history of recent blocks and its forks
-- (crates/types/entities/src/block_history/block_history_impl.rs): the store, `BlockHistory`.
-- A method returns the new store beside its result, also where it fails. Debug logs are left out.

pub mod Headers
pub mod Blocks
pub mod Retention
pub mod Entries
pub mod Consistent
pub mod Histories
pub mod Manager
mod Samples
mod Tests
use kabu.Base.{
  ℕ, ◌+◌, ◌-◌, ◌%◌, Bool, ◌&&◌, Option, none, some, List, [], ◌∷◌, HashMap, lookup, insert,
  contains_key, retain, values, alter, any, is_some, ltb, leb, ◌==◌, if◌then◌else◌,
}
use kabu.Types.{Header, KabuDataTypes, u64_mod}

pub data Error : Type 0 where
  block_is_already_processed block_state_is_already_processed : Error
  block_logs_are_already_processed block_data_not_fetched block_is_empty : Error
  parent_entry_not_found parent_db_not_found entry_not_found : Error
  provider : Error

-- `panicked` is the `expect` of `get_entry_mut_or_panic`.
pub data Result (A : Type 0) : Type 0 where
  ok : A → Result A
  err : Error → Result A
  panicked : Result A

pub record BlockHistoryEntry (d : KabuDataTypes) : Type 0 where
  pub header : Header
  pub block : Option d.Block
  pub logs : Option (List d.Log)
  pub state_update : Option (List d.Updates)

pub record BlockHistory (d : KabuDataTypes) (S : Type 0) : Type 0 where
  pub depth : ℕ
  pub latest_block_number : ℕ
  pub block_states : HashMap S
  pub block_entries : HashMap (BlockHistoryEntry d)
  pub block_numbers : HashMap ℕ

module _ (d : KabuDataTypes) where
  -- `BlockHistoryEntry::is_fetched`
  abbrev pub is_fetched : BlockHistoryEntry d → Bool
  is_fetched e = is_some e.state_update && is_some e.block && is_some e.logs

  abbrev pub header_entry : Header → BlockHistoryEntry d
  header_entry h = record { header = h; block = none; logs = none; state_update = none }

  -- `block_entries.values().map(|x| x.header.number).min()`
  pub min_number : List (BlockHistoryEntry d) → Option ℕ
  min_number [] = none
  min_number (e ∷ es) = elim (min_number es) [
    | none ↦ some e.header.number
    | some n ↦ some (if ltb n e.header.number then n else e.header.number)
  ]

module _ (d : KabuDataTypes) (S : Type 0) where
  -- `BlockHistory::new`
  pub new : ℕ → BlockHistory d S
  new depth = record {
    depth = depth;
    latest_block_number = 0;
    block_states = [];
    block_entries = [];
    block_numbers = [];
  }

  -- `BlockHistoryManager::init`
  pub init : S → ℕ → d.Block → BlockHistory d S
  init state depth b =
      let h = d.get_header b in
      record {
        depth = depth;
        latest_block_number = h.number;
        block_states = (h.hash, state) ∷ [];
        block_entries = (h.hash, record (header_entry d h) { block = some b }) ∷ [];
        block_numbers = (h.number, h.hash) ∷ [];
      }

module _ {d : KabuDataTypes} {S : Type 0} where
  pub add_db : BlockHistory d S → ℕ → S → BlockHistory d S
  add_db s hash state = record s { block_states = insert hash state s.block_states }

  pub get_first_block_number : BlockHistory d S → Option ℕ
  unfolding min_number
  get_first_block_number s = min_number d (values s.block_entries)

  -- The head moves to a block whose number is not below it.
  pub advance_head : BlockHistory d S → Header → BlockHistory d S
  advance_head s h =
      if leb s.latest_block_number h.number
      then record s {
        latest_block_number = h.number;
        block_numbers = insert h.number h.hash s.block_numbers;
      }
      else s

  -- Numbers that are more than `depth` below the block go, and then what no number names.
  pub prune : BlockHistory d S → Header → BlockHistory d S
  prune s h =
      if ltb s.depth h.number
      then (let numbers = retain (λ key _. ltb (h.number - s.depth) key) s.block_numbers in
          let actual_hashes = values numbers in
          record s {
            block_numbers = numbers;
            block_entries = retain (λ key _. any (λ x. x == key) actual_hashes) s.block_entries;
            block_states = retain (λ key _. any (λ x. x == key) actual_hashes) s.block_states;
          })
      else s

  -- `entry(block_hash).or_insert(..)`
  pub or_insert_entry : BlockHistory d S → Header → BlockHistory d S
  or_insert_entry s h = record s {
    block_entries = alter h.hash (header_entry d h) (λ e. e) s.block_entries;
  }

  pub get_or_insert_entry_with_header : BlockHistory d S → Header → BlockHistory d S
  unfolding advance_head prune or_insert_entry
  get_or_insert_entry_with_header s h = or_insert_entry (prune (advance_head s h) h) h

  pub set_entry : BlockHistory d S → BlockHistoryEntry d → BlockHistory d S
  set_entry s e = record s {
    block_numbers = insert e.header.number e.header.hash s.block_numbers;
    block_entries = insert e.header.hash e s.block_entries;
  }

  abbrev pub contains_block : BlockHistory d S → ℕ → Bool
  contains_block s hash = contains_key hash s.block_entries

  abbrev pub get_block_hash_for_block_number : BlockHistory d S → ℕ → Option ℕ
  get_block_hash_for_block_number s n = lookup n s.block_numbers

  abbrev pub get_block_history_entry : BlockHistory d S → ℕ → Option (BlockHistoryEntry d)
  get_block_history_entry s hash = lookup hash s.block_entries

  pub add_block_header : BlockHistory d S → Header → BlockHistory d S × Result Bool
  add_block_header s h =
      if contains_block s h.hash
      then (s, err block_is_already_processed)
      else (let t = get_or_insert_entry_with_header s h in
          let is_new = leb t.latest_block_number h.number in
          if h.number == (t.latest_block_number + 1) % u64_mod
          then (record t { latest_block_number = h.number }, ok is_new)
          else (t, ok is_new))

  -- What a change through the reference `get_mut(&hash)` leaves.
  abbrev put_entry : BlockHistory d S → ℕ → BlockHistoryEntry d → BlockHistory d S
  put_entry s hash e = record s { block_entries = insert hash e s.block_entries }

  pub add_block : BlockHistory d S → d.Block → BlockHistory d S × Result (Unit {0})
  add_block s b =
      let h = d.get_header b in
      let t = get_or_insert_entry_with_header s h in
      elim (lookup h.hash t.block_entries) [
        | none ↦ (t, panicked)
        | some e ↦
            if is_some e.block
            then (t, err block_is_already_processed)
            else (put_entry t h.hash (record e { block = some b }), ok tt)
      ]

  pub add_state_diff : BlockHistory d S → ℕ → List d.Updates → BlockHistory d S × Result (Unit {0})
  add_state_diff s hash diff = elim (lookup hash s.block_entries) [
    | none ↦ (s, panicked)
    | some e ↦
        if is_some e.state_update
        then (s, err block_state_is_already_processed)
        else (put_entry s hash (record e { state_update = some diff }), ok tt)
  ]

  pub add_logs : BlockHistory d S → ℕ → List d.Log → BlockHistory d S × Result (Unit {0})
  add_logs s hash logs = elim (lookup hash s.block_entries) [
    | none ↦ (s, panicked)
    | some e ↦
        if is_some e.logs
        then (s, err block_logs_are_already_processed)
        else (put_entry s hash (record e { logs = some logs }), ok tt)
  ]
