-- ===== src/LatestBlock.antt =====
-- The block at the head, and the state that calls are simulated on
-- (crates/types/entities/src/latest_block.rs).
pub mod Update
pub mod Override
mod Tests
use kabu.Base.{
  ℕ, zero, suc, ◌+◌, ◌-◌, ◌*◌, ◌/◌, ◌%◌, ◌^◌, ◌≤◌, ◌<◌, ◌≡◌, refl, sym, ap, ◌∙◌, ◌≢◌, ◌↔◌, ◌⊎◌, inl,
  inr, Bool, true, false, ◌&&◌, ◌||◌, not, Option, none, some, List, [], ◌∷◌, ◌++◌, map, reverse,
  arith, ltb, leb, ◌==◌, if◌then◌else◌, ltb→lt, lt→ltb, leb→le, ==_iff, ==_refl, Bool-cases,
  Option-cases, is_some, get_or_else, length, get_elem?, take, drop, head?, get_last?, any, All,
  length-append, take-append-drop, length-take, length-drop, get_last?-append, All-append, HashMap,
  lookup, contains_key, insert, erase, retain, alter, values, lookup-insert, lookup-insert_self,
  lookup-insert_ne, lookup-erase, lookup-retain_key, IsMap, insert-IsMap, lookup-retain,
  retain-IsMap, erase-IsMap, any-values,
}
use kabu.Types.{Header}

-- The fields of geth's `AccountState` that the code reads.
pub record AccountState : Type 0 where
  pub balance : Option ℕ
  pub nonce : Option ℕ
  pub code : Option (List ℕ)
  pub storage : HashMap ℕ

-- `AccountOverride`, with the fields that the code writes.
pub record AccountOverride : Type 0 where
  pub balance : Option ℕ
  pub nonce : Option ℕ
  pub state_diff : Option (HashMap ℕ)

-- `GethStateUpdate` and `GethStateUpdateVec`
abbrev pub GethStateUpdate : Type 0
GethStateUpdate = List (ℕ × AccountState)

-- `B` is the network's block, and `L` a log.
pub record LatestBlock (B L : Type 0) : Type 0 where
  pub block_number : ℕ
  pub block_hash : ℕ
  pub block_header : Option Header
  pub block_with_txs : Option B
  pub logs : Option (List L)
  pub diff : Option (List GethStateUpdate)

-- `if let Some(x) = new { self.field = Some(x) }`
abbrev pub or_keep {ℓ} : {A : Type ℓ} → Option A → Option A → Option A
or_keep none old = old
or_keep (some x) old = some x

module _ {B L : Type 0} where
  abbrev pub new : ℕ → ℕ → LatestBlock B L
  new number hash = record {
    block_number = number;
    block_hash = hash;
    block_header = none;
    block_with_txs = none;
    logs = none;
    diff = none;
  }

  pub parent_hash : LatestBlock B L → Option ℕ
  parent_hash s = elim s.block_header [ none ↦ none | some h ↦ some h.parent_hash ]

  abbrev pub merge :
      LatestBlock B L
      → Option Header
      → Option B
      → Option (List L)
      → Option (List GethStateUpdate)
      → LatestBlock B L
  merge s header block logs diff = record s {
    block_header = or_keep header s.block_header;
    block_with_txs = or_keep block s.block_with_txs;
    logs = or_keep logs s.logs;
    diff = or_keep diff s.diff;
  }

  pub update :
      LatestBlock B L
      → ℕ
      → ℕ
      → Option Header
      → Option B
      → Option (List L)
      → Option (List GethStateUpdate)
      → LatestBlock B L × Bool
  update s number hash header block logs diff =
      if leb s.block_number number
      then (let base =
            if ltb s.block_number number || not (hash == s.block_hash)
            then new number hash
            else s in
          (merge base header block logs diff, ltb s.block_number number))
      else (s, false)

abbrev pub default_override : AccountOverride
default_override = record { balance = none; nonce = none; state_diff = none }

-- The body of the inner loop of `node_state_override`.
abbrev pub set_override : AccountState → AccountOverride → AccountOverride
set_override state account = record account {
  balance = state.balance;
  nonce = state.nonce;
  state_diff = some state.storage;
}

pub override_entries : HashMap AccountOverride → GethStateUpdate → HashMap AccountOverride
override_entries m [] = m
override_entries m (e ∷ es) = override_entries (alter e.0 default_override (set_override e.1) m) es

pub override_diffs : HashMap AccountOverride → List GethStateUpdate → HashMap AccountOverride
override_diffs m [] = m
override_diffs m (u ∷ us) = override_diffs (override_entries m u) us

pub node_state_override : {B L : Type 0} → LatestBlock B L → HashMap AccountOverride
unfolding override_diffs
node_state_override s = elim s.diff [ none ↦ [] | some us ↦ override_diffs [] us ]
