-- ===== src/Db/Merge.antt =====
-- The merges of a `KabuDB` into the database below it, and its counts
-- (crates/evm/db/src/kabu_db.rs).
pub mod Storage
pub mod Cells
use kabu.Base.{modify_entry, extend, ℕ, ◌+◌, List, [], ◌∷◌, length, HashMap, values}
use kabu.Db.{Revm, touched, FastDbAccount, Layer, KabuDb, new_layer, empty}
use kabu.Db.Updates.{insert_contract, or_default, set_account}

-- `sum` over the accounts of the number of their slots.
abbrev pub count_slots : List FastDbAccount → ℕ
count_slots [] = 0
count_slots (acc ∷ accs) = length acc.storage + count_slots accs

abbrev pub storage_len_of : Layer → ℕ
storage_len_of l = count_slots (values l.accounts)

abbrev pub ro_len : (Layer → ℕ) → KabuDb → ℕ
ro_len f db = elim db.below [ [] ↦ 0 | ro ∷ rest ↦ f ro ]

pub contracts_len : List Layer → ℕ
contracts_len [] = 0
contracts_len (l ∷ ls) = length l.contracts + contracts_len ls

-- `impl DatabaseKabuExt for KabuDB`. The accounts are counted with the
-- contracts of the databases below, as the code does.
pub db_contracts_len : KabuDb → ℕ
unfolding contracts_len
db_contracts_len db = contracts_len (db.top ∷ db.below)

pub accounts_len : KabuDb → ℕ
unfolding contracts_len
accounts_len db = length db.top.accounts + contracts_len db.below

pub storage_len : KabuDb → ℕ
storage_len db = storage_len_of db.top + ro_len storage_len_of db

-- `for (k, v) in new { old.entry(k).and_modify(|x| x.clone_from(v)) }`
pub overwrite {ℓ} : {V : Type ℓ} → HashMap V → HashMap V → HashMap V
overwrite m [] = m
overwrite m (e ∷ es) = overwrite (modify_entry e.0 (λ _. e.1) m) es

-- The block hashes, contracts and logs that `merge_all` moves down.
pub merge_tables : Layer → Layer → Layer
merge_tables top ro = record ro {
  block_hashes = extend ro.block_hashes top.block_hashes;
  contracts = extend ro.contracts top.contracts;
  logs = top.logs;
}

-- What `merge_accounts` and `merge_cells` do with the tables: a contract is only replaced.
pub merge_known_tables : Layer → Layer → Layer
unfolding overwrite
merge_known_tables top ro = record ro {
  block_hashes = extend ro.block_hashes top.block_hashes;
  contracts = overwrite ro.contracts top.contracts;
  logs = top.logs;
}

-- Each account that is known below gets the information, and its storage by `f`.
pub merge_known :
    (HashMap ℕ → HashMap ℕ → HashMap ℕ)
    → HashMap FastDbAccount
    → HashMap FastDbAccount
    → HashMap FastDbAccount
merge_known f ro [] = ro
merge_known f ro (e ∷ es) =
    merge_known f
      (modify_entry e.0
        (λ acc. record {
          info = e.1.info;
          storage = f acc.storage e.1.storage;
          account_state = touched;
        })
        ro)
      es

abbrev pub merge_known_layer : (HashMap ℕ → HashMap ℕ → HashMap ℕ) → Layer → Layer → Layer
merge_known_layer f top ro = record (merge_known_tables top ro) {
  accounts = merge_known f ro.accounts top.accounts;
}

module _ (revm : Revm) where
  -- The loop over the accounts of `merge_all`.
  pub merge_accounts_all : Layer → HashMap FastDbAccount → Layer
  unfolding insert_contract
  merge_accounts_all ro [] = ro
  merge_accounts_all ro (e ∷ es) =
      let (l, info) = insert_contract revm ro e.1.info in
      let entry = or_default revm l e.0 in
      merge_accounts_all
        (set_account revm l e.0
          (record entry { info = info; storage = extend entry.storage e.1.storage }))
        es

  -- What a merge leaves above the merged database.
  abbrev pub above : KabuDb → List Layer → KabuDb
  above db ls = record { top = record (new_layer revm) { ext_db = db.top.ext_db }; below = ls }

  pub merge_all : KabuDb → KabuDb
  unfolding merge_accounts_all merge_tables
  merge_all db = elim db.below [
    | [] ↦ above db (merge_accounts_all (merge_tables db.top (empty revm).top) db.top.accounts ∷ [])
    | ro ∷ rest ↦ above db (merge_accounts_all (merge_tables db.top ro) db.top.accounts ∷ rest)
  ]

  pub merge_accounts : KabuDb → KabuDb
  unfolding merge_known merge_known_tables
  merge_accounts db = elim db.below [
    | [] ↦ above db []
    | ro ∷ rest ↦ above db (merge_known_layer extend db.top ro ∷ rest)
  ]

  pub merge_cells : KabuDb → KabuDb
  unfolding merge_known merge_known_tables overwrite
  merge_cells db = elim db.below [
    | [] ↦ above db []
    | ro ∷ rest ↦ above db (merge_known_layer overwrite db.top ro ∷ rest)
  ]
