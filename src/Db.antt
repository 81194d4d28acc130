-- ===== src/Db.antt =====
-- `KabuDB` (crates/evm/db/src/kabu_db.rs): the accounts that a simulation has written over a chain
-- of read-only databases and an external one; FastDbAccount (fast_cache_db.rs) and KabuDBHelper
-- (kabu_db_helper.rs). A method returns the new database beside its result.
pub mod Updates
pub mod Contracts
pub mod Slots
pub mod Merge
pub mod Reads
mod Tests
use kabu.Base.{
  ℕ, Bool, true, false, Option, none, some, List, [], ◌∷◌, ◌==◌, if◌then◌else◌, HashMap, lookup,
  insert,
}

-- revm's account data. Code is the bytes that it was made of.
pub record AccountInfo : Type 0 where
  pub balance : ℕ
  pub nonce : ℕ
  pub code_hash : ℕ
  pub code : Option (List ℕ)

-- revm's state of an account in a database, `unset` for its `None`, the default.
pub data DbAccountState : Type 0 where
  not_existing touched storage_cleared unset : DbAccountState

-- The errors of a database; the texts of errors are numbers.
pub data KabuDbError : Type 0 where
  nonimportant transport_error no_db : KabuDbError
  database_error : ℕ → KabuDbError

pub data Result {ℓ} (A : Type ℓ) : Type ℓ where
  ok : A → Result A
  err : KabuDbError → Result A

-- `r.unwrap_or_default()`, with the default given.
abbrev pub unwrap_or {ℓ} : {A : Type ℓ} → Result A → A → A
unwrap_or (ok a) d = a
unwrap_or (err e) d = d

-- `r.or_else(|_| q)`
abbrev pub or_else {ℓ} : {A : Type ℓ} → Result A → Result A → Result A
or_else (ok a) q = ok a
or_else (err e) q = q

-- revm's `trait DatabaseRef`: what a database answers.
pub record DatabaseRef : Type 0 where
  pub basic_ref : ℕ → Result (Option AccountInfo)
  pub code_by_hash_ref : ℕ → Result (List ℕ)
  pub storage_ref : ℕ → ℕ → Result ℕ
  pub block_hash_ref : ℕ → Result ℕ

-- What revm gives and the code relies on: the hash of no code, the hash of a code, the account
-- information that `AccountInfo::default` makes, and the empty database.
pub record Revm : Type 0 where
  pub keccak_empty : ℕ
  pub hash_slow : List ℕ → ℕ
  pub default_info : AccountInfo
  pub empty_db : DatabaseRef

pub record FastDbAccount : Type 0 where
  pub info : AccountInfo
  pub account_state : DbAccountState
  pub storage : HashMap ℕ

-- The fields of a `KabuDB` but for `read_only_db`.
pub record Layer : Type 0 where
  pub accounts : HashMap FastDbAccount
  pub contracts : HashMap (List ℕ)
  pub logs : List ℕ
  pub block_hashes : HashMap ℕ
  pub ext_db : Option DatabaseRef

-- A database is its own layer, and those of the databases that it reads through, `read_only_db`
-- first.
pub record KabuDb : Type 0 where
  pub top : Layer
  pub below : List Layer

abbrev pub read_only_db : KabuDb → Option KabuDb
read_only_db db = elim db.below [ [] ↦ none | l ∷ ls ↦ some (record { top = l; below = ls }) ]

-- `FastDbAccount::info`
abbrev pub account_info : FastDbAccount → Option AccountInfo
account_info a = elim a.account_state [ not_existing ↦ none | _ ↦ some a.info ]

-- `matches!(account_state, StorageCleared | NotExisting)`
abbrev pub is_cleared : DbAccountState → Bool
is_cleared storage_cleared = true
is_cleared not_existing = true
is_cleared touched = false
is_cleared unset = false

-- `KabuDBHelper::fetch_basic` and the other helpers.
pub fetch_basic : Option DatabaseRef → ℕ → Result (Option AccountInfo)
fetch_basic none address = err no_db
fetch_basic (some ext_db) address = ext_db.basic_ref address

pub get_or_fetch_basic : Option DatabaseRef → Option DatabaseRef → ℕ → Result (Option AccountInfo)
unfolding fetch_basic
get_or_fetch_basic none ext_db address = fetch_basic ext_db address
get_or_fetch_basic (some ro) ext_db address = elim (ro.basic_ref address) [
  | ok (some info) ↦ ok (some info)
  | ok none ↦ fetch_basic ext_db address
  | err e ↦ fetch_basic ext_db address
]

pub get_basic : Option DatabaseRef → ℕ → Result (Option AccountInfo)
get_basic none address = err nonimportant
get_basic (some ro) address = elim (ro.basic_ref address) [
  | ok (some info) ↦ ok (some info)
  | ok none ↦ err nonimportant
  | err e ↦ err nonimportant
]

pub fetch_storage : Option DatabaseRef → ℕ → ℕ → Result ℕ
fetch_storage none address slot = err no_db
fetch_storage (some ext_db) address slot = ok (unwrap_or (ext_db.storage_ref address slot) 0)

pub get_or_fetch_storage : Option DatabaseRef → Option DatabaseRef → ℕ → ℕ → Result ℕ
unfolding fetch_storage
get_or_fetch_storage none ext_db address slot = fetch_storage ext_db address slot
get_or_fetch_storage (some ro) ext_db address slot =
    or_else (ro.storage_ref address slot) (fetch_storage ext_db address slot)

pub get_code_by_hash : Option DatabaseRef → ℕ → Result (List ℕ)
get_code_by_hash none hash = err no_db
get_code_by_hash (some ro) hash = ro.code_by_hash_ref hash

pub fetch_block_hash_ref : Option DatabaseRef → ℕ → Result ℕ
fetch_block_hash_ref none number = err no_db
fetch_block_hash_ref (some ext_db) number = ext_db.block_hash_ref number

pub get_or_fetch_block_hash : Option DatabaseRef → Option DatabaseRef → ℕ → Result ℕ
unfolding fetch_block_hash_ref
get_or_fetch_block_hash none ext_db number = fetch_block_hash_ref ext_db number
get_or_fetch_block_hash (some ro) ext_db number =
    or_else (ro.block_hash_ref number) (fetch_block_hash_ref ext_db number)

module _ (revm : Revm) where
  abbrev pub default_account : FastDbAccount
  default_account = record { info = revm.default_info; account_state = unset; storage = [] }

  -- `FastDbAccount::new_not_existing`
  abbrev pub new_not_existing : FastDbAccount
  new_not_existing = record default_account { account_state = not_existing }

  -- `From<Option<AccountInfo>> for FastDbAccount`
  abbrev pub from_info : Option AccountInfo → FastDbAccount
  from_info none = new_not_existing
  from_info (some info) = record default_account { info = info }

  -- `KabuDB::new`
  pub new_layer : Layer
  new_layer = record {
    accounts = [];
    contracts = insert 0 [] (insert revm.keccak_empty [] []);
    logs = [];
    block_hashes = [];
    ext_db = none;
  }

  abbrev pub new : KabuDb
  unfolding new_layer
  new = record { top = new_layer; below = [] }

  -- `Default for KabuDB`
  pub empty : KabuDb
  unfolding new_layer
  empty = record { top = record new_layer { ext_db = some revm.empty_db }; below = [] }

  -- `impl DatabaseRef for KabuDB`, for a layer over a read-only database.
  pub basic_ref : Layer → Option DatabaseRef → ℕ → Result (Option AccountInfo)
  unfolding get_or_fetch_basic
  basic_ref l ro address =
      if address == 0 then ok (some revm.default_info) else (elim (lookup address l.accounts) [
        | some acc ↦ ok (account_info acc)
        | none ↦ ok (unwrap_or (get_or_fetch_basic ro l.ext_db address) none)
      ])

  pub code_by_hash_ref : Layer → Option DatabaseRef → ℕ → Result (List ℕ)
  unfolding get_code_by_hash
  code_by_hash_ref l ro hash = elim (lookup hash l.contracts) [
    | some code ↦ ok code
    | none ↦ get_code_by_hash ro hash
  ]

  pub storage_ref : Layer → Option DatabaseRef → ℕ → ℕ → Result ℕ
  unfolding get_or_fetch_storage
  storage_ref l ro address slot = elim (lookup address l.accounts) [
    | none ↦ get_or_fetch_storage ro l.ext_db address slot
    | some acc ↦ elim (lookup slot acc.storage) [
      | some value ↦ ok value
      | none ↦
          if is_cleared acc.account_state
          then ok 0
          else get_or_fetch_storage ro l.ext_db address slot
    ]
  ]

  pub block_hash_ref : Layer → Option DatabaseRef → ℕ → Result ℕ
  unfolding get_or_fetch_block_hash
  block_hash_ref l ro number = elim (lookup number l.block_hashes) [
    | some hash ↦ ok hash
    | none ↦ get_or_fetch_block_hash ro l.ext_db number
  ]

  -- A layer over a database, and a chain of layers, as databases.
  abbrev pub layer_ref : Layer → Option DatabaseRef → DatabaseRef
  layer_ref l ro = record {
    basic_ref = basic_ref l ro;
    code_by_hash_ref = code_by_hash_ref l ro;
    storage_ref = storage_ref l ro;
    block_hash_ref = block_hash_ref l ro;
  }

  abbrev pub below_ref : List Layer → Option DatabaseRef
  below_ref [] = none
  below_ref (l ∷ ls) = some (layer_ref l (below_ref ls))

  abbrev pub as_ref : KabuDb → DatabaseRef
  as_ref db = layer_ref db.top (below_ref db.below)

  -- Cached in the own layer.
  abbrev pub put_account : KabuDb → ℕ → FastDbAccount → KabuDb
  put_account db address acc = record db {
    top = record db.top { accounts = insert address acc db.top.accounts };
  }

  -- `load_ro_rw_ext_account`: the account, with its database where it is cached.
  pub load_account : KabuDb → ℕ → KabuDb × FastDbAccount
  unfolding get_or_fetch_basic
  load_account db address = elim (lookup address db.top.accounts) [
    | some acc ↦ (db, acc)
    | none ↦
        let acc =
          from_info
            (unwrap_or (get_or_fetch_basic (below_ref db.below) db.top.ext_db address) none) in
        (put_account db address acc, acc)
  ]

  -- `load_ro_rw_account`
  pub load_cached_account : KabuDb → ℕ → KabuDb × FastDbAccount
  unfolding get_basic
  load_cached_account db address = elim (lookup address db.top.accounts) [
    | some acc ↦ (db, acc)
    | none ↦
        let acc = from_info (unwrap_or (get_basic (below_ref db.below) address) none) in
        (put_account db address acc, acc)
  ]

  -- `impl Database for KabuDB`
  pub basic : KabuDb → ℕ → KabuDb × Result (Option AccountInfo)
  unfolding load_account
  basic db address = let (db', acc) = load_account db address in (db', ok (account_info acc))

  pub code_by_hash : KabuDb → ℕ → KabuDb × Result (List ℕ)
  unfolding get_code_by_hash
  code_by_hash db hash = elim (lookup hash db.top.contracts) [
    | some code ↦ (db, ok code)
    | none ↦ elim (get_code_by_hash (below_ref db.below) hash) [
      | err e ↦ (db, err e)
      | ok code ↦ (
        record db { top = record db.top { contracts = insert hash code db.top.contracts } },
        ok code,
      )
    ]
  ]

  pub storage : KabuDb → ℕ → ℕ → KabuDb × Result ℕ
  unfolding get_or_fetch_storage get_or_fetch_basic
  storage db address slot =
      let ro = below_ref db.below in
      let fetched = get_or_fetch_storage ro db.top.ext_db address slot in
      elim (lookup address db.top.accounts) [
        | some acc ↦ elim (lookup slot acc.storage) [
          | some value ↦ (db, ok value)
          | none ↦ if is_cleared acc.account_state then (db, ok 0) else (elim fetched [
            | err e ↦ (db, err e)
            | ok value ↦ (
              put_account db address (record acc { storage = insert slot value acc.storage }),
              ok value,
            )
          ])
        ]
        | none ↦ elim (get_or_fetch_basic ro db.top.ext_db address) [
          | err e ↦ (db, err e)
          | ok none ↦ (put_account db address (from_info none), ok 0)
          | ok (some info) ↦ elim fetched [
            | err e ↦ (db, err e)
            | ok value ↦ (
              put_account db address
                  (record (from_info (some info)) { storage = insert slot value [] }),
              ok value,
            )
          ]
        ]
      ]

  pub block_hash : KabuDb → ℕ → KabuDb × Result ℕ
  unfolding get_or_fetch_block_hash
  block_hash db number = elim (lookup number db.top.block_hashes) [
    | some hash ↦ (db, ok hash)
    | none ↦ elim (get_or_fetch_block_hash (below_ref db.below) db.top.ext_db number) [
      | err e ↦ (db, err e)
      | ok hash ↦ (
        record db { top = record db.top { block_hashes = insert number hash db.top.block_hashes } },
        ok hash,
      )
    ]
  ]
