-- ===== src/Db/Updates.antt =====
-- What changes a `KabuDB` (crates/evm/db/src/kabu_db.rs): the insertion of accounts, code and
-- storage, the state updates of blocks, and the changes of an executed transaction.
pub mod Commit
pub mod State
use kabu.Base.{
  extend, ℕ, Bool, true, false, ◌&&◌, ◌||◌, not, Option, none, some, List, [], ◌∷◌, ltb, ◌==◌,
  if◌then◌else◌, is_some, get_or_else, length, HashMap, lookup, contains_key, insert,
}
use kabu.LatestBlock.{AccountState, GethStateUpdate}
use kabu.Db.{
  Revm, AccountInfo, DbAccountState, not_existing, touched, storage_cleared, unset, FastDbAccount,
  Layer, KabuDb, default_account, put_account, load_account, load_cached_account,
}

-- revm's `Account`: what a transaction did to an account. `storage` holds the present values.
pub record Account : Type 0 where
  pub info : AccountInfo
  pub is_touched : Bool
  pub is_selfdestructed : Bool
  pub is_created : Bool
  pub storage : HashMap ℕ

-- `KabuDB::is_rw_ro_account` and `is_rw_ro_slot`
pub is_account : KabuDb → ℕ → Bool
is_account db address =
    contains_key address db.top.accounts
    || (elim db.below [ [] ↦ false | ro ∷ rest ↦ contains_key address ro.accounts ])

pub layer_has_slot : Layer → ℕ → ℕ → Bool
layer_has_slot l address slot = elim (lookup address l.accounts) [
  | none ↦ false
  | some acc ↦ contains_key slot acc.storage
]

pub is_slot : KabuDb → ℕ → ℕ → Bool
unfolding layer_has_slot
is_slot db address slot =
    if layer_has_slot db.top address slot
    then true
    else (elim db.below [ [] ↦ false | ro ∷ rest ↦ layer_has_slot ro address slot ])

module _ (revm : Revm) where
  -- The hash under which the code of an account stands.
  abbrev pub code_hash_of : AccountInfo → List ℕ → ℕ
  code_hash_of info code =
      if info.code_hash == revm.keccak_empty then revm.hash_slow code else info.code_hash

  abbrev pub fill_code_hash : AccountInfo → AccountInfo
  fill_code_hash info =
      if info.code_hash == 0 then record info { code_hash = revm.keccak_empty } else info

  unfoldable pub insert_contract : Layer → AccountInfo → Layer × AccountInfo
  insert_contract l info = elim info.code [
    | none ↦ (l, fill_code_hash info)
    | some [] ↦ (l, fill_code_hash info)
    | some (byte ∷ bytes) ↦
        let code = byte ∷ bytes in
        let hash = code_hash_of info code in
        (
          record l {
            contracts =
                if contains_key hash l.contracts then l.contracts else insert hash code l.contracts;
          },
          fill_code_hash (record info { code_hash = hash }),
        )
  ]

  abbrev pub or_default : Layer → ℕ → FastDbAccount
  or_default l address = get_or_else (lookup address l.accounts) (default_account revm)

  abbrev pub set_account : Layer → ℕ → FastDbAccount → Layer
  set_account l address acc = record l { accounts = insert address acc l.accounts }

  pub insert_account_info : KabuDb → ℕ → AccountInfo → KabuDb
  unfolding insert_contract
  insert_account_info db address info =
      let (l, info') = insert_contract db.top info in
      record db { top = set_account l address (record (or_default l address) { info = info' }) }

  pub insert_account_storage : KabuDb → ℕ → ℕ → ℕ → KabuDb
  insert_account_storage db address slot value =
      let (db', acc) = load_account revm db address in
      put_account revm db' address (record acc { storage = insert slot value acc.storage })

  pub replace_account_storage : KabuDb → ℕ → HashMap ℕ → KabuDb
  replace_account_storage db address storage =
      let (db', acc) = load_account revm db address in
      put_account revm db' address
        (record acc { account_state = storage_cleared; storage = extend [] storage })

  -- The loop over the storage in `apply_geth_update`.
  pub insert_slots : KabuDb → ℕ → HashMap ℕ → KabuDb
  insert_slots db address [] = db
  insert_slots db address (e ∷ es) =
      insert_slots (insert_account_storage db address e.0 e.1) address es

  abbrev pub set_code : Option (List ℕ) → AccountInfo → AccountInfo
  set_code none info = info
  set_code (some code) info = record info { code_hash = revm.hash_slow code; code = some code }

  pub apply_account : KabuDb → ℕ → AccountState → KabuDb
  unfolding insert_slots
  apply_account db address state =
      let (db', acc) = load_account revm (insert_slots db address state.storage) address in
      let coded = set_code state.code acc.info in
      put_account revm db' address (record acc {
        info = record coded {
          nonce = get_or_else state.nonce coded.nonce;
          balance = get_or_else state.balance coded.balance;
        };
        account_state = touched;
      })

  pub apply_geth_update : KabuDb → GethStateUpdate → KabuDb
  apply_geth_update db [] = db
  apply_geth_update db (e ∷ es) = apply_geth_update (apply_account db e.0 e.1) es

  pub apply_geth_update_vec : KabuDb → List GethStateUpdate → KabuDb
  apply_geth_update_vec db [] = db
  apply_geth_update_vec db (u ∷ us) = apply_geth_update_vec (apply_geth_update db u) us

  -- The test of `apply_account_info_btree`.
  abbrev pub takes_update : DbAccountState → Bool → Bool → Bool
  takes_update state insert_all only_new =
      insert_all
      || ((elim state [ not_existing ↦ true | unset ↦ true | _ ↦ false ]) && only_new)
      || (not only_new && (elim state [ touched ↦ true | storage_cleared ↦ true | _ ↦ false ]))

  abbrev pub updated_code : Option (List ℕ) → Option (List ℕ) → Option (List ℕ)
  updated_code none old = old
  updated_code (some code) old = if ltb (length code) 2 then old else some code

  abbrev pub updated_info : FastDbAccount → AccountState → AccountInfo
  updated_info acc state =
      let code = updated_code state.code acc.info.code in
      record {
        balance = get_or_else state.balance 0;
        nonce = get_or_else state.nonce 0;
        code_hash = if is_some code then revm.keccak_empty else 0;
        code = code;
      }

  pub apply_account_info_btree : KabuDb → ℕ → AccountState → Bool → Bool → KabuDb
  unfolding insert_account_info
  apply_account_info_btree db address state insert_all only_new =
      let (db', acc) = load_cached_account revm db address in
      let updated =
        if takes_update acc.account_state insert_all only_new
        then insert_account_info db' address (updated_info acc state)
        else db' in
      let (db'', acc') = load_cached_account revm updated address in
      put_account revm db'' address (record acc' { account_state = touched })

  -- The slots that `apply_account_storage` keeps when it does not insert all.
  pub slots_to_insert : KabuDb → ℕ → Bool → HashMap ℕ → HashMap ℕ
  slots_to_insert db address only_new [] = []
  slots_to_insert db address only_new (e ∷ es) =
      if is_slot db address e.0 || only_new
      then e ∷ slots_to_insert db address only_new es
      else slots_to_insert db address only_new es

  abbrev pub extend_storage : KabuDb → ℕ → HashMap ℕ → KabuDb
  extend_storage db address slots =
      let (db', acc) = load_cached_account revm db address in
      put_account revm db' address (record acc { storage = extend acc.storage slots })

  pub apply_account_storage : KabuDb → ℕ → AccountState → Bool → Bool → KabuDb
  unfolding slots_to_insert
  apply_account_storage db address state insert_all only_new =
      if insert_all
      then extend_storage db address state.storage
      else (if is_account db address
          then extend_storage db address (slots_to_insert db address only_new state.storage)
          else db)

  pub apply_record : KabuDb → GethStateUpdate → Bool → Bool → KabuDb
  apply_record db [] insert_all only_new = db
  apply_record db (e ∷ es) insert_all only_new =
      apply_record
        (apply_account_storage (apply_account_info_btree db e.0 e.1 insert_all only_new) e.0 e.1
          insert_all only_new)
        es insert_all only_new

  pub apply_geth_state_update : KabuDb → List GethStateUpdate → Bool → Bool → KabuDb
  apply_geth_state_update db [] insert_all only_new = db
  apply_geth_state_update db (u ∷ us) insert_all only_new =
      apply_geth_state_update (apply_record db u insert_all only_new) us insert_all only_new

  -- The body of the loop of `commit`.
  pub commit_account : KabuDb → ℕ → Account → KabuDb
  unfolding insert_contract
  commit_account db address account =
      if not account.is_touched
      then db
      else (if account.is_selfdestructed
          then record db {
            top = set_account db.top address (record (or_default db.top address) {
              storage = [];
              account_state = not_existing;
              info = revm.default_info;
            });
          }
          else (let (l, info) = insert_contract db.top account.info in
              let old = or_default l address in
              record db {
                top = set_account l address (record {
                  info = info;
                  account_state =
                      if account.is_created then storage_cleared else (elim old.account_state [
                        | storage_cleared ↦ storage_cleared
                        | _ ↦ touched
                      ]);
                  storage = extend (if account.is_created then [] else old.storage) account.storage;
                });
              }))

  pub commit : KabuDb → HashMap Account → KabuDb
  commit db [] = db
  commit db (e ∷ es) = commit (commit_account db e.0 e.1) es
