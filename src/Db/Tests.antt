-- ===== src/Db/Tests.antt =====
-- A database of one account, slots 3 and 4, under an empty one, and what is done to both.
use kabu.Base.{
  ℕ, ◌+◌, ◌≡◌, refl, true, false, none, some, List, [], ◌∷◌, map, arith, if◌then◌else◌, get_or_else,
  length, HashMap, lookup, contains_key,
}
use kabu.LatestBlock.{AccountState}
use kabu.Db.{
  Revm, AccountInfo, storage_cleared, unset, FastDbAccount, Layer, KabuDb, ok, DatabaseRef, as_ref,
  basic_ref, below_ref, get_or_fetch_storage,
}
use kabu.Db.Slots.{is_forgotten}
use kabu.Db.Reads.{
  Read, reads_basic, reads_code, reads_storage, reads_block_hash, answer, run, run-answer,
}
use kabu.Db.Updates.{Account, commit, apply_geth_update}
use kabu.Db.Updates.Commit.{slot_after, storage_ref-commit}
use kabu.Db.Updates.State.{storage_ref-apply_geth_update, basic_ref-apply_geth_update}
use kabu.Db.Merge.{merge_all, merge_cells}
use kabu.Db.Merge.Storage.{storage_ref-merge_all}
use kabu.Db.Merge.Cells.{slot_of, slot_of-merge_cells}

abbrev no_info : AccountInfo
no_info = record { balance = 0; nonce = 0; code_hash = 9; code = some [] }

abbrev nothing : DatabaseRef
nothing = record {
  basic_ref = λ a. ok none;
  code_by_hash_ref = λ h. ok [];
  storage_ref = λ a s. ok 0;
  block_hash_ref = λ n. ok n;
}

abbrev revm : Revm
revm = record {
  keccak_empty = 9;
  hash_slow = λ code. 100 + length code;
  default_info = no_info;
  empty_db = nothing;
}

abbrev account : FastDbAccount
account = record {
  info = record no_info { nonce = 42 };
  account_state = unset;
  storage = (3, 33) ∷ (4, 44) ∷ [];
}

abbrev tables : HashMap FastDbAccount → Layer
tables accounts = record {
  accounts = accounts;
  contracts = (9, []) ∷ (0, []) ∷ [];
  logs = [];
  block_hashes = [];
  ext_db = some nothing;
}

abbrev low : Layer
low = tables ((42, account) ∷ [])

abbrev fresh : KabuDb
fresh = record { top = tables []; below = low ∷ [] }

-- The storage of the account has been replaced above.
abbrev replaced : KabuDb
replaced = record {
  top =
      tables
        ((42, record account { account_state = storage_cleared; storage = (5, 55) ∷ [] }) ∷ []);
  below = low ∷ [];
}

abbrev reads : List Read
reads =
    reads_basic 42
    ∷ reads_storage 42 3
    ∷ reads_storage 42 3
    ∷ reads_code 7
    ∷ reads_block_hash 5
    ∷ []

run-answer_example : run revm fresh reads ≡ map (answer (as_ref revm fresh)) reads
unfolding lookup basic_ref
run-answer_example = run-answer revm fresh reads (
  (λ q. omega arith),
  (
    ((λ q. omega arith), account.info, refl),
    (((λ q. omega arith), account.info, refl), (tt, (tt, tt))),
  ),
)

-- Slot 3 shows zero before the merge, and 33 after it.
merge_all_example : (as_ref revm (merge_all revm replaced)).storage_ref 42 3 ≡ (
    if is_forgotten replaced 42 3
    then get_or_fetch_storage (below_ref revm replaced.below) (some nothing) 42 3
    else (as_ref revm replaced).storage_ref 42 3)
unfolding lookup
merge_all_example = storage_ref-merge_all revm replaced low [] 42 3 refl (refl, tt) ((refl, tt), tt)

merge_cells_example :
    (merged : Layer) × ((merge_cells revm replaced).below ≡ merged ∷ [])
    × ((a s : ℕ)
        → slot_of merged a s ≡ elim (slot_of low a s) [
          | none ↦ none
          | some v ↦ some (get_or_else (slot_of replaced.top a s) v)
        ])
    × ((a : ℕ) → contains_key a merged.accounts ≡ contains_key a low.accounts)
unfolding lookup
merge_cells_example = slot_of-merge_cells revm replaced low [] refl (refl, tt) ((refl, tt), tt)

abbrev change : Account
change = record {
  info = record no_info { nonce = 43 };
  is_touched = true;
  is_selfdestructed = false;
  is_created = false;
  storage = (3, 34) ∷ [];
}

commit_example :
    (as_ref revm (commit revm fresh ((42, change) ∷ []))).storage_ref 42 4
    ≡ slot_after revm fresh 42 4 change
unfolding lookup
commit_example = storage_ref-commit revm fresh ((42, change) ∷ []) 42 4 (refl, tt) ((refl, tt), tt)

abbrev state : AccountState
state = record { balance = some 5; nonce = none; code = none; storage = (3, 35) ∷ [] }

slot_update_example :
    (as_ref revm (apply_geth_update revm fresh ((42, state) ∷ []))).storage_ref 42 3 ≡ ok 35
unfolding lookup
slot_update_example =
    storage_ref-apply_geth_update revm fresh ((42, state) ∷ []) 42 3 (refl, tt) ((refl, tt), tt)

-- A block that deploys code at the account.
abbrev deployed : AccountState
deployed = record { balance = none; nonce = some 2; code = some (96 ∷ 1 ∷ []); storage = [] }

info_update_example :
    (as_ref revm (apply_geth_update revm fresh ((42, deployed) ∷ []))).basic_ref 42
    ≡ ok (some (record no_info { nonce = 2; code_hash = 102; code = some (96 ∷ 1 ∷ []) }))
unfolding lookup basic_ref kabu.Db.get_or_fetch_basic
info_update_example =
    basic_ref-apply_geth_update revm fresh ((42, deployed) ∷ []) 42 (λ q. omega arith) (refl, tt)
