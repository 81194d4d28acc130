-- ===== src/Mempool.antt =====
-- The pool of pending transactions (crates/types/blockchain/src/mempool.rs, mempool_tx.rs and
-- accountnoncetx.rs). The clock, `Utc::now()`, is an argument of what makes a new entry, and the
-- order in which a hash map is listed is that of insertion.
pub mod Laws
pub mod Nonces
mod Tests
use Prim.Native.String.{String}
use kabu.Base.{
  ℕ, zero, suc, ◌+◌, ◌-◌, ◌*◌, ◌/◌, ◌%◌, ◌^◌, ◌≤◌, ◌<◌, ◌≡◌, refl, sym, ap, ◌∙◌, ◌≢◌, ◌↔◌, ◌⊎◌, inl,
  inr, Bool, true, false, ◌&&◌, ◌||◌, not, Option, none, some, List, [], ◌∷◌, ◌++◌, map, reverse,
  arith, ltb, leb, ◌==◌, if◌then◌else◌, ltb→lt, lt→ltb, leb→le, ==_iff, ==_refl, Bool-cases,
  Option-cases, is_some, get_or_else, length, get_elem?, take, drop, head?, get_last?, any, All,
  length-append, take-append-drop, length-take, length-drop, get_last?-append, All-append, HashMap,
  lookup, contains_key, insert, erase, retain, alter, values, lookup-insert, lookup-insert_self,
  lookup-insert_ne, lookup-erase, lookup-retain_key, IsMap, insert-IsMap, lookup-retain,
  retain-IsMap, erase-IsMap, any-values,
}
use kabu.Types.{u64_mod}

-- What the code reads of a transaction (`trait KabuTx`), and the types of alloy's data.
pub record TxTypes : Type 1 where
  pub Tx : Type 0
  pub Log : Type 0
  pub Update : Type 0
  pub get_tx_hash : Tx → ℕ
  pub get_gas_price : Tx → ℕ
  pub get_from : Tx → ℕ
  pub get_nonce : Tx → ℕ

-- `MempoolTx`; `pre_state`, which no method writes, is left out.
pub record MempoolTx (d : TxTypes) : Type 0 where
  pub source : String
  pub tx_hash : ℕ
  pub time : ℕ
  pub tx : Option d.Tx
  pub logs : Option (List d.Log)
  pub mined : Option ℕ
  pub failed : Option Bool
  pub state_update : Option d.Update

-- `AccountNonceAndTransactions`
pub record AccountNonceAndTransactions : Type 0 where
  pub nonce : Option ℕ
  pub txs : List ℕ

pub record Mempool (d : TxTypes) : Type 0 where
  pub txs : HashMap (MempoolTx d)
  pub accounts : HashMap AccountNonceAndTransactions

-- `MempoolTx::default`
abbrev pub default_tx : (d : TxTypes) → ℕ → MempoolTx d
default_tx d now = record {
  source = "unknown";
  tx_hash = 0;
  time = now;
  tx = none;
  logs = none;
  mined = none;
  failed = none;
  state_update = none;
}

abbrev pub default_account : AccountNonceAndTransactions
default_account = record { nonce = none; txs = [] }

-- `AccountNonceAndTransactions::set_nonce`: a known nonce only grows.
abbrev pub next_nonce : Option ℕ → Option ℕ → Option ℕ
next_nonce (some cur_nonce) (some some_nonce) =
    if ltb cur_nonce some_nonce then some some_nonce else some cur_nonce
next_nonce none nonce = nonce
next_nonce (some cur_nonce) none = none

pub set_account_nonce : AccountNonceAndTransactions → Option ℕ → AccountNonceAndTransactions
set_account_nonce a nonce = record a { nonce = next_nonce a.nonce nonce }

-- `AccountNonceAndTransactions::add_tx_hash`
pub add_tx_hash : AccountNonceAndTransactions → ℕ → AccountNonceAndTransactions
add_tx_hash a hash = record a { txs = a.txs ++ hash ∷ [] }

-- `iter().filter(..).collect()`
abbrev pub select : {A : Type 0} → (A → Bool) → List A → List A
select p [] = []
select p (x ∷ xs) = if p x then x ∷ select p xs else select p xs

module _ {d : TxTypes} where
  abbrev pub is_tx : Mempool d → ℕ → Bool
  is_tx m hash = contains_key hash m.txs

  pub add_tx : ℕ → Mempool d → d.Tx → Mempool d
  add_tx now m tx = record m {
    txs = alter (d.get_tx_hash tx) (default_tx d now) (λ e. record e { tx = some tx }) m.txs;
  }

  pub add_tx_logs : ℕ → Mempool d → ℕ → List d.Log → Mempool d
  add_tx_logs now m hash logs = record m {
    txs = alter hash (default_tx d now) (λ e. record e { logs = some logs }) m.txs;
  }

  pub add_tx_state_change : ℕ → Mempool d → ℕ → d.Update → Mempool d
  add_tx_state_change now m hash update = record m {
    txs = alter hash (default_tx d now) (λ e. record e { state_update = some update }) m.txs;
  }

  -- `item.tx.map_or_else(|| false, |tx| tx.get_gas_price() >= gas_price)`
  abbrev pub pays : ℕ → MempoolTx d → Bool
  pays gas_price e = elim e.tx [ none ↦ false | some tx ↦ leb gas_price (d.get_gas_price tx) ]

  pub filter_by_gas_price : Mempool d → ℕ → List (MempoolTx d)
  filter_by_gas_price m gas_price =
      select (λ e. not (is_some e.mined) && pays gas_price e) (values m.txs)

  pub filter_ok_by_gas_price : Mempool d → ℕ → List (MempoolTx d)
  filter_ok_by_gas_price m gas_price =
      select (λ e. not (is_some e.mined) && (not (get_or_else e.failed false) && pays gas_price e))
        (values m.txs)

  -- `item.mined == Some(block_number)`
  abbrev pub is_mined_at : ℕ → MempoolTx d → Bool
  is_mined_at block_number e = elim e.mined [ none ↦ false | some n ↦ n == block_number ]

  pub filter_on_block : Mempool d → ℕ → List (MempoolTx d)
  filter_on_block m block_number = select (is_mined_at block_number) (values m.txs)

  pub is_mined : Mempool d → ℕ → Bool
  is_mined m hash = elim (lookup hash m.txs) [ none ↦ false | some e ↦ is_some e.mined ]

  pub is_failed : Mempool d → ℕ → Bool
  is_failed m hash = elim (lookup hash m.txs) [ none ↦ false | some e ↦ get_or_else e.failed false ]

  pub clean : Mempool d → Mempool d
  clean m = record { txs = []; accounts = [] }

  -- The test by which `clean_txs` keeps an entry.
  abbrev pub is_kept : ℕ → ℕ → MempoolTx d → Bool
  is_kept max_block_number max_time e =
      ltb max_block_number (get_or_else e.mined ((max_block_number + 1) % u64_mod))
      && ltb max_time e.time

  pub clean_txs : Mempool d → ℕ → ℕ → Mempool d
  clean_txs m max_block_number max_time = record m {
    txs = retain (λ _ e. is_kept max_block_number max_time e) m.txs;
  }

  pub set_mined : ℕ → Mempool d → ℕ → ℕ → Mempool d
  set_mined now m hash block_number = record m {
    txs = alter hash (default_tx d now) (λ e. record e { mined = some block_number }) m.txs;
  }

  pub set_failed : Mempool d → ℕ → Mempool d
  set_failed m hash = elim (lookup hash m.txs) [
    | none ↦ m
    | some e ↦ record m { txs = insert hash (record e { failed = some true }) m.txs }
  ]

  pub set_nonce : Mempool d → ℕ → ℕ → Mempool d
  unfolding set_account_nonce
  set_nonce m account nonce = record m {
    accounts = alter account default_account (λ a. set_account_nonce a (some nonce)) m.accounts;
  }

  pub is_valid_tx : Mempool d → d.Tx → Bool
  is_valid_tx m tx = elim (lookup (d.get_from tx) m.accounts) [
    | none ↦ true
    | some a ↦ elim a.nonce [ none ↦ true | some nonce ↦ d.get_nonce tx == (nonce + 1) % u64_mod ]
  ]

  pub remove_tx : Mempool d → ℕ → Mempool d × Option (MempoolTx d)
  remove_tx m hash = (record m { txs = erase hash m.txs }, lookup hash m.txs)
