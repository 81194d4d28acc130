-- ===== src/Mempool/Tests.antt =====
-- A mempool in which a transaction is its nonce, and its hash.
use kabu.Base.{ℕ, ◌+◌, ◌*◌, ◌<◌, ◌≡◌, refl, ◌↔◌, true, none, some, List, [], ◌∷◌, arith, lookup}
use kabu.Mempool.{TxTypes, Mempool, default_tx, clean_txs, is_valid_tx}
use kabu.Mempool.Laws.{Call, adds_tx, sets_mined, sets_failed, new, run, lookup-clean_txs}
use kabu.Mempool.Nonces.{set_nonces, highest, is_valid_tx-set_nonces}

abbrev types : TxTypes
types = record {
  Tx = ℕ;
  Log = ℕ;
  Update = ℕ;
  get_tx_hash = λ tx. tx;
  get_gas_price = λ tx. 10 * tx;
  get_from = λ tx. 7;
  get_nonce = λ tx. tx;
}

abbrev calls : List (Call types)
calls = adds_tx 100 3 ∷ adds_tx 101 4 ∷ sets_mined 102 3 20 ∷ sets_failed 4 ∷ []

clean_example :
    (lookup 4 (clean_txs (run new calls) 20 50).txs
      ≡ some (record (default_tx types 101) { tx = some 4; failed = some true }))
    ↔ ((lookup 4 (run new calls).txs
          ≡ some (record (default_tx types 101) { tx = some 4; failed = some true }))
        × ((n : ℕ) → none ≡ some n → 20 < n)
        × (50 < 101))
clean_example =
    lookup-clean_txs calls 20 50 4
      (record (default_tx types 101) { tx = some 4; failed = some true }) (omega arith)

abbrev pending : Mempool types
pending = record {
  txs =
      (3, record (default_tx types 100) { tx = some 3; mined = some 20 })
      ∷ (4, record (default_tx types 101) { tx = some 4 })
      ∷ [];
  accounts = (8, record { nonce = some 2; txs = [] }) ∷ [];
}

nonce_example :
    (is_valid_tx (set_nonces pending 7 (5 ∷ 9 ∷ 6 ∷ [])) 10 ≡ true)
    ↔ (types.get_nonce 10 ≡ highest 5 (9 ∷ 6 ∷ []) + 1)
unfolding lookup
nonce_example = is_valid_tx-set_nonces pending 10 5 (9 ∷ 6 ∷ []) refl (omega arith)
