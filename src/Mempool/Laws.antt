-- ===== src/Mempool/Laws.antt =====
-- What the methods of the mempool keep and change: the entries, and the lists that are read off.
use kabu.Base.{
  ℕ, ◌+◌, ◌<◌, ◌≡◌, refl, ◌↔◌, inl, inr, Bool, true, false, ◌&&◌, not, some, List, [], ◌∷◌, arith,
  Option-cases, get_or_else, lookup, values, lookup-insert, IsMap, insert-IsMap, lookup-retain,
  retain-IsMap, erase-IsMap,
}
use kabu.Types.{u64_mod}
use kabu.Mempool.{
  TxTypes, MempoolTx, Mempool, default_tx, select, add_tx, add_tx_logs, add_tx_state_change,
  filter_by_gas_price, filter_ok_by_gas_price, is_mined, clean, is_kept, clean_txs, set_mined,
  set_failed, set_nonce, remove_tx,
}

-- The calls that change the mempool; the first argument of some is the time.
pub data Call (d : TxTypes) : Type 0 where
  adds_tx : ℕ → d.Tx → Call d
  adds_logs : ℕ → ℕ → List d.Log → Call d
  adds_state_change : ℕ → ℕ → d.Update → Call d
  sets_mined : ℕ → ℕ → ℕ → Call d
  sets_failed : ℕ → Call d
  sets_nonce : ℕ → ℕ → Call d
  cleans : Call d
  cleans_txs : ℕ → ℕ → Call d
  removes : ℕ → Call d

select-select :
    {A : Type 0} (p q r : A → Bool) (xs : List A)
    → ((x : A) → r x ≡ (q x && p x))
    → select r xs ≡ select q (select p xs)
select-select p q r [] h = refl
select-select p q r (x ∷ xs) h = ground (arith, h x, select-select p q r xs h)

module _ {d : TxTypes} where
  pub step : Mempool d → Call d → Mempool d
  step m (adds_tx now tx) = add_tx now m tx
  step m (adds_logs now hash logs) = add_tx_logs now m hash logs
  step m (adds_state_change now hash update) = add_tx_state_change now m hash update
  step m (sets_mined now hash n) = set_mined now m hash n
  step m (sets_failed hash) = set_failed m hash
  step m (sets_nonce account nonce) = set_nonce m account nonce
  step m cleans = clean m
  step m (cleans_txs n time) = clean_txs m n time
  step m (removes hash) = (remove_tx m hash).0

  abbrev pub new : Mempool d
  new = record { txs = []; accounts = [] }

  pub run : Mempool d → List (Call d) → Mempool d
  run m [] = m
  run m (c ∷ cs) = run (step m c) cs

  set_failed-IsMap : (m : Mempool d) (hash : ℕ) → IsMap m.txs → IsMap (set_failed m hash).txs
  unfolding set_failed
  set_failed-IsMap m hash v = elim (Option-cases (lookup hash m.txs)) [
    | inl q ↦ rw (q, set_failed) v
    | inr (e, q) ↦ rw (q, set_failed) (insert-IsMap hash (record e { failed = some true }) m.txs v)
  ]

  step-IsMap : (m : Mempool d) (c : Call d) → IsMap m.txs → IsMap (step m c).txs
  unfolding step add_tx add_tx_logs add_tx_state_change set_mined set_nonce clean clean_txs
      remove_tx
  step-IsMap m (adds_tx now tx) v = insert-IsMap (d.get_tx_hash tx) _ m.txs v
  step-IsMap m (adds_logs now hash logs) v = insert-IsMap hash _ m.txs v
  step-IsMap m (adds_state_change now hash update) v = insert-IsMap hash _ m.txs v
  step-IsMap m (sets_mined now hash n) v = insert-IsMap hash _ m.txs v
  step-IsMap m (sets_failed hash) v = set_failed-IsMap m hash v
  step-IsMap m (sets_nonce account nonce) v = v
  step-IsMap m cleans v = tt
  step-IsMap m (cleans_txs n time) v = retain-IsMap (λ _ e. is_kept n time e) m.txs v
  step-IsMap m (removes hash) v = erase-IsMap hash m.txs v

  pub run-IsMap : (m : Mempool d) (cs : List (Call d)) → IsMap m.txs → IsMap (run m cs).txs
  unfolding run
  run-IsMap m [] v = v
  run-IsMap m (c ∷ cs) v = run-IsMap (step m c) cs (step-IsMap m c v)

  -- In a mempool that any calls have made, cleaning keeps exactly the entries that are not known
  -- to be mined at or below the block and are later than the time. (The block number is short of
  -- the largest 64-bit number.)
  pub lookup-clean_txs :
      (cs : List (Call d)) (max_block_number max_time hash : ℕ) (e : MempoolTx d)
      → max_block_number + 1 < u64_mod
      → let m = run new cs in
        (lookup hash (clean_txs m max_block_number max_time).txs ≡ some e) ↔ (
          (lookup hash m.txs ≡ some e)
          × ((n : ℕ) → e.mined ≡ some n → max_block_number < n)
          × (max_time < e.time))
  unfolding clean_txs
  lookup-clean_txs cs b t hash e p =
      let m = run new cs in
      let kept = lookup-retain (λ _ x. is_kept b t x) hash m.txs (run-IsMap new cs tt) in
      (
        λ q. (ground (arith, kept), λ n r. ground (arith, kept), ground (arith, kept)),
        λ (q, r, s). elim (Option-cases e.mined) [
          | inl none_mined ↦ ground (arith, kept, none_mined)
          | inr (n, mined) ↦ ground (arith, kept, mined, r n)
        ],
      )

  -- A call after which every mined transaction is still known as mined.
  abbrev pub forgets : Call d → Bool
  forgets cleans = true
  forgets (cleans_txs n time) = true
  forgets (removes hash) = true
  forgets c = false

  -- Only cleaning and removal make the mempool forget that a transaction was mined.
  pub step-mined :
      (m : Mempool d) (c : Call d) (hash : ℕ)
      → forgets c ≡ false
      → is_mined m hash ≡ true
      → is_mined (step m c) hash ≡ true
  unfolding step is_mined add_tx add_tx_logs add_tx_state_change set_mined set_failed set_nonce
  step-mined m (adds_tx now tx) hash f q =
      let k = d.get_tx_hash tx in
      let e = get_or_else (lookup k m.txs) (default_tx d now) in
      ground (arith, lookup-insert hash k (record e { tx = some tx }) m.txs)
  step-mined m (adds_logs now k logs) hash f q =
      let e = get_or_else (lookup k m.txs) (default_tx d now) in
      ground (arith, lookup-insert hash k (record e { logs = some logs }) m.txs)
  step-mined m (adds_state_change now k update) hash f q =
      let e = get_or_else (lookup k m.txs) (default_tx d now) in
      ground (arith, lookup-insert hash k (record e { state_update = some update }) m.txs)
  step-mined m (sets_mined now k n) hash f q =
      let e = get_or_else (lookup k m.txs) (default_tx d now) in
      ground (arith, lookup-insert hash k (record e { mined = some n }) m.txs)
  step-mined m (sets_failed k) hash f q = elim (Option-cases (lookup k m.txs)) [
    | inl r ↦ ground (arith, r)
    | inr (e, r) ↦ ground (arith, r, lookup-insert hash k (record e { failed = some true }) m.txs)
  ]
  step-mined m (sets_nonce account nonce) hash f q = q
  step-mined m c hash f q = absurd (ground arith)

  -- The transactions that have not failed are those of the full list without the failed ones, in
  -- the same order.
  filter_ok-filter_by :
      (m : Mempool d) (gas_price : ℕ)
      → filter_ok_by_gas_price m gas_price
        ≡ select (λ e. not (get_or_else e.failed false)) (filter_by_gas_price m gas_price)
  unfolding filter_ok_by_gas_price filter_by_gas_price
  filter_ok-filter_by m gas_price = select-select _ _ _ (values m.txs) (λ e. ground arith)
