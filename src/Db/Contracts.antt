-- ===== src/Db/Contracts.antt =====
-- What storing the code of an account leaves as it was.
use kabu.Base.{◌≡◌, inl, inr, [], ◌∷◌, arith, Option-cases}
use kabu.Db.{Revm, AccountInfo, Layer, new_layer}
use kabu.Db.Updates.{insert_contract}

module _ (revm : Revm) where
  pub insert_contract-keeps :
      (l : Layer) (info : AccountInfo)
      → let (t, _) = insert_contract revm l info in
        (t.accounts ≡ l.accounts) × (t.ext_db ≡ l.ext_db) × (t.block_hashes ≡ l.block_hashes)
  unfolding insert_contract
  insert_contract-keeps l info = elim (Option-cases info.code) [
    | inl e ↦ ground (arith, e)
    | inr ([], e) ↦ ground (arith, e)
    | inr (x ∷ xs, e) ↦ ground (arith, e)
  ]

  -- The information of an account once its code is stored: only the code hash is filled in.
  abbrev pub merged_info : AccountInfo → AccountInfo
  merged_info info = (insert_contract revm (new_layer revm) info).1

  pub insert_contract-info :
      (l : Layer) (info : AccountInfo) → (insert_contract revm l info).1 ≡ merged_info info
  unfolding insert_contract
  insert_contract-info l info = elim (Option-cases info.code) [
    | inl e ↦ ground (arith, e)
    | inr ([], e) ↦ ground (arith, e)
    | inr (x ∷ xs, e) ↦ ground (arith, e)
  ]
