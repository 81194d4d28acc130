-- ===== src/Db/Merge/Storage.antt =====
-- What `merge_all` and `merge_cells` do to the storage that a database shows.
use kabu.Base.{
  All-lookup, lookup-extend, extend, ℕ, ◌≡◌, refl, ap, ◌∙◌, inl, inr, Option, none, some, List, [],
  ◌∷◌, arith, if◌then◌else◌, Option-cases, All, HashMap, lookup, lookup-insert, IsMap,
}
use kabu.Db.Contracts.{insert_contract-keeps, insert_contract-info, merged_info}
use kabu.Db.Slots.{slot_over, storage_ref-eq, is_forgotten}
use kabu.Db.{
  or_else, layer_ref, fetch_storage, below_ref, as_ref, KabuDb, get_or_fetch_storage, DatabaseRef,
  ok, storage_ref, Result, Revm, FastDbAccount, Layer, new_layer,
}
use kabu.Db.Updates.{insert_contract, or_default, set_account}
use kabu.Db.Merge.{merge_all, merge_tables, merge_accounts_all}

module _ (revm : Revm) where
  abbrev merged : FastDbAccount → FastDbAccount → FastDbAccount
  merged old acc = record old {
    info = merged_info revm acc.info;
    storage = extend old.storage acc.storage;
  }

  merge_accounts_all-ext_db :
      (ro : Layer) (es : HashMap FastDbAccount) → (merge_accounts_all revm ro es).ext_db ≡ ro.ext_db
  unfolding merge_accounts_all
  merge_accounts_all-ext_db ro [] = refl
  merge_accounts_all-ext_db ro (e ∷ es) =
      let (l, info) = insert_contract revm ro e.1.info in
      merge_accounts_all-ext_db
        (set_account revm l e.0 (record (or_default revm l e.0) {
          info = info;
          storage = extend (or_default revm l e.0).storage e.1.storage;
        }))
        es
      ∙ (insert_contract-keeps revm ro e.1.info).1

  lookup-merge_accounts_all :
      (ro : Layer) (es : HashMap FastDbAccount) (a : ℕ)
      → IsMap es
      → lookup a (merge_accounts_all revm ro es).accounts ≡ elim (lookup a es) [
        | none ↦ lookup a ro.accounts
        | some acc ↦ some (merged (or_default revm ro a) acc)
      ]
  unfolding merge_accounts_all lookup
  lookup-merge_accounts_all ro [] a h = refl
  lookup-merge_accounts_all ro (e ∷ es) a h =
      let (l, info) = insert_contract revm ro e.1.info in
      let acc = record (or_default revm l e.0) {
        info = info;
        storage = extend (or_default revm l e.0).storage e.1.storage;
      } in
      ground (
        arith,
        lookup-merge_accounts_all (set_account revm l e.0 acc) es a h.1,
        insert_contract-keeps revm ro e.1.info,
        insert_contract-info revm ro e.1.info,
        lookup-insert a e.0 acc l.accounts,
      )

  -- The slots that a layer has written, over what is below it.
  abbrev pub written_over : HashMap FastDbAccount → ℕ → ℕ → Result ℕ → Result ℕ
  written_over accounts a s rest = elim (lookup a accounts) [
    | none ↦ rest
    | some acc ↦ elim (lookup s acc.storage) [ none ↦ rest | some v ↦ ok v ]
  ]

  slot_over-merge :
      (top ro : Layer) (a s : ℕ) (rest : Result ℕ)
      → IsMap top.accounts
      → All (λ e. IsMap e.1.storage) top.accounts
      → slot_over (merge_accounts_all revm (merge_tables top ro) top.accounts) a s rest
        ≡ written_over top.accounts a s (slot_over ro a s rest)
  unfolding merge_tables lookup
  slot_over-merge top ro a s rest h k =
      let l = merge_tables top ro in
      let found = lookup-merge_accounts_all l top.accounts a h in
      elim (Option-cases (lookup a top.accounts)) [
        | inl e ↦ ground (arith, e, found)
        | inr (acc, e) ↦
            let old = or_default revm ro a in
            let stored =
              lookup-extend s old.storage acc.storage
                (All-lookup (λ (v : FastDbAccount). IsMap v.storage) a top.accounts k e) in
            elim (Option-cases (lookup a ro.accounts)) [
              | inl f ↦ ground (arith, e, f, found, stored)
              | inr (x, f) ↦ ground (arith, e, f, found, stored)
            ]
      ]

  merge_all-eq :
      (db : KabuDb) (ro : Layer) (rest : List Layer)
      → db.below ≡ ro ∷ rest
      → merge_all revm db ≡ record {
        top = record (new_layer revm) { ext_db = db.top.ext_db };
        below = merge_accounts_all revm (merge_tables db.top ro) db.top.accounts ∷ rest;
      }
  unfolding merge_all
  merge_all-eq db ro rest e = ground (arith, e)

  merged-storage_ref :
      (top ro : Layer) (r : Option DatabaseRef) (a s : ℕ)
      → IsMap top.accounts
      → All (λ e. IsMap e.1.storage) top.accounts
      → storage_ref revm (merge_accounts_all revm (merge_tables top ro) top.accounts) r a s
        ≡ written_over top.accounts a s (storage_ref revm ro r a s)
  unfolding merge_tables
  merged-storage_ref top ro r a s h k =
      let m = merge_accounts_all revm (merge_tables top ro) top.accounts in
      let ext = merge_accounts_all-ext_db (merge_tables top ro) top.accounts in
      ground (
        arith,
        storage_ref-eq revm m r a s,
        storage_ref-eq revm ro r a s,
        slot_over-merge top ro a s (get_or_fetch_storage r ro.ext_db a s) h k,
        ext,
      )

  or_else-written_over :
      (accounts : HashMap FastDbAccount) (a s : ℕ) (x y : Result ℕ)
      → or_else (written_over accounts a s x) y ≡ written_over accounts a s (or_else x y)
  or_else-written_over accounts a s x y = ground arith

  storage_ref-above :
      (ext ro : Option DatabaseRef) (a s : ℕ)
      → storage_ref revm (record (new_layer revm) { ext_db = ext }) ro a s
        ≡ get_or_fetch_storage ro ext a s
  unfolding new_layer storage_ref lookup
  storage_ref-above ext ro a s = refl

  -- What the database shows once its layer is merged: the slots that were written over what the
  -- database below shows.
  storage_ref-merge_all_written :
      (db : KabuDb) (ro : Layer) (rest : List Layer) (a s : ℕ)
      → db.below ≡ ro ∷ rest
      → IsMap db.top.accounts
      → All (λ e. IsMap e.1.storage) db.top.accounts
      → (as_ref revm (merge_all revm db)).storage_ref a s
        ≡ written_over db.top.accounts a s
            (get_or_fetch_storage (below_ref revm db.below) db.top.ext_db a s)
  unfolding get_or_fetch_storage
  storage_ref-merge_all_written db ro rest a s e h k =
      let m = merge_accounts_all revm (merge_tables db.top ro) db.top.accounts in
      let r = below_ref revm rest in
      let shown = merged-storage_ref db.top ro r a s h k in
      let fetched = fetch_storage db.top.ext_db a s in
      rw (merge_all-eq db ro rest e, e)
        (storage_ref-above db.top.ext_db (some (layer_ref revm m r)) a s
          ∙ ap (λ x. or_else x fetched) shown
          ∙ or_else-written_over db.top.accounts a s (storage_ref revm ro r a s) fetched)

  -- A merge keeps what the database shows of every slot, but for a slot that shows zero since its
  -- account was cleared: that one shows again what the database below shows. (There is a database
  -- below, and no key is twice in a map.)
  pub storage_ref-merge_all :
      (db : KabuDb) (ro : Layer) (rest : List Layer) (a s : ℕ)
      → db.below ≡ ro ∷ rest
      → IsMap db.top.accounts
      → All (λ e. IsMap e.1.storage) db.top.accounts
      → (as_ref revm (merge_all revm db)).storage_ref a s ≡ (
          if is_forgotten db a s
          then get_or_fetch_storage (below_ref revm db.below) db.top.ext_db a s
          else (as_ref revm db).storage_ref a s)
  storage_ref-merge_all db ro rest a s e h k = ground (
    arith,
    storage_ref-merge_all_written db ro rest a s e h k,
    storage_ref-eq revm db.top (below_ref revm db.below) a s,
  )
