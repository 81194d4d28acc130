-- ===== src/Db/Reads/Accounts.antt =====
-- Reads of accounts and slots, which cache what they fetch.
use mathlib.Core.Path.{subst}
use kabu.Base.{
  ℕ, ℕ, ℕ, ℕ, ℕ, ℕ, ℕ, ◌≡◌, refl, sym, ap, ◌∙◌, ◌≢◌, ◌⊎◌, inl, inr, Option, none, some, arith,
  Bool-cases, Option-cases, lookup, insert, lookup-insert,
}
use kabu.Db.Reads.Same.{
  Result-cases, Has, SameAnswers, SameAnswers-refl, cached_slot, put_account-SameAnswers,
}
use kabu.Db.{
  Revm, AccountInfo, FastDbAccount, KabuDb, ok, unwrap_or, account_info, get_or_fetch_basic,
  get_or_fetch_storage, is_cleared, put_account, from_info, below_ref, as_ref, basic_ref,
  storage_ref, basic, storage,
}

module _ (revm : Revm) where
  pub basic-basic_ref :
      (db : KabuDb) (address : ℕ)
      → address ≢ 0
      → (basic revm db address).1 ≡ (as_ref revm db).basic_ref address
  unfolding basic basic_ref
  basic-basic_ref db address h = elim (Option-cases (lookup address db.top.accounts)) [
    | inr (acc, e) ↦ ground (arith, e)
    | inl e ↦
        elim (Option-cases
          (unwrap_or (get_or_fetch_basic (below_ref revm db.below) db.top.ext_db address) none)) [
            | inl f ↦ ground (arith, e, f)
            | inr (i, f) ↦ ground (arith, e, f)
          ]
  ]

  abbrev found : KabuDb → ℕ → Option AccountInfo
  found db address =
      unwrap_or (get_or_fetch_basic (below_ref revm db.below) db.top.ext_db address) none

  from_info-info : (i : Option AccountInfo) → account_info (from_info revm i) ≡ i
  from_info-info none = refl
  from_info-info (some i) = refl

  found-some :
      (db : KabuDb) (address : ℕ)
      → lookup address db.top.accounts ≡ none
      → (h : Has revm db address) → found db address ≡ some h.1
  unfolding basic_ref
  found-some db address e (h, i, q) = ground (arith, e, h, q)

  storage_ref-fetched :
      (db : KabuDb) (address slot : ℕ)
      → lookup address db.top.accounts ≡ none
      → (as_ref revm db).storage_ref address slot
        ≡ get_or_fetch_storage (below_ref revm db.below) db.top.ext_db address slot
  unfolding storage_ref
  storage_ref-fetched db address slot e = ground (arith, e)

  cached_slot-found :
      (db : KabuDb) (address : ℕ)
      → lookup address db.top.accounts ≡ none
      → (t : ℕ) → Has revm db address
      → cached_slot revm db address (from_info revm (found db address)) t
        ≡ (as_ref revm db).storage_ref address t
  unfolding lookup
  cached_slot-found db address e t h =
      ground (arith, e, found-some db address e h, storage_ref-fetched db address t e)

  pub basic-SameAnswers :
      (db : KabuDb) (address : ℕ) → address ≢ 0 → SameAnswers revm db (basic revm db address).0
  unfolding basic
  basic-SameAnswers db address h = elim (Option-cases (lookup address db.top.accounts)) [
    | inr (acc, e) ↦
        let same : (basic revm db address).0 ≡ db = ground (arith, e) in
        subst (SameAnswers revm db) (sym same) (SameAnswers-refl revm db)
    | inl e ↦
        let acc = from_info revm (found db address) in
        let put : (basic revm db address).0 ≡ put_account revm db address acc = ground (arith, e) in
        let shown : ok (account_info acc) ≡ (as_ref revm db).basic_ref address =
          ground (arith, from_info-info (found db address), basic-basic_ref db address h, e) in
        subst (SameAnswers revm db) (sym put)
          (put_account-SameAnswers revm db address acc shown (cached_slot-found db address e))
  ]

  -- The account with the slot that was fetched.
  cached_slot-insert :
      (db : KabuDb) (address slot value t : ℕ) (acc : FastDbAccount)
      → cached_slot revm db address acc slot ≡ ok value
      → cached_slot revm db address (record acc { storage = insert slot value acc.storage }) t
        ≡ cached_slot revm db address acc t
  cached_slot-insert db address slot value t acc h =
      ground (arith, lookup-insert t slot value acc.storage)

  storage_ref-cached :
      (db : KabuDb) (address slot : ℕ) (acc : FastDbAccount)
      → lookup address db.top.accounts ≡ some acc
      → (as_ref revm db).storage_ref address slot ≡ cached_slot revm db address acc slot
  unfolding storage_ref
  storage_ref-cached db address slot acc e = ground (arith, e)

  basic_ref-cached :
      (db : KabuDb) (address : ℕ) (acc : FastDbAccount)
      → lookup address db.top.accounts ≡ some acc
      → address ≢ 0
      → (as_ref revm db).basic_ref address ≡ ok (account_info acc)
  unfolding basic_ref
  basic_ref-cached db address acc e h = ground (arith, e, h)

  -- What a read of a slot does: nothing, or it caches the slot of an account that is shown as before.
  abbrev Caches : KabuDb → ℕ → ℕ → Type 0
  Caches db address slot =
      (acc : FastDbAccount) × (value : ℕ) × (storage revm db address slot ≡ (
        put_account revm db address (record acc { storage = insert slot value acc.storage }),
        ok value,
      ))
      × (ok (account_info acc) ≡ (as_ref revm db).basic_ref address)
      × ((t : ℕ) → cached_slot revm db address acc t ≡ (as_ref revm db).storage_ref address t)
      × ((as_ref revm db).storage_ref address slot ≡ ok value)

  storage-cases :
      (db : KabuDb) (address slot : ℕ)
      → Has revm db address
      → (storage revm db address slot ≡ (db, (as_ref revm db).storage_ref address slot))
        ⊎ Caches db address slot
  unfolding storage
  storage-cases db address slot h =
      let fetched = get_or_fetch_storage (below_ref revm db.below) db.top.ext_db address slot in
      elim (Option-cases (lookup address db.top.accounts)) [
        | inr (acc, e) ↦
            let known = storage_ref-cached db address slot acc e in
            elim (Option-cases (lookup slot acc.storage)) [
              | inr (v, f) ↦ inl (ground (arith, e, f, known))
              | inl f ↦ elim (Bool-cases (is_cleared acc.account_state)) [
                | inl y ↦ inl (ground (arith, e, f, known, y))
                | inr y ↦ elim (Result-cases fetched) [
                  | inr (x, g) ↦ inl (ground (arith, e, f, known, y, g))
                  | inl (v, g) ↦ inr (
                    acc,
                    v,
                    ground (arith, e, f, y, g),
                    sym (basic_ref-cached db address acc e h.0),
                    λ t. sym (storage_ref-cached db address t acc e),
                    ground (arith, f, known, y, g),
                  )
                ]
              ]
            ]
        | inl e ↦
            let i = h.1 in
            let f = found-some db address e h in
            let known = storage_ref-fetched db address slot e in
            elim (Result-cases fetched) [
              | inr (x, g) ↦ inl (ground (arith, e, f, g, known))
              | inl (v, g) ↦ inr (
                from_info revm (some i),
                v,
                ground (arith, e, f, g),
                sym h.2,
                λ t.
                    subst
                      (λ o.
                        cached_slot revm db address (from_info revm o) t
                        ≡ (as_ref revm db).storage_ref address t)
                      f (cached_slot-found db address e t h),
                known ∙ g,
              )
            ]
      ]

  pub storage-storage_ref :
      (db : KabuDb) (address slot : ℕ)
      → Has revm db address
      → ((storage revm db address slot).1 ≡ (as_ref revm db).storage_ref address slot)
        × SameAnswers revm db (storage revm db address slot).0
  storage-storage_ref db address slot h = elim (storage-cases db address slot h) [
    | inl e ↦
        (ap (λ p. p.1) e, subst (λ p. SameAnswers revm db p.0) (sym e) (SameAnswers-refl revm db))
    | inr (acc, v, e, basics, slots, value) ↦ (
      ap (λ p. p.1) e ∙ sym value,
      subst (λ p. SameAnswers revm db p.0) (sym e)
          (put_account-SameAnswers revm db address
            (record acc { storage = insert slot v acc.storage }) basics
            (λ t k. cached_slot-insert db address slot v t acc (slots slot ∙ value) ∙ slots t)),
    )
  ]
