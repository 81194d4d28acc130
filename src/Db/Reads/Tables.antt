-- ===== src/Db/Reads/Tables.antt =====
-- Reads of code and block hashes, which cache what they fetch.
use mathlib.Core.Path.{subst}
use kabu.Base.{
  ℕ, ◌≡◌, refl, sym, inl, inr, List, arith, Option-cases, lookup, insert, lookup-insert,
}
use kabu.Db.Reads.Same.{Result-cases, SameAnswers, SameAnswers-refl}
use kabu.Db.{
  Revm, KabuDb, ok, err, get_code_by_hash, get_or_fetch_block_hash, below_ref, as_ref, basic_ref,
  storage_ref, code_by_hash_ref, block_hash_ref, code_by_hash, block_hash,
}

module _ (revm : Revm) where
  contract-SameAnswers :
      (db : KabuDb) (hash : ℕ) (bytes : List ℕ)
      → (as_ref revm db).code_by_hash_ref hash ≡ ok bytes
      → SameAnswers revm db
          (record db { top = record db.top { contracts = insert hash bytes db.top.contracts } })
  unfolding code_by_hash_ref basic_ref storage_ref block_hash_ref
  contract-SameAnswers db hash bytes q = record {
    basics = λ a. refl;
    storages = λ a t h. refl;
    codes = λ h. ground (arith, q, lookup-insert h hash bytes db.top.contracts);
    hashes = λ n. refl;
  }

  pub code_by_hash-code_by_hash_ref :
      (db : KabuDb) (hash : ℕ)
      → ((code_by_hash revm db hash).1 ≡ (as_ref revm db).code_by_hash_ref hash)
        × SameAnswers revm db (code_by_hash revm db hash).0
  unfolding code_by_hash code_by_hash_ref
  code_by_hash-code_by_hash_ref db hash = elim (Option-cases (lookup hash db.top.contracts)) [
    | inr (c, e) ↦
        let same : code_by_hash revm db hash ≡ (db, ok c) = ground (arith, e) in
        (
          ground (arith, e),
          subst (λ p. SameAnswers revm db p.0) (sym same) (SameAnswers-refl revm db),
        )
    | inl e ↦ elim (Result-cases (get_code_by_hash (below_ref revm db.below) hash)) [
      | inr (x, g) ↦
          let same : code_by_hash revm db hash ≡ (db, err x) = ground (arith, e, g) in
          (
            ground (arith, e, g),
            subst (λ p. SameAnswers revm db p.0) (sym same) (SameAnswers-refl revm db),
          )
      | inl (c, g) ↦
          let top = record db.top { contracts = insert hash c db.top.contracts } in
          let put : code_by_hash revm db hash ≡ (record db { top = top }, ok c) =
            ground (arith, e, g) in
          (
            ground (arith, e, g),
            subst (λ p. SameAnswers revm db p.0) (sym put)
                (contract-SameAnswers db hash c (ground (arith, e, g))),
          )
    ]
  ]

  hash-SameAnswers :
      (db : KabuDb) (number hash : ℕ)
      → (as_ref revm db).block_hash_ref number ≡ ok hash
      → SameAnswers revm db (record db {
        top = record db.top { block_hashes = insert number hash db.top.block_hashes };
      })
  unfolding code_by_hash_ref basic_ref storage_ref block_hash_ref
  hash-SameAnswers db number hash q = record {
    basics = λ a. refl;
    storages = λ a t h. refl;
    codes = λ h. refl;
    hashes = λ n. ground (arith, q, lookup-insert n number hash db.top.block_hashes);
  }

  pub block_hash-block_hash_ref :
      (db : KabuDb) (number : ℕ)
      → ((block_hash revm db number).1 ≡ (as_ref revm db).block_hash_ref number)
        × SameAnswers revm db (block_hash revm db number).0
  unfolding block_hash block_hash_ref
  block_hash-block_hash_ref db number = elim (Option-cases (lookup number db.top.block_hashes)) [
    | inr (c, e) ↦
        let same : block_hash revm db number ≡ (db, ok c) = ground (arith, e) in
        (
          ground (arith, e),
          subst (λ p. SameAnswers revm db p.0) (sym same) (SameAnswers-refl revm db),
        )
    | inl e ↦
        elim (Result-cases
          (get_or_fetch_block_hash (below_ref revm db.below) db.top.ext_db number)) [
            | inr (x, g) ↦
                let same : block_hash revm db number ≡ (db, err x) = ground (arith, e, g) in
                (
                  ground (arith, e, g),
                  subst (λ p. SameAnswers revm db p.0) (sym same) (SameAnswers-refl revm db),
                )
            | inl (c, g) ↦
                let top = record db.top { block_hashes = insert number c db.top.block_hashes } in
                let put : block_hash revm db number ≡ (record db { top = top }, ok c) =
                  ground (arith, e, g) in
                (
                  ground (arith, e, g),
                  subst (λ p. SameAnswers revm db p.0) (sym put)
                      (hash-SameAnswers db number c (ground (arith, e, g))),
                )
          ]
  ]
