-- ===== src/Db/Reads/Same.antt =====
-- Two databases with the same answers, and what caching an account keeps.
use mathlib.Core.Path.{subst}
use kabu.Base.{
  ℕ, ◌≡◌, refl, ◌≢◌, ◌⊎◌, inl, inr, none, some, arith, ◌==◌, if◌then◌else◌, ==_iff, Bool-cases,
  lookup, lookup-insert,
}
use kabu.Db.{
  Revm, AccountInfo, FastDbAccount, KabuDb, KabuDbError, Result, ok, err, account_info,
  get_or_fetch_storage, is_cleared, put_account, below_ref, as_ref, basic_ref, storage_ref,
  code_by_hash_ref, block_hash_ref,
}

pub Result-cases :
    {A : Type 0} (r : Result A) → ((a : A) × (r ≡ ok a)) ⊎ ((e : KabuDbError) × (r ≡ err e))
Result-cases (ok a) = inl (a, refl)
Result-cases (err e) = inr (e, refl)

module _ (revm : Revm) where
  -- The database knows the account, which is not the zero address.
  abbrev pub Has : KabuDb → ℕ → Type 0
  Has db address =
      (address ≢ 0) × (info : AccountInfo) × ((as_ref revm db).basic_ref address ≡ ok (some info))

  -- The answers are the same, the storage for accounts that the first knows.
  pub record SameAnswers (db db' : KabuDb) : Type 0 where
    pub basics : (a : ℕ) → (as_ref revm db').basic_ref a ≡ (as_ref revm db).basic_ref a
    pub storages :
        (a t : ℕ) → Has db a → (as_ref revm db').storage_ref a t ≡ (as_ref revm db).storage_ref a t
    pub codes : (h : ℕ) → (as_ref revm db').code_by_hash_ref h ≡ (as_ref revm db).code_by_hash_ref h
    pub hashes : (n : ℕ) → (as_ref revm db').block_hash_ref n ≡ (as_ref revm db).block_hash_ref n

  pub SameAnswers-refl : (db : KabuDb) → SameAnswers db db
  SameAnswers-refl db = record {
    basics = λ a. refl;
    storages = λ a t h. refl;
    codes = λ h. refl;
    hashes = λ n. refl;
  }

  -- The answer about a slot where the account is cached.
  abbrev pub cached_slot : KabuDb → ℕ → FastDbAccount → ℕ → Result ℕ
  cached_slot db address acc slot = elim (lookup slot acc.storage) [
    | some value ↦ ok value
    | none ↦
        if is_cleared acc.account_state
        then ok 0
        else get_or_fetch_storage (below_ref revm db.below) db.top.ext_db address slot
  ]

  pub put_account-SameAnswers :
      (db : KabuDb) (address : ℕ) (acc : FastDbAccount)
      → ok (account_info acc) ≡ (as_ref revm db).basic_ref address
      → ((t : ℕ)
          → Has db address
          → cached_slot db address acc t ≡ (as_ref revm db).storage_ref address t)
      → SameAnswers db (put_account revm db address acc)
  unfolding basic_ref storage_ref code_by_hash_ref block_hash_ref
  put_account-SameAnswers db address acc p q = record {
    basics = λ a. ground (arith, p, lookup-insert a address acc db.top.accounts);
    storages = λ a t h. elim (Bool-cases (a == address)) [
      | inl y ↦
          let same : a ≡ address = (==_iff a address).0 y in
          let stored = lookup-insert a address acc db.top.accounts in
          ground (arith, y, stored, q t (subst (Has db) same h))
      | inr y ↦ ground (arith, y, lookup-insert a address acc db.top.accounts)
    ];
    codes = λ h. refl;
    hashes = λ n. refl;
  }
