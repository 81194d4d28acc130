-- ===== src/Db/Updates/Commit.antt =====
-- What a database shows after the changes of an executed transaction.
use kabu.Base.{
  lookup-extend, extend, All-lookup, ℕ, ◌≡◌, refl, ◌∙◌, inl, inr, Bool, true, false, ◌&&◌, not,
  Option, none, some, [], ◌∷◌, arith, ◌==◌, if◌then◌else◌, ==_iff, Bool-cases, Option-cases,
  get_or_else, All, HashMap, lookup, contains_key, lookup-insert, IsMap,
}
use kabu.Db.{
  below_ref, get_or_fetch_storage, ok, as_ref, Result, storage_ref, Revm, not_existing, touched,
  storage_cleared, FastDbAccount, KabuDb, default_account,
}
use kabu.Db.Contracts.{insert_contract-keeps, insert_contract-info, merged_info}
use kabu.Db.Updates.{commit, Account, insert_contract, commit_account}

module _ (revm : Revm) where
  -- What is cached of an account after its change; the first argument is what was cached before.
  abbrev committed : FastDbAccount → Account → FastDbAccount
  committed old acc =
      if acc.is_selfdestructed
      then record { storage = []; account_state = not_existing; info = revm.default_info }
      else record {
        info = merged_info revm acc.info;
        account_state =
            if acc.is_created
            then storage_cleared
            else (elim old.account_state [ storage_cleared ↦ storage_cleared | _ ↦ touched ]);
        storage = extend (if acc.is_created then [] else old.storage) acc.storage;
      }

  abbrev cached_after : Option FastDbAccount → Account → Option FastDbAccount
  cached_after old acc =
      if acc.is_touched then some (committed (get_or_else old (default_account revm)) acc) else old

  commit_account-keeps :
      (db : KabuDb) (a : ℕ) (acc : Account)
      → let t = commit_account revm db a acc in
        (t.below ≡ db.below) × (t.top.ext_db ≡ db.top.ext_db)
  unfolding commit_account
  commit_account-keeps db a acc =
      (ground arith, ground (arith, insert_contract-keeps revm db.top acc.info))

  lookup-commit_account :
      (db : KabuDb) (a b : ℕ) (acc : Account)
      → lookup b (commit_account revm db a acc).top.accounts
        ≡ (if b == a then cached_after (lookup a db.top.accounts) acc else lookup b db.top.accounts)
  unfolding commit_account
  lookup-commit_account db a b acc = elim (Bool-cases acc.is_touched) [
    | inr x ↦ ground (arith, x)
    | inl x ↦ elim (Bool-cases acc.is_selfdestructed) [
      | inl y ↦
          ground
            (arith, x, y, lookup-insert b a (committed (default_account revm) acc) db.top.accounts)
      | inr y ↦
          let l = (insert_contract revm db.top acc.info).0 in
          ground (
            arith,
            x,
            y,
            insert_contract-keeps revm db.top acc.info,
            insert_contract-info revm db.top acc.info,
            lookup-insert b a
                (committed (get_or_else (lookup a db.top.accounts) (default_account revm)) acc)
                l.accounts,
          )
    ]
  ]

  lookup-commit :
      (db : KabuDb) (cs : HashMap Account) (a : ℕ)
      → IsMap cs
      → lookup a (commit revm db cs).top.accounts ≡ elim (lookup a cs) [
        | none ↦ lookup a db.top.accounts
        | some acc ↦ cached_after (lookup a db.top.accounts) acc
      ]
  unfolding commit lookup
  lookup-commit db [] a h = refl
  lookup-commit db (c ∷ cs) a h =
      let later = lookup-commit (commit_account revm db c.0 c.1) cs a h.1 in
      let now = lookup-commit_account db c.0 a c.1 in
      elim (Bool-cases (a == c.0)) [
        | inl y ↦
            let same : a ≡ c.0 = (==_iff a c.0).0 y in
            let gone : lookup a cs ≡ none = ground (arith, same, h.0) in
            let kept : lookup c.0 db.top.accounts ≡ lookup a db.top.accounts = rw same in
            ground (arith, y, later, now, gone, kept)
        | inr y ↦ elim (Option-cases (lookup a cs)) [
          | inl e ↦ ground (arith, y, later, now, e)
          | inr (acc, e) ↦ ground (arith, y, later, now, e)
        ]
      ]

  commit-keeps :
      (db : KabuDb) (cs : HashMap Account)
      → ((commit revm db cs).below ≡ db.below) × ((commit revm db cs).top.ext_db ≡ db.top.ext_db)
  unfolding commit
  commit-keeps db [] = (refl, refl)
  commit-keeps db (c ∷ cs) =
      let (p, q) = commit-keeps (commit_account revm db c.0 c.1) cs in
      let (x, y) = commit_account-keeps db c.0 c.1 in (p ∙ x, q ∙ y)

  -- The account is cached as one that does not exist, and the slot is not written.
  abbrev pub is_gone : KabuDb → ℕ → ℕ → Bool
  is_gone db a s = elim (lookup a db.top.accounts) [
    | none ↦ false
    | some acc ↦
        (elim acc.account_state [ not_existing ↦ true | _ ↦ false ])
        && not (contains_key s acc.storage)
  ]

  -- What a slot shows after the change of its account.
  abbrev pub slot_after : KabuDb → ℕ → ℕ → Account → Result ℕ
  slot_after db a s acc =
      if not acc.is_touched
      then (as_ref revm db).storage_ref a s
      else (if acc.is_selfdestructed then ok 0 else (elim (lookup s acc.storage) [
        | some v ↦ ok v
        | none ↦
            if acc.is_created
            then ok 0
            else (if is_gone db a s
                then get_or_fetch_storage (below_ref revm db.below) db.top.ext_db a s
                else (as_ref revm db).storage_ref a s)
      ]))

  -- After a commit a slot shows what the change of its account wrote, zero where the account is
  -- destroyed or created and did not write it, and what it showed before where the account is not
  -- touched or the slot not written. One case differs: where the account was cached as not existing,
  -- a change that does not create it shows the slots of the database below. (No key is twice in a
  -- map.)
  pub storage_ref-commit :
      (db : KabuDb) (cs : HashMap Account) (a s : ℕ)
      → IsMap cs
      → All (λ e. IsMap e.1.storage) cs
      → (as_ref revm (commit revm db cs)).storage_ref a s ≡ elim (lookup a cs) [
        | none ↦ (as_ref revm db).storage_ref a s
        | some acc ↦ slot_after db a s acc
      ]
  unfolding storage_ref lookup
  storage_ref-commit db cs a s h k =
      let (below, ext) = commit-keeps db cs in
      let now = lookup-commit db cs a h in
      elim (Option-cases (lookup a cs)) [
        | inl e ↦ ground (arith, e, below, ext, now)
        | inr (acc, e) ↦
            let keys = All-lookup (λ (c : Account). IsMap c.storage) a cs k e in
            let fresh = lookup-extend s [] acc.storage keys in
            elim (Option-cases (lookup a db.top.accounts)) [
              | inl f ↦ ground (arith, e, f, below, ext, now, fresh)
              | inr (old, f) ↦
                  let kept = lookup-extend s old.storage acc.storage keys in
                  ground (arith, e, f, below, ext, now, fresh, kept)
            ]
      ]
