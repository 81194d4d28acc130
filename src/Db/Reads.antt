-- ===== src/Db/Reads.antt =====
-- Reads of a `KabuDB` through `Database`, which cache what they fetch, against those through
-- `DatabaseRef`, which do not.
pub mod Same
pub mod Accounts
pub mod Tables
use mathlib.Core.Path.{subst}
use kabu.Base.{
  ℕ, zero, suc, ◌+◌, ◌-◌, ◌*◌, ◌/◌, ◌%◌, ◌^◌, ◌≤◌, ◌<◌, ◌≡◌, refl, sym, ap, ◌∙◌, ◌≢◌, ◌↔◌, ◌⊎◌, inl,
  inr, Bool, true, false, ◌&&◌, ◌||◌, not, Option, none, some, List, [], ◌∷◌, ◌++◌, map, reverse,
  arith, ltb, leb, ◌==◌, if◌then◌else◌, ltb→lt, lt→ltb, leb→le, ==_iff, ==_refl, Bool-cases,
  Option-cases, is_some, get_or_else, length, get_elem?, take, drop, head?, get_last?, any, All,
  length-append, take-append-drop, length-take, length-drop, get_last?-append, All-append, HashMap,
  lookup, contains_key, insert, erase, retain, alter, values, lookup-insert, lookup-insert_self,
  lookup-insert_ne, lookup-erase, lookup-retain_key, IsMap, insert-IsMap, lookup-retain,
  retain-IsMap, erase-IsMap, any-values,
}
use kabu.Db.Reads.Same.{
  Result-cases, Has, SameAnswers, SameAnswers-refl, cached_slot, put_account-SameAnswers,
}
use kabu.Db.Reads.Accounts.{basic-basic_ref, basic-SameAnswers, storage-storage_ref}
use kabu.Db.Reads.Tables.{code_by_hash-code_by_hash_ref, block_hash-block_hash_ref}
use kabu.Db.{
  Revm, AccountInfo, not_existing, unset, FastDbAccount, KabuDb, KabuDbError, Result, ok, err,
  unwrap_or, DatabaseRef, account_info, get_or_fetch_basic, get_or_fetch_storage, get_code_by_hash,
  is_cleared, put_account, from_info, get_or_fetch_block_hash, below_ref, as_ref, basic_ref,
  storage_ref, code_by_hash_ref, block_hash_ref, load_account, basic, storage, code_by_hash,
  block_hash,
}

pub data Read : Type 0 where
  reads_basic reads_code reads_block_hash : ℕ → Read
  reads_storage : ℕ → ℕ → Read

pub data Answer : Type 0 where
  info : Result (Option AccountInfo) → Answer
  word : Result ℕ → Answer
  code : Result (List ℕ) → Answer

-- What a database answers.
abbrev pub answer : DatabaseRef → Read → Answer
answer db (reads_basic address) = info (db.basic_ref address)
answer db (reads_storage address slot) = word (db.storage_ref address slot)
answer db (reads_code hash) = code (db.code_by_hash_ref hash)
answer db (reads_block_hash number) = word (db.block_hash_ref number)

module _ (revm : Revm) where
  abbrev perform : KabuDb → Read → KabuDb × Answer
  perform db (reads_basic address) = let (db', r) = basic revm db address in (db', info r)
  perform db (reads_storage address slot) =
      let (db', r) = storage revm db address slot in (db', word r)
  perform db (reads_code hash) = let (db', r) = code_by_hash revm db hash in (db', code r)
  perform db (reads_block_hash number) = let (db', r) = block_hash revm db number in (db', word r)

  pub run : KabuDb → List Read → List Answer
  run db [] = []
  run db (r ∷ rs) = let (db', a) = perform db r in a ∷ run db' rs

  abbrev pub Known : KabuDb → Read → Type 0
  Known db (reads_basic address) = address ≢ 0
  Known db (reads_storage address slot) = Has revm db address
  Known db (reads_code hash) = Unit {0}
  Known db (reads_block_hash number) = Unit {0}

  perform-answer :
      (db : KabuDb) (r : Read)
      → Known db r
      → ((perform db r).1 ≡ answer (as_ref revm db) r) × SameAnswers revm db (perform db r).0
  perform-answer db (reads_basic a) k =
      (ap info (basic-basic_ref revm db a k), basic-SameAnswers revm db a k)
  perform-answer db (reads_storage a t) k =
      let (e, same) = storage-storage_ref revm db a t k in (ap word e, same)
  perform-answer db (reads_code h) k =
      let (e, same) = code_by_hash-code_by_hash_ref revm db h in (ap code e, same)
  perform-answer db (reads_block_hash n) k =
      let (e, same) = block_hash-block_hash_ref revm db n in (ap word e, same)

  Known-SameAnswers :
      {db db' : KabuDb} (r : Read) → SameAnswers revm db db' → Known db r → Known db' r
  Known-SameAnswers (reads_basic a) same k = k
  Known-SameAnswers (reads_storage a t) same (h, i, q) = (h, i, same.basics a ∙ q)
  Known-SameAnswers (reads_code h) same k = k
  Known-SameAnswers (reads_block_hash n) same k = k

  All-Known :
      {db db' : KabuDb} (rs : List Read)
      → SameAnswers revm db db'
      → All (Known db) rs
      → All (Known db') rs
  All-Known [] same k = tt
  All-Known (r ∷ rs) same k = (Known-SameAnswers r same k.0, All-Known rs same k.1)

  answer-SameAnswers :
      {db db' : KabuDb} (r : Read)
      → SameAnswers revm db db'
      → Known db r
      → answer (as_ref revm db') r ≡ answer (as_ref revm db) r
  answer-SameAnswers (reads_basic a) same k = ap info (same.basics a)
  answer-SameAnswers (reads_storage a t) same k = ap word (same.storages a t k)
  answer-SameAnswers (reads_code h) same k = ap code (same.codes h)
  answer-SameAnswers (reads_block_hash n) same k = ap word (same.hashes n)

  map-answer :
      {db db' : KabuDb} (rs : List Read)
      → SameAnswers revm db db'
      → All (Known db) rs
      → map (answer (as_ref revm db')) rs ≡ map (answer (as_ref revm db)) rs
  map-answer [] same k = refl
  map-answer (r ∷ rs) same k = cc (answer-SameAnswers r same k.0, map-answer rs same k.1)

  -- Caching is not seen: any reads, one after the other on the database that the last one left, give
  -- what the database answers that nothing is written to. (No read is of the zero address, and a
  -- slot is read of an account that the database knows.)
  pub run-answer :
      (db : KabuDb) (rs : List Read)
      → All (Known db) rs
      → run db rs ≡ map (answer (as_ref revm db)) rs
  unfolding run
  run-answer db [] k = refl
  run-answer db (r ∷ rs) k =
      let (e, same) = perform-answer db r k.0 in
      let rest = run-answer (perform db r).0 rs (All-Known rs same k.1) in
      cc (e, rest, map-answer rs same k.1)
