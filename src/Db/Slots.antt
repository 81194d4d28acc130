-- ===== src/Db/Slots.antt =====
-- What a layer shows of a slot, with the database below as a value.
use kabu.Base.{
  ℕ, ◌≡◌, Bool, false, ◌&&◌, not, Option, none, some, arith, if◌then◌else◌, lookup, contains_key,
}
use kabu.Db.{
  Revm, Layer, KabuDb, Result, ok, DatabaseRef, is_cleared, get_or_fetch_storage, storage_ref,
}

-- The storage that a layer shows over what is below it.
abbrev pub slot_over : Layer → ℕ → ℕ → Result ℕ → Result ℕ
slot_over l a s rest = elim (lookup a l.accounts) [
  | none ↦ rest
  | some acc ↦ elim (lookup s acc.storage) [
    | some v ↦ ok v
    | none ↦ if is_cleared acc.account_state then ok 0 else rest
  ]
]

-- The slot shows zero since its account was cleared, and was not written since.
abbrev pub is_forgotten : KabuDb → ℕ → ℕ → Bool
is_forgotten db a s = elim (lookup a db.top.accounts) [
  | none ↦ false
  | some acc ↦ is_cleared acc.account_state && not (contains_key s acc.storage)
]

module _ (revm : Revm) where
  pub storage_ref-eq :
      (l : Layer) (r : Option DatabaseRef) (a s : ℕ)
      → storage_ref revm l r a s ≡ slot_over l a s (get_or_fetch_storage r l.ext_db a s)
  unfolding storage_ref
  storage_ref-eq l r a s = ground arith
