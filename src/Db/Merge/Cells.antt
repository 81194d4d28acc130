-- ===== src/Db/Merge/Cells.antt =====
-- What `merge_cells` and `merge_accounts` leave in the database below.
use kabu.Base.{
  lookup-modify_entry, modify_entry, All-lookup, ℕ, ◌≡◌, inl, inr, Option, none, some, List, [],
  ◌∷◌, arith, Option-cases, get_or_else, All, HashMap, lookup, contains_key, IsMap,
}
use kabu.Db.{Revm, touched, FastDbAccount, Layer, KabuDb}
use kabu.Db.Merge.{overwrite, merge_known, merge_known_layer, merge_cells}

lookup-overwrite {ℓ} :
    {V : Type ℓ} (k : ℕ) (m es : HashMap V)
    → IsMap es
    → lookup k (overwrite m es)
      ≡ elim (lookup k m) [ none ↦ none | some v ↦ some (get_or_else (lookup k es) v) ]
unfolding overwrite lookup
lookup-overwrite k m [] h = ground arith
lookup-overwrite k m (e ∷ es) h = ground (
  arith,
  lookup-overwrite k (modify_entry e.0 (λ _. e.1) m) es h.1,
  lookup-modify_entry k e.0 (λ _. e.1) m,
  h.0,
)

-- An account below, with the storage merged by `f`.
abbrev known_after :
    (HashMap ℕ → HashMap ℕ → HashMap ℕ) → FastDbAccount → Option FastDbAccount → FastDbAccount
known_after f old none = old
known_after f old (some acc) = record {
  info = acc.info;
  storage = f old.storage acc.storage;
  account_state = touched;
}

lookup-merge_known :
    (f : HashMap ℕ → HashMap ℕ → HashMap ℕ) (ro es : HashMap FastDbAccount) (a : ℕ)
    → IsMap es
    → lookup a (merge_known f ro es)
      ≡ elim (lookup a ro) [ none ↦ none | some old ↦ some (known_after f old (lookup a es)) ]
unfolding merge_known lookup
lookup-merge_known f ro [] a h = ground arith
lookup-merge_known f ro (e ∷ es) a h =
    let change = λ (acc : FastDbAccount). known_after f acc (some e.1) in
    ground (
      arith,
      lookup-merge_known f (modify_entry e.0 change ro) es a h.1,
      lookup-modify_entry a e.0 change ro,
      h.0,
    )

-- A slot that a layer has stored.
abbrev pub slot_of : Layer → ℕ → ℕ → Option ℕ
slot_of l a s = elim (lookup a l.accounts) [ none ↦ none | some acc ↦ lookup s acc.storage ]

-- After `merge_cells` the database below has the accounts and the slots that it had before, and no
-- others. Those that were written above have the value written, and the others their own. (There is
-- a database below, and no key is twice in a map.)
pub slot_of-merge_cells :
    (revm : Revm) (db : KabuDb) (ro : Layer) (rest : List Layer)
    → db.below ≡ ro ∷ rest
    → IsMap db.top.accounts
    → All (λ e. IsMap e.1.storage) db.top.accounts
    → (merged : Layer) × ((merge_cells revm db).below ≡ merged ∷ rest)
      × ((a s : ℕ)
          → slot_of merged a s ≡ elim (slot_of ro a s) [
            | none ↦ none
            | some v ↦ some (get_or_else (slot_of db.top a s) v)
          ])
      × ((a : ℕ) → contains_key a merged.accounts ≡ contains_key a ro.accounts)
unfolding merge_cells
slot_of-merge_cells revm db ro rest e h k = (
  merge_known_layer overwrite db.top ro,
  ground (arith, e),
  λ a s.
      let found = lookup-merge_known overwrite ro.accounts db.top.accounts a h in
      elim (Option-cases (lookup a ro.accounts)) [
        | inl f ↦ ground (arith, f, found)
        | inr (old, f) ↦ elim (Option-cases (lookup a db.top.accounts)) [
          | inl g ↦ ground (arith, f, g, found)
          | inr (acc, g) ↦
              let keys =
                All-lookup (λ (x : FastDbAccount). IsMap x.storage) a db.top.accounts k g in
              ground (arith, f, g, found, lookup-overwrite s old.storage acc.storage keys)
        ]
      ],
  λ a. ground (arith, lookup-merge_known overwrite ro.accounts db.top.accounts a h),
)
