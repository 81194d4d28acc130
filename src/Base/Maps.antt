-- ===== src/Base/Maps.antt =====
-- Rust's hash maps with numbers for keys, as association lists. The order of iteration, which
-- the standard library leaves open, is the order of insertion.
use Prim.Native.Nat.{ℕ}
use mathlib.Core.Path.{◌≡◌, refl, subst}
use mathlib.Core.Logic.{◌≢◌, inl, inr}
use mathlib.Core.List.{List, [], ◌∷◌}
use mathlib.Core.Option.{Option, none, some}
use mathlib.Core.Bool.{Bool, true, false}
use native.Mathlib.Omega.{arith}
use kabu.Base.Lists.{any, All}
use kabu.Base.Tests.{◌==◌, if◌then◌else◌, is_some, get_or_else, Option-cases, Bool-cases}

abbrev pub HashMap {ℓ} : Type ℓ → Type ℓ
HashMap V = List (ℕ × V)

module _ {ℓ} {V : Type ℓ} where
  -- `m.get(&k)`
  unfoldable pub lookup : ℕ → HashMap V → Option V
  lookup k [] = none
  lookup k (e ∷ m) = if k == e.0 then some e.1 else lookup k m

  -- `m.contains_key(&k)`
  abbrev pub contains_key : ℕ → HashMap V → Bool
  contains_key k m = is_some (lookup k m)

  -- `m.insert(k, v)`
  unfoldable pub insert : ℕ → V → HashMap V → HashMap V
  insert k v [] = (k, v) ∷ []
  insert k v (e ∷ m) = if k == e.0 then (k, v) ∷ m else e ∷ insert k v m

  -- `m.remove(&k)`
  unfoldable pub erase : ℕ → HashMap V → HashMap V
  erase k [] = []
  erase k (e ∷ m) = if k == e.0 then erase k m else e ∷ erase k m

  -- `m.retain(|k, v| p(k, v))`
  unfoldable pub retain : (ℕ → V → Bool) → HashMap V → HashMap V
  retain p [] = []
  retain p (e ∷ m) = if p e.0 e.1 then e ∷ retain p m else retain p m

  -- `m.entry(k).or_insert(d)`, followed by a change through the reference.
  abbrev pub alter : ℕ → V → (V → V) → HashMap V → HashMap V
  alter k d f m = insert k (f (get_or_else (lookup k m) d)) m

  -- `m.extend(entries)`, and a loop that inserts each entry.
  unfoldable pub extend : HashMap V → HashMap V → HashMap V
  extend m [] = m
  extend m (e ∷ es) = extend (insert e.0 e.1 m) es

  -- `m.entry(k).and_modify(f)`
  abbrev pub modify_entry : ℕ → (V → V) → HashMap V → HashMap V
  modify_entry k f m = elim (lookup k m) [ none ↦ m | some v ↦ insert k (f v) m ]

  -- `m.values()`
  unfoldable pub values : HashMap V → List V
  values [] = []
  values (e ∷ m) = e.1 ∷ values m

module _ {ℓ} {V : Type ℓ} where
  pub lookup-insert :
      (j k : ℕ) (v : V) (m : HashMap V)
      → lookup j (insert k v m) ≡ (if j == k then some v else lookup j m)
  unfolding lookup insert
  lookup-insert j k v [] = refl
  lookup-insert j k v (e ∷ m) = ground (arith, lookup-insert j k v m)

  pub lookup-insert_self : (k : ℕ) (v : V) (m : HashMap V) → lookup k (insert k v m) ≡ some v
  lookup-insert_self k v m = ground (arith, lookup-insert k k v m)

  pub lookup-insert_ne :
      (j k : ℕ) (v : V) (m : HashMap V) → j ≢ k → lookup j (insert k v m) ≡ lookup j m
  lookup-insert_ne j k v m h = ground (arith, lookup-insert j k v m)

  pub lookup-erase :
      (j k : ℕ) (m : HashMap V) → lookup j (erase k m) ≡ (if j == k then none else lookup j m)
  unfolding lookup erase
  lookup-erase j k [] = ground arith
  lookup-erase j k (e ∷ m) = ground (arith, lookup-erase j k m)

  -- `retain` by a test of the key.
  pub lookup-retain_key :
      (p : ℕ → Bool) (k : ℕ) (m : HashMap V)
      → lookup k (retain (λ j v. p j) m) ≡ (if p k then lookup k m else none)
  unfolding lookup retain
  lookup-retain_key p k [] = ground arith
  lookup-retain_key p k (e ∷ m) = ground (arith, lookup-retain_key p k m)

  -- No key is stored twice.
  abbrev pub IsMap : HashMap V → Type 0
  IsMap [] = Unit
  IsMap (e ∷ m) = (contains_key e.0 m ≡ false) × IsMap m

  pub insert-IsMap : (k : ℕ) (v : V) (m : HashMap V) → IsMap m → IsMap (insert k v m)
  unfolding insert lookup
  insert-IsMap k v [] h = (refl, tt)
  insert-IsMap k v (e ∷ m) h = ground (arith, insert-IsMap k v m h.1, lookup-insert e.0 k v m)

  -- What `retain` keeps was there, and passes the test.
  pub lookup-retain :
      (p : ℕ → V → Bool) (k : ℕ) (m : HashMap V)
      → IsMap m
      → lookup k (retain p m)
        ≡ elim (lookup k m) [ none ↦ none | some v ↦ if p k v then some v else none ]
  unfolding lookup retain
  lookup-retain p k [] h = refl
  lookup-retain p k (e ∷ m) h = ground (arith, lookup-retain p k m h.1)

  pub retain-IsMap : (p : ℕ → V → Bool) (m : HashMap V) → IsMap m → IsMap (retain p m)
  unfolding retain
  retain-IsMap p [] h = tt
  retain-IsMap p (e ∷ m) h = ground (arith, retain-IsMap p m h.1, lookup-retain p e.0 m h.1)

  pub erase-IsMap : (k : ℕ) (m : HashMap V) → IsMap m → IsMap (erase k m)
  unfolding erase
  erase-IsMap k [] h = tt
  erase-IsMap k (e ∷ m) h = ground (arith, erase-IsMap k m h.1, lookup-erase e.0 k m)

  -- A value that a key leads to is among the values.
  pub any-values :
      (p : V → Bool) (k : ℕ) {v : V} (m : HashMap V)
      → lookup k m ≡ some v
      → p v ≡ true
      → any p (values m) ≡ true
  unfolding lookup values
  any-values p k [] h q = cc
  any-values p k {v} (e ∷ m) h q = ground (arith, any-values p k {v = v} m)

  -- What is extended by a map leads where the map leads, and elsewhere where it led.
  pub lookup-extend :
      (k : ℕ) (m es : HashMap V)
      → IsMap es
      → lookup k (extend m es) ≡ elim (lookup k es) [ none ↦ lookup k m | some v ↦ some v ]
  unfolding extend lookup
  lookup-extend k m [] h = refl
  lookup-extend k m (e ∷ es) h =
      ground (arith, lookup-extend k (insert e.0 e.1 m) es h.1, lookup-insert k e.0 e.1 m)

  pub lookup-modify_entry :
      (j k : ℕ) (f : V → V) (m : HashMap V)
      → lookup j (modify_entry k f m)
        ≡ elim (lookup j m) [ none ↦ none | some v ↦ some (if j == k then f v else v) ]
  lookup-modify_entry j k f m = elim (Option-cases (lookup k m)) [
    | inl e ↦ ground (arith, e)
    | inr (v, e) ↦ ground (arith, e, lookup-insert j k (f v) m)
  ]

  -- What holds of every entry's value holds of the value that a key leads to.
  pub All-lookup {κ} :
      (P : V → Type κ) (k : ℕ) {v : V} (m : HashMap V)
      → All (λ e. P e.1) m
      → lookup k m ≡ some v
      → P v
  unfolding lookup
  All-lookup P k [] h q = absurd (ground arith)
  All-lookup P k {v} (e ∷ m) h q = elim (Bool-cases (k == e.0)) [
    | inl y ↦ let same : e.1 ≡ v = ground (arith, y, q) in subst P same h.0
    | inr y ↦ All-lookup P k {v = v} m h.1 (ground (arith, y, q))
  ]
