-- ===== src/BlockHistory/Manager/Rewind.antt =====
-- The loop of `set_chain_head`: what it names, and what it leaves alone.
use kabu.Base.{
  ℕ, zero, suc, ◌+◌, ◌≤◌, ◌<◌, ◌≡◌, refl, ap, ◌∙◌, ◌≢◌, ◌⊎◌, inl, inr, none, some, HashMap, arith,
  ltb, ◌==◌, Bool-cases, Option-cases, get_or_else, lookup, insert, lookup-insert,
  lookup-insert_self, lookup-insert_ne,
}
use kabu.Types.{Header, KabuDataTypes}
use kabu.BlockHistory.{Error, BlockHistory, BlockHistoryEntry, Result, ok, err, panicked, set_entry}
use kabu.BlockHistory.Manager.{Client, fetch_entry_by_hash, rewind}

-- A block above the genesis of the chain's heights: `height` is the number and one, and 0 for the
-- hash that no block has, the genesis block's parent.
pub record KnownBlock (height : ℕ → ℕ) (k : ℕ) (h : Header) : Type 0 where
  pub nonzero : k ≢ 0
  pub hash : h.hash ≡ k
  pub number : h.number + 1 ≡ height k
  pub parent : height h.parent_hash < height k

abbrev pub StoreKnown : {d : KabuDataTypes} {S : Type 0} → (ℕ → ℕ) → BlockHistory d S → Type 0
StoreKnown {d} height s =
    (k : ℕ) (e : BlockHistoryEntry d)
    → lookup k s.block_entries ≡ some e
    → KnownBlock height k e.header

abbrev pub ClientKnown : {d : KabuDataTypes} → (ℕ → ℕ) → Client d → Type 0
ClientKnown {d} height client =
    (k : ℕ) (b : d.Block)
    → client.block_by_hash k ≡ some (some b)
    → KnownBlock height k (d.get_header b)

Result-cases :
    {A : Type 0} (r : Result A)
    → ((a : A) × (r ≡ ok a)) ⊎ ((r ≡ panicked) ⊎ ((x : Error) × (r ≡ err x)))
Result-cases (ok a) = inl (a, refl)
Result-cases (err x) = inr (inr (x, refl))
Result-cases panicked = inr (inl refl)

pub fetch_entry-Known :
    {d : KabuDataTypes} (client : Client d) (height : ℕ → ℕ) (k : ℕ) (e : BlockHistoryEntry d)
    → ClientKnown height client
    → fetch_entry_by_hash client k ≡ ok e
    → KnownBlock height k e.header
unfolding fetch_entry_by_hash
fetch_entry-Known {d} client height k e c q = elim (Option-cases (client.block_by_hash k)) [
  | inl a ↦ absurd (ground (arith, a))
  | inr (found, a) ↦ elim (Option-cases found) [
    | inl b ↦ absurd (ground (arith, a, b))
    | inr (block, b) ↦
        let served : client.block_by_hash k ≡ some (some block) = a ∙ ap some b in
        let same : e.header ≡ d.get_header block = ground (arith, served) in
        rw same (c k block served)
  ]
]

-- The blocks from `k` down that `t` names by their numbers: as many as given, above a block that was
-- named by the older table as well, or that lies below the lowest number.
pub data Chain {d : KabuDataTypes} {S : Type 0} (client : Client d) (min_block : ℕ)
    (older : HashMap ℕ) (t : BlockHistory d S) : ℕ → ℕ → Type 0 where
  joined :
      (k : ℕ) (e : BlockHistoryEntry d)
      → lookup k t.block_entries ≡ some e
      → lookup e.header.number t.block_numbers ≡ some k
      → lookup e.header.number older ≡ some k
      → Chain client min_block older t k 0
  floor :
      (k : ℕ) (e : BlockHistoryEntry d)
      → fetch_entry_by_hash client k ≡ ok e
      → e.header.number < min_block
      → Chain client min_block older t k 0
  named :
      (k n : ℕ) (e : BlockHistoryEntry d)
      → lookup k t.block_entries ≡ some e
      → lookup e.header.number t.block_numbers ≡ some k
      → Chain client min_block older t e.header.parent_hash n
      → Chain client min_block older t k (suc n)

-- What a rewind from `k` leaves alone: the blocks that are stored, and the numbers above.
pub record Rewinds {d : KabuDataTypes} {S : Type 0} (height : ℕ → ℕ) (s : BlockHistory d S) (k : ℕ)
    (t : BlockHistory d S) : Type 0 where
  pub entries_kept :
      (j : ℕ) (x : BlockHistoryEntry d)
      → lookup j s.block_entries ≡ some x
      → lookup j t.block_entries ≡ some x
  pub numbers_above : (n : ℕ) → height k ≤ n → lookup n t.block_numbers ≡ lookup n s.block_numbers

-- Below the height of `k` the table of `s` names no block that the older one does not.
abbrev pub Older :
    {d : KabuDataTypes} {S : Type 0} → (ℕ → ℕ) → HashMap ℕ → BlockHistory d S → ℕ → Type 0
Older height older s k =
    (n j : ℕ) → n < height k → lookup n s.block_numbers ≡ some j → lookup n older ≡ some j

module _ {d : KabuDataTypes} {S : Type 0} (client : Client d) (height : ℕ → ℕ) where
  pub set_entry-StoreKnown :
      (s : BlockHistory d S) (k : ℕ) (e : BlockHistoryEntry d)
      → StoreKnown height s
      → KnownBlock height k e.header
      → StoreKnown height (set_entry s e)
  unfolding set_entry
  set_entry-StoreKnown s k e v w j x q = elim (Bool-cases (j == e.header.hash)) [
    | inl same ↦
        let key : j ≡ k = ground arith in
        let entry : x ≡ e = ground (arith, lookup-insert j e.header.hash e s.block_entries) in
        rw (key, entry) w
    | inr other ↦ v j x (ground (arith, lookup-insert j e.header.hash e s.block_entries))
  ]

  set_entry-keeps :
      (s : BlockHistory d S) (k : ℕ) (e : BlockHistoryEntry d)
      → lookup k s.block_entries ≡ none
      → KnownBlock height k e.header
      → (j : ℕ) (x : BlockHistoryEntry d) → lookup j s.block_entries ≡ some x
      → lookup j (set_entry s e).block_entries ≡ some x
  unfolding set_entry
  set_entry-keeps s k e a w j x q =
      ground (arith, w.hash, lookup-insert j e.header.hash e s.block_entries)

  set_entry-stored :
      (s : BlockHistory d S) (k : ℕ) (e : BlockHistoryEntry d)
      → KnownBlock height k e.header
      → lookup k (set_entry s e).block_entries ≡ some e
  unfolding set_entry
  set_entry-stored s k e w = ground (arith, w.hash, lookup-insert k e.header.hash e s.block_entries)

  set_entry-names :
      (s : BlockHistory d S) (e : BlockHistoryEntry d)
      → (set_entry s e).block_numbers ≡ insert e.header.number e.header.hash s.block_numbers
  unfolding set_entry
  set_entry-names s e = refl

  abbrev pub name_entry : BlockHistory d S → BlockHistoryEntry d → BlockHistory d S
  name_entry s e = record s { block_numbers = insert e.header.number e.header.hash s.block_numbers }

  abbrev pub Outcome : HashMap ℕ → BlockHistory d S → ℕ → ℕ → ℕ → BlockHistory d S → ℕ → Type 0
  Outcome older s min_block k r t m =
      (n : ℕ) × (m ≡ r + n) × Chain client min_block older t k n × Rewinds height s k t

  -- One step down from a block that `s1` names and stores.
  Outcome-step :
      (older : HashMap ℕ) (s s1 t : BlockHistory d S) (min_block k r m : ℕ)
      (e : BlockHistoryEntry d)
      → KnownBlock height k e.header
      → ((j : ℕ) (x : BlockHistoryEntry d)
          → lookup j s.block_entries ≡ some x
          → lookup j s1.block_entries ≡ some x)
      → lookup k s1.block_entries ≡ some e
      → s1.block_numbers ≡ insert e.header.number e.header.hash s.block_numbers
      → Outcome older s1 min_block e.header.parent_hash (r + 1) t m
      → Outcome older s min_block k r t m
  Outcome-step older s s1 t min_block k r m e w keep here names (n, total, chain, rest) = (
    suc n,
    omega arith,
    named k n e (rest.entries_kept k e here)
        (ground (
          arith,
          w.parent,
          rest.numbers_above e.header.number,
          lookup-insert_self e.header.number e.header.hash s.block_numbers,
        ))
        chain,
    record {
      entries_kept = λ j x q. rest.entries_kept j x (keep j x q);
      numbers_above = λ i q. ground (
        arith,
        rest.numbers_above i,
        lookup-insert_ne i e.header.number e.header.hash s.block_numbers,
      );
    },
  )

  -- The table of the next step names no more below the parent.
  Older-step :
      (older : HashMap ℕ) (s s1 : BlockHistory d S) (k : ℕ) (e : BlockHistoryEntry d)
      → KnownBlock height k e.header
      → s1.block_numbers ≡ insert e.header.number e.header.hash s.block_numbers
      → Older height older s k
      → Older height older s1 e.header.parent_hash
  Older-step older s s1 k e w names o n j b q =
      let other =
        lookup-insert_ne n e.header.number e.header.hash s.block_numbers
          (λ x. omega (arith, w.number, w.parent, x)) in
      o n j (omega (arith, w.parent)) (ground (arith, names, other, q))

  pub rewind-Outcome :
      (fuel : ℕ) (older : HashMap ℕ) (s t : BlockHistory d S) (min_block k r m : ℕ)
      → StoreKnown height s
      → ClientKnown height client
      → Older height older s k
      → rewind client fuel s min_block k r ≡ some (t, ok m)
      → Outcome older s min_block k r t m
  unfolding rewind
  rewind-Outcome zero older s t min_block k r m v c o q = absurd (ground arith)
  rewind-Outcome (suc fuel) older s t min_block k r m v c o q =
      elim (Option-cases (lookup k s.block_entries)) [
        | inr (e, a) ↦
            let w = v k e a in
            elim (Bool-cases
              (get_or_else (lookup e.header.number s.block_numbers) 0 == e.header.hash)) [
                | inl canonical ↦
                    let store : s ≡ t = ground (arith, a) in
                    let depth : r ≡ m = ground (arith, a) in
                    rw (← store, ← depth)
                      (
                        0,
                        omega arith,
                        joined k e a (ground (arith, w.nonzero, w.hash)) (
                            o e.header.number k (omega (arith, w.number))
                              (ground (arith, w.nonzero, w.hash))),
                        record { entries_kept = λ j x b. b; numbers_above = λ n b. refl },
                      )
                | inr moved ↦
                    let s1 = name_entry s e in
                    Outcome-step older s s1 t min_block k r m e w (λ j x b. b) a refl
                      (rewind-Outcome fuel older s1 t min_block e.header.parent_hash (r + 1) m v c
                        (Older-step older s s1 k e w refl o) (ground (arith, a)))
              ]
        | inl a ↦ elim (Result-cases (fetch_entry_by_hash client k)) [
          | inr failed ↦ absurd (ground (arith, a, failed))
          | inl (e, f) ↦
              let w = fetch_entry-Known client height k e c f in
              elim (Bool-cases (ltb e.header.number min_block)) [
                | inl low ↦
                    let store : s ≡ t = ground (arith, a, f) in
                    let depth : r ≡ m = ground (arith, a, f) in
                    rw (← store, ← depth)
                      (
                        0,
                        omega arith,
                        floor k e f (ground arith),
                        record { entries_kept = λ j x b. b; numbers_above = λ n b. refl },
                      )
                | inr high ↦
                    Outcome-step older s (set_entry s e) t min_block k r m e w
                      (set_entry-keeps s k e a w) (set_entry-stored s k e w) (set_entry-names s e)
                      (rewind-Outcome fuel older (set_entry s e) t min_block e.header.parent_hash
                        (r + 1) m (set_entry-StoreKnown s k e v w) c
                        (Older-step older s (set_entry s e) k e w (set_entry-names s e) o)
                        (ground (arith, a, f)))
              ]
        ]
      ]
