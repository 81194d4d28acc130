-- ===== src/BlockHistory/Manager/States.antt =====
-- `get_parent_state` finds the state that the updates of the missed blocks make, and stores each
-- state on the way under its block.
use mathlib.Core.Option
use kabu.Base.{
  ℕ, zero, suc, ◌+◌, ◌<◌, ◌≡◌, refl, sym, ap, ◌∙◌, ◌≢◌, inl, inr, Option, none, some, List, [], ◌∷◌,
  arith, ◌==◌, Bool-cases, Option-cases, get_or_else, lookup, insert, lookup-insert,
  lookup-insert_self,
}
use kabu.Types.{KabuDataTypes}
use kabu.BlockHistory.{
  BlockHistory, BlockHistoryEntry, Result, ok, err, panicked, get_first_block_number,
}
use kabu.BlockHistory.Manager.{
  BlockHistoryState, find_state, apply_missed, resume, get_parent_state,
}

module _ {d : KabuDataTypes} (state : BlockHistoryState d) where
  open state use {State, apply_update}

  -- The state after a block: the stored one, or the update of the block on the state after its
  -- parent.
  pub data HasState (s : BlockHistory d State) : ℕ → State → Type 0 where
    stored : (hash : ℕ) (db : State) → lookup hash s.block_states ≡ some db → HasState s hash db
    applied :
        (hash : ℕ) (e : BlockHistoryEntry d) (db : State)
        → lookup hash s.block_states ≡ none
        → lookup hash s.block_entries ≡ some e
        → HasState s e.header.parent_hash db
        → HasState s hash (apply_update db e)

  -- `t` is `s` with more states, all of them right.
  pub record Caches (s t : BlockHistory d State) : Type 0 where
    pub entries : t.block_entries ≡ s.block_entries
    pub numbers : t.block_numbers ≡ s.block_numbers
    pub kept :
        (k : ℕ) (x : State) → lookup k s.block_states ≡ some x → lookup k t.block_states ≡ some x
    pub right : (k : ℕ) (x : State) → lookup k t.block_states ≡ some x → HasState s k x

  abbrev Keyed : BlockHistory d State → Type 0
  Keyed s =
      (k : ℕ) (e : BlockHistoryEntry d) → lookup k s.block_entries ≡ some e → e.header.hash ≡ k

  apply_missed-cons :
      (s : BlockHistory d State) (db : State) (hash : ℕ) (e : BlockHistoryEntry d) (missed : List ℕ)
      → lookup hash s.block_entries ≡ some e
      → apply_missed state s db (hash ∷ missed)
        ≡ apply_missed state
            (record s { block_states = insert hash (apply_update db e) s.block_states })
            (apply_update db e)
            missed
  unfolding apply_missed
  apply_missed-cons s db hash e missed q = rw (q, apply_missed)

  insert-Caches :
      (s t : BlockHistory d State) (hash : ℕ) (e : BlockHistoryEntry d) (db : State)
      → lookup hash s.block_states ≡ none
      → lookup hash s.block_entries ≡ some e
      → HasState s e.header.parent_hash db
      → Caches s t
      → Caches s (record t { block_states = insert hash (apply_update db e) t.block_states })
  insert-Caches s t hash e db b a hx c = record {
    entries = c.entries;
    numbers = c.numbers;
    kept = λ k y r.
        ground (arith, lookup-insert k hash (apply_update db e) t.block_states, c.kept k y);
    right = λ k y r. elim (Bool-cases (k == hash)) [
      | inl same ↦
          let at_hash : k ≡ hash = ground arith in
          let state_eq : y ≡ apply_update db e =
            ground (arith, lookup-insert k hash (apply_update db e) t.block_states) in
          rw (at_hash, state_eq) (applied hash e db b a hx)
      | inr other ↦
          c.right k y (ground (arith, lookup-insert k hash (apply_update db e) t.block_states))
    ];
  }

  -- What the loop has found when it stops at `db`, with the blocks `out` to apply: the state of the
  -- block `hash`, after which the blocks `missed` are left.
  abbrev Found : BlockHistory d State → ℕ → List ℕ → State → List ℕ → Type 0
  Found s hash missed db out =
      (t : BlockHistory d State) × (x : State) × HasState s hash x
      × (apply_missed state s db out ≡ apply_missed state t x missed)
      × Caches s t
      × (lookup hash t.block_states ≡ some x)

  Found-parent :
      (s : BlockHistory d State) (hash : ℕ) (e : BlockHistoryEntry d) (missed out : List ℕ)
      (db : State)
      → e.header.hash ≡ hash
      → lookup hash s.block_states ≡ none
      → lookup hash s.block_entries ≡ some e
      → Found s e.header.parent_hash (e.header.hash ∷ missed) db out
      → Found s hash missed db out
  Found-parent s hash e missed out db k b a (t, x, hx, p, c, l) = (
    record t { block_states = insert hash (apply_update x e) t.block_states },
    apply_update x e,
    applied hash e x b a hx,
    p
        ∙ ap (λ key. apply_missed state t x (key ∷ missed)) k
        ∙ apply_missed-cons t x hash e missed (ap (lookup hash) c.entries ∙ a),
    insert-Caches s t hash e x b a hx c,
    lookup-insert_self hash (apply_update x e) t.block_states,
  )

  find_state-Found :
      (fuel : ℕ) (s : BlockHistory d State) (first hash : ℕ) (missed out : List ℕ) (db : State)
      → Keyed s
      → find_state state fuel s first hash missed ≡ some (ok (some db, out))
      → Found s hash missed db out
  unfolding find_state
  find_state-Found zero s first hash missed out db v q = cc
  find_state-Found (suc fuel) s first hash missed out db v q =
      elim (Option-cases (lookup hash s.block_entries)) [
        | inl a ↦ absurd (ground (arith, a))
        | inr (e, a) ↦ elim (Option-cases (lookup hash s.block_states)) [
          | inr (y, b) ↦ (
            s,
            y,
            stored hash y b,
            ground arith,
            record {
              entries = refl;
              numbers = refl;
              kept = λ k x r. r;
              right = λ k x r. stored k x r;
            },
            b,
          )
          | inl b ↦ Found-parent s hash e missed out db (v hash e a) b a (
              find_state-Found fuel s first e.header.parent_hash (e.header.hash ∷ missed) out db v
                (ground arith))
        ]
      ]

  Found-finish :
      (s t : BlockHistory d State) (hash : ℕ) (out : List ℕ) (base db : State)
      → Found s hash [] base out
      → apply_missed state s base out ≡ (t, ok db)
      → HasState s hash db × Caches s t × (lookup hash t.block_states ≡ some db)
  unfolding apply_missed
  Found-finish s t hash out base db (u, x, hx, p, c, l) q =
      let store : u ≡ t = ap (λ r. r.0) (sym p ∙ q) in
      let value : ok x ≡ ok db = ap (λ r. r.1) (sym p ∙ q) in
      let found : x ≡ db = cc in rw (← store, ← found) (hx, c, l)

  resume-HasState :
      (fuel : ℕ) (s t : BlockHistory d State) (first hash : ℕ) (db : State)
      (r : Option (Result (Option State × List ℕ)))
      → Keyed s
      → find_state state fuel s first hash [] ≡ r
      → Option.map (resume state s) r ≡ some (t, ok db)
      → HasState s hash db × Caches s t × (lookup hash t.block_states ≡ some db)
  unfolding resume
  resume-HasState fuel s t first hash db none v e p = absurd (ground arith)
  resume-HasState fuel s t first hash db (some (err x)) v e p = absurd (ground arith)
  resume-HasState fuel s t first hash db (some panicked) v e p = absurd (ground arith)
  resume-HasState fuel s t first hash db (some (ok (none, missed))) v e p = absurd (ground arith)
  resume-HasState fuel s t first hash db (some (ok (some base, missed))) v e p =
      Found-finish s t hash missed base db (find_state-Found fuel s first hash [] missed base v e)
        (ground arith)

  -- When the state is returned it is that of the parent block: the updates of the missed blocks,
  -- oldest first, on the nearest stored state. It is stored under the parent, the states that were
  -- stored stay, every state that is stored is right, and the blocks and numbers are unchanged.
  -- (Every block is stored under its own hash.)
  pub get_parent_state-HasState :
      (fuel : ℕ) (s t : BlockHistory d State) (hash : ℕ) (db : State)
      → Keyed s
      → get_parent_state state fuel s hash ≡ some (t, ok db)
      → HasState s hash db × Caches s t × (lookup hash t.block_states ≡ some db)
  unfolding get_parent_state
  get_parent_state-HasState fuel s t hash db v q =
      let first = get_or_else (get_first_block_number s) 0 in
      resume-HasState fuel s t first hash db (find_state state fuel s first hash []) v refl q

  -- The number of a block is above that of its parent, where both are stored.
  abbrev pub ParentsBelow : BlockHistory d State → Type 0
  ParentsBelow s =
      (k : ℕ) (e p : BlockHistoryEntry d)
      → lookup k s.block_entries ≡ some e
      → lookup e.header.parent_hash s.block_entries ≡ some p
      → p.header.number < e.header.number

  -- A bound on the blocks from here down.
  abbrev Above : BlockHistory d State → ℕ → ℕ → Type 0
  Above s hash fuel =
      (e : BlockHistoryEntry d) → lookup hash s.block_entries ≡ some e → e.header.number + 1 < fuel

  find_state-total :
      (fuel : ℕ) (s : BlockHistory d State) (first hash : ℕ) (missed : List ℕ)
      → ParentsBelow s
      → Above s hash fuel
      → 0 < fuel
      → find_state state fuel s first hash missed ≢ none
  unfolding find_state
  find_state-total zero s first hash missed below a p = elim p [ ]
  find_state-total (suc fuel) s first hash missed below a p =
      elim (Option-cases (lookup hash s.block_entries)) [
        | inl q ↦ ground (arith, q)
        | inr (e, q) ↦
            let bound : e.header.number + 1 < suc fuel = a e q in
            let rest =
              find_state-total fuel s first e.header.parent_hash (e.header.hash ∷ missed) below
                (λ x r.
                  let lower : x.header.number < e.header.number = below hash e x q r in omega arith)
                (omega arith) in
            ground (arith, q, rest)
      ]

  -- With more fuel than the parent's number and one, the search for a state stops. (A block's
  -- number is above that of its parent.)
  pub get_parent_state-total :
      (fuel : ℕ) (s : BlockHistory d State) (hash : ℕ)
      → ParentsBelow s
      → Above s hash fuel
      → 0 < fuel
      → get_parent_state state fuel s hash ≢ none
  unfolding get_parent_state
  get_parent_state-total fuel s hash below a p =
      let first = get_or_else (get_first_block_number s) 0 in
      ground (arith, find_state-total fuel s first hash [] below a p)
