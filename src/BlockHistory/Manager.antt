-- ===== src/BlockHistory/Manager.antt =====
-- `BlockHistoryManager` (crates/types/entities/src/block_history/block_history_impl.rs): states of
-- blocks, and the head of the chain across reorganisations. The node is a record of its answers to
-- the three requests that the code makes. A loop takes fuel, and `none` means that it ran out.
use kabu.Base.{
  ℕ, zero, suc, ◌+◌, ◌-◌, ◌*◌, ◌/◌, ◌%◌, ◌^◌, ◌≤◌, ◌<◌, ◌≡◌, refl, sym, ap, ◌∙◌, ◌≢◌, ◌↔◌, ◌⊎◌, inl,
  inr, Bool, true, false, ◌&&◌, ◌||◌, not, Option, none, some, List, [], ◌∷◌, ◌++◌, map, reverse,
  arith, ltb, leb, ◌==◌, if◌then◌else◌, ltb→lt, lt→ltb, leb→le, ==_iff, ==_refl, Bool-cases,
  Option-cases, is_some, get_or_else, length, get_elem?, take, drop, head?, get_last?, any, All,
  length-append, take-append-drop, length-take, length-drop, get_last?-append, All-append, HashMap,
  lookup, contains_key, insert, erase, retain, alter, values, lookup-insert, lookup-insert_self,
  lookup-insert_ne, lookup-erase, lookup-retain_key, IsMap, insert-IsMap, lookup-retain,
  retain-IsMap, erase-IsMap, any-values,
}
pub mod States
pub mod Rewind
pub mod Ends
pub mod Head
mod Tests
use mathlib.Core.Option
use kabu.Types.{Header, KabuDataTypes}
use kabu.BlockHistory.{
  add_block_header, BlockHistory, BlockHistoryEntry, Result, ok, err, panicked, block_is_empty,
  block_data_not_fetched, provider, parent_entry_not_found, parent_db_not_found, entry_not_found,
  is_fetched, get_first_block_number, set_entry, get_block_history_entry,
  get_block_hash_for_block_number,
}

infixl 5 ◌>>=◌
abbrev pub ◌>>=◌ : {A B : Type 0} → Result A → (A → Result B) → Result B
ok a >>= f = f a
err e >>= f = err e
panicked >>= f = panicked

-- What a node answers: `none` is a request that fails.
pub record Client (d : KabuDataTypes) : Type 0 where
  pub block_by_hash : ℕ → Option (Option d.Block)
  pub logs_at_block : ℕ → Option (List d.Log)
  pub trace_block : ℕ → Option (List d.Updates)

-- `trait BlockHistoryState`, with the configuration that every call passes on.
pub record BlockHistoryState (d : KabuDataTypes) : Type 1 where
  pub State : Type 0
  pub apply_update : State → BlockHistoryEntry d → State

abbrev or_provider_error : {A : Type 0} → Option A → Result A
or_provider_error none = err provider
or_provider_error (some a) = ok a

module _ {d : KabuDataTypes} (client : Client d) where
  pub fetch_entry_by_hash : ℕ → Result (BlockHistoryEntry d)
  fetch_entry_by_hash hash = do
    found ← or_provider_error (client.block_by_hash hash)
    block ← (elim found [ none ↦ err block_is_empty | some b ↦ ok b ])
    logs ← or_provider_error (client.logs_at_block hash)
    ok (record {
      header = d.get_header block;
      block = some block;
      logs = some logs;
      state_update = some (get_or_else (client.trace_block hash) []);
    })

  fetch_logs : BlockHistoryEntry d → Result (BlockHistoryEntry d)
  fetch_logs e = elim e.logs [
    | some l ↦ ok e
    | none ↦ or_provider_error (client.logs_at_block e.header.hash) >>= λ l.
        ok (record e { logs = some l })
  ]

  fetch_block : BlockHistoryEntry d → Result (BlockHistoryEntry d)
  fetch_block e = elim e.block [
    | some b ↦ ok e
    | none ↦ or_provider_error (client.block_by_hash e.header.hash) >>= λ found.
        ok (elim found [ none ↦ e | some b ↦ record e { block = some b } ])
  ]

  fetch_state_update : BlockHistoryEntry d → BlockHistoryEntry d
  fetch_state_update e = elim e.state_update [
    | some u ↦ e
    | none ↦ record e { state_update = some (get_or_else (client.trace_block e.header.hash) []) }
  ]

  -- The entry comes back as it is filled in.
  pub fetch_entry_data : BlockHistoryEntry d → Result (BlockHistoryEntry d)
  unfolding fetch_logs fetch_block fetch_state_update
  fetch_entry_data e = do
    with_logs ← fetch_logs e
    with_block ← fetch_block with_logs
    let filled = fetch_state_update with_block
    if is_fetched d filled then ok filled else err block_data_not_fetched

  pub get_or_fetch_entry_cloned :
      {S : Type 0} → BlockHistory d S → ℕ → BlockHistory d S × Result (BlockHistoryEntry d)
  get_or_fetch_entry_cloned s hash = elim (get_block_history_entry s hash) [
    | some e ↦ (s, ok e)
    | none ↦ elim (fetch_entry_by_hash hash) [
      | ok e ↦ (set_entry s e, ok e)
      | err x ↦ (s, err x)
      | panicked ↦ (s, panicked)
    ]
  ]

module _ {d : KabuDataTypes} (state : BlockHistoryState d) where
  open state use {State, apply_update}

  -- The loop of `get_parent_state`: the state that was found, if any, and the blocks on the way
  -- that have none, the one next to the state first.
  pub find_state :
      ℕ → BlockHistory d State → ℕ → ℕ → List ℕ → Option (Result (Option State × List ℕ))
  find_state zero s first hash missed = none
  find_state (suc fuel) s first hash missed = elim (get_block_history_entry s hash) [
    | none ↦ some (err parent_entry_not_found)
    | some e ↦
        let older = find_state fuel s first e.header.parent_hash (e.header.hash ∷ missed) in
        if ltb e.header.number first
        then some (ok (none, missed))
        else (elim (lookup hash s.block_states) [
          | some db ↦ some (ok (some db, missed))
          | none ↦ older
        ])
  ]

  -- The updates of the blocks that were missed, oldest first, each state stored under its block.
  pub apply_missed : BlockHistory d State → State → List ℕ → BlockHistory d State × Result State
  apply_missed s db [] = (s, ok db)
  apply_missed s db (hash ∷ missed) = elim (get_block_history_entry s hash) [
    | none ↦ (s, err entry_not_found)
    | some e ↦
        let db' = apply_update db e in
        apply_missed (record s { block_states = insert hash db' s.block_states }) db' missed
  ]

  -- What follows the loop.
  resume :
      BlockHistory d State → Result (Option State × List ℕ) → BlockHistory d State × Result State
  resume s (err x) = (s, err x)
  resume s panicked = (s, panicked)
  resume s (ok (none, missed)) = (s, err parent_db_not_found)
  resume s (ok (some db, missed)) = apply_missed s db missed

  -- The number of the first block is looked up before the loop. With no block at all the loop
  -- stops at once, since the parent is not found.
  pub get_parent_state : ℕ → BlockHistory d State → ℕ → Option (BlockHistory d State × Result State)
  unfolding resume
  get_parent_state fuel s hash =
      Option.map (resume s) (find_state fuel s (get_or_else (get_first_block_number s) 0) hash [])

module _ {d : KabuDataTypes} (client : Client d) (state : BlockHistoryState d) where
  open state use {State, apply_update}

  -- The filled entry is a copy: the store keeps the entry as it was.
  pub apply_state_update_on_parent_db :
      ℕ → BlockHistory d State → ℕ → Option (BlockHistory d State × Result State)
  apply_state_update_on_parent_db fuel s hash = elim (get_block_history_entry s hash) [
    | none ↦ some (s, panicked)
    | some e ↦ elim (if is_fetched d e then ok e else fetch_entry_data client e) [
      | err x ↦ some (s, err x)
      | panicked ↦ some (s, panicked)
      | ok filled ↦
          Option.map (λ (t, r). (t, r >>= λ db. ok (apply_update db filled)))
            (get_parent_state state fuel s filled.header.parent_hash)
    ]
  ]

module _ {d : KabuDataTypes} {S : Type 0} (client : Client d) where
  -- The loop of `set_chain_head`, from the parent of the new head down to a block that its number
  -- already names. The result is the store and the depth of the reorganisation.
  pub rewind : ℕ → BlockHistory d S → ℕ → ℕ → ℕ → Option (BlockHistory d S × Result ℕ)
  rewind zero s min_block hash reorg_depth = none
  rewind (suc fuel) s min_block hash reorg_depth = elim (get_block_history_entry s hash) [
    | some e ↦
        let t = record s { block_numbers = insert e.header.number e.header.hash s.block_numbers } in
        let rest = rewind fuel t min_block e.header.parent_hash (reorg_depth + 1) in
        if get_or_else (get_block_hash_for_block_number s e.header.number) 0 == e.header.hash
        then some (s, ok reorg_depth)
        else rest
    | none ↦ elim (fetch_entry_by_hash client hash) [
      | err x ↦ some (s, err x)
      | panicked ↦ some (s, panicked)
      | ok e ↦
          let rest = rewind fuel (set_entry s e) min_block e.header.parent_hash (reorg_depth + 1) in
          if ltb e.header.number min_block then some (s, ok reorg_depth) else rest
    ]
  ]

  pub set_chain_head : ℕ → BlockHistory d S → Header → Option (BlockHistory d S × Result (Bool × ℕ))
  set_chain_head fuel s h =
      let (t, added) = add_block_header s h in
      elim added [
        | err x ↦ some (t, ok (false, 0))
        | panicked ↦ some (t, panicked)
        | ok is_new ↦ elim (get_first_block_number s) [
          | none ↦ some (t, ok (is_new, 0))
          | some min_block ↦
              if is_new
              then Option.map (λ (u, r). (u, r >>= λ reorg_depth. ok (is_new, reorg_depth)))
                  (rewind fuel t min_block h.parent_hash 0)
              else some (t, ok (is_new, 0))
        ]
      ]
