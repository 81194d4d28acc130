-- ===== src/BlockHistory/Histories.antt =====
-- Histories of calls keep the store's invariant, from an empty store and from one that starts at a
-- block (`BlockHistoryManager::init`).
use kabu.Base.{ℕ, ◌+◌, ◌<◌, ◌≡◌, List, [], ◌∷◌, arith, All, lookup}
use kabu.Types.{Header, KabuDataTypes, u64_mod}
use kabu.BlockHistory.{
  BlockHistory, new, init, add_db, add_block_header, add_block, add_state_diff, add_logs,
}
use kabu.BlockHistory.Entries.{IsConsistent}
use kabu.BlockHistory.Blocks.{add_block_lem}
use kabu.BlockHistory.Headers.{get_or_insert-latest}
use kabu.BlockHistory.Consistent.{
  add_block_header-IsConsistent, add_block-IsConsistent, add_state_diff-IsConsistent,
  add_logs-IsConsistent,
}

-- The calls that change the store.
pub data Call (d : KabuDataTypes) (S : Type 0) : Type 0 where
  adds_db : ℕ → S → Call d S
  adds_header : Header → Call d S
  adds_block : d.Block → Call d S
  adds_state_diff : ℕ → List d.Updates → Call d S
  adds_logs : ℕ → List d.Log → Call d S

module _ {d : KabuDataTypes} {S : Type 0} where
  pub step : BlockHistory d S → Call d S → BlockHistory d S
  step s (adds_db hash state) = add_db s hash state
  step s (adds_header h) = (add_block_header s h).0
  step s (adds_block b) = (add_block s b).0
  step s (adds_state_diff hash diff) = (add_state_diff s hash diff).0
  step s (adds_logs hash logs) = (add_logs s hash logs).0

  pub run : BlockHistory d S → List (Call d S) → BlockHistory d S
  run s [] = s
  run s (c ∷ cs) = run (step s c) cs

module _ {d : KabuDataTypes} {S : Type 0} (world : ℕ → Header) where
  -- A block's hash determines its header, and its number is short of the largest 64-bit number.
  abbrev pub IsOfWorld : Call d S → Type 0
  IsOfWorld (adds_db hash state) = Unit {0}
  IsOfWorld (adds_header h) = (h ≡ world h.hash) × (h.number + 1 < u64_mod)
  IsOfWorld (adds_block b) =
      (d.get_header b ≡ world (d.get_header b).hash) × ((d.get_header b).number + 1 < u64_mod)
  IsOfWorld (adds_state_diff hash diff) = Unit {0}
  IsOfWorld (adds_logs hash logs) = Unit {0}

  abbrev IsReached : BlockHistory d S → Type 0
  IsReached s = IsConsistent world s × (s.latest_block_number + 1 < u64_mod)

  add_block_header-latest-lt :
      (s : BlockHistory d S) (h : Header)
      → s.latest_block_number + 1 < u64_mod
      → h.number + 1 < u64_mod
      → (add_block_header s h).0.latest_block_number + 1 < u64_mod
  unfolding add_block_header
  add_block_header-latest-lt s h b c = ground (arith, get_or_insert-latest s h)

  add_db-IsReached :
      (s : BlockHistory d S) (hash : ℕ) (state : S) → IsReached s → IsReached (add_db s hash state)
  unfolding add_db
  add_db-IsReached s hash state r =
      (record { keyed = r.0.keyed; numbered = r.0.numbered; highest = r.0.highest }, r.1)

  add_state_diff-latest :
      (s : BlockHistory d S) (hash : ℕ) (diff : List d.Updates)
      → (add_state_diff s hash diff).0.latest_block_number ≡ s.latest_block_number
  unfolding add_state_diff
  add_state_diff-latest s hash diff = ground arith

  add_logs-latest :
      (s : BlockHistory d S) (hash : ℕ) (logs : List d.Log)
      → (add_logs s hash logs).0.latest_block_number ≡ s.latest_block_number
  unfolding add_logs
  add_logs-latest s hash logs = ground arith

  step-IsReached :
      (s : BlockHistory d S) (c : Call d S) → IsReached s → IsOfWorld c → IsReached (step s c)
  unfolding step
  step-IsReached s (adds_db hash state) r w = add_db-IsReached s hash state r
  step-IsReached s (adds_header h) r w = (
    add_block_header-IsConsistent world s h r.1 w.1 w.0 r.0,
    add_block_header-latest-lt s h r.1 w.1,
  )
  step-IsReached s (adds_block b) r w =
      (add_block-IsConsistent world s b r.0 w.0, omega (arith, (add_block_lem s b).0))
  step-IsReached s (adds_state_diff hash diff) r w = (
    add_state_diff-IsConsistent world s hash diff r.0,
    rw (add_state_diff-latest s hash diff) r.1,
  )
  step-IsReached s (adds_logs hash logs) r w =
      (add_logs-IsConsistent world s hash logs r.0, rw (add_logs-latest s hash logs) r.1)

  run-IsReached :
      (s : BlockHistory d S) (cs : List (Call d S))
      → IsReached s
      → All IsOfWorld cs
      → IsReached (run s cs)
  unfolding run
  run-IsReached s [] r w = r
  run-IsReached s (c ∷ cs) r w = run-IsReached (step s c) cs (step-IsReached s c r w.0) w.1

  -- After any calls on a new store, every stored block stands under its hash, and every number of
  -- the table names a stored block of that number, at most the highest number. (A hash determines
  -- its header, and numbers are short of the largest 64-bit number.)
  pub run-new-IsConsistent :
      (depth : ℕ) (cs : List (Call d S))
      → All IsOfWorld cs
      → IsConsistent world (run (new d S depth) cs)
  unfolding new lookup
  run-new-IsConsistent depth cs w =
      (run-IsReached (new d S depth) cs
        (record { keyed = λ k e q. cc; numbered = λ n k q. cc; highest = λ n k q. cc }, omega arith)
        w).0

  -- After any calls on a store that starts at a block with its state, every stored block stands
  -- under its hash, and every number of the table names a stored block of that number, at most the
  -- highest number. (A hash determines its header, and numbers are short of the largest 64-bit
  -- number.)
  pub run-init-IsConsistent :
      (depth : ℕ) (state : S) (b : d.Block) (cs : List (Call d S))
      → d.get_header b ≡ world (d.get_header b).hash
      → (d.get_header b).number + 1 < u64_mod
      → All IsOfWorld cs
      → IsConsistent world (run (init d S state depth b) cs)
  unfolding init lookup
  run-init-IsConsistent depth state b cs o n w =
      (run-IsReached (init d S state depth b) cs
        (
          record {
            keyed = λ k e q. ground (arith, o);
            numbered = λ j k q. ground arith;
            highest = λ j k q. ground arith;
          },
          n,
        )
        w).0
