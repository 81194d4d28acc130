-- ===== src/LatestBlock/Override.antt =====
-- What `node_state_override` keeps of the state changes of a block.
use kabu.Base.{
  alter, ℕ, ◌≡◌, refl, sym, ◌∙◌, Option, none, some, List, [], ◌∷◌, ◌++◌, arith, ◌==◌,
  if◌then◌else◌, get_or_else, HashMap, lookup, insert, lookup-insert,
}
use kabu.LatestBlock.{
  AccountState, AccountOverride, GethStateUpdate, LatestBlock, default_override, set_override,
  override_entries, override_diffs, node_state_override,
}

-- The last state of an account in a list of changes.
abbrev pub last_state : ℕ → GethStateUpdate → Option AccountState
last_state account [] = none
last_state account (e ∷ es) = elim (last_state account es) [
  | some x ↦ some x
  | none ↦ if account == e.0 then some e.1 else none
]

abbrev pub all_entries : List GethStateUpdate → GethStateUpdate
all_entries [] = []
all_entries (u ∷ us) = u ++ all_entries us

-- An override that shows one state, or the one that was there.
abbrev pub shown : Option AccountState → Option AccountOverride → Option AccountOverride
shown none old = old
shown (some x) old =
    some (record { balance = x.balance; nonce = x.nonce; state_diff = some x.storage })

override_entries-append :
    (m : HashMap AccountOverride) (u v : GethStateUpdate)
    → override_entries m (u ++ v) ≡ override_entries (override_entries m u) v
unfolding override_entries
override_entries-append m [] v = refl
override_entries-append m (e ∷ u) v =
    override_entries-append (alter e.0 default_override (set_override e.1) m) u v

override_diffs-eq :
    (m : HashMap AccountOverride) (us : List GethStateUpdate)
    → override_diffs m us ≡ override_entries m (all_entries us)
unfolding override_diffs override_entries
override_diffs-eq m [] = refl
override_diffs-eq m (u ∷ us) =
    override_diffs-eq (override_entries m u) us ∙ sym (override_entries-append m u (all_entries us))

lookup-override_entries :
    (m : HashMap AccountOverride) (u : GethStateUpdate) (account : ℕ)
    → lookup account (override_entries m u) ≡ shown (last_state account u) (lookup account m)
unfolding override_entries
lookup-override_entries m [] account = refl
lookup-override_entries m (e ∷ u) account =
    let x = get_or_else (lookup e.0 m) default_override in
    ground (
      arith,
      lookup-override_entries (insert e.0 (set_override e.1 x) m) u account,
      lookup-insert account e.0 (set_override e.1 x) m,
    )

-- Of all the changes of an account in the block, in any of its updates, the override shows the
-- last one alone: its balance and nonce, also where it leaves them out, and its storage only.
pub node_state_override-last :
    {B L : Type 0} (s : LatestBlock B L) (us : List GethStateUpdate) (account : ℕ)
    → s.diff ≡ some us
    → lookup account (node_state_override s) ≡ shown (last_state account (all_entries us)) none
unfolding node_state_override lookup
node_state_override-last s us account q =
    ground (arith, q, override_diffs-eq [] us, lookup-override_entries [] (all_entries us) account)
