-- ===== src/LatestBlock/Tests.antt =====
-- Reports of block 8 to a head at block 7, and a block that changes one account twice.
use kabu.Base.{ℕ, ◌*◌, ◌≡◌, refl, none, some, List, [], ◌∷◌, arith, inr, lookup}
use kabu.LatestBlock.{AccountState, GethStateUpdate, LatestBlock, new, node_state_override}
use kabu.LatestBlock.Update.{Report, report, follow, follow-highest, update-update}
use kabu.LatestBlock.Override.{node_state_override-last}

abbrev head : LatestBlock ℕ ℕ
head = new 7 70

abbrev report_of : ℕ → Report ℕ ℕ
report_of n = record {
  number = n;
  hash = 10 * n;
  header = none;
  block = some n;
  logs = none;
  diff = none;
}

-- A fork of the head, with a body and logs of its own.
abbrev forked : LatestBlock ℕ ℕ
forked = record head { block_hash = 71; block_with_txs = some 1; logs = some (2 ∷ []) }

abbrev with_logs : Report ℕ ℕ
with_logs = record (report_of 8) { logs = some (1 ∷ []); block = none }

follow_example : (follow head (report_of 8 ∷ report_of 6 ∷ with_logs ∷ [])).block_number ≡ 8
follow_example = follow-highest head (report_of 8 ∷ report_of 6 ∷ with_logs ∷ [])

update_example :
    let t = (report (report forked (report_of 7)).0 (record (report_of 7) { block = some 9 })).0 in
    (t.block_number ≡ 7)
    × (t.block_hash ≡ 70)
    × (t.block_header ≡ none)
    × (t.block_with_txs ≡ some 9)
    × (t.logs ≡ none)
    × (t.diff ≡ none)
update_example =
    update-update forked (report_of 7) (record (report_of 7) { block = some 9 })
      (inr (refl, λ q. omega arith)) refl refl

abbrev first_change : AccountState
first_change = record { balance = some 5; nonce = none; code = none; storage = (3, 33) ∷ [] }

abbrev second_change : AccountState
second_change = record { balance = none; nonce = some 1; code = none; storage = (4, 44) ∷ [] }

abbrev changes : List GethStateUpdate
changes = ((9, first_change) ∷ []) ∷ ((9, second_change) ∷ []) ∷ []

abbrev changed : LatestBlock ℕ ℕ
changed = record head { diff = some changes }

override_example :
    lookup 9 (node_state_override changed)
    ≡ some (record { balance = none; nonce = some 1; state_diff = some ((4, 44) ∷ []) })
override_example = node_state_override-last changed changes 9 refl
