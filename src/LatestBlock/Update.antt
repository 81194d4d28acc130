-- ===== src/LatestBlock/Update.antt =====
-- How the head follows the blocks that are reported.
use kabu.Base.{
  ℕ, ◌≤◌, ◌<◌, ◌≡◌, refl, ◌↔◌, Bool, true, Option, List, [], ◌∷◌, arith, ltb, if◌then◌else◌, ◌⊎◌,
  ◌≢◌, none, some, inl, inr, Bool-cases,
}
use kabu.Types.{Header}
use kabu.LatestBlock.{LatestBlock, GethStateUpdate, update}

-- A report of a block: its number, hash, and what is known of it.
pub record Report (B L : Type 0) : Type 0 where
  pub number : ℕ
  pub hash : ℕ
  pub header : Option Header
  pub block : Option B
  pub logs : Option (List L)
  pub diff : Option (List GethStateUpdate)

-- What two reports of a part say of it, the second before the first.
abbrev pub second_or_first {ℓ} : {A : Type ℓ} → Option A → Option A → Option A
second_or_first (some x) first = some x
second_or_first none first = first

module _ {B L : Type 0} where
  abbrev pub report : LatestBlock B L → Report B L → LatestBlock B L × Bool
  report s r = update s r.number r.hash r.header r.block r.logs r.diff

  -- The head never goes back; it is reported new exactly when the number grows; a report of an
  -- older block changes nothing.
  update-monotone :
      (s : LatestBlock B L) (r : Report B L)
      → let (t, is_new) = report s r in
        (s.block_number ≤ t.block_number)
        × ((is_new ≡ true) ↔ (s.block_number < t.block_number))
        × ((t ≡ s) ⊎ (s.block_number ≤ r.number))
  unfolding update
  update-monotone s r = (
    ground arith,
    (λ q. ground arith, λ q. ground arith),
    elim (Bool-cases (ltb r.number s.block_number)) [
      | inl y ↦ inl (ground (arith, y))
      | inr y ↦ inr (ground (arith, y))
    ],
  )

  pub follow : LatestBlock B L → List (Report B L) → LatestBlock B L
  follow s [] = s
  follow s (r ∷ rs) = follow (report s r).0 rs

  abbrev pub highest : ℕ → List (Report B L) → ℕ
  highest n [] = n
  highest n (r ∷ rs) = highest (if ltb n r.number then r.number else n) rs

  -- The head after any reports is at the highest of the numbers that were reported and of its start.
  pub follow-highest :
      (s : LatestBlock B L) (rs : List (Report B L))
      → (follow s rs).block_number ≡ highest s.block_number rs
  unfolding follow update
  follow-highest s [] = refl
  follow-highest s (r ∷ rs) = ground (arith, follow-highest (report s r).0 rs)

  -- A report of a block that is not below the head and is another block than it, of a higher number
  -- or of another hash, and a second report of the same block, leave what either of the two says, the
  -- second before the first, and nothing of the head before them.
  pub update-update :
      (s : LatestBlock B L) (r q : Report B L)
      → s.block_number < r.number ⊎ (s.block_number ≡ r.number) × (s.block_hash ≢ r.hash)
      → q.number ≡ r.number
      → q.hash ≡ r.hash
      → let t = (report (report s r).0 q).0 in
        (t.block_number ≡ r.number)
        × (t.block_hash ≡ r.hash)
        × (t.block_header ≡ second_or_first q.header r.header)
        × (t.block_with_txs ≡ second_or_first q.block r.block)
        × (t.logs ≡ second_or_first q.logs r.logs)
        × (t.diff ≡ second_or_first q.diff r.diff)
  unfolding update
  update-update s r q (inl n) m h = ground arith
  update-update s r q (inr (n, k)) m h = ground arith
