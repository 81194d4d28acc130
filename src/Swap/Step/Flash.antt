-- ===== src/Swap/Step/Flash.antt =====
-- The two steps of a line that is flash swapped.
use kabu.Base.{
  ℕ, zero, suc, ◌+◌, ◌-◌, ◌≤◌, ◌≡◌, refl, ◌⊎◌, inl, inr, true, none, some, [], ◌∷◌, ◌++◌, arith,
  Bool-cases, length, drop,
}
use kabu.Swap.{SwapLine, stack0, not_set, can_flash_swap}
use kabu.Swap.Split.{IsLine, split_lem}
use kabu.Swap.Step.{add, find_flash, to_swap_steps}

-- The parts make up the line, and where the second takes its amount from the stack the first can be
-- flash swapped.
abbrev pub Parts : SwapLine → SwapLine → SwapLine → Type 0
Parts line head tail =
    (head.path.pools ++ tail.path.pools ≡ line.path.pools)
    × (head.path.tokens ++ drop 1 tail.path.tokens ≡ line.path.tokens)
    × (head.amount_in ≡ line.amount_in)
    × (tail.amount_out ≡ line.amount_out)
    × ((can_flash_swap head ≡ true) ⊎ (tail.amount_in ≡ not_set))

find_flash-Parts :
    (n i : ℕ) (line : SwapLine)
    → IsLine line.path
    → i + n ≤ length line.path.pools
    → (find_flash n i line ≡ some none)
      ⊎ ((head : SwapLine) × (tail : SwapLine) × (find_flash n i line ≡ some (some (head, tail)))
          × Parts line head tail)
unfolding find_flash
find_flash-Parts zero i line l h = inl refl
find_flash-Parts (suc n) i line l h =
    let (head, tail, e, _, _, ps, ts, _, x, y, z) = split_lem line i l (omega arith) in
    let flash = can_flash_swap head in
    elim (Bool-cases flash) [
      | inl f ↦
          inr
            (head, record tail { amount_in = stack0 }, ground (arith, e, f), (ps, ts, x, y, inl f))
      | inr f ↦ elim (Bool-cases (can_flash_swap tail)) [
        | inl g ↦ inr (head, tail, ground (arith, e, f, g), (ps, ts, x, y, inr z))
        | inr g ↦ elim (find_flash-Parts n (suc i) line l (omega arith)) [
          | inl rest ↦ inl (ground (arith, e, f, g, rest))
          | inr (u, w, rest, parts) ↦ inr (u, w, ground (arith, e, f, g, rest), parts)
        ]
      ]
    ]

-- A line with a pool gives two steps of one line each, and these make up the line; the second takes
-- its amount from the stack only if the first can be flash swapped.
pub to_swap_steps-Parts :
    (line : SwapLine) (multicaller : ℕ)
    → IsLine line.path
    → 1 ≤ length line.path.pools
    → (head : SwapLine) × (tail : SwapLine) × (to_swap_steps line multicaller
        ≡ some (
          record { swap_line_vec = head ∷ []; swap_to = multicaller; swap_from = none },
          record { swap_line_vec = tail ∷ []; swap_to = multicaller; swap_from = none },
        ))
      × Parts line head tail
unfolding to_swap_steps add
to_swap_steps-Parts line multicaller l h =
    elim (find_flash-Parts (length line.path.pools - 1) 1 line l (omega arith)) [
      | inr (head, tail, e, parts) ↦ (head, tail, ground (arith, e), parts)
      | inl e ↦
          let (head, tail, f, _, _, ps, ts, _, x, y, z) = split_lem line 1 l h in
          (head, tail, ground (arith, e, f), (ps, ts, x, y, inr z))
    ]
