-- ===== src/Swap/Step/Tests.antt =====
-- Steps of a line, and a merge of two lines with their first pool in common.
use kabu.Base.{ℕ, ◌≡◌, refl, ◌↔◌, ◌⊎◌, false, none, some, [], ◌∷◌}
use kabu.Market.{new_token, new_path}
use kabu.Swap.{SwapLine, from_path, split}
use kabu.Swap.Samples.{pool, line, fork}
use kabu.Swap.Split.{head_of, tail_of}
use kabu.Swap.Step.{
  SwapStep, cannot_merge_different_tokens, cannot_merge_both_sides, can_merge_swap_paths,
  merge_swap_paths, count_common,
}
use kabu.Swap.Step.Merge.{can_merge-merge}
use kabu.Swap.Step.Merge.Start.{Forks, merge_swap_paths-Forks}

-- Two ways round by three pools, with the first and the last of them in common.
abbrev round_by : ℕ → SwapLine
round_by id = from_path (
    new_path (new_token 1 ∷ new_token 2 ∷ new_token 3 ∷ new_token 1 ∷ [])
      (pool 10 900 ∷ pool id 5000 ∷ pool 12 700 ∷ []))

can_merge_example : (can_merge_swap_paths (round_by 11) (round_by 13) ≡ some false) ↔ (
    (merge_swap_paths (round_by 11) (round_by 13) 77 ≡ cannot_merge_different_tokens)
    ⊎ (merge_swap_paths (round_by 11) (round_by 13) 77 ≡ cannot_merge_both_sides))
can_merge_example = can_merge-merge (round_by 11) (round_by 13) 77

abbrev common : SwapStep
common = record { swap_line_vec = head_of line 1 ∷ []; swap_to = 77; swap_from = none }

abbrev ways : SwapStep
ways = record {
  swap_line_vec = tail_of line 1 ∷ tail_of fork 1 ∷ [];
  swap_to = 77;
  swap_from = none;
}

merge_example : Forks line fork 1 common ways
unfolding count_common merge_swap_paths split
merge_example = merge_swap_paths-Forks line fork 0 77 common ways refl refl refl refl
