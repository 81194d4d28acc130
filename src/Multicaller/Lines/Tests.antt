-- ===== src/Multicaller/Lines/Tests.antt =====
-- The calls of lines of two pools.
use kabu.Base.{◌≡◌, refl, none, some, [], ◌++◌, arith, ◌>>=◌, done}
use kabu.Market.{new_token}
use kabu.Swap.{relative_stack, split}
use kabu.Swap.Split.{head_of, tail_of}
use kabu.Swap.Samples.{line, pool}
use kabu.Multicaller.Lines.{opcodes, encode_flash_swap_line_in_amount, encode_swap_line_in_amount}
use kabu.Multicaller.Lines.Samples.{one_call, encoder}
use kabu.Multicaller.Lines.Flash.{flash_in_two}
use kabu.Multicaller.Lines.Split.{encode-split}

flash_example : encode_flash_swap_line_in_amount encoder 77 line [] none ≡ (
    one_call [] 2 1 (relative_stack 0) (pool 11 5000) none (opcodes []) 77 >>= λ second.
    one_call [] 1 2 line.amount_in (pool 10 900) (some (pool 11 5000)) (opcodes second) 77
    >>= λ first. done (second ++ first))
unfolding ◌>>=◌
flash_example =
    flash_in_two encoder 77 line (new_token 1) (new_token 2) (new_token 1) (pool 10 900)
      (pool 11 5000) [] none (λ calls from to amount p other payload multicaller. refl) refl refl

line_example : encode_swap_line_in_amount encoder 77 line none ≡ (
    encode_swap_line_in_amount encoder 77 (head_of line 1) (some (pool 11 5000)) >>= λ first.
    encode_swap_line_in_amount encoder 77
      (record (tail_of line 1) { amount_in = relative_stack 0 })
      none
    >>= λ second. done (first ++ second))
unfolding ◌>>=◌ split
line_example =
    encode-split encoder 77 (λ calls from to amount p other payload multicaller. refl) line
      (head_of line 1) (tail_of line 1) 1 none refl (omega arith) (omega arith) refl
