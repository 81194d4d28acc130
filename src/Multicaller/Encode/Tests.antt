-- ===== src/Multicaller/Encode/Tests.antt =====
-- The encodings of two swaps together.
use kabu.Base.{◌≡◌, refl, none, some, [], ◌∷◌, done, ◌>>=◌}
use kabu.Swap.{SwapLine, stack0, split}
use kabu.Swap.Split.{head_of, tail_of}
use kabu.Swap.Samples.{line, fork}
use kabu.Swap.Step.{SwapStep, find_flash, add}
use kabu.Swap.Step as Step
use kabu.Swap.Whole.{Swap, backrun_swap_line, multiple, end, entry, to_swap_steps}
use kabu.Multicaller.Lines.Samples.{encoder, abi}
use kabu.Multicaller.Steps.{to_call_data}
use kabu.Multicaller.Encode.{make_calls, encode, steps_of}
use kabu.Multicaller.Encode.Agree.{encode-make_calls}

abbrev both : Swap
both = multiple (entry (backrun_swap_line line) (entry (backrun_swap_line fork) end))

abbrev steps : SwapLine → SwapStep × SwapStep
steps l = (
  record { swap_line_vec = head_of l 1 ∷ []; swap_to = 77; swap_from = none },
  record {
    swap_line_vec = record (tail_of l 1) { amount_in = stack0 } ∷ [];
    swap_to = 77;
    swap_from = none;
  },
)

encode_example : encode encoder abi 77 both none (some 5) (some 9) (some 1000) 3 ≡ (
    make_calls encoder abi 77 both >>= λ calls.
    to_call_data encoder abi 77 calls >>= λ called. done (called.0, called.1, []))
unfolding ◌>>=◌ steps_of to_swap_steps split find_flash add Step.to_swap_steps
encode_example =
    encode-make_calls encoder abi 77 both (steps line) (steps fork ∷ []) (some 5) (some 9)
      (some 1000) 3 refl
