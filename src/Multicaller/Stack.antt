-- ===== src/Multicaller/Stack.antt =====
-- How a call takes its amount (crates/execution/multicaller/src/opcodes_helpers.rs). The encoding of
-- the question for a balance is the ABI's, and a parameter; `none` is the missing token's panic.
use mathlib.Core.List.{append_assoc, append-nil}
use kabu.Base.{
  ℕ, ◌≡◌, refl, sym, ap, ◌∙◌, Bool, true, false, Option, none, some, List, [], ◌∷◌, ◌++◌,
}
use kabu.Multicaller.{
  MulticallerCall, MulticallerCalls, static_call, new, set_call_stack, set_return_stack,
}
use kabu.Swap.{SwapAmountType, not_set, set, stack0, relative_stack, balance}

-- `call.set_call_stack(..)`
abbrev at_stack : Bool → ℕ → ℕ → ℕ → MulticallerCall → MulticallerCall
at_stack is_relative stack_offset offset len c = set_call_stack c (record {
  is_relative = is_relative;
  stack_offset = stack_offset;
  data_offset = offset;
  data_len = len;
})

-- The match in the loop of `build_multiple_stack`.
abbrev stack_each : SwapAmountType → MulticallerCall × ℕ × ℕ → MulticallerCall
stack_each amount (c, offset, len) = elim amount [
  | set value ↦ c
  | balance owner ↦ at_stack true 0 offset len c
  | relative_stack stack_offset ↦ at_stack true stack_offset offset len c
  | not_set ↦ at_stack true 0 offset len c
  | stack0 ↦ at_stack false 0 offset len c
]

module _ (encode_erc20_balance_of : ℕ → List ℕ) where
  -- The call that leaves the balance of the owner on the stack.
  abbrev balance_opcode : ℕ → ℕ → MulticallerCall
  balance_opcode owner token =
      set_return_stack (new static_call token (encode_erc20_balance_of owner) none)
        (record { is_relative = true; stack_offset = 0; data_offset = 0; data_len = 0x20 })

  pub build_call_stack :
      SwapAmountType → MulticallerCall → ℕ → ℕ → Option ℕ → Option MulticallerCalls
  build_call_stack (set value) c offset len token = some (c ∷ [])
  build_call_stack (balance owner) c offset len none = none
  build_call_stack (balance owner) c offset len (some t) =
      some (balance_opcode owner t ∷ at_stack true 0 offset len c ∷ [])
  build_call_stack (relative_stack stack_offset) c offset len token =
      some (at_stack true stack_offset offset len c ∷ [])
  build_call_stack not_set c offset len token = some (at_stack true 0 offset len c ∷ [])
  build_call_stack stack0 c offset len token = some (at_stack false 0 offset len c ∷ [])

  pub add_all_stacks :
      SwapAmountType → MulticallerCalls → List (MulticallerCall × ℕ × ℕ) → MulticallerCalls
  add_all_stacks amount done [] = done
  add_all_stacks amount done (x ∷ xs) = add_all_stacks amount (done ++ stack_each amount x ∷ []) xs

  -- The calls before the loop of `build_multiple_stack`.
  abbrev balance_calls : SwapAmountType → Option ℕ → Option MulticallerCalls
  balance_calls (balance owner) none = none
  balance_calls (balance owner) (some t) = some (balance_opcode owner t ∷ [])
  balance_calls amount token = some []

  pub build_multiple_stack :
      SwapAmountType → List (MulticallerCall × ℕ × ℕ) → Option ℕ → Option MulticallerCalls
  unfolding add_all_stacks
  build_multiple_stack amount cs token = elim (balance_calls amount token) [
    | none ↦ none
    | some calls ↦ some (add_all_stacks amount calls cs)
  ]

  -- Where an amount stands on the stack, relative to its top or not; nowhere where it is known.
  abbrev pub stack_place : SwapAmountType → Option (Bool × ℕ)
  stack_place (set value) = none
  stack_place (balance owner) = some (true, 0)
  stack_place (relative_stack stack_offset) = some (true, stack_offset)
  stack_place not_set = some (true, 0)
  stack_place stack0 = some (false, 0)

  -- A call that takes its amount at a place.
  abbrev pub placed_at : Option (Bool × ℕ) → MulticallerCall × ℕ × ℕ → MulticallerCall
  placed_at none (c, offset, len) = c
  placed_at (some p) (c, offset, len) = record c {
    call_stack =
        some
          (record { is_relative = p.0; stack_offset = p.1; data_offset = offset; data_len = len });
  }

  abbrev pub placed : Option (Bool × ℕ) → List (MulticallerCall × ℕ × ℕ) → MulticallerCalls
  placed p [] = []
  placed p (x ∷ xs) = placed_at p x ∷ placed p xs

  -- The question for the balance of the owner, which leaves its answer on top of the stack.
  abbrev pub question : ℕ → ℕ → MulticallerCall
  question owner token = record {
    call_type = static_call;
    call_data = encode_erc20_balance_of owner;
    to = token;
    value = none;
    call_stack = none;
    return_stack =
        some (record { is_relative = true; stack_offset = 0; data_offset = 0; data_len = 32 });
  }

  -- The calls that take one amount, after the question for it where it is a balance.
  abbrev pub calls_with :
      SwapAmountType → List (MulticallerCall × ℕ × ℕ) → Option ℕ → Option MulticallerCalls
  calls_with (balance owner) cs none = none
  calls_with (balance owner) cs (some t) =
      some (question owner t ∷ placed (stack_place (balance owner)) cs)
  calls_with amount cs token = some (placed (stack_place amount) cs)

  stack_each-placed_at :
      (amount : SwapAmountType) (x : MulticallerCall × ℕ × ℕ)
      → stack_each amount x ≡ placed_at (stack_place amount) x
  stack_each-placed_at (set value) x = refl
  stack_each-placed_at (balance owner) x = refl
  stack_each-placed_at (relative_stack stack_offset) x = refl
  stack_each-placed_at not_set x = refl
  stack_each-placed_at stack0 x = refl

  add_all_stacks-placed :
      (amount : SwapAmountType) (done : MulticallerCalls) (cs : List (MulticallerCall × ℕ × ℕ))
      → add_all_stacks amount done cs ≡ done ++ placed (stack_place amount) cs
  unfolding add_all_stacks
  add_all_stacks-placed amount done [] = sym (append-nil done)
  add_all_stacks-placed amount done (x ∷ xs) =
      let here = stack_each amount x ∷ [] in
      let rest = placed (stack_place amount) xs in
      add_all_stacks-placed amount (done ++ here) xs
      ∙ append_assoc done here rest
      ∙ ap (λ y. done ++ y ∷ rest) (stack_each-placed_at amount x)

  -- Calls that take one amount, one or several, are the calls with the stack place of that amount,
  -- behind the question for the balance where the amount is one; there are none where it is and the
  -- token is missing.
  pub build_stacks-calls_with :
      (amount : SwapAmountType) (c : MulticallerCall) (offset len : ℕ)
      (cs : List (MulticallerCall × ℕ × ℕ)) (token : Option ℕ)
      → (build_multiple_stack amount cs token ≡ calls_with amount cs token)
        × (build_call_stack amount c offset len token
            ≡ calls_with amount ((c, offset, len) ∷ []) token)
  unfolding build_multiple_stack build_call_stack
  build_stacks-calls_with (set value) c offset len cs token =
      (ap some (add_all_stacks-placed (set value) [] cs), refl)
  build_stacks-calls_with (balance owner) c offset len cs none = (refl, refl)
  build_stacks-calls_with (balance owner) c offset len cs (some t) =
      (ap some (add_all_stacks-placed (balance owner) (balance_opcode owner t ∷ []) cs), refl)
  build_stacks-calls_with (relative_stack stack_offset) c offset len cs token =
      (ap some (add_all_stacks-placed (relative_stack stack_offset) [] cs), refl)
  build_stacks-calls_with not_set c offset len cs token =
      (ap some (add_all_stacks-placed not_set [] cs), refl)
  build_stacks-calls_with stack0 c offset len cs token =
      (ap some (add_all_stacks-placed stack0 [] cs), refl)
