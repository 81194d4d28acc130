-- ===== src/Accounts/Tests.antt =====
-- An account that holds 5 of token 1, and a state that watches it.
use kabu.Base.{◌-◌, ◌^◌, ◌≡◌, [], ◌∷◌, lookup}
use kabu.Accounts.{
  AccountNonceAndBalances, AccountNonceAndBalanceState, new, sub_balance, get_balance,
}
use kabu.Accounts.Balances.{
  get_balance-sub_balance, sets, adds, subtracts, apply_all, get_balance-apply_all,
}

abbrev holder : AccountNonceAndBalances
holder = record { nonce = 3; balance = (1, 5) ∷ [] }

sub_balance_example : get_balance (sub_balance holder 1 6) 1 ≡ 5
unfolding get_balance lookup
sub_balance_example = get_balance-sub_balance holder 1 1 6

replay_example :
    get_balance
      (apply_all new
        (sets 1 7 ∷ adds 1 (2 ^ 256 - 3) ∷ adds 2 4 ∷ subtracts 1 8 ∷ subtracts 1 5 ∷ []))
      1
    ≡ 2
unfolding get_balance lookup
replay_example =
    get_balance-apply_all new
      (sets 1 7 ∷ adds 1 (2 ^ 256 - 3) ∷ adds 2 4 ∷ subtracts 1 8 ∷ subtracts 1 5 ∷ []) 1

abbrev watched : AccountNonceAndBalanceState
watched = record { accounts = (8, holder) ∷ [] }
