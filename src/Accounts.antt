-- ===== src/Accounts.antt =====
-- Nonces and balances of the accounts that are watched
-- (crates/types/entities/src/account_nonce_balance.rs). Amounts are 256-bit numbers.
pub mod Balances
mod Tests
use kabu.Base.{
  ℕ, zero, suc, ◌+◌, ◌-◌, ◌*◌, ◌/◌, ◌%◌, ◌^◌, ◌≤◌, ◌<◌, ◌≡◌, refl, sym, ap, ◌∙◌, ◌≢◌, ◌↔◌, ◌⊎◌, inl,
  inr, Bool, true, false, ◌&&◌, ◌||◌, not, Option, none, some, List, [], ◌∷◌, ◌++◌, map, reverse,
  arith, ltb, leb, ◌==◌, if◌then◌else◌, ltb→lt, lt→ltb, leb→le, ==_iff, ==_refl, Bool-cases,
  Option-cases, is_some, get_or_else, length, get_elem?, take, drop, head?, get_last?, any, All,
  length-append, take-append-drop, length-take, length-drop, get_last?-append, All-append, HashMap,
  lookup, contains_key, insert, erase, retain, alter, values, lookup-insert, lookup-insert_self,
  lookup-insert_ne, lookup-erase, lookup-retain_key, IsMap, insert-IsMap, lookup-retain,
  retain-IsMap, erase-IsMap, any-values,
}
use kabu.Types.{u256_mod}

pub record AccountNonceAndBalances : Type 0 where
  pub nonce : ℕ
  pub balance : HashMap ℕ

abbrev pub new : AccountNonceAndBalances
new = record { nonce = 0; balance = [] }

abbrev pub get_nonce : AccountNonceAndBalances → ℕ
get_nonce a = a.nonce

pub set_nonce : AccountNonceAndBalances → ℕ → AccountNonceAndBalances
set_nonce a nonce = record a { nonce = nonce }

pub set_balance : AccountNonceAndBalances → ℕ → ℕ → AccountNonceAndBalances
set_balance a token amount = record a { balance = insert token amount a.balance }

-- `U256::checked_add` and `U256::checked_sub`
abbrev pub checked_add : ℕ → ℕ → Option ℕ
checked_add x y = if ltb (x + y) u256_mod then some (x + y) else none

abbrev pub checked_sub : ℕ → ℕ → Option ℕ
checked_sub x y = if leb y x then some (x - y) else none

-- Where the sum does not fit, the balance stays.
pub add_balance : AccountNonceAndBalances → ℕ → ℕ → AccountNonceAndBalances
add_balance a token amount = record a {
  balance = alter token 0 (λ x. get_or_else (checked_add x amount) x) a.balance;
}

-- Where the amount is not covered, the balance stays.
pub sub_balance : AccountNonceAndBalances → ℕ → ℕ → AccountNonceAndBalances
sub_balance a token amount = record a {
  balance = alter token 0 (λ x. get_or_else (checked_sub x amount) x) a.balance;
}

pub get_balance : AccountNonceAndBalances → ℕ → ℕ
get_balance a token = get_or_else (lookup token a.balance) 0

pub get_eth_balance : AccountNonceAndBalances → ℕ
get_eth_balance a = get_or_else (lookup 0 a.balance) 0

-- `AccountNonceAndBalanceState`
pub record AccountNonceAndBalanceState : Type 0 where
  pub accounts : HashMap AccountNonceAndBalances

pub add_account : AccountNonceAndBalanceState → ℕ → AccountNonceAndBalanceState
add_account s account = record { accounts = alter account new (λ a. a) s.accounts }

abbrev pub get_account : AccountNonceAndBalanceState → ℕ → Option AccountNonceAndBalances
get_account s account = lookup account s.accounts

pub is_monitored : AccountNonceAndBalanceState → ℕ → Bool
is_monitored s account = contains_key account s.accounts

-- A change through `get_mut_account`.
pub change_account :
    AccountNonceAndBalanceState
    → ℕ
    → (AccountNonceAndBalances → AccountNonceAndBalances)
    → AccountNonceAndBalanceState
change_account s account f = elim (lookup account s.accounts) [
  | none ↦ s
  | some a ↦ record { accounts = insert account (f a) s.accounts }
]
