-- ===== src/Accounts/Balances.antt =====
-- Balances under deposits and withdrawals, and the set of accounts that are watched.
use kabu.Base.{
  ℕ, ◌+◌, ◌-◌, ◌≡◌, refl, ap, ◌∙◌, ◌&&◌, inl, inr, none, some, List, [], ◌∷◌, arith, ltb, leb, ◌==◌,
  if◌then◌else◌, Option-cases, get_or_else, lookup, lookup-insert,
}
use kabu.Types.{u256_mod}
use kabu.Accounts.{
  AccountNonceAndBalances, new, set_nonce, set_balance, add_balance, sub_balance, get_balance,
  AccountNonceAndBalanceState, add_account, is_monitored, change_account, get_account,
}

-- A deposit is added where the sum fits 256 bits, and changes nothing where it does not; no other
-- token is touched.
get_balance-add_balance :
    (a : AccountNonceAndBalances) (token other amount : ℕ)
    → get_balance (add_balance a token amount) other ≡ (
        if other == token
        then (if ltb (get_balance a token + amount) u256_mod
            then get_balance a token + amount
            else get_balance a token)
        else get_balance a other)
unfolding get_balance add_balance
get_balance-add_balance a token other amount =
    let x = get_or_else (lookup token a.balance) 0 in
    ground (
      arith,
      lookup-insert other token
          (get_or_else (if ltb (x + amount) u256_mod then some (x + amount) else none) x) a.balance,
    )

pub get_balance-sub_balance :
    (a : AccountNonceAndBalances) (token other amount : ℕ)
    → get_balance (sub_balance a token amount) other ≡ (
        if other == token
        then (if leb amount (get_balance a token)
            then get_balance a token - amount
            else get_balance a token)
        else get_balance a other)
unfolding get_balance sub_balance
get_balance-sub_balance a token other amount =
    let x = get_or_else (lookup token a.balance) 0 in
    ground (
      arith,
      lookup-insert other token (get_or_else (if leb amount x then some (x - amount) else none) x)
          a.balance,
    )

get_balance-set_balance :
    (a : AccountNonceAndBalances) (token other amount : ℕ)
    → get_balance (set_balance a token amount) other
      ≡ (if other == token then amount else get_balance a other)
unfolding get_balance set_balance
get_balance-set_balance a token other amount =
    ground (arith, lookup-insert other token amount a.balance)

-- The calls that change an account.
pub data Change : Type 0 where
  sets_nonce : ℕ → Change
  sets adds subtracts : ℕ → ℕ → Change

pub apply : AccountNonceAndBalances → Change → AccountNonceAndBalances
apply a (sets_nonce n) = set_nonce a n
apply a (sets token amount) = set_balance a token amount
apply a (adds token amount) = add_balance a token amount
apply a (subtracts token amount) = sub_balance a token amount

pub apply_all : AccountNonceAndBalances → List Change → AccountNonceAndBalances
apply_all a [] = a
apply_all a (c ∷ cs) = apply_all (apply a c) cs

-- The balance of one token, as the changes of that token alone make it.
abbrev pub replay : ℕ → ℕ → List Change → ℕ
replay token x [] = x
replay token x (sets_nonce n ∷ cs) = replay token x cs
replay token x (sets other amount ∷ cs) = replay token (if other == token then amount else x) cs
replay token x (adds other amount ∷ cs) =
    replay token (if (other == token) && ltb (x + amount) u256_mod then x + amount else x) cs
replay token x (subtracts other amount ∷ cs) =
    replay token (if (other == token) && leb amount x then x - amount else x) cs

-- After any changes the balance of a token is what the changes of that token alone make it, in their
-- order: a deposit counts where the sum is below 2 ^ 256, and a withdrawal where it is covered.
pub get_balance-apply_all :
    (a : AccountNonceAndBalances) (cs : List Change) (token : ℕ)
    → get_balance (apply_all a cs) token ≡ replay token (get_balance a token) cs
unfolding apply_all apply set_nonce get_balance
get_balance-apply_all a [] token = refl
get_balance-apply_all a (sets_nonce n ∷ cs) token = get_balance-apply_all (set_nonce a n) cs token
get_balance-apply_all a (sets other amount ∷ cs) token =
    get_balance-apply_all (set_balance a other amount) cs token
    ∙ ap (λ x. replay token x cs) (ground (arith, get_balance-set_balance a other token amount))
get_balance-apply_all a (adds other amount ∷ cs) token =
    get_balance-apply_all (add_balance a other amount) cs token
    ∙ ap (λ x. replay token x cs) (ground (arith, get_balance-add_balance a other token amount))
get_balance-apply_all a (subtracts other amount ∷ cs) token =
    get_balance-apply_all (sub_balance a other amount) cs token
    ∙ ap (λ x. replay token x cs) (ground (arith, get_balance-sub_balance a other token amount))

-- Watching an account keeps the data of every account that is watched, and starts a new one with
-- nonce and balances zero; a change through a reference makes no account watched.
add_account_lem :
    (s : AccountNonceAndBalanceState) (account other : ℕ)
    → (get_account (add_account s account) other ≡ (
        if other == account
        then some (get_or_else (get_account s account) new)
        else get_account s other))
      × ((f : AccountNonceAndBalances → AccountNonceAndBalances)
          → is_monitored (change_account s account f) other ≡ is_monitored s other)
unfolding add_account change_account is_monitored
add_account_lem s account other = (
  ground
      (arith, lookup-insert other account (get_or_else (lookup account s.accounts) new) s.accounts),
  λ f. elim (Option-cases (lookup account s.accounts)) [
    | inl q ↦ ground (arith, q)
    | inr (a, q) ↦ ground (arith, q, lookup-insert other account (f a) s.accounts)
  ],
)
