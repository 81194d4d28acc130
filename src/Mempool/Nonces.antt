-- ===== src/Mempool/Nonces.antt =====
-- The nonces of accounts: the highest that was reported, in whatever order.
use Prim.Native.Nat.{max}
use kabu.Base.{
  ℕ, ◌+◌, ◌<◌, ◌≡◌, ◌↔◌, true, Option, none, some, List, [], ◌∷◌, arith, get_or_else, lookup,
  lookup-insert_self,
}
use kabu.Types.{u64_mod}
use kabu.Mempool.{TxTypes, Mempool, default_account, set_account_nonce, set_nonce, is_valid_tx}

abbrev raise : Option ℕ → ℕ → ℕ
raise none n = n
raise (some k) n = max k n

abbrev pub highest : ℕ → List ℕ → ℕ
highest n [] = n
highest n (k ∷ ks) = highest (max n k) ks

module _ {d : TxTypes} where
  -- The nonce that is known of an account.
  abbrev pub nonce_of : Mempool d → ℕ → Option ℕ
  nonce_of m account = elim (lookup account m.accounts) [ none ↦ none | some a ↦ a.nonce ]

  nonce_of-set_nonce :
      (m : Mempool d) (account nonce : ℕ)
      → nonce_of (set_nonce m account nonce) account ≡ some (raise (nonce_of m account) nonce)
  unfolding set_nonce
  nonce_of-set_nonce m account nonce =
      let a = get_or_else (lookup account m.accounts) default_account in
      ground (arith, lookup-insert_self account (set_account_nonce a (some nonce)) m.accounts)

  pub set_nonces : Mempool d → ℕ → List ℕ → Mempool d
  set_nonces m account [] = m
  set_nonces m account (n ∷ ns) = set_nonces (set_nonce m account n) account ns

  set_nonces-highest :
      (m : Mempool d) (account k : ℕ) (ns : List ℕ)
      → nonce_of m account ≡ some k
      → nonce_of (set_nonces m account ns) account ≡ some (highest k ns)
  unfolding set_nonces
  set_nonces-highest m account k [] q = q
  set_nonces-highest m account k (n ∷ ns) q =
      set_nonces-highest (set_nonce m account n) account (max k n) ns
        (ground (arith, nonce_of-set_nonce m account n))

  -- After any reports of an account's nonce, a transaction of the account is valid exactly when its
  -- nonce follows the highest one that was reported. (The account had none before, and the nonces
  -- are short of the largest 64-bit number.)
  pub is_valid_tx-set_nonces :
      (m : Mempool d) (tx : d.Tx) (n : ℕ) (ns : List ℕ)
      → nonce_of m (d.get_from tx) ≡ none
      → highest n ns + 1 < u64_mod
      → (is_valid_tx (set_nonces m (d.get_from tx) (n ∷ ns)) tx ≡ true)
        ↔ (d.get_nonce tx ≡ highest n ns + 1)
  unfolding is_valid_tx set_nonces
  is_valid_tx-set_nonces m tx n ns q b =
      let account = d.get_from tx in
      let first = set_nonce m account n in
      let s = set_nonces m account (n ∷ ns) in
      let known : nonce_of s account ≡ some (highest n ns) =
        set_nonces-highest first account n ns (ground (arith, nonce_of-set_nonce m account n)) in
      (λ v. ground (arith, known), λ v. ground (arith, known))
