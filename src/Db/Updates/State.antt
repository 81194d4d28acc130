-- ===== src/Db/Updates/State.antt =====
-- What a database shows after the state update of a block.
use kabu.Base.{
  lookup-extend, All-lookup, extend, ℕ, ◌≡◌, refl, ◌∙◌, ◌≢◌, ◌⊎◌, inl, inr, none, some, [], ◌∷◌,
  arith, ◌==◌, if◌then◌else◌, ==_iff, Bool-cases, Option-cases, get_or_else, All, HashMap, lookup,
  insert, lookup-insert, IsMap,
}
use kabu.LatestBlock.{AccountState, GethStateUpdate}
use kabu.Db.{
  AccountInfo, Revm, touched, FastDbAccount, KabuDb, ok, unwrap_or, from_info, get_or_fetch_basic,
  get_or_fetch_storage, below_ref, as_ref, basic_ref, storage_ref, load_account,
}
use kabu.Db.Slots.{is_forgotten}
use kabu.Db.Updates.{insert_account_storage, insert_slots, apply_account, apply_geth_update}

module _ (revm : Revm) where
  -- The account that `load_account` gives.
  abbrev pub loaded : KabuDb → ℕ → FastDbAccount
  loaded db a = elim (lookup a db.top.accounts) [
    | some acc ↦ acc
    | none ↦
        from_info revm
          (unwrap_or (get_or_fetch_basic (below_ref revm db.below) db.top.ext_db a) none)
  ]

  load_account_lem :
      (db : KabuDb) (a b : ℕ)
      → let (t, acc) = load_account revm db a in
        (acc ≡ loaded db a)
        × (t.below ≡ db.below)
        × (t.top.ext_db ≡ db.top.ext_db)
        × (lookup b t.top.accounts
            ≡ (if b == a then some (loaded db a) else lookup b db.top.accounts))
  unfolding load_account
  load_account_lem db a b = elim (Option-cases (lookup a db.top.accounts)) [
    | inl e ↦
        let acc =
          from_info revm
            (unwrap_or (get_or_fetch_basic (below_ref revm db.below) db.top.ext_db a) none) in
        let put = lookup-insert b a acc db.top.accounts in
        (ground (arith, e), ground (arith, e), ground (arith, e), ground (arith, e, put))
    | inr (acc, e) ↦ (ground (arith, e), ground (arith, e), ground (arith, e), ground (arith, e))
  ]

  insert_account_storage_lem :
      (db : KabuDb) (a b s v : ℕ)
      → let t = insert_account_storage revm db a s v in
        (t.below ≡ db.below)
        × (t.top.ext_db ≡ db.top.ext_db)
        × (lookup b t.top.accounts ≡ (
            if b == a
            then some (record (loaded db a) { storage = insert s v (loaded db a).storage })
            else lookup b db.top.accounts))
  unfolding insert_account_storage
  insert_account_storage_lem db a b s v =
      let acc = (load_account revm db a).1 in
      let t = (load_account revm db a).0 in
      let (same, below, ext, here) = load_account_lem db a b in
      let put =
        lookup-insert b a (record acc { storage = insert s v acc.storage }) t.top.accounts in
      (below, ext, ground (arith, same, here, put))

  insert_slots_lem :
      (db : KabuDb) (a b : ℕ) (es : HashMap ℕ)
      → let t = insert_slots revm db a es in
        (t.below ≡ db.below)
        × (t.top.ext_db ≡ db.top.ext_db)
        × (loaded t a ≡ record (loaded db a) { storage = extend (loaded db a).storage es })
        × ((b ≡ a) ⊎ (lookup b t.top.accounts ≡ lookup b db.top.accounts))
  unfolding insert_slots extend
  insert_slots_lem db a b [] = (refl, refl, refl, inr refl)
  insert_slots_lem db a b (e ∷ es) =
      let u = insert_account_storage revm db a e.0 e.1 in
      let (below, ext, here, other) = insert_slots_lem u a b es in
      let (below', ext', here') = insert_account_storage_lem db a a e.0 e.1 in
      let (_, _, other') = insert_account_storage_lem db a b e.0 e.1 in
      (
        below ∙ below',
        ext ∙ ext',
        ground (arith, here, here'),
        elim (Bool-cases (b == a)) [
          | inl y ↦ inl ((==_iff b a).0 y)
          | inr y ↦ elim other [ inl z ↦ inl z | inr z ↦ inr (ground (arith, y, z, other')) ]
        ],
      )

  -- The account after the update: each of nonce, balance and code is the one that is given, if any,
  -- with the hash of the code that is.
  abbrev pub applied_info : AccountInfo → AccountState → AccountInfo
  applied_info old state = record {
    balance = get_or_else state.balance old.balance;
    nonce = get_or_else state.nonce old.nonce;
    code_hash = elim state.code [ none ↦ old.code_hash | some code ↦ revm.hash_slow code ];
    code = elim state.code [ none ↦ old.code | some code ↦ some code ];
  }

  abbrev pub applied : FastDbAccount → AccountState → FastDbAccount
  applied old state = record {
    info = applied_info old.info state;
    account_state = touched;
    storage = extend old.storage state.storage;
  }

  apply_account_lem :
      (db : KabuDb) (a b : ℕ) (state : AccountState)
      → let t = apply_account revm db a state in
        (t.below ≡ db.below)
        × (t.top.ext_db ≡ db.top.ext_db)
        × (lookup b t.top.accounts
            ≡ (if b == a then some (applied (loaded db a) state) else lookup b db.top.accounts))
  unfolding apply_account
  apply_account_lem db a b state =
      let u = insert_slots revm db a state.storage in
      let (below, ext, here, other) = insert_slots_lem db a b state.storage in
      let (same, below', ext', stored) = load_account_lem u a b in
      let written = record (loaded db a) { storage = extend (loaded db a).storage state.storage } in
      let known : (load_account revm u a).1 ≡ written = same ∙ here in
      let put =
        lookup-insert b a (applied (loaded db a) state) (load_account revm u a).0.top.accounts in
      (
        below' ∙ below,
        ext' ∙ ext,
        rw known (elim other [
          | inl z ↦ ground (arith, put, z)
          | inr z ↦ ground (arith, put, z, stored)
        ]),
      )

  -- The reads of the accounts that an update does not name are as before.
  lookup-apply_geth_update :
      (db : KabuDb) (u : GethStateUpdate) (a : ℕ)
      → IsMap u
      → let t = apply_geth_update revm db u in
        (t.below ≡ db.below)
        × (t.top.ext_db ≡ db.top.ext_db)
        × (lookup a t.top.accounts ≡ elim (lookup a u) [
          | none ↦ lookup a db.top.accounts
          | some state ↦ some (applied (loaded db a) state)
        ])
  unfolding apply_geth_update lookup
  lookup-apply_geth_update db [] a h = (refl, refl, refl)
  lookup-apply_geth_update db (e ∷ es) a h =
      let (below, ext, later) = lookup-apply_geth_update (apply_account revm db e.0 e.1) es a h.1 in
      let (below', ext', now) = apply_account_lem db e.0 a e.1 in
      (
        below ∙ below',
        ext ∙ ext',
        elim (Bool-cases (a == e.0)) [
          | inl y ↦
              let same : a ≡ e.0 = (==_iff a e.0).0 y in
              let gone : lookup a es ≡ none = ground (arith, same, h.0) in
              let kept : loaded db e.0 ≡ loaded db a = rw same in
              ground (arith, y, later, now, gone, kept)
          | inr y ↦ elim (Option-cases (lookup a es)) [
            | inl x ↦ ground (arith, y, later, now, x)
            | inr (st, x) ↦
                let kept : loaded (apply_account revm db e.0 e.1) a ≡ loaded db a =
                  ground (arith, y, now, below', ext') in
                ground (arith, y, later, now, x, kept)
          ]
        ],
      )

  -- After the state update of a block a slot shows the value that the update gives it, and what it
  -- showed before where the update gives none; but in an account that the update names, a slot that
  -- showed zero since its account was cleared shows what the database below shows. (No key is twice
  -- in a map.)
  pub storage_ref-apply_geth_update :
      (db : KabuDb) (u : GethStateUpdate) (a s : ℕ)
      → IsMap u
      → All (λ e. IsMap e.1.storage) u
      → (as_ref revm (apply_geth_update revm db u)).storage_ref a s ≡ elim (lookup a u) [
        | none ↦ (as_ref revm db).storage_ref a s
        | some state ↦ elim (lookup s state.storage) [
          | some v ↦ ok v
          | none ↦
              if is_forgotten db a s
              then get_or_fetch_storage (below_ref revm db.below) db.top.ext_db a s
              else (as_ref revm db).storage_ref a s
        ]
      ]
  unfolding storage_ref lookup
  storage_ref-apply_geth_update db u a s h k =
      let (below, ext, now) = lookup-apply_geth_update db u a h in
      elim (Option-cases (lookup a u)) [
        | inl e ↦ ground (arith, e, below, ext, now)
        | inr (st, e) ↦
            let keys = All-lookup (λ (x : AccountState). IsMap x.storage) a u k e in
            let kept = lookup-extend s (loaded db a).storage st.storage keys in
            elim (Option-cases (lookup a db.top.accounts)) [
              | inl f ↦
                  elim (Option-cases (
                    unwrap_or (get_or_fetch_basic (below_ref revm db.below) db.top.ext_db a)
                      none)) [
                        | inl g ↦ ground (arith, e, f, g, below, ext, now, kept)
                        | inr (i, g) ↦ ground (arith, e, f, g, below, ext, now, kept)
                      ]
              | inr (old, f) ↦ ground (arith, e, f, below, ext, now, kept)
            ]
      ]

  -- After the state update of a block an account that it names exists, with the nonce, the balance and
  -- the code that it gives, with the hash of this code, and with those that it does not give as they
  -- were; any other account is as it was. (The account is not
  -- the zero address, and no key is twice in the update.)
  pub basic_ref-apply_geth_update :
      (db : KabuDb) (u : GethStateUpdate) (a : ℕ)
      → a ≢ 0
      → IsMap u
      → (as_ref revm (apply_geth_update revm db u)).basic_ref a ≡ elim (lookup a u) [
        | none ↦ (as_ref revm db).basic_ref a
        | some state ↦ ok (some (applied_info (loaded db a).info state))
      ]
  unfolding basic_ref
  basic_ref-apply_geth_update db u a n h =
      let (below, ext, now) = lookup-apply_geth_update db u a h in
      elim (Option-cases (lookup a u)) [
        | inl e ↦ ground (arith, e, n, below, ext, now)
        | inr (st, e) ↦ ground (arith, e, n, now)
      ]
