-- ===== src/BlockHistory/Manager/Head.antt =====
-- `set_chain_head` names the new head and its ancestors, down to the fork.
use mathlib.Core.Option
use kabu.Base.{
  ℕ, ◌+◌, ◌<◌, ◌≡◌, refl, ◌∙◌, inl, inr, Bool, true, false, Option, none, some, arith, leb,
  Bool-cases, Option-cases, is_some, get_or_else, lookup, lookup-insert, lookup-insert_ne,
}
use kabu.Types.{u64_mod, Header, KabuDataTypes}
use kabu.BlockHistory.{
  BlockHistory, Result, ok, err, panicked, provider, block_is_empty, header_entry, contains_block,
  advance_head, prune, get_or_insert_entry_with_header, add_block_header, get_first_block_number,
}
use kabu.BlockHistory.Entries.{prune-entries_some, prune-numbers_some}
use kabu.BlockHistory.Headers.{get_or_insert-latest, add_block_header_lem, add_block_header_again}
use kabu.BlockHistory.Manager.{◌>>=◌, set_chain_head, Client, rewind}
use kabu.BlockHistory.Manager.Rewind.{KnownBlock, StoreKnown, ClientKnown, Chain, rewind-Outcome}
use kabu.BlockHistory.Manager.Ends.{HeadEnds, Ends, rewind-Ends}

module _ {d : KabuDataTypes} {S : Type 0} (client : Client d) (height : ℕ → ℕ) where
  get_or_insert-StoreKnown :
      (s : BlockHistory d S) (h : Header)
      → StoreKnown height s
      → KnownBlock height h.hash h
      → StoreKnown height (get_or_insert_entry_with_header s h)
  unfolding get_or_insert_entry_with_header advance_head
  get_or_insert-StoreKnown s h v w j x q =
      let p = prune (advance_head s h) h in
      elim (Option-cases (lookup j p.block_entries)) [
        | inr (y, a) ↦
            let same : x ≡ y = ground (
              arith,
              a,
              lookup-insert j h.hash
                  (get_or_else (lookup h.hash p.block_entries) (header_entry d h)) p.block_entries,
            ) in
            rw same (v j y (ground (arith, prune-entries_some (advance_head s h) h j y)))
        | inl a ↦
            let added =
              lookup-insert j h.hash
                (get_or_else (lookup h.hash p.block_entries) (header_entry d h)) p.block_entries in
            let key : j ≡ h.hash = ground (arith, a, added) in
            let header : x.header ≡ h = ground (arith, a, added) in rw (key, header) w
      ]

  add_block_header-StoreKnown :
      (s : BlockHistory d S) (h : Header)
      → StoreKnown height s
      → KnownBlock height h.hash h
      → StoreKnown height (add_block_header s h).0
  unfolding add_block_header
  add_block_header-StoreKnown s h v w =
      elim (Bool-cases (is_some (lookup h.hash s.block_entries))) [
        | inl y ↦ rw (add_block_header_again s h y) v
        | inr y ↦ λ j x q. get_or_insert-StoreKnown s h v w j x (ground (arith, y))
      ]

  -- Below the number of the header the table names nothing new.
  add_block_header-Older :
      (s : BlockHistory d S) (h : Header) (n j : ℕ)
      → n < h.number
      → lookup n (add_block_header s h).0.block_numbers ≡ some j
      → lookup n s.block_numbers ≡ some j
  unfolding add_block_header get_or_insert_entry_with_header advance_head
  add_block_header-Older s h n j b q = ground (
    arith,
    prune-numbers_some (advance_head s h) h n j,
    lookup-insert_ne n h.number h.hash s.block_numbers,
  )

  abbrev with_flag :
      Bool → Option (BlockHistory d S × Result ℕ) → Option (BlockHistory d S × Result (Bool × ℕ))
  with_flag is_new = Option.map (λ (u, r). (u, r >>= λ reorg_depth. ok (is_new, reorg_depth)))

  with_flag-eq-some :
      (is_new flag : Bool) (o : Option (BlockHistory d S × Result ℕ)) (t : BlockHistory d S) (n : ℕ)
      → with_flag is_new o ≡ some (t, ok (flag, n))
      → o ≡ some (t, ok n)
  with_flag-eq-some is_new flag none t n q = absurd (ground arith)
  with_flag-eq-some is_new flag (some (u, ok m)) t n q = ground arith
  with_flag-eq-some is_new flag (some (u, err x)) t n q = absurd (ground arith)
  with_flag-eq-some is_new flag (some (u, panicked)) t n q = absurd (ground arith)

  -- When the head has moved to a new block, the table names that block, and its ancestors for as
  -- many steps as the depth of the reorganisation says, down to a stored block that the table named
  -- before as well, or to one that lies below the lowest number; the new block is stored. (The store
  -- and the node know blocks with the parents below them, the header is of such a block, the depth of
  -- the store is not zero, and the numbers are short of the largest 64-bit number.)
  pub set_chain_head-Chain :
      (fuel : ℕ) (s t : BlockHistory d S) (h : Header) (min_block reorg_depth : ℕ)
      → 0 < s.depth
      → s.latest_block_number + 1 < u64_mod
      → h.number + 1 < u64_mod
      → StoreKnown height s
      → ClientKnown height client
      → KnownBlock height h.hash h
      → get_first_block_number s ≡ some min_block
      → set_chain_head client fuel s h ≡ some (t, ok (true, reorg_depth))
      → Chain client min_block s.block_numbers t h.parent_hash reorg_depth
        × (lookup h.number t.block_numbers ≡ some h.hash)
        × (lookup h.hash t.block_entries ≡ some (header_entry d h))
  unfolding set_chain_head
  set_chain_head-Chain fuel s t h min_block n p b c v cl w f q =
      elim (Bool-cases (is_some (lookup h.hash s.block_entries))) [
        | inl y ↦ absurd (ground (arith, f, add_block_header_again s h y))
        | inr y ↦
            let u = (add_block_header s h).0 in
            let added = add_block_header_lem s h p b c y in
            let new_head : leb s.latest_block_number h.number ≡ true = ground (arith, f, added.0) in
            let named : lookup h.number u.block_numbers ≡ some h.hash = elim added.3 [
              | inl e ↦ e
              | inr l ↦ absurd (ground (arith, l, new_head))
            ] in
            let rewound : rewind client fuel u min_block h.parent_hash 0 ≡ some (t, ok n) =
              with_flag-eq-some true true (rewind client fuel u min_block h.parent_hash 0) t n
                (ground (arith, f, added.0, new_head)) in
            let (m, total, chain, kept) =
              rewind-Outcome client height fuel s.block_numbers u t min_block h.parent_hash 0 n
                (add_block_header-StoreKnown s h v w) cl
                (λ i j below. add_block_header-Older s h i j (omega (arith, w.parent, w.number)))
                rewound in
            let depth : m ≡ n = omega (arith, total) in
            (
              rw depth at chain,
              kept.numbers_above h.number (omega (arith, w.parent, w.number)) ∙ named,
              kept.entries_kept h.hash (header_entry d h) added.2,
            )
      ]

  add_block_header-new :
      (s : BlockHistory d S) (h : Header)
      → contains_block s h.hash ≡ false
      → (add_block_header s h).1 ≡ ok (leb s.latest_block_number h.number)
  unfolding add_block_header
  add_block_header-new s h e = ground (arith, get_or_insert-latest s h)

  with_flag-HeadEnds :
      (s : BlockHistory d S) (h : Header) (o : Option (BlockHistory d S × Result ℕ))
      (p : Option (BlockHistory d S × Result (Bool × ℕ)))
      → contains_block s h.hash ≡ false
      → leb s.latest_block_number h.number ≡ true
      → p ≡ with_flag true o
      → Ends o
      → HeadEnds s h p
  with_flag-HeadEnds s h o p e l q (t, r, a, inl (m, b)) =
      (t, ok (true, m), ground (arith, q, a, b), inl (m, ground (arith, e, l)))
  with_flag-HeadEnds s h o p e l q (t, r, a, inr (inl b)) =
      (t, err provider, ground (arith, q, a, b), inr (inl refl))
  with_flag-HeadEnds s h o p e l q (t, r, a, inr (inr b)) =
      (t, err block_is_empty, ground (arith, q, a, b), inr (inr refl))

  -- With more fuel than the height of the parent the call ends and does not panic: it gives its flag,
  -- that the header was not stored and no block is higher, with a depth, or the error of a node that
  -- fails or has no such block. (The store and the node know blocks with the parents below them, and
  -- the header is of such a block.)
  pub set_chain_head-total :
      (fuel : ℕ) (s : BlockHistory d S) (h : Header)
      → StoreKnown height s
      → ClientKnown height client
      → KnownBlock height h.hash h
      → height h.parent_hash < fuel
      → HeadEnds s h (set_chain_head client fuel s h)
  unfolding set_chain_head
  set_chain_head-total fuel s h v cl w b =
      let u = (add_block_header s h).0 in
      elim (Bool-cases (contains_block s h.hash)) [
        | inl y ↦ (
          s,
          ok (false, 0),
          ground (arith, add_block_header_again s h y),
          inl (0, ground (arith, y)),
        )
        | inr y ↦
            let added = add_block_header-new s h y in
            elim (Bool-cases (leb s.latest_block_number h.number)) [
              | inr low ↦ (
                u,
                ok (false, 0),
                elim (Option-cases (get_first_block_number s)) [
                  | inl f ↦ ground (arith, f, added, low)
                  | inr (min_block, f) ↦ ground (arith, f, added, low)
                ],
                inl (0, ground (arith, y, low)),
              )
              | inl high ↦ elim (Option-cases (get_first_block_number s)) [
                | inl f ↦ (
                  u,
                  ok (true, 0),
                  ground (arith, f, added, high),
                  inl (0, ground (arith, y, high)),
                )
                | inr (min_block, f) ↦
                    with_flag-HeadEnds s h (rewind client fuel u min_block h.parent_hash 0)
                      (set_chain_head client fuel s h) y high (ground (arith, f, added, high))
                      (rewind-Ends client height fuel u min_block h.parent_hash 0
                        (add_block_header-StoreKnown s h v w) cl b)
              ]
            ]
      ]
