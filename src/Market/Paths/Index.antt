-- ===== src/Market/Paths/Index.antt =====
-- The tables of the swap paths agree: by hash, and by pool.
use kabu.Base.{
  ℕ, zero, suc, ◌≡◌, refl, sym, ◌∙◌, ◌⊎◌, inl, inr, Bool, false, ◌&&◌, ◌||◌, Option, none, some,
  List, [], ◌∷◌, ◌++◌, arith, ◌==◌, if◌then◌else◌, Bool-cases, Option-cases, get_or_else, length,
  get_elem?, HashMap, lookup, insert, lookup-insert, lookup-insert_self,
}
use kabu.Market.{SwapPath, Hasher, DirectionHasher, get_hash, pool_ids}
use kabu.Market.Paths.Membership.{mem-append}
use kabu.Market.Paths.{
  SwapPaths, new, index_pools, add, modify, mem, disable_path, disable_pool_paths, mark_direction,
  get_path_by_hash,
}
use kabu.Market.Paths.Disable.{get_elem?-modify, get_elem?-disable_pool_paths, mark_direction-keeps}

-- The index is entered for the pool.
abbrev pub has_index : HashMap (List ℕ) → ℕ → ℕ → Bool
has_index m id i = mem i (get_or_else (lookup id m) [])

-- The path at the index goes through the pool.
abbrev pub is_through : List SwapPath → ℕ → ℕ → Bool
is_through ps id i = elim (get_elem? ps i) [ none ↦ false | some p ↦ mem id (pool_ids p.pools) ]

abbrev pub hash_at : Hasher → List SwapPath → ℕ → Option ℕ
hash_at hasher ps i = elim (get_elem? ps i) [ none ↦ none | some p ↦ some (get_hash hasher p) ]

-- The hash table leads to the one path with the hash, and the table of pools has exactly the paths
-- through each pool.
pub record IsIndexed (hasher : Hasher) (s : SwapPaths) : Type 0 where
  pub by_hash : (h i : ℕ) → lookup h s.path_hash_map ≡ some i → hash_at hasher s.paths i ≡ some h
  pub hashed : (h i : ℕ) → hash_at hasher s.paths i ≡ some h → lookup h s.path_hash_map ≡ some i
  pub by_pool : (id i : ℕ) → has_index s.pool_paths id i ≡ is_through s.paths id i

pub new-IsIndexed : (hasher : Hasher) → IsIndexed hasher new
unfolding new lookup
new-IsIndexed hasher = record {
  by_hash = λ h i q. cc;
  hashed = λ h i q. cc;
  by_pool = λ id i. refl;
}

has_index-index_pools :
    (m : HashMap (List ℕ)) (ids : List ℕ) (idx id i : ℕ)
    → has_index (index_pools m ids idx) id i ≡ (has_index m id i || (mem id ids && idx == i))
unfolding index_pools
has_index-index_pools m [] idx id i = ground arith
has_index-index_pools m (k ∷ ids) idx id i =
    let xs = get_or_else (lookup k m) [] in
    ground (
      arith,
      has_index-index_pools (insert k (xs ++ idx ∷ []) m) ids idx id i,
      lookup-insert id k (xs ++ idx ∷ []) m,
      mem-append i xs idx,
    )

get_elem?-append :
    (ps : List SwapPath) (p : SwapPath) (i : ℕ)
    → get_elem? (ps ++ p ∷ []) i ≡ (if i == length ps then some p else get_elem? ps i)
get_elem?-append [] p zero = ground arith
get_elem?-append [] p (suc i) = ground arith
get_elem?-append (q ∷ ps) p zero = ground arith
get_elem?-append (q ∷ ps) p (suc i) = ground (arith, get_elem?-append ps p i)

get_elem?-length : (ps : List SwapPath) → get_elem? ps (length ps) ≡ none
get_elem?-length [] = refl
get_elem?-length (p ∷ ps) = get_elem?-length ps

pub add-IsIndexed :
    (hasher : Hasher) (s : SwapPaths) (p : SwapPath)
    → IsIndexed hasher s
    → IsIndexed hasher (add hasher s p).0
unfolding add
add-IsIndexed hasher s p v = elim (Option-cases (lookup (get_hash hasher p) s.path_hash_map)) [
  | inr (i, e) ↦ rw (e, add) v
  | inl e ↦
      rw (e, add)
        (record {
          by_hash = λ h i q. ground (
            arith,
            lookup-insert h (get_hash hasher p) (length s.paths) s.path_hash_map,
            get_elem?-append s.paths p i,
            get_elem?-length s.paths,
            v.by_hash h i,
          );
          hashed = λ h i q. ground (
            arith,
            e,
            lookup-insert h (get_hash hasher p) (length s.paths) s.path_hash_map,
            get_elem?-append s.paths p i,
            v.hashed h i,
          );
          by_pool = λ id i. ground (
            arith,
            has_index-index_pools s.pool_paths (pool_ids p.pools) (length s.paths) id i,
            get_elem?-append s.paths p i,
            get_elem?-length s.paths,
            v.by_pool id i,
          );
        })
]

-- A change of the paths that keeps what each of them goes through.
abbrev SameRoutes : List SwapPath → List SwapPath → Type 0
SameRoutes ps qs =
    (i : ℕ)
    → ((get_elem? ps i ≡ none) × (get_elem? qs i ≡ none))
      ⊎ ((p : SwapPath) × (q : SwapPath) × (get_elem? ps i ≡ some p)
          × (get_elem? qs i ≡ some q)
          × (q.pools ≡ p.pools)
          × (q.tokens ≡ p.tokens))

hash_at-SameRoutes :
    (hasher : Hasher) (ps qs : List SwapPath) (i : ℕ)
    → SameRoutes ps qs
    → hash_at hasher qs i ≡ hash_at hasher ps i
hash_at-SameRoutes hasher ps qs i r = elim (r i) [
  | inl (e, f) ↦ ground (arith, e, f)
  | inr (p, q, e, f, g, h) ↦ ground (arith, e, f, g, h)
]

is_through-SameRoutes :
    (ps qs : List SwapPath) (id i : ℕ) → SameRoutes ps qs → is_through qs id i ≡ is_through ps id i
is_through-SameRoutes ps qs id i r = elim (r i) [
  | inl (e, f) ↦ ground (arith, e, f)
  | inr (p, q, e, f, g, h) ↦ ground (arith, e, f, g, h)
]

SameRoutes-IsIndexed :
    (hasher : Hasher) (s : SwapPaths) (qs : List SwapPath) (directions : HashMap Bool)
    → SameRoutes s.paths qs
    → IsIndexed hasher s
    → IsIndexed hasher (record s { paths = qs; disabled_directions = directions })
SameRoutes-IsIndexed hasher s qs directions r v = record {
  by_hash = λ h i q. hash_at-SameRoutes hasher s.paths qs i r ∙ v.by_hash h i q;
  hashed = λ h i q. v.hashed h i (sym (hash_at-SameRoutes hasher s.paths qs i r) ∙ q);
  by_pool = λ id i. v.by_pool id i ∙ sym (is_through-SameRoutes s.paths qs id i r);
}

pub disable_path-IsIndexed :
    (hasher : Hasher) (s : SwapPaths) (p : SwapPath) (disable : Bool)
    → IsIndexed hasher s
    → IsIndexed hasher (disable_path hasher s p disable).0
unfolding disable_path
disable_path-IsIndexed hasher s p disable v =
    elim (Option-cases (lookup (get_hash hasher p) s.path_hash_map)) [
      | inl e ↦ rw (e, disable_path) v
      | inr (i, e) ↦ elim (Option-cases (get_elem? s.paths i)) [
        | inl f ↦ rw (e, disable_path, f) v
        | inr (q, f) ↦
            rw (e, disable_path, f)
              (let flag : SwapPath → SwapPath = λ x. record x { disabled = disable } in
                SameRoutes-IsIndexed hasher s (modify s.paths i flag) s.disabled_directions
                  (λ j. elim (Option-cases (get_elem? s.paths j)) [
                    | inl g ↦ inl (g, ground (arith, g, get_elem?-modify s.paths i j flag))
                    | inr (x, g) ↦ elim (Bool-cases (i == j)) [
                      | inl y ↦ inr (
                        x,
                        flag x,
                        g,
                        ground (arith, g, y, get_elem?-modify s.paths i j flag),
                        refl,
                        refl,
                      )
                      | inr y ↦ inr (
                        x,
                        x,
                        g,
                        ground (arith, g, y, get_elem?-modify s.paths i j flag),
                        refl,
                        refl,
                      )
                    ]
                  ])
                  v)
      ]
    ]

disable_pool_paths-SameRoutes :
    (direction_hash : DirectionHasher) (s : SwapPaths) (pool_id from to : ℕ) (disabled : Bool)
    → SameRoutes s.paths (disable_pool_paths direction_hash s pool_id from to disabled).paths
disable_pool_paths-SameRoutes direction_hash s pool_id from to disabled j =
    let changed = get_elem?-disable_pool_paths direction_hash s pool_id from to disabled j in
    elim (Option-cases (get_elem? s.paths j)) [
      | inl g ↦ inl (g, ground (arith, g, changed))
      | inr (x, g) ↦ elim (Bool-cases (mem j (get_or_else (lookup pool_id s.pool_paths) []))) [
        | inl y ↦
            let (pools, tokens) = mark_direction-keeps pool_id from to disabled x in
            inr (
              x,
              mark_direction pool_id from to disabled x,
              g,
              ground (arith, g, y, changed),
              pools,
              tokens,
            )
        | inr y ↦ inr (x, x, g, ground (arith, g, y, changed), refl, refl)
      ]
    ]

disable_pool_paths-tables :
    (direction_hash : DirectionHasher) (s : SwapPaths) (pool_id from to : ℕ) (disabled : Bool)
    → disable_pool_paths direction_hash s pool_id from to disabled ≡ record s {
      paths = (disable_pool_paths direction_hash s pool_id from to disabled).paths;
      disabled_directions =
          (disable_pool_paths direction_hash s pool_id from to disabled).disabled_directions;
    }
unfolding disable_pool_paths
disable_pool_paths-tables direction_hash s pool_id from to disabled =
    elim (Option-cases (lookup pool_id s.pool_paths)) [
      | inl e ↦ ground (arith, e)
      | inr (is, e) ↦ ground (arith, e)
    ]

pub disable_pool_paths-IsIndexed :
    (hasher : Hasher) (direction_hash : DirectionHasher) (s : SwapPaths) (pool_id from to : ℕ)
    (disabled : Bool)
    → IsIndexed hasher s
    → IsIndexed hasher (disable_pool_paths direction_hash s pool_id from to disabled)
disable_pool_paths-IsIndexed hasher direction_hash s pool_id from to disabled v =
    rw (disable_pool_paths-tables direction_hash s pool_id from to disabled) (
      SameRoutes-IsIndexed hasher s
        (disable_pool_paths direction_hash s pool_id from to disabled).paths
        (disable_pool_paths direction_hash s pool_id from to disabled).disabled_directions
        (disable_pool_paths-SameRoutes direction_hash s pool_id from to disabled) v)

-- The calls that change the paths.
pub data Call : Type 0 where
  adds : SwapPath → Call
  disables_path : SwapPath → Bool → Call
  disables_pool : DirectionHasher → ℕ → ℕ → ℕ → Bool → Call

pub step : Hasher → SwapPaths → Call → SwapPaths
step hasher s (adds p) = (add hasher s p).0
step hasher s (disables_path p disable) = (disable_path hasher s p disable).0
step hasher s (disables_pool direction_hash id from to disabled) =
    disable_pool_paths direction_hash s id from to disabled

pub run : Hasher → SwapPaths → List Call → SwapPaths
run hasher s [] = s
run hasher s (c ∷ cs) = run hasher (step hasher s c) cs

step-IsIndexed :
    (hasher : Hasher) (s : SwapPaths) (c : Call)
    → IsIndexed hasher s
    → IsIndexed hasher (step hasher s c)
unfolding step
step-IsIndexed hasher s (adds p) v = add-IsIndexed hasher s p v
step-IsIndexed hasher s (disables_path p disable) v = disable_path-IsIndexed hasher s p disable v
step-IsIndexed hasher s (disables_pool direction_hash id from to disabled) v =
    disable_pool_paths-IsIndexed hasher direction_hash s id from to disabled v

run-IsIndexed :
    (hasher : Hasher) (s : SwapPaths) (cs : List Call)
    → IsIndexed hasher s
    → IsIndexed hasher (run hasher s cs)
unfolding run
run-IsIndexed hasher s [] v = v
run-IsIndexed hasher s (c ∷ cs) v =
    run-IsIndexed hasher (step hasher s c) cs (step-IsIndexed hasher s c v)

-- After any calls on an empty collection, the hash table leads exactly to the paths with the hash,
-- no two paths have one hash, and the table of pools lists exactly the paths through each pool.
pub run-new-IsIndexed : (hasher : Hasher) (cs : List Call) → IsIndexed hasher (run hasher new cs)
run-new-IsIndexed hasher cs = run-IsIndexed hasher new cs (new-IsIndexed hasher)

-- A path that has been added is found by its hash, and adding it again changes nothing and gives
-- no index.
pub add-add :
    (hasher : Hasher) (s : SwapPaths) (p : SwapPath)
    → IsIndexed hasher s
    → let t = (add hasher s p).0 in
      (add hasher t p ≡ (t, none))
      × (q : SwapPath) × (get_path_by_hash t (get_hash hasher p) ≡ some q)
      × (get_hash hasher q ≡ get_hash hasher p)
unfolding add get_path_by_hash
add-add hasher s p v = elim (Option-cases (lookup (get_hash hasher p) s.path_hash_map)) [
  | inl e ↦
      let stored = lookup-insert_self (get_hash hasher p) (length s.paths) s.path_hash_map in
      (
        ground (arith, e, stored),
        p,
        ground (arith, e, stored, get_elem?-append s.paths p (length s.paths)),
        refl,
      )
  | inr (i, e) ↦ elim (Option-cases (get_elem? s.paths i)) [
    | inl f ↦ absurd (ground (arith, e, f, v.by_hash (get_hash hasher p) i))
    | inr (q, f) ↦ (
      ground (arith, e),
      q,
      ground (arith, e, f),
      ground (arith, e, f, v.by_hash (get_hash hasher p) i),
    )
  ]
]
