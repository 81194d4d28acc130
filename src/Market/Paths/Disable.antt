-- ===== src/Market/Paths/Disable.antt =====
-- What disabling a pool does to the paths through it, and what enabling it again leaves.
use kabu.Base.{
  ℕ, zero, suc, ◌+◌, ◌≡◌, refl, sym, ◌∙◌, ◌≢◌, ◌⊎◌, inl, inr, Bool, true, false, ◌&&◌, ◌||◌, none,
  some, List, [], ◌∷◌, arith, ◌==◌, if◌then◌else◌, Bool-cases, Option-cases, get_or_else, length,
  get_elem?, All, lookup,
}
use kabu.Market.{SwapPath, Token, DirectionHasher, pool_ids}
use kabu.Market.Paths.Membership.{mem-append}
use kabu.Market.Paths.{
  SwapPaths, modify, position, mem, mark, mark_direction, mark_all, disable_pool_paths,
  is_enabled_for, enabled_paths, get_pool_paths_enabled_vec,
}

-- The path goes through the pool from the first token to the second: the pool's first place in the
-- path lies between these tokens.
abbrev pub Takes : ℕ → ℕ → ℕ → SwapPath → Type 0
Takes pool_id from to p =
    (i : ℕ) × (a : Token) × (b : Token) × (position pool_id (pool_ids p.pools) ≡ some i)
    × (get_elem? p.tokens i ≡ some a)
    × (get_elem? p.tokens (i + 1) ≡ some b)
    × (a.address ≡ from)
    × (b.address ≡ to)

mem-mark :
    (pool_id : ℕ) (disabled : Bool) (p : SwapPath)
    → mem pool_id (mark pool_id disabled p).disabled_pool ≡ true
unfolding mark
mem-mark pool_id disabled p = ground (arith, mem-append pool_id p.disabled_pool pool_id)

-- A path that takes the pool in the direction is marked, whatever the flag says.
mark_direction-Takes :
    (pool_id from to : ℕ) (disabled : Bool) (p : SwapPath)
    → Takes pool_id from to p
    → mark_direction pool_id from to disabled p ≡ mark pool_id disabled p
unfolding mark_direction
mark_direction-Takes pool_id from to disabled p (i, a, b, e, f, g, h, k) =
    ground (arith, e, f, g, h, k)

pub get_elem?-modify :
    (ps : List SwapPath) (i j : ℕ) (f : SwapPath → SwapPath)
    → get_elem? (modify ps i f) j ≡ (
        if i == j
        then elim (get_elem? ps j) [ none ↦ none | some p ↦ some (f p) ]
        else get_elem? ps j)
get_elem?-modify [] i j f = ground arith
get_elem?-modify (p ∷ ps) zero zero f = ground arith
get_elem?-modify (p ∷ ps) zero (suc j) f = ground arith
get_elem?-modify (p ∷ ps) (suc i) zero f = ground arith
get_elem?-modify (p ∷ ps) (suc i) (suc j) f = ground (arith, get_elem?-modify ps i j f)

mark-mark :
    (pool_id : ℕ) (disabled : Bool) (p : SwapPath)
    → mark pool_id disabled (mark pool_id disabled p) ≡ mark pool_id disabled p
unfolding mark
mark-mark pool_id disabled p = ground (arith, mem-append pool_id p.disabled_pool pool_id)

pub mark_direction-keeps :
    (pool_id from to : ℕ) (disabled : Bool) (p : SwapPath)
    → let q = mark_direction pool_id from to disabled p in
      (q.pools ≡ p.pools) × (q.tokens ≡ p.tokens)
unfolding mark_direction mark
mark_direction-keeps pool_id from to disabled p = (ground arith, ground arith)

mark_direction-cases :
    (pool_id from to : ℕ) (disabled : Bool) (p : SwapPath)
    → (mark_direction pool_id from to disabled p ≡ mark pool_id disabled p)
      ⊎ (mark_direction pool_id from to disabled p ≡ p)
unfolding mark_direction
mark_direction-cases pool_id from to disabled p =
    elim (Option-cases (position pool_id (pool_ids p.pools))) [
      | inl e ↦ inl (ground (arith, e))
      | inr (i, e) ↦ elim (Option-cases (get_elem? p.tokens i)) [
        | inl f ↦ inr (ground (arith, e, f))
        | inr (a, f) ↦ elim (Option-cases (get_elem? p.tokens (i + 1))) [
          | inl g ↦ inr (ground (arith, e, f, g))
          | inr (b, g) ↦ elim (Bool-cases (a.address == from && b.address == to)) [
            | inl y ↦ inl (ground (arith, e, f, g, y))
            | inr y ↦ inr (ground (arith, e, f, g, y))
          ]
        ]
      ]
    ]

mark_direction-mark :
    (pool_id from to : ℕ) (disabled : Bool) (p : SwapPath)
    → mark_direction pool_id from to disabled p ≡ mark pool_id disabled p
    → mark_direction pool_id from to disabled (mark pool_id disabled p) ≡ mark pool_id disabled p
unfolding mark_direction
mark_direction-mark pool_id from to disabled p h =
    elim (mark_direction-cases pool_id from to disabled (mark pool_id disabled p)) [
      | inl e ↦ e ∙ mark-mark pool_id disabled p
      | inr e ↦ e
    ]

mark_direction-twice :
    (pool_id from to : ℕ) (disabled : Bool) (p : SwapPath)
    → mark_direction pool_id from to disabled (mark_direction pool_id from to disabled p)
      ≡ mark_direction pool_id from to disabled p
mark_direction-twice pool_id from to disabled p =
    elim (mark_direction-cases pool_id from to disabled p) [
      | inl e ↦ ground (arith, e, mark_direction-mark pool_id from to disabled p e)
      | inr e ↦ ground (arith, e)
    ]

pub get_elem?-mark_all :
    (ps : List SwapPath) (is : List ℕ) (j : ℕ) (f : SwapPath → SwapPath)
    → ((p : SwapPath) → f (f p) ≡ f p)
    → get_elem? (mark_all ps is f) j ≡ (
        if mem j is
        then elim (get_elem? ps j) [ none ↦ none | some p ↦ some (f p) ]
        else get_elem? ps j)
unfolding mark_all
get_elem?-mark_all ps [] j f h = refl
get_elem?-mark_all ps (i ∷ is) j f h = elim (Option-cases (get_elem? ps j)) [
  | inl e ↦
      ground (arith, e, get_elem?-mark_all (modify ps i f) is j f h, get_elem?-modify ps i j f)
  | inr (p, e) ↦
      ground (arith, e, get_elem?-mark_all (modify ps i f) is j f h, get_elem?-modify ps i j f, h p)
]

-- A path at an index: the paths of the pool are marked, and the others stay.
pub get_elem?-disable_pool_paths :
    (direction_hash : DirectionHasher) (s : SwapPaths) (pool_id from to : ℕ) (disabled : Bool)
    (j : ℕ)
    → get_elem? (disable_pool_paths direction_hash s pool_id from to disabled).paths j ≡ (
        if mem j (get_or_else (lookup pool_id s.pool_paths) [])
        then elim (get_elem? s.paths j) [
          | none ↦ none
          | some p ↦ some (mark_direction pool_id from to disabled p)
        ]
        else get_elem? s.paths j)
unfolding disable_pool_paths
get_elem?-disable_pool_paths direction_hash s pool_id from to disabled j =
    elim (Option-cases (lookup pool_id s.pool_paths)) [
      | inl e ↦ ground (arith, e)
      | inr (is, e) ↦ ground (
        arith,
        e,
        get_elem?-mark_all s.paths is j (mark_direction pool_id from to disabled)
            (mark_direction-twice pool_id from to disabled),
      )
    ]

mem-alone :
    (x y : ℕ) (xs : List ℕ)
    → mem x xs ≡ true
    → (length xs == 0 || (length xs == 1 && mem y xs)) ≡ true
    → x ≡ y
mem-alone x y [] a b = ground arith
mem-alone x y (z ∷ []) a b = ground arith
mem-alone x y (z ∷ w ∷ xs) a b = ground arith

-- A path that takes a pool in the direction is not shown for any other pool once the direction has
-- been disabled, and neither once it has been enabled again: the flag is set, and the pool stays
-- in the path's list of disabled pools.
pub disable_pool_paths-excluded :
    (direction_hash : DirectionHasher) (s : SwapPaths) (pool_id from to other i : ℕ)
    (disabled : Bool) (p : SwapPath)
    → mem i (get_or_else (lookup pool_id s.pool_paths) []) ≡ true
    → get_elem? s.paths i ≡ some p
    → Takes pool_id from to p
    → other ≢ pool_id
    → (q : SwapPath) × (get_elem?
          (disable_pool_paths direction_hash s pool_id from to disabled).paths
          i
        ≡ some q)
      × (q.disabled ≡ disabled)
      × (is_enabled_for other q ≡ false)
unfolding mark
disable_pool_paths-excluded direction_hash s pool_id from to other i disabled p m e h ne = (
  mark pool_id disabled p,
  ground (
    arith,
    e,
    get_elem?-disable_pool_paths direction_hash s pool_id from to disabled i,
    mark_direction-Takes pool_id from to disabled p h,
  ),
  refl,
  elim (Bool-cases (is_enabled_for other (mark pool_id disabled p))) [
    | inl y ↦ absurd (ne (sym (mem-alone pool_id other _ (mem-mark pool_id disabled p) y)))
    | inr y ↦ y
  ],
)

enabled_paths-All :
    (ps : List SwapPath) (id : ℕ) (is : List ℕ)
    → All (λ q. (x : ℕ) → mem x q.disabled_pool ≡ true → x ≡ id) (enabled_paths ps id is)
unfolding enabled_paths
enabled_paths-All ps id [] = tt
enabled_paths-All ps id (i ∷ is) = elim (Option-cases (get_elem? ps i)) [
  | inl e ↦ rw (e, enabled_paths) (enabled_paths-All ps id is)
  | inr (p, e) ↦ elim (Bool-cases (is_enabled_for id p)) [
    | inl y ↦
        rw (e, enabled_paths, y)
          ((λ x m. mem-alone x id p.disabled_pool m y), enabled_paths-All ps id is)
    | inr y ↦ rw (e, enabled_paths, y) (enabled_paths-All ps id is)
  ]
]

-- Where paths are shown for a pool, none of them has a disabled pool but that one.
get_pool_paths_enabled_vec-All :
    (s : SwapPaths) (id : ℕ) (found : List SwapPath)
    → get_pool_paths_enabled_vec s id ≡ some found
    → All (λ q. (x : ℕ) → mem x q.disabled_pool ≡ true → x ≡ id) found
unfolding get_pool_paths_enabled_vec
get_pool_paths_enabled_vec-All s id found q = elim (Option-cases (lookup id s.pool_paths)) [
  | inl e ↦ absurd (ground (arith, e))
  | inr (is, e) ↦
      let same : found ≡ enabled_paths s.paths id is = ground (arith, e) in
      rw same (enabled_paths-All s.paths id is)
]
