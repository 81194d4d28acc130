-- ===== src/Market/Builder/Search.antt =====
-- The result of the search: closed routes from basic tokens through a changed pool, each once.
use kabu.Base.{
  ℕ, ◌≡◌, refl, inl, inr, Bool, true, false, ◌&&◌, ◌||◌, not, Option, some, List, [], ◌∷◌, ◌++◌,
  arith, if◌then◌else◌, Bool-cases, any, All, All-append,
}
use kabu.Market.{Pool, SwapDirection, SwapPath, same_path}
use kabu.Market.Store.{Market, is_basic_token, is_weth_token}
use kabu.Market.Store.Trades.{has_direction, IsMarket}
use kabu.Market.Builder.{
  build_pools, build_swap_path_vec, build_directions, build_swap_path_two_hopes_basic_out,
  build_swap_path_three_hopes_basic_out, build_swap_path_three_hopes_no_basic, extend,
  direction_paths,
}
use kabu.Market.Builder.Routes.{is_arbitrage, AllArbitrage, get_token_or_default-address}
use kabu.Market.Builder.Found.{
  PoolTrades, IsBasic, two_in-All, two_out-All, three_out-All, three_in-All, no_basic-All,
}

-- The directions are trades of their pools.
abbrev pub Trades : Pool → List SwapDirection → Type 0
Trades pool = All (λ d. has_direction d.token_from d.token_to pool.swap_directions ≡ true)

-- No two paths are the same.
abbrev pub is_unique : List SwapPath → Bool
is_unique [] = true
is_unique (p ∷ ps) = not (any (λ q. same_path p q) ps) && is_unique ps

All-if :
    (P : SwapPath → Type 0) (b : Bool) (ps : List SwapPath)
    → (b ≡ true → All P ps)
    → All P (if b then ps else [])
All-if P true ps h = h refl
All-if P false ps h = tt

module _ (m : Market) (v : IsMarket m) where
  pub direction_paths-All :
      (pool : Pool) (d : SwapDirection)
      → has_direction d.token_from d.token_to pool.swap_directions ≡ true
      → (ps : List SwapPath) × (direction_paths m pool d ≡ some ps) × AllArbitrage m pool ps
  unfolding direction_paths
  direction_paths-All pool d h =
      let from = d.token_from in
      let to = d.token_to in
      let trades : PoolTrades m v pool from to =
        rw (get_token_or_default-address m from v, get_token_or_default-address m to v) h in
      let basic : (a : ℕ) → is_basic_token m a ≡ true → IsBasic m v pool from to a =
        λ a b. rw (get_token_or_default-address m a v) b in
      let outs =
        All-if (λ p. is_arbitrage m pool p ≡ true) (is_basic_token m to)
          (build_swap_path_two_hopes_basic_out m pool from to
            ++ build_swap_path_three_hopes_basic_out m pool from to)
          (λ b.
            All-append _ _ _ (two_out-All m v pool from to trades (basic to b))
              (three_out-All m v pool from to trades (basic to b))) in
      let others =
        All-if (λ p. is_arbitrage m pool p ≡ true)
          ((not (is_basic_token m from) && not (is_basic_token m to))
            || (not (is_weth_token m from) && not (is_weth_token m to)))
          (build_swap_path_three_hopes_no_basic m pool from to)
          (λ b. no_basic-All m v pool from to trades) in
      elim (Bool-cases (is_basic_token m from)) [
        | inr b ↦ (_, ground (arith, b), All-append _ _ _ outs others)
        | inl b ↦
            let (ps, q, all) = two_in-All m v pool from to trades (basic from b) in
            (
              _,
              ground (arith, b, q),
              All-append _ _ _ outs (
                  All-append _ _ _ all (
                    All-append _ _ _ (three_in-All m v pool from to trades (basic from b)) others)),
            )
      ]

pub extend-All :
    (P : SwapPath → Type 0) (set ps : List SwapPath) → All P set → All P ps → All P (extend set ps)
unfolding extend
extend-All P set [] a b = a
extend-All P set (p ∷ ps) a b = elim (Bool-cases (any (λ q. same_path q p) set)) [
  | inl y ↦ rw (extend, y) (extend-All P set ps a b.1)
  | inr y ↦
      rw (extend, y) (extend-All P (set ++ p ∷ []) ps (All-append P set (p ∷ []) a (b.0, tt)) b.1)
]

pub any-append :
    (f : SwapPath → Bool) (xs ys : List SwapPath) → any f (xs ++ ys) ≡ (any f xs || any f ys)
any-append f [] ys = refl
any-append f (x ∷ xs) ys = ground (arith, any-append f xs ys)

is_unique-append :
    (set : List SwapPath) (p : SwapPath)
    → is_unique set ≡ true
    → any (λ q. same_path q p) set ≡ false
    → is_unique (set ++ p ∷ []) ≡ true
is_unique-append [] p a b = refl
is_unique-append (q ∷ set) p a b =
    ground (arith, is_unique-append set p, any-append (λ x. same_path q x) set (p ∷ []))

pub extend_unique :
    (set ps : List SwapPath) → is_unique set ≡ true → is_unique (extend set ps) ≡ true
unfolding extend
extend_unique set [] a = a
extend_unique set (p ∷ ps) a = elim (Bool-cases (any (λ q. same_path q p) set)) [
  | inl y ↦ rw (extend, y) (extend_unique set ps a)
  | inr y ↦ rw (extend, y) (extend_unique (set ++ p ∷ []) ps (is_unique-append set p a y))
]

pub extend-keeps :
    (set ps : List SwapPath) (p : SwapPath)
    → any (λ q. same_path q p) set ≡ true
    → any (λ q. same_path q p) (extend set ps) ≡ true
unfolding extend
extend-keeps set [] p a = a
extend-keeps set (x ∷ ps) p a = elim (Bool-cases (any (λ q. same_path q x) set)) [
  | inl y ↦ rw (extend, y) (extend-keeps set ps p a)
  | inr y ↦
      rw (extend, y)
        (extend-keeps (set ++ x ∷ []) ps p
          (ground (arith, a, any-append (λ q. same_path q p) set (x ∷ []))))
]

pub All-map :
    (P Q : SwapPath → Type 0) (ps : List SwapPath)
    → ((p : SwapPath) → P p → Q p)
    → All P ps
    → All Q ps
All-map P Q [] h a = tt
All-map P Q (p ∷ ps) h a = (h p a.0, All-map P Q ps h a.1)

-- The search from a set goes on to a set of the same kind, which has every path of the first.
abbrev pub Extends : (SwapPath → Type 0) → List SwapPath → Option (List SwapPath) → Type 0
Extends P set found =
    (out : List SwapPath) × (found ≡ some out)
    × All P out
    × (is_unique out ≡ true)
    × ((p : SwapPath) → any (λ q. same_path q p) set ≡ true → any (λ q. same_path q p) out ≡ true)

module _ (m : Market) (v : IsMarket m) (P : SwapPath → Type 0) where
  pub build_directions-Extends :
      (set : List SwapPath) (pool : Pool) (ds : List SwapDirection)
      → All P set
      → is_unique set ≡ true
      → Trades pool ds
      → ((p : SwapPath) → is_arbitrage m pool p ≡ true → P p)
      → Extends P set (build_directions m set pool ds)
  unfolding build_directions
  build_directions-Extends set pool [] a u t h = (set, refl, a, u, λ p q. q)
  build_directions-Extends set pool (d ∷ ds) a u t h =
      let (ps, e, all) = direction_paths-All m v pool d t.0 in
      let next = extend set ps in
      let (out, f, b, w, keeps) =
        build_directions-Extends next pool ds (extend-All P set ps a (All-map _ P ps h all))
          (extend_unique set ps u) t.1 h in
      (out, ground (arith, e, f), b, w, λ p q. keeps p (extend-keeps set ps p q))

  pub build_pools-Extends :
      (set : List SwapPath) (rest : List (Pool × List SwapDirection))
      → All P set
      → is_unique set ≡ true
      → All (λ e. Trades e.0 e.1) rest
      → All (λ e. (p : SwapPath) → is_arbitrage m e.0 p ≡ true → P p) rest
      → Extends P set (build_pools m set rest)
  unfolding build_pools
  build_pools-Extends set [] a u t h = (set, refl, a, u, λ p q. q)
  build_pools-Extends set ((pool, ds) ∷ rest) a u t h =
      let (mid, e, b, w, keeps) = build_directions-Extends set pool ds a u t.0 h.0 in
      let (out, f, c, x, keeps') = build_pools-Extends mid rest b w t.1 h.1 in
      (out, ground (arith, e, f), c, x, λ p q. keeps' p (keeps p q))

any-All :
    (f : Pool × List SwapDirection → SwapPath → Bool) (es : List (Pool × List SwapDirection))
    → All (λ e. (p : SwapPath) → f e p ≡ true → any (λ x. f x p) es ≡ true) es
any-All f [] = tt
any-All f (e ∷ es) = (λ p q. ground (arith, q), weaken es (any-All f es))
  where
    weaken :
        (xs : List (Pool × List SwapDirection))
        → All (λ x. (p : SwapPath) → f x p ≡ true → any (λ y. f y p) es ≡ true) xs
        → All (λ x. (p : SwapPath) → f x p ≡ true → any (λ y. f y p) (e ∷ es) ≡ true) xs
    weaken [] h = tt
    weaken (x ∷ xs) h = (λ p q. ground (arith, h.0 p q), weaken xs h.1)

-- The search never fails. Each path it gives is a closed route of distinct pools from a basic
-- token, through one of the changed pools, and no two are the same. (The market's tables agree with
-- its pools, and the directions are trades of their pools.)
pub build_swap_path_vec-All :
    (m : Market) (directions : List (Pool × List SwapDirection))
    → IsMarket m
    → All (λ e. Trades e.0 e.1) directions
    → (ps : List SwapPath) × (build_swap_path_vec m directions ≡ some ps)
      × All (λ p. any (λ e. is_arbitrage m e.0 p) directions ≡ true) ps
      × (is_unique ps ≡ true)
unfolding build_swap_path_vec
build_swap_path_vec-All m directions v t =
    let (ps, e, all, unique, _) =
      build_pools-Extends m v (λ p. any (λ x. is_arbitrage m x.0 p) directions ≡ true) [] directions
        tt refl t (any-All (λ x p. is_arbitrage m x.0 p) directions) in
    (ps, e, all, unique)
