-- ===== src/Swap/Tips/Value/Bounds.antt =====
-- What each part of the tips is paid from: the profit in WETH, and a value that the balance has.
use native.Mathlib.Nat.{mod-le, mul-le-mul_left}
use kabu.Base.{
  ℕ, ◌+◌, ◌-◌, ◌*◌, ◌/◌, ◌%◌, ◌≤◌, ◌≡◌, refl, ap, ◌∙◌, inl, inr, Bool, true, false, ◌&&◌, not,
  Option, List, [], ◌∷◌, arith, ltb, leb, if◌then◌else◌, Bool-cases, ◌>>=◌, if-Gives,
  >>=-Gives_after, Gives-map, done, Gives, gives, >>=-Gives,
}
use kabu.Swap.Whole.{Swap, arb_profit}
use kabu.Types.{u256_mod}
use kabu.Swap.Tips.Value.{
  settle, settle_loop, settle_weth, sum_where, sum_tips, first_gets, without_tips, has_weth, Tips,
  single_tips, most_of, checked_sub,
}

abbrev pub total_tips : List Tips → ℕ
total_tips [] = 0
total_tips (t ∷ ts) = t.tips + total_tips ts

abbrev pub weth_profit : List Tips → ℕ
weth_profit [] = 0
weth_profit (t ∷ ts) = (if t.token_in.weth then t.profit_eth else 0) + weth_profit ts

abbrev pub count_weth : List Tips → ℕ
count_weth [] = 0
count_weth (t ∷ ts) = (if t.token_in.weth then 1 else 0) + count_weth ts

-- The tips are paid from the profit in WETH and a value, which the balance has.
abbrev pub Covered : ℕ → List Tips × ℕ → Type 0
Covered eth_balance (ts, value) =
    (count_weth ts ≤ 1 → total_tips ts ≤ weth_profit ts + value) × (value ≤ eth_balance)

most_of_le : (eth_balance : ℕ) → most_of eth_balance ≤ eth_balance
most_of_le eth_balance = omega (arith, mod-le (eth_balance * 9000) u256_mod)

tip_le : (rest pct : ℕ) → pct ≤ 10000 → rest * pct % u256_mod / 10000 ≤ rest
tip_le rest pct h = omega (arith, mod-le (rest * pct) u256_mod, mul-le-mul_left rest h)

checked_sub-le : (a b rest : ℕ) → checked_sub a b ≡ done rest → rest ≤ a
checked_sub-le a b rest e = ground (arith, e)

checked_sub-eq : (a b rest : ℕ) → checked_sub a b ≡ done rest → (b ≤ a) × (rest ≡ a - b)
checked_sub-eq a b rest e = (ground (arith, e), ground (arith, e))

-- A single entry of tips that its profit allows.
single-Covered :
    (t : Tips) (eth_balance cap : ℕ)
    → t.tips ≤ t.profit_eth
    → cap ≤ eth_balance
    → (let paid = if not t.token_in.weth && ltb cap t.tips then cap else t.tips in
        Covered eth_balance (record t { tips = paid } ∷ [], if t.token_in.weth then 0 else paid))
single-Covered t eth_balance cap h k = elim (Bool-cases t.token_in.weth) [
  | inl y ↦ ground (arith, y, h, k)
  | inr y ↦ elim (Bool-cases (ltb cap t.tips)) [
    | inl z ↦ ground (arith, y, z, h, k)
    | inr z ↦ ground (arith, y, z, h, k)
  ]
]

pub single_tips-Covered :
    (swap : Swap) (pct : ℕ) (gas_cost : Option ℕ) (eth_balance : ℕ)
    → pct ≤ 10000
    → Gives (Covered eth_balance) (single_tips swap pct gas_cost eth_balance)
unfolding single_tips
single_tips-Covered swap pct gas_cost eth_balance h = >>=-Gives _ _ _ λ _ _.
    >>=-Gives _ _ _ λ token_in _. >>=-Gives _ _ _ λ profit_eth _. >>=-Gives _ _ _ λ _ _.
      >>=-Gives _ _ _ λ rest e. >>=-Gives _ _ _ λ min_change _. gives _ (
        single-Covered
          (record {
            token_in = token_in;
            profit = arb_profit swap;
            profit_eth = profit_eth;
            tips = rest * pct % u256_mod / 10000;
            min_change = min_change;
          })
          eth_balance (most_of eth_balance)
          (omega (arith, tip_le rest pct h, checked_sub-le profit_eth _ rest e))
          (most_of_le eth_balance))

without_tips_lem : (ts : List Tips) → total_tips (without_tips ts) ≡ 0
without_tips_lem [] = refl
without_tips_lem (t ∷ ts) = omega (arith, without_tips_lem ts)

first_gets_le : (value : ℕ) (ts : List Tips) → total_tips (first_gets value ts) ≤ value
first_gets_le value [] = omega arith
first_gets_le value (t ∷ ts) = omega (arith, without_tips_lem ts)

sum_where_le :
    (total : ℕ) (ts : List Tips)
    → sum_where true (λ t. t.profit_eth) total ts ≤ total + weth_profit ts
unfolding sum_where
sum_where_le total [] = omega arith
sum_where_le total (t ∷ ts) = elim (Bool-cases t.token_in.weth) [
  | inl y ↦
      let next = (total + t.profit_eth) % u256_mod in
      ground (arith, y, sum_where_le next ts, mod-le (total + t.profit_eth) u256_mod)
  | inr y ↦ ground (arith, y, sum_where_le total ts)
]

no_weth : (weth : Bool) (n : ℕ) → (if weth then 1 else 0) + n ≡ 0 → (weth ≡ false) × (n ≡ 0)
no_weth true n e = (ground (arith, e), omega (arith, e))
no_weth false n e = (refl, omega (arith, e))

module _ (total profit eth_balance : ℕ) where
  abbrev Within : ℕ × ℕ → Type 0
  Within (tips, value) = (tips ≤ profit + value) × (value ≤ eth_balance)

  settle_weth-Within :
      (value : ℕ) → value ≤ eth_balance → Gives Within (settle_weth total profit eth_balance value)
  settle_weth-Within value h =
      let needed = if ltb profit total then total - profit else value in
      let most = most_of eth_balance in
      if-Gives Within (ltb eth_balance needed)
        (checked_sub total needed >>= λ rest. done ((rest + most) % u256_mod, most))
        (done (total, needed))
        (λ y.
          >>=-Gives Within (checked_sub total needed)
            (λ rest. done ((rest + most) % u256_mod, most))
            λ rest e.
              gives ((rest + most) % u256_mod, most)
                (ground (
                  arith,
                  y,
                  h,
                  most_of_le eth_balance,
                  checked_sub-eq total needed rest e,
                  mod-le (rest + most) u256_mod,
                )))
        λ y. gives (total, needed) (ground (arith, y, h))

  abbrev Given : Bool → ℕ → ℕ × ℕ → Type 0
  Given weth value s = Within s × (weth ≡ false → s ≡ (0, value))

  entry-Given :
      (weth : Bool) (value : ℕ)
      → value ≤ eth_balance
      → Gives
          (Given weth value)
          (if weth then settle_weth total profit eth_balance value else done (0, value))
  entry-Given true value h =
      Gives-map Within (Given true value) (settle_weth total profit eth_balance value)
        (λ s w. (w, λ e. ground (arith, e))) (settle_weth-Within value h)
  entry-Given false value h = gives _ ((omega arith, h), λ _. refl)

  -- What the loop gives, from a value: with no entry of WETH it is kept.
  record Settled (value : ℕ) (ts : List Tips) (settled : List Tips × ℕ) : Type 0 where
    within : settled.1 ≤ eth_balance
    none_of_weth : count_weth settled.0 ≡ 0 → (settled.1 ≡ value) × (total_tips settled.0 ≡ 0)
    one_of_weth : count_weth settled.0 ≤ 1 → total_tips settled.0 ≤ profit + settled.1
    profits : weth_profit settled.0 ≡ weth_profit ts

  settle_loop-Settled :
      (ts : List Tips) (value : ℕ)
      → value ≤ eth_balance
      → Gives (Settled value ts) (settle_loop total profit eth_balance value ts)
  unfolding settle_loop
  settle_loop-Settled [] value h = gives _ (record {
    within = h;
    none_of_weth = λ _. (refl, refl);
    one_of_weth = λ _. omega arith;
    profits = refl;
  })
  settle_loop-Settled (t ∷ ts) value h =
      >>=-Gives_after _ _ _ _ (entry-Given t.token_in.weth value h) λ s g.
        >>=-Gives_after _ _ _ _ (settle_loop-Settled ts s.1 g.0.1) λ rest k. gives _ (record {
          within = k.within;
          none_of_weth = λ c.
              let (not_weth, others) = no_weth t.token_in.weth (count_weth rest.0) c in
              let (same, no_tips) = k.none_of_weth others in
              let e = g.1 not_weth in
              (same ∙ ap (λ x. x.1) e, omega (arith, ap (λ x. x.0) e, no_tips));
          one_of_weth = λ c. elim (Bool-cases t.token_in.weth) [
            | inl y ↦
                let (same, no_tips) = k.none_of_weth (ground (arith, y, c)) in
                omega (arith, same, no_tips, g.0.0)
            | inr y ↦ omega (arith, ap (λ x. x.0) (g.1 y), k.one_of_weth (ground (arith, y, c)))
          ];
          profits = ap (λ n. (if t.token_in.weth then t.profit_eth else 0) + n) k.profits;
        })

pub settle-Covered :
    (eth_balance : ℕ) (ts : List Tips) → Gives (Covered eth_balance) (settle eth_balance ts)
unfolding settle
settle-Covered eth_balance ts =
    let total =
      (sum_where true (λ t. t.tips) 0 ts + sum_where false (λ t. t.tips) 0 ts) % u256_mod in
    let profit = sum_where true (λ t. t.profit_eth) 0 ts in
    let value = if leb eth_balance (sum_tips 0 ts) then most_of eth_balance else sum_tips 0 ts in
    if-Gives (Covered eth_balance) (has_weth ts) (settle_loop total profit eth_balance 0 ts)
      (done (first_gets value ts, value))
      (λ _.
        Gives-map (Settled total profit eth_balance 0 ts) (Covered eth_balance)
          (settle_loop total profit eth_balance 0 ts)
          (λ s k. (λ c. omega (arith, k.one_of_weth c, k.profits, sum_where_le 0 ts), k.within))
          (settle_loop-Settled total profit eth_balance ts 0 (omega arith)))
      λ _.
        gives (first_gets value ts, value)
          (λ _. omega (arith, first_gets_le value ts), ground (arith, most_of_le eth_balance))
