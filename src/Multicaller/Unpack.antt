-- ===== src/Multicaller/Unpack.antt =====
-- A reader of packed calls, as the contract reads them, and the round trip.
use mathlib.Core.List.{append_assoc}
use kabu.Base.{
  ℕ, zero, suc, ◌+◌, ◌*◌, ◌/◌, ◌%◌, ◌^◌, ◌≤◌, ◌<◌, ◌≡◌, refl, inl, inr, true, ◌&&◌, ◌||◌, not,
  Option, none, some, List, [], ◌∷◌, ◌++◌, arith, leb, ◌==◌, if◌then◌else◌, Bool-cases,
  Option-cases, get_or_else, length, take, drop, All,
}
use kabu.Multicaller.{
  MulticallerCall, MulticallerCalls, encode_call_stack, encode_return_stack, selector_call,
  value_call_selector, selector, to_be_bytes, has_address, pack_opcode, pack_do_calls_data,
}
use kabu.Multicaller.Packed.{
  encode_call_stack-lt, encode_return_stack-lt, selector-eq, selector-eq_value,
}
use kabu.Multicaller.Bytes.{
  from_be_bytes, length-to_be_bytes, from_be_bytes-to_be_bytes, drop-to_be_bytes, take-append,
  drop-append_all,
}

-- What the bytes of a call show: a call with a value, or the code, the stack codes and the data.
pub data View : Type 0 where
  with_value : (to value : ℕ) (bytes : List ℕ) → View
  plain : (code : ℕ) (to : Option ℕ) (takes returns : ℕ) (bytes : List ℕ) → View

pub view : MulticallerCall → ℕ → View
view c code =
    let value = get_or_else c.value 0 in
    if code == value_call_selector && not (value == 0)
    then with_value c.to value c.call_data
    else plain code (if has_address c.call_type then some c.to else none) (encode_call_stack c)
        (encode_return_stack c) c.call_data

pub read_rest : ℕ → List ℕ → View × List ℕ
read_rest first rest =
    let len = first % 2 ^ 16 in
    let to = from_be_bytes 0 (take 20 rest) in
    let after = drop 20 rest in
    if leb (2 ^ 95) first
    then (with_value to (first / 2 ^ 16 % 2 ^ 79) (take len after), drop len after)
    else (let code = first / 2 ^ 80 in
        let takes = first / 2 ^ 16 % 2 ^ 24 in
        let returns = first / 2 ^ 40 % 2 ^ 24 in
        if code == 0x7FFD || code == 0x7FFB
        then (plain code none takes returns (take len rest), drop len rest)
        else (plain code (some to) takes returns (take len after), drop len after))

pub read_call : List ℕ → View × List ℕ
unfolding read_rest
read_call bytes = read_rest (from_be_bytes 0 (take 12 bytes)) (drop 12 bytes)

-- The length of the data fits 16 bits, the value 79, and the address 160.
pub record Fits (c : MulticallerCall) : Type 0 where
  pub data_fits : length c.call_data < 2 ^ 16
  pub value_fits : get_or_else c.value 0 < 2 ^ 79
  pub to_fits : c.to < 256 ^ 20

selector_call-code :
    (c : MulticallerCall) (code : ℕ)
    → selector_call c ≡ some code
    → (code < 2 ^ 15)
      × ((code == 0x7FFD || code == 0x7FFB) ≡ not (has_address c.call_type))
      × (code ≡ value_call_selector → has_address c.call_type ≡ true)
unfolding selector_call
selector_call-code c code q = ground arith

plain_fields :
    (n code takes returns len : ℕ)
    → code < 2 ^ 15
    → takes < 2 ^ 24
    → returns < 2 ^ 24
    → len < 2 ^ 16
    → n ≡ ((code * 2 ^ 40 + returns) * 2 ^ 24 + takes) * 2 ^ 16 + len
    → (n < 2 ^ 95)
      × (n % 2 ^ 16 ≡ len)
      × (n / 2 ^ 16 % 2 ^ 24 ≡ takes)
      × (n / 2 ^ 40 % 2 ^ 24 ≡ returns)
      × (n / 2 ^ 80 ≡ code)
plain_fields n code takes returns len a b c d e =
    (omega arith, omega arith, omega arith, omega arith, omega arith)

value_fields :
    (n value len : ℕ)
    → value < 2 ^ 79
    → len < 2 ^ 16
    → n ≡ 2 ^ 95 + value * 2 ^ 16 + len
    → (2 ^ 95 ≤ n) × (n < 2 ^ 96) × (n % 2 ^ 16 ≡ len) × (n / 2 ^ 16 % 2 ^ 79 ≡ value)
value_fields n value len a b c = (omega arith, omega arith, omega arith, omega arith)

abbrev address_bytes : MulticallerCall → List ℕ
address_bytes c = if has_address c.call_type then to_be_bytes 20 c.to else []

-- The number of the first bytes, with the view of the call read from it and from the rest.
read_rest-view :
    (c : MulticallerCall) (code : ℕ) (rest : List ℕ)
    → Fits c
    → selector_call c ≡ some code
    → (selector c code < 256 ^ 12)
      × (read_rest (selector c code) (address_bytes c ++ (c.call_data ++ rest))
          ≡ (view c code, rest))
unfolding read_rest view
read_rest-view c code rest f q =
    let d = selector_call-code c code q in
    let len = length c.call_data in
    let to = from_be_bytes-to_be_bytes 20 c.to f.to_fits in
    let data_rest = c.call_data ++ rest in
    let taken_to = take-append 20 (to_be_bytes 20 c.to) data_rest (length-to_be_bytes 20 c.to) in
    let after_to =
      drop-append_all 20 (to_be_bytes 20 c.to) data_rest (length-to_be_bytes 20 c.to) in
    let taken = take-append len c.call_data rest refl in
    let after = drop-append_all len c.call_data rest refl in
    let takes = encode_call_stack-lt c in
    let returns = encode_return_stack-lt c in
    elim (Bool-cases (code == value_call_selector && not (get_or_else c.value 0 == 0))) [
      | inr n ↦
          let number = selector-eq c code d.0 f.data_fits n in
          let facts =
            plain_fields (selector c code) code (encode_call_stack c) (encode_return_stack c) len
              d.0 takes returns f.data_fits number in
          (
            omega (arith, facts.0),
            elim (Bool-cases (has_address c.call_type)) [
              | inl a ↦ ground (arith, d.1, facts, n, a, to, taken_to, after_to, taken, after)
              | inr a ↦ ground (arith, d.1, facts, n, a, taken, after)
            ],
          )
      | inl y ↦ elim (Option-cases c.value) [
        | inl e ↦ absurd (ground (arith, e))
        | inr (value, e) ↦
            let same : code ≡ value_call_selector = ground arith in
            let fits : value < 2 ^ 79 = ground (arith, e, f.value_fits) in
            let number : selector c code ≡ 2 ^ 95 + value * 2 ^ 16 + len =
              rw same (selector-eq_value c value e (ground (arith, e)) fits f.data_fits) in
            let facts = value_fields (selector c code) value len fits f.data_fits number in
            (
              omega (arith, facts.1),
              ground (arith, d.2 same, e, y, facts, to, taken_to, after_to, taken, after),
            )
      ]
    ]

-- Calls read one after the other.
pub read_calls : ℕ → List ℕ → List View × List ℕ
unfolding read_call
read_calls zero bytes = ([], bytes)
read_calls (suc n) bytes =
    let (v, rest) = read_call bytes in let (vs, last) = read_calls n rest in (v ∷ vs, last)

-- The view of a call, where it can be packed.
abbrev pub views : MulticallerCalls → List View
views [] = []
views (c ∷ cs) = view c (get_or_else (selector_call c) 0) ∷ views cs

-- Packing fails only at a wrong call type, and what it gives is read back as it was, whatever
-- follows. (The data, the value and the address fit their fields.)
pub read_call-pack_opcode :
    (c : MulticallerCall) (bytes rest : List ℕ)
    → Fits c
    → pack_opcode c ≡ some bytes
    → read_call (bytes ++ rest) ≡ (view c (get_or_else (selector_call c) 0), rest)
unfolding read_call pack_opcode
read_call-pack_opcode c bytes rest f q = elim (Option-cases (selector_call c)) [
  | inl e ↦ absurd (ground (arith, e))
  | inr (code, e) ↦
      let (bound, shown) = read_rest-view c code rest f e in
      let n = selector c code in
      let tail = address_bytes c ++ (c.call_data ++ rest) in
      let short = drop-to_be_bytes 20 12 32 n refl in
      let whole : bytes ++ rest ≡ to_be_bytes 12 n ++ tail = ground (
        arith,
        e,
        short,
        append_assoc (to_be_bytes 12 n) (address_bytes c ++ c.call_data) rest,
        append_assoc (address_bytes c) c.call_data rest,
      ) in
      ground (
        arith,
        e,
        whole,
        take-append 12 (to_be_bytes 12 n) tail (length-to_be_bytes 12 n),
        drop-append_all 12 (to_be_bytes 12 n) tail (length-to_be_bytes 12 n),
        from_be_bytes-to_be_bytes 12 n bound,
        shown,
      )
]

-- A batch of calls that has been packed is read back call by call, with nothing left over. (The
-- data, the value and the address of each call fit their fields.)
pub read_calls-pack_do_calls_data :
    (cs : MulticallerCalls) (bytes : List ℕ)
    → All Fits cs
    → pack_do_calls_data cs ≡ some bytes
    → read_calls (length cs) bytes ≡ (views cs, [])
unfolding read_calls pack_do_calls_data
read_calls-pack_do_calls_data [] bytes f q = ground arith
read_calls-pack_do_calls_data (c ∷ cs) bytes f q = elim (Option-cases (pack_opcode c)) [
  | inl e ↦ absurd (ground (arith, e))
  | inr (first, e) ↦ elim (Option-cases (pack_do_calls_data cs)) [
    | inl g ↦ absurd (ground (arith, e, g))
    | inr (rest, g) ↦
        let whole : bytes ≡ first ++ rest = ground (arith, e, g) in
        ground (
          arith,
          whole,
          read_call-pack_opcode c first rest f.0 e,
          read_calls-pack_do_calls_data cs rest f.1 g,
        )
  ]
]
