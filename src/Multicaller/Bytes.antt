-- ===== src/Multicaller/Bytes.antt =====
-- Numbers and their bytes, the highest first.
use native.Mathlib.Nat.{pow-suc}
use kabu.Base.{
  ℕ, zero, suc, ◌+◌, ◌*◌, ◌/◌, ◌%◌, ◌^◌, ◌≤◌, ◌<◌, ◌≡◌, refl, ap, ◌∙◌, List, [], ◌∷◌, ◌++◌, arith,
  length, take, drop, length-append,
}
use kabu.Multicaller.{to_be_bytes}

-- The number that the bytes show, after one that is there.
pub from_be_bytes : ℕ → List ℕ → ℕ
from_be_bytes x [] = x
from_be_bytes x (b ∷ bs) = from_be_bytes (x * 256 + b) bs

from_be_bytes-append :
    (x : ℕ) (bs : List ℕ) (b : ℕ) → from_be_bytes x (bs ++ b ∷ []) ≡ from_be_bytes x bs * 256 + b
unfolding from_be_bytes
from_be_bytes-append x [] b = refl
from_be_bytes-append x (c ∷ bs) b = from_be_bytes-append (x * 256 + c) bs b

pub length-to_be_bytes : (n x : ℕ) → length (to_be_bytes n x) ≡ n
unfolding to_be_bytes
length-to_be_bytes zero x = refl
length-to_be_bytes (suc n) x = omega (
  arith,
  length-to_be_bytes n (x / 256),
  length-append (to_be_bytes n (x / 256)) ((x % 256) ∷ []),
)

pub from_be_bytes-to_be_bytes : (n x : ℕ) → x < 256 ^ n → from_be_bytes 0 (to_be_bytes n x) ≡ x
unfolding from_be_bytes to_be_bytes
from_be_bytes-to_be_bytes zero x h = omega arith
from_be_bytes-to_be_bytes (suc n) x h = ground (
  arith,
  pow-suc 256 n,
  from_be_bytes-append 0 (to_be_bytes n (x / 256)) (x % 256),
  from_be_bytes-to_be_bytes n (x / 256) (omega (arith, pow-suc 256 n)),
)

drop-append : (m : ℕ) (xs ys : List ℕ) → m ≤ length xs → drop m (xs ++ ys) ≡ drop m xs ++ ys
drop-append zero xs ys h = refl
drop-append (suc m) [] ys h = absurd (omega arith)
drop-append (suc m) (x ∷ xs) ys h = drop-append m xs ys (omega arith)

drop-length : (xs : List ℕ) → drop (length xs) xs ≡ []
drop-length [] = refl
drop-length (x ∷ xs) = drop-length xs

-- Without the first bytes, the bytes of a number are those of a shorter form.
pub drop-to_be_bytes :
    (m n total x : ℕ) → total ≡ n + m → drop m (to_be_bytes total x) ≡ to_be_bytes n x
unfolding to_be_bytes
drop-to_be_bytes m zero total x e =
    let covered : m ≡ length (to_be_bytes total x) = omega (arith, length-to_be_bytes total x) in
    ap (λ k. drop k (to_be_bytes total x)) covered ∙ drop-length (to_be_bytes total x)
drop-to_be_bytes m (suc n) zero x e = absurd (omega arith)
drop-to_be_bytes m (suc n) (suc total) x e =
    drop-append m (to_be_bytes total (x / 256)) ((x % 256) ∷ [])
      (omega (arith, length-to_be_bytes total (x / 256)))
    ∙ ap (λ bs. bs ++ (x % 256) ∷ []) (drop-to_be_bytes m n total (x / 256) (omega arith))

pub take-append : (n : ℕ) (xs ys : List ℕ) → length xs ≡ n → take n (xs ++ ys) ≡ xs
take-append zero [] [] h = refl
take-append zero [] (y ∷ ys) h = refl
take-append zero (x ∷ xs) ys h = absurd (omega arith)
take-append (suc n) [] ys h = absurd (omega arith)
take-append (suc n) (x ∷ xs) ys h = ap (◌∷◌ x) (take-append n xs ys (omega arith))

pub drop-append_all : (n : ℕ) (xs ys : List ℕ) → length xs ≡ n → drop n (xs ++ ys) ≡ ys
drop-append_all zero [] ys h = refl
drop-append_all zero (x ∷ xs) ys h = absurd (omega arith)
drop-append_all (suc n) [] ys h = absurd (omega arith)
drop-append_all (suc n) (x ∷ xs) ys h = drop-append_all n xs ys (omega arith)
