-- ===== src/Base/Results.antt =====
-- The result of code that may return an error or panic.
use mathlib.Core.Path.{◌≡◌, refl}
use mathlib.Core.Bool.{Bool, true, false}
use kabu.Base.Tests.{if◌then◌else◌}

pub data Outcome {ℓ} (E : Type 0) (A : Type ℓ) : Type ℓ where
  done : A → Outcome E A
  fails : E → Outcome E A
  panics : Outcome E A

infixl 5 ◌>>=◌
unfoldable pub ◌>>=◌ {ℓ κ} :
    {E : Type 0} {A : Type ℓ} {B : Type κ} → Outcome E A → (A → Outcome E B) → Outcome E B
done a >>= f = f a
fails e >>= f = fails e
panics >>= f = panics

-- What is so of the value, where there is one.
pub data Gives {ℓ κ} {E : Type 0} {A : Type ℓ} (P : A → Type κ) : Outcome E A → Type (ℓ ⊔ κ) where
  gives : (a : A) → P a → Gives P (done a)
  gives_error : (e : E) → Gives P (fails e)
  gives_panic : Gives P panics

pub Gives-done {ℓ κ} :
    {E : Type 0} {A : Type ℓ} (P : A → Type κ) (a : A) → Gives {E = E} P (done a) → P a
Gives-done P a (gives _ p) = p

pub >>=-Gives {ℓ κ μ} :
    {E : Type 0} {A : Type ℓ} {B : Type κ} (P : B → Type μ) (r : Outcome E A) (f : A → Outcome E B)
    → ((a : A) → r ≡ done a → Gives P (f a))
    → Gives P (r >>= f)
unfolding ◌>>=◌
>>=-Gives P (done a) f h = h a refl
>>=-Gives P (fails e) f h = gives_error e
>>=-Gives P panics f h = gives_panic

pub >>=-Gives_after {ℓ κ μ ν} :
    {E : Type 0} {A : Type ℓ} {B : Type κ} (P : B → Type μ) (Q : A → Type ν) (r : Outcome E A)
    (f : A → Outcome E B)
    → Gives Q r
    → ((a : A) → Q a → Gives P (f a))
    → Gives P (r >>= f)
unfolding ◌>>=◌
>>=-Gives_after P Q (done a) f (gives _ q) h = h a q
>>=-Gives_after P Q (fails e) f g h = gives_error e
>>=-Gives_after P Q panics f g h = gives_panic

pub if-Gives {ℓ κ} :
    {E : Type 0} {A : Type ℓ} (P : A → Type κ) (b : Bool) (r s : Outcome E A)
    → (b ≡ true → Gives P r)
    → (b ≡ false → Gives P s)
    → Gives P (if b then r else s)
if-Gives P true r s h k = h refl
if-Gives P false r s h k = k refl

pub Gives-map {ℓ κ μ} :
    {E : Type 0} {A : Type ℓ} (P : A → Type κ) (Q : A → Type μ) (r : Outcome E A)
    → ((a : A) → P a → Q a)
    → Gives P r
    → Gives Q r
Gives-map P Q (done a) h (gives _ p) = gives a (h a p)
Gives-map P Q (fails e) h g = gives_error e
Gives-map P Q panics h g = gives_panic

pub >>=_done {ℓ} : {E : Type 0} {A : Type ℓ} (r : Outcome E A) → (r >>= λ a. done a) ≡ r
unfolding ◌>>=◌
>>=_done (done a) = refl
>>=_done (fails e) = refl
>>=_done panics = refl

pub >>=_cong {ℓ κ} :
    {E : Type 0} {A : Type ℓ} {B : Type κ} (r : Outcome E A) (f g : A → Outcome E B)
    → ((a : A) → f a ≡ g a)
    → (r >>= f) ≡ (r >>= g)
unfolding ◌>>=◌
>>=_cong (done a) f g h = h a
>>=_cong (fails e) f g h = refl
>>=_cong panics f g h = refl

pub >>=_assoc {ℓ κ μ} :
    {E : Type 0} {A : Type ℓ} {B : Type κ} {C : Type μ} (r : Outcome E A) (f : A → Outcome E B)
    (g : B → Outcome E C)
    → ((r >>= f) >>= g) ≡ (r >>= λ a. f a >>= g)
unfolding ◌>>=◌
>>=_assoc (done a) f g = refl
>>=_assoc (fails e) f g = refl
>>=_assoc panics f g = refl
