-- ===== src/Prelude/Outcome.antt =====
-- What a fallible Rust function does: it returns, it returns an error, or it panics.
use mathlib.Core.Path.{◌≡◌, refl, ap, subst}
use mathlib.Core.Logic.{◌⊎◌, inl, inr}
use mathlib.Core.Option.{Option, none, some}

pub data Outcome {ℓ κ} (E : Type ℓ) (A : Type κ) : Type (ℓ ⊔ κ) where
  ok : A → Outcome E A
  err : E → Outcome E A
  panic : Outcome E A

-- The `?` operator.
infixl 5 ◌>>=◌
abbrev pub ◌>>=◌ {ℓ κ ι} :
    {E : Type ℓ} {A : Type κ} {B : Type ι} → Outcome E A → (A → Outcome E B) → Outcome E B
ok a >>= f = f a
err e >>= f = err e
panic >>= f = panic

-- `expect`, `unwrap`, a division and an index: none is the panic.
abbrev pub or_panic {ℓ κ} : {E : Type ℓ} {A : Type κ} → Option A → Outcome E A
or_panic none = panic
or_panic (some a) = ok a

-- `ok_or`.
abbrev pub ok_or {ℓ κ} : {E : Type ℓ} {A : Type κ} → Option A → E → Outcome E A
ok_or none e = err e
ok_or (some a) e = ok a

-- preconfirmation/src/util.rs, `log_error`, without the log line. A panic stays a panic.
unfoldable pub log_error {ℓ κ ι} :
    {E : Type ℓ} {F : Type ι} {A : Type κ} → Outcome E A → Outcome F (Option A)
log_error (ok a) = ok (some a)
log_error (err e) = ok none
log_error panic = panic

-- A chain that returns has a first part that returned, and goes on from there.
pub >>=-eq-ok {ℓ κ ι} :
    {E : Type ℓ} {A : Type κ} {B : Type ι} (first : Outcome E A) (rest : A → Outcome E B)
    {result : B}
    → (first >>= rest) ≡ ok result
    → (value : A) × (first ≡ ok value) × (rest value ≡ ok result)
>>=-eq-ok panic rest returned = cc
>>=-eq-ok (err e) rest returned = cc
>>=-eq-ok (ok value) rest returned = (value, refl, returned)

pub ok_injective {ℓ κ} :
    {E : Type ℓ} {A : Type κ} (a b : A) → Path (Outcome E A) (ok a) (ok b) → a ≡ b
ok_injective a b h = cc

-- To split on a computed outcome and keep the equation.
pub Outcome-cases {ℓ κ} :
    {E : Type ℓ} {A : Type κ} (m : Outcome E A)
    → ((a : A) × (m ≡ ok a)) ⊎ (((e : E) × (m ≡ err e)) ⊎ (m ≡ panic))
Outcome-cases (ok a) = inl (a, refl)
Outcome-cases (err e) = inr (inl (e, refl))
Outcome-cases panic = inr (inr refl)

-- What holds of the value if there is one.
abbrev pub OnOk {ℓ κ ι} : {E : Type ℓ} {A : Type κ} → (A → Type ι) → Outcome E A → Type ι
OnOk P (ok a) = P a
OnOk P (err e) = Unit
OnOk P panic = Unit

pub OnOk_apply {ℓ κ ι} :
    {E : Type ℓ} {A : Type κ} (P : A → Type ι) (m : Outcome E A) (a : A) → OnOk P m → m ≡ ok a → P a
OnOk_apply P m a h e = subst (OnOk P) e h

-- `map_err`, and the conversion of errors by `?`.
abbrev pub map_err {ℓ κ ι} :
    {E : Type ℓ} {F : Type ι} {A : Type κ} → (E → F) → Outcome E A → Outcome F A
map_err f (ok a) = ok a
map_err f (err e) = err (f e)
map_err f panic = panic

pub map_err-eq-ok {ℓ κ ι} :
    {E : Type ℓ} {F : Type ι} {A : Type κ} (f : E → F) (m : Outcome E A) (a : A)
    → map_err f m ≡ ok a
    → m ≡ ok a
map_err-eq-ok f (ok b) a h = ap ok (ok_injective b a h)
map_err-eq-ok f (err e) a h = cc
map_err-eq-ok f panic a h = cc

-- `expect` on a Result: an error is a panic.
abbrev pub expect {ℓ κ ι} : {E : Type ℓ} {F : Type ι} {A : Type κ} → Outcome E A → Outcome F A
expect (ok a) = ok a
expect (err e) = panic
expect panic = panic

-- `map(f).unwrap_or_default()` on a Result, with the default given.
abbrev pub map_or {ℓ κ ι ν} :
    {E : Type ℓ} {F : Type ν} {A : Type κ} {B : Type ι} → B → (A → B) → Outcome E A → Outcome F B
map_or default f (ok a) = ok (f a)
map_or default f (err e) = ok default
map_or default f panic = panic
