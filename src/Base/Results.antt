-- ===== src/Base/Results.antt =====
-- What a Go function that returns an error gives back: a value, or the error.
use mathlib.Core.Bool.{Bool, true, false}
use mathlib.Core.Logic.{◌≢◌, ◌⊎◌, inl, inr}
use mathlib.Core.Path.{◌≡◌, refl, subst}

pub data Result {ℓ} (E : Type 0) (A : Type ℓ) : Type ℓ where
  ok : A → Result E A
  err : E → Result E A

infixl 5 ◌>>=◌ ◌>>◌
abbrev pub ◌>>=◌ {ℓ κ} :
    {E : Type 0} {A : Type ℓ} {B : Type κ} → Result E A → (A → Result E B) → Result E B
ok a >>= f = f a
err e >>= f = err e

abbrev pub ◌>>◌ {ℓ} : {E : Type 0} {B : Type ℓ} → Result E (Unit {0}) → Result E B → Result E B
m >> k = m >>= λ _. k

-- `if test { return err }`
abbrev pub fail_if : {E : Type 0} → Bool → E → Result E (Unit {0})
fail_if true e = err e
fail_if false e = ok tt

-- Where it is a value, P holds of it.
abbrev pub OnOk {ℓ} : {E : Type 0} {A : Type ℓ} → (A → Type 0) → Result E A → Type 0
OnOk P (ok a) = P a
OnOk P (err e) = Unit {0}

pub OnOk->>= {ℓ κ} :
    {E : Type 0} {A : Type ℓ} {B : Type κ} (P : A → Type 0) (Q : B → Type 0) (m : Result E A)
    (f : A → Result E B)
    → OnOk P m
    → ((a : A) → P a → OnOk Q (f a))
    → OnOk Q (m >>= f)
OnOk->>= P Q (ok a) f h k = k a h
OnOk->>= P Q (err e) f h k = tt

pub OnOk-weaken {ℓ} :
    {E : Type 0} {A : Type ℓ} {P Q : A → Type 0} (m : Result E A)
    → OnOk P m
    → ((a : A) → P a → Q a)
    → OnOk Q m
OnOk-weaken (ok a) h k = k a h
OnOk-weaken (err e) h k = tt

-- A test that does not fail.
pub OnOk-fail_if : {E : Type 0} (test : Bool) (e : E) → OnOk (λ u. test ≡ false) (fail_if test e)
OnOk-fail_if true e = tt
OnOk-fail_if false e = refl

pub ok-OnOk {ℓ} :
    {E : Type 0} {A : Type ℓ} (P : A → Type 0) (m : Result E A) {a : A} → OnOk P m → m ≡ ok a → P a
ok-OnOk P (ok b) h e = subst P (cc) h
ok-OnOk P (err x) h e = absurd (cc)

pub Result-cases {ℓ} :
    {E : Type 0} {A : Type ℓ} (m : Result E A) → ((a : A) × (m ≡ ok a)) ⊎ ((e : E) × (m ≡ err e))
Result-cases (ok a) = inl (a, refl)
Result-cases (err e) = inr (e, refl)

pub >>=-ne-err {ℓ κ} :
    {E : Type 0} {A : Type ℓ} {B : Type κ} (m : Result E A) (f : A → Result E B) {x : E}
    → m ≢ err x
    → ((a : A) → f a ≢ err x)
    → (m >>= f) ≢ err x
>>=-ne-err (ok a) f h k = k a
>>=-ne-err (err e) f h k = λ p. h (cc)

pub fail_if-ne-err : {E : Type 0} (test : Bool) (e : E) {x : E} → e ≢ x → fail_if test e ≢ err x
fail_if-ne-err true e h = λ p. h (cc)
fail_if-ne-err false e h = λ p. absurd (cc)

pub ok-ne-err {ℓ} : {E : Type 0} {A : Type ℓ} {a : A} {x : E} → ok a ≢ err x
ok-ne-err p = absurd (cc)
