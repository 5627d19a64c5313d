-- ===== src/Config/Accepts.antt =====
-- What the checks of a configuration accept.
use allidb.Config.Validate.{
  ConfigError, Checked, int_eq, at_least, between, non_empty, one_of, when, each, port,
}
use allidb.Base.{
  ==_iff, All, Bool, Bool-cases, Bytes, List, [], any, ap, arith, err, fail_if, false, inl, inr,
  length, negsuc, not, ok, pos, refl, str_eq, true, ℕ, ℤ, ◌<◌, ◌==◌, ◌>>◌, ◌↔◌, ◌∷◌, ◌≡◌, ◌≢◌, ◌≤◌,
}

infixr 4 ◌and◌
-- Both of two.
abbrev pub ◌and◌ : Type 0 → Type 0 → Type 0
P and Q = P × Q

abbrev pub AtLeast : ℕ → ℤ → Type 0
AtLeast low x = (n : ℕ) × (x ≡ pos n) × (low ≤ n)

abbrev pub Within : ℕ → ℕ → ℤ → Type 0
Within low high x = (n : ℕ) × (x ≡ pos n) × (low ≤ n) × (n ≤ high)

abbrev pub NonEmpty {ℓ} : {A : Type ℓ} → List A → Type 0
NonEmpty s = 0 < length s

abbrev pub OneOf : List Bytes → Bytes → Type 0
OneOf words s = any (str_eq s) words ≡ true

-- A check passes exactly where this holds.
abbrev pub Accepts : Checked → Type 0 → Type 0
Accepts m P = (m ≡ ok tt) ↔ P

>>-Accepts : (m k : Checked) (P Q : Type 0) → Accepts m P → Accepts k Q → Accepts (m >> k) (P × Q)
>>-Accepts (ok u) k P Q p q = (λ h. (p.0 refl, q.0 h), λ h. q.1 h.1)
>>-Accepts (err e) k P Q p q = (λ h. ground (arith, h), λ h. ground (arith, p.1 h.0))

pub both : {m k : Checked} {P Q : Type 0} → Accepts m P → Accepts k Q → Accepts (m >> k) (P × Q)
both {m} {k} {P} {Q} p q = >>-Accepts m k P Q p q

pub fail_if-Accepts :
    (test : Bool) (e : ConfigError) (P : Type 0) → ((test ≡ false) ↔ P) → Accepts (fail_if test e) P
fail_if-Accepts true e P p = (λ h. ground (arith, h), λ h. ground (arith, p.1 h))
fail_if-Accepts false e P p = (λ h. p.0 refl, λ h. refl)

pub at_least-Accepts :
    (low : ℕ) (name : Bytes) (x : ℤ) → Accepts (at_least low name x) (AtLeast low x)
at_least-Accepts low name (pos n) =
    (λ h. (n, refl, ground (arith, h)), λ (k, e, l). ground (arith, e, l))
at_least-Accepts low name (negsuc n) = (λ h. ground (arith, h), λ (k, e, l). ground (arith, e))

pub between-Accepts :
    (low high : ℕ) (name : Bytes) (x : ℤ) → Accepts (between low high name x) (Within low high x)
between-Accepts low high name (pos n) =
    (λ h. (n, refl, ground (arith, h), ground (arith, h)), λ (k, e, l, u). ground (arith, e, l, u))
between-Accepts low high name (negsuc n) =
    (λ h. ground (arith, h), λ (k, e, l, u). ground (arith, e))

pub port-Accepts : (name : Bytes) (x : ℤ) → Accepts (port name x) (Within 1 65535 x)
port-Accepts name (pos n) =
    (λ h. (n, refl, ground (arith, h), ground (arith, h)), λ (k, e, l, u). ground (arith, e, l, u))
port-Accepts name (negsuc n) = (λ h. ground (arith, h), λ (k, e, l, u). ground (arith, e))

pub non_empty-Accepts : (name s : Bytes) → Accepts (non_empty name s) (NonEmpty s)
non_empty-Accepts name s = (λ h. ground (arith, h), λ h. ground (arith, h))

pub one_of-Accepts :
    (words : List Bytes) (name s : Bytes) → Accepts (one_of words name s) (OneOf words s)
one_of-Accepts words name s = (λ h. ground (arith, h), λ h. ground (arith, h))

-- A test that has to be true, or false.
pub holds-Accepts : (test : Bool) (e : ConfigError) → Accepts (fail_if (not test) e) (test ≡ true)
holds-Accepts true e = (λ h. refl, λ h. refl)
holds-Accepts false e = (λ h. ground (arith, h), λ h. ground (arith, h))

pub fails-Accepts : (test : Bool) (e : ConfigError) → Accepts (fail_if test e) (test ≡ false)
fails-Accepts true e = (λ h. ground (arith, h), λ h. ground (arith, h))
fails-Accepts false e = (λ h. refl, λ h. refl)

pub when-Accepts :
    (test : Bool) (m : Checked) (P : Type 0) → Accepts m P → Accepts (when test m) (test ≡ true → P)
when-Accepts true m P p = (λ h t. p.0 h, λ h. p.1 (h refl))
when-Accepts false m P p = (λ h t. absurd (cc), λ h. refl)

pub each-Accepts {ℓ} :
    {A : Type ℓ} (check : A → Checked) (P : A → Type 0)
    → ((x : A) → Accepts (check x) (P x))
    → (xs : List A) → Accepts (each check xs) (All P xs)
each-Accepts check P p [] = (λ h. tt, λ h. refl)
each-Accepts check P p (x ∷ xs) = both (p x) (each-Accepts check P p xs)

int_eq_iff : (x y : ℤ) → (int_eq x y ≡ false) ↔ (x ≢ y)
int_eq_iff (pos m) (pos n) = (
  λ h e. ground (arith, h, e),
  λ h. elim (Bool-cases (m == n)) [ inl e ↦ absurd (h (ap pos ((==_iff m n).0 e))) | inr e ↦ e ],
)
int_eq_iff (pos m) (negsuc n) = (λ h e. ground (arith, e), λ h. refl)
int_eq_iff (negsuc m) (pos n) = (λ h e. ground (arith, e), λ h. refl)
int_eq_iff (negsuc m) (negsuc n) = (
  λ h e. ground (arith, h, e),
  λ h. elim (Bool-cases (m == n)) [ inl e ↦ absurd (h (ap negsuc ((==_iff m n).0 e))) | inr e ↦ e ],
)

pub differ-Accepts : (x y : ℤ) (e : ConfigError) → Accepts (fail_if (int_eq x y) e) (x ≢ y)
differ-Accepts x y e = fail_if-Accepts (int_eq x y) e (x ≢ y) (int_eq_iff x y)
