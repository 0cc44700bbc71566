-- ===== src/Base/Results.antt =====
-- What a call that may throw returns; a method that keeps state returns the new state beside it,
-- since what was written before a throw stays written.
use mathlib.Core.Path.{◌≡◌, refl}
use mathlib.Core.Logic.{◌⊎◌, inl, inr}
use mathlib.Core.Bool.{Bool, true, false}

pub data Outcome {ℓ κ} (E : Type ℓ) (A : Type κ) : Type (ℓ ⊔ κ) where
  ok : A → Outcome E A
  err : E → Outcome E A

infixl 5 ◌>>=◌ ◌>>◌
abbrev pub ◌>>=◌ {ℓ κ μ} :
    {E : Type ℓ} {A : Type κ} {B : Type μ} → Outcome E A → (A → Outcome E B) → Outcome E B
ok a >>= f = f a
err e >>= f = err e

abbrev pub ◌>>◌ {ℓ κ} : {E : Type ℓ} {B : Type κ} → Outcome E (Unit {0}) → Outcome E B → Outcome E B
m >> k = m >>= λ _. k

-- A result that is there satisfies `P`.
abbrev pub Ensures {ℓ κ μ} : {E : Type ℓ} {A : Type κ} → (A → Type μ) → Outcome E A → Type μ
Ensures P (ok a) = P a
Ensures P (err e) = Unit

pub Ensures-bind {ℓ κ μ ν ξ} :
    {E : Type ℓ} {A : Type κ} {B : Type μ} (P : A → Type ν) (Q : B → Type ξ) (m : Outcome E A)
    (f : A → Outcome E B)
    → Ensures P m
    → ((a : A) → P a → Ensures Q (f a))
    → Ensures Q (m >>= f)
Ensures-bind P Q (ok a) f h k = k a h
Ensures-bind P Q (err e) f h k = tt

pub Ensures-any {ℓ κ} : {E : Type ℓ} {A : Type κ} (m : Outcome E A) → Ensures (λ _. Unit {0}) m
Ensures-any (ok a) = tt
Ensures-any (err e) = tt

-- A call that may throw in a method with state: a throw leaves the state as it is there.
abbrev pub attempt {ℓ κ μ ν} :
    {E : Type ℓ} {A : Type κ} {B : Type μ} {S : Type ν}
    → Outcome E A
    → S
    → (A → Outcome E B × S)
    → Outcome E B × S
attempt (ok a) s k = k a
attempt (err e) s k = (err e, s)

-- `if (!test) throw fault`
abbrev pub check {ℓ} : {E : Type ℓ} → Bool → E → Outcome E (Unit {0})
check true e = ok tt
check false e = err e

pub check-ok {ℓ} : {E : Type ℓ} (b : Bool) (e : E) (u : Unit {0}) → check b e ≡ ok u → b ≡ true
check-ok true e u h = refl
check-ok false e u h = absurd (cc h)

-- A property of what a method returns and leaves, from the two ways that its first call ends.
pub attempt-cases {ℓ κ μ ν ξ} :
    {E : Type ℓ} {A : Type κ} {B : Type μ} {S : Type ν} (P : Outcome E B × S → Type ξ)
    (m : Outcome E A) (s : S) (k : A → Outcome E B × S)
    → ((e : E) → P (err e, s))
    → ((a : A) → m ≡ ok a → P (k a))
    → P (attempt m s k)
attempt-cases P (ok a) s k f g = g a refl
attempt-cases P (err e) s k f g = f e

-- A chain that succeeds has links that succeed.
pub bind-ok {ℓ κ μ} :
    {E : Type ℓ} {A : Type κ} {B : Type μ} (m : Outcome E A) (f : A → Outcome E B) (b : B)
    → m >>= f ≡ ok b
    → (a : A) × (m ≡ ok a) × (f a ≡ ok b)
bind-ok (ok a) f b h = (a, refl, h)
bind-ok (err e) f b h = absurd (cc h)

pub checked-ok {ℓ κ} :
    {E : Type ℓ} {A : Type κ} (b : Bool) (e : E) (a c : A)
    → check b e >> ok a ≡ ok c
    → (b ≡ true) × (a ≡ c)
checked-ok true e a c h = (refl, cc h)
checked-ok false e a c h = absurd (cc h)

pub ok-injective {ℓ κ} :
    {E : Type ℓ} {A : Type κ} (a b : A) → ◌≡◌ {A = Outcome E A} (ok a) (ok b) → a ≡ b
ok-injective a b h = cc h

pub Outcome-cases {ℓ κ} :
    {E : Type ℓ} {A : Type κ} (m : Outcome E A) → ((e : E) × (m ≡ err e)) ⊎ ((a : A) × (m ≡ ok a))
Outcome-cases (ok a) = inr (a, refl)
Outcome-cases (err e) = inl (e, refl)

-- A call that succeeds after one that may throw: that one succeeds too.
pub attempt-ok {ℓ κ μ ν} :
    {E : Type ℓ} {A : Type κ} {B : Type μ} {S : Type ν} (m : Outcome E A) (s t : S)
    (k : A → Outcome E B × S) (b : B)
    → attempt m s k ≡ (ok b, t)
    → (a : A) × (m ≡ ok a) × (k a ≡ (ok b, t))
attempt-ok (ok a) s t k b h = (a, refl, h)
attempt-ok (err e) s t k b h = absurd (cc h)
