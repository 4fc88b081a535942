-- ===== src/Base/Results.antt =====
-- A call that returns or raises: `err e` is the exception `e`.
use mathlib.Core.Path.{◌≡◌, refl, subst}
use mathlib.Core.Logic.{◌⊎◌, inl, inr}
use mathlib.Core.Bool.{Bool, true, false}

pub data Result {ℓ} (X : Type 0) (V : Type ℓ) : Type ℓ where
  err : (exception : X) → Result X V
  ok : (value : V) → Result X V

infixl 5 ◌>>=◌
abbrev pub ◌>>=◌ {ℓ κ} :
    {X : Type 0} {V : Type ℓ} {W : Type κ} (call : Result X V) (next : V → Result X W) → Result X W
err exception >>= next = err exception
ok value >>= next = next value

infixl 5 ◌>>◌
abbrev pub ◌>>◌ {ℓ} :
    {X : Type 0} {W : Type ℓ} (call : Result X (Unit {0})) (rest : Result X W) → Result X W
call >> rest = call >>= λ _. rest

-- `if not test: raise e`
abbrev pub guard : {X : Type 0} → Bool → X → Result X (Unit {0})
guard false exception = err exception
guard true exception = ok tt

-- `if test: raise e`
abbrev pub raise_if : {X : Type 0} → Bool → X → Result X (Unit {0})
raise_if true e = err e
raise_if false e = ok tt

-- What a call that returns did: its first part returned, and so did the rest.
pub >>=-eq-ok {ℓ κ} :
    {X : Type 0} {V : Type ℓ} {W : Type κ} (call : Result X V) (next : V → Result X W) {w : W}
    → (call >>= next) ≡ ok w
    → (v : V) × (call ≡ ok v) × (next v ≡ ok w)
>>=-eq-ok (err exception) next returned = cc
>>=-eq-ok (ok value) next returned = (value, refl, returned)

pub Result-cases {ℓ} :
    {X : Type 0} {V : Type ℓ} (m : Result X V) → ((v : V) × (m ≡ ok v)) ⊎ ((e : X) × (m ≡ err e))
Result-cases (ok value) = inl (value, refl)
Result-cases (err exception) = inr (exception, refl)

-- The call returns.
abbrev pub Answers {ℓ} : {X : Type 0} {A : Type ℓ} → Result X A → Type ℓ
Answers {A} m = (a : A) × (m ≡ ok a)

pub Answers->>= {ℓ κ} :
    {X : Type 0} {A : Type ℓ} {B : Type κ} (m : Result X A) (f : A → Result X B)
    → Answers m
    → ((a : A) → m ≡ ok a → Answers (f a))
    → Answers (m >>= f)
Answers->>= (ok a) f h k = k a refl
Answers->>= (err e) f h k = absurd (cc h.1)

module _ {ℓ} {X : Type 0} {A : Type ℓ} where
  -- What a passed check tells.
  pub guard-ok :
      (b : Bool) (e : X) (k : Result X A) {a : A}
      → (guard b e >> k) ≡ ok a
      → (b ≡ true) × (k ≡ ok a)
  guard-ok true e k h = (refl, h)
  guard-ok false e k h = cc

  pub raise_if-ok :
      (b : Bool) (e : X) (k : Result X A) {a : A}
      → (raise_if b e >> k) ≡ ok a
      → (b ≡ false) × (k ≡ ok a)
  raise_if-ok true e k h = cc
  raise_if-ok false e k h = (refl, h)

pub ok-state {ℓ κ} :
    {X : Type 0} {A : Type ℓ} {S : Type κ} {a b : A} {s t : S}
    → ◌≡◌ {A = Result X (A × S)} (ok (a, s)) (ok (b, t))
    → s ≡ t
ok-state h = cc

pub ok-result {ℓ} : {X : Type 0} {A : Type ℓ} {a b : A} → ◌≡◌ {A = Result X A} (ok a) (ok b) → a ≡ b
ok-result h = cc

pub ok-value {ℓ κ} :
    {X : Type 0} {A : Type ℓ} {S : Type κ} {a b : A} {s t : S}
    → ◌≡◌ {A = Result X (A × S)} (ok (a, s)) (ok (b, t))
    → a ≡ b
ok-value h = cc

-- Whatever the call returns has the property.
pub record Ensures {ℓ κ} {X : Type 0} {V : Type ℓ} (P : V → Type κ) (call : Result X V)
    : Type (ℓ ⊔ κ) where
  pub at : (v : V) → call ≡ ok v → P v

pub Ensures->>= {ℓ κ μ} :
    {X : Type 0} {V : Type ℓ} {W : Type κ} {P : W → Type μ} {call : Result X V}
    {next : V → Result X W}
    → ((v : V) → call ≡ ok v → Ensures P (next v))
    → Ensures P (call >>= next)
Ensures->>= {call} {next} h = record {
  at = λ w returned. let (v, e, rest) = >>=-eq-ok call next returned in (h v e).at w rest;
}

pub Ensures-ok {ℓ κ} :
    {X : Type 0} {V : Type ℓ} {P : V → Type κ} {v : V} → P v → Ensures {X = X} P (ok v)
Ensures-ok {P} p = record { at = λ w e. subst P (ok-result e) p }
