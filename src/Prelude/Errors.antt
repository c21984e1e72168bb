-- ===== src/Prelude/Errors.antt =====
-- Errors that the program throws. `invalid` is a compile error shown to the author of a rule
-- (sqrlInvariant, buildSqrlError); `failed` is a broken internal assumption (invariant, Error).
-- The text is the message's format string; its arguments and the location are left out.
use Prim.Native.String.{String}
use mathlib.Core.Path.{◌≡◌, refl}
use mathlib.Core.Bool.{Bool, true, false}
use sqrl.Prelude.Tests.{if◌then◌else◌}

pub data Error : Type 0 where
  invalid failed : String → Error

pub data Result {ℓ} (A : Type ℓ) : Type ℓ where
  ok : A → Result A
  err : Error → Result A

-- What follows a step runs on its value; an error skips all that follows.
infixl 5 ◌>>=◌ ◌>>◌
abbrev pub ◌>>=◌ {ℓ κ} :
    {Before : Type ℓ} {After : Type κ} (step : Result Before) (next : Before → Result After)
    → Result After
err problem >>= next = err problem
ok value >>= next = next value

abbrev pub ◌>>◌ {ℓ} :
    {After : Type ℓ} (step : Result (Unit {0})) (next : Result After) → Result After
step >> next = step >>= λ _. next

-- `invariant` and `sqrlInvariant`.
abbrev pub ensure : (condition : Bool) (problem : Error) → Result (Unit {0})
ensure false problem = err problem
ensure true problem = ok tt

-- A chain that ends well has gone through each of its steps.
pub bind-eq-ok {ℓ κ} :
    {Before : Type ℓ} {After : Type κ} (step : Result Before) (next : Before → Result After)
    {value : After}
    → (step >>= next) ≡ ok value
    → (middle : Before) × (step ≡ ok middle) × (next middle ≡ ok value)
bind-eq-ok (err problem) next ends = cc
bind-eq-ok (ok middle) next ends = (middle, refl, ends)

-- What holds of the value, if there is one.
pub data Yields {ℓ κ} {A : Type ℓ} (P : A → Type κ) : Result A → Type (ℓ ⊔ κ) where
  halts : {problem : Error} → Yields P (err problem)
  yields : {value : A} → P value → Yields P (ok value)

module _ {ℓ κ μ ν} {Before : Type ℓ} {After : Type κ} (P : Before → Type μ)
    {Q : After → Type ν} where
  pub Yields-bind :
      (step : Result Before) (next : Before → Result After)
      → Yields P step
      → ((value : Before) → P value → Yields Q (next value))
      → Yields Q (step >>= next)
  Yields-bind (err problem) next h after = halts
  Yields-bind (ok value) next (yields h) after = after value h

pub Yields-after {ℓ κ ν} :
    {Before : Type ℓ} {After : Type κ} {Q : After → Type ν} (step : Result Before)
    (next : Before → Result After)
    → ((value : Before) → Yields Q (next value))
    → Yields Q (step >>= next)
Yields-after (err problem) next after = halts
Yields-after (ok value) next after = after value

pub Yields-ensure {ℓ κ} :
    {A : Type ℓ} {P : A → Type κ} (condition : Bool) (problem : Error) (next : Result A)
    → (condition ≡ true → Yields P next)
    → Yields P (ensure condition problem >>= λ _. next)
Yields-ensure false problem next after = halts
Yields-ensure true problem next after = after refl

pub Yields-map {ℓ κ μ} :
    {A : Type ℓ} {P : A → Type κ} {Q : A → Type μ} (step : Result A)
    → ((value : A) → P value → Q value)
    → Yields P step
    → Yields Q step
Yields-map (err problem) h halts = halts
Yields-map (ok value) h (yields p) = yields (h value p)

pub Yields-ok {ℓ κ} :
    {A : Type ℓ} {P : A → Type κ} (step : Result A)
    → ((value : A) → step ≡ ok value → P value)
    → Yields P step
Yields-ok (err problem) h = halts
Yields-ok (ok value) h = yields (h value refl)

pub Yields-if {ℓ κ} :
    {A : Type ℓ} {P : A → Type κ} (b : Bool) (x y : Result A)
    → Yields P x
    → Yields P y
    → Yields P (if b then x else y)
Yields-if true x y hx hy = hx
Yields-if false x y hx hy = hy

pub Yields-value {ℓ κ} :
    {A : Type ℓ} {P : A → Type κ} {step : Result A} {value : A}
    → Yields P step
    → step ≡ ok value
    → P value
Yields-value halts ends = cc
Yields-value {value = asked} (yields {value} h) ends = let same : asked ≡ value = cc in rw same h
