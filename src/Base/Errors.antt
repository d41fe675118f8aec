-- ===== src/Base/Errors.antt =====
-- Go's `error` values, and results of calls that may fail.
use Prim.Native.String.{String}
use mathlib.Core.Path.{◌≡◌, refl}
use mathlib.Core.Logic.{◌⊎◌, inl, inr}
use mathlib.Core.Bool.{Bool, true, false}
use mathlib.Core.Option.{Option, none, some}

-- An error by its format text and the values that it is built from.
pub data Error : Type 0 where
  text : String → Error
  text_of : String → String → Error
  wrap : String → Error → Error
  wrap_of : String → String → Error → Error
  join : Error → Error → Error

pub data Result {ℓ} (A : Type ℓ) : Type ℓ where
  ok : A → Result A
  err : Error → Result A

-- The chain of calls, ended by the first error.
infixl 5 ◌>>=◌
abbrev pub ◌>>=◌ {ℓ} : {A B : Type ℓ} (r : Result A) (next : (a : A) → Result B) → Result B
◌>>=◌ (err e) next = err e
◌>>=◌ (ok x) next = next x

-- A call whose result is not used.
infixl 5 ◌>>◌
abbrev pub ◌>>◌ : {B : Type 0} (r : Result (Unit {0})) (rest : Result B) → Result B
◌>>◌ r rest = r >>= (λ u. rest)

-- A return of `error`: `none` is nil.
abbrev pub check : Option Error → Result (Unit {0})
check none = ok tt
check (some e) = err e

-- `if condition { return e }`
abbrev pub fail_if : Bool → Error → Result (Unit {0})
fail_if true e = err e
fail_if false e = ok tt

-- `fmt.Errorf("context: %w", err)` on the error of a call.
abbrev pub within {ℓ} : {A : Type ℓ} → String → Result A → Result A
within s (ok a) = ok a
within s (err e) = err (wrap s e)

pub check_then :
    {B : Type 0} (v : Option Error) (k : Result B) {b : B}
    → (check v >> k) ≡ ok b
    → (v ≡ none) × (k ≡ ok b)
check_then none k h = (refl, h)
check_then (some e) k h = cc

-- What every continuation's result has, the result of the chain has.
pub >>=-holds :
    {A B : Type 0} (P : B → Type 0) (m : Result A) (f : A → Result B)
    → ((a : A) (b : B) → f a ≡ ok b → P b)
    → (b : B) → (m >>= f) ≡ ok b
    → P b
>>=-holds P (ok a) f k b h = k a b h
>>=-holds P (err e) f k b h = cc

-- To split on a computed result and keep the equation.
pub Result-cases :
    {A : Type 0} (r : Result A) → ((e : Error) × (r ≡ err e)) ⊎ ((a : A) × (r ≡ ok a))
Result-cases (err e) = inl (e, refl)
Result-cases (ok a) = inr (a, refl)

pub fail_if_then :
    {B : Type 0} (c : Bool) (e : Error) (k : Result B) {b : B}
    → (fail_if c e >> k) ≡ ok b
    → (c ≡ false) × (k ≡ ok b)
fail_if_then false e k h = (refl, h)
fail_if_then true e k h = cc

-- What a call in a chain that succeeds has passed on to the rest.
pub passed_on :
    {A B : Type 0} (call : Result A) (rest : A → Result B) {final : B}
    → (call >>= rest) ≡ ok final
    → (x : A) × ((call ≡ ok x) × (rest x ≡ ok final))
passed_on (err e) rest h = cc
passed_on (ok x) rest h = (x, (refl, h))
