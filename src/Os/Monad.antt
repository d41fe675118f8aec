-- ===== src/Os/Monad.antt =====
-- Calls that change a world and may fail. An error leaves the world as the failing call left it.
pub mod Holds
use gosync.Base.{
  String, Bool, true, false, Option, none, some, Error, wrap, Result, ok, err, ◌≡◌, refl,
  if◌then◌else◌,
}

abbrev pub Io : Type 0 → Type 0 → Type 0
Io W A = W → W × Result A

-- What follows a call: nothing after an error.
unfoldable pub after : {A B W : Type 0} → W × Result A → (A → Io W B) → W × Result B
after (w, ok a) f = f a w
after (w, err e) f = (w, err e)

infixl 5 ◌>>=◌ ◌>>◌
abbrev pub ◌>>=◌ : {A B W : Type 0} → Io W A → (A → Io W B) → Io W B
◌>>=◌ m f w = after (m w) f

abbrev pub ◌>>◌ : {B W : Type 0} → Io W (Unit {0}) → Io W B → Io W B
m >> k = m >>= λ _. k

abbrev pub return : {A W : Type 0} → A → Io W A
return a w = (w, ok a)

abbrev pub throw : {A W : Type 0} → Error → Io W A
throw e w = (w, err e)

-- `fmt.Errorf("context: %w", err)` on the error of a call.
unfoldable pub within_result : {A W : Type 0} → String → W × Result A → W × Result A
within_result s (w, ok a) = (w, ok a)
within_result s (w, err e) = (w, err (wrap s e))

abbrev pub within : {A W : Type 0} → String → Io W A → Io W A
within s m w = within_result s (m w)

-- The error of a call as a value: `err := f()`, `none` for nil.
abbrev pub error_of : {A : Type 0} → Result A → Option Error
error_of (ok a) = none
error_of (err e) = some e

unfoldable pub attempt_result : {A W : Type 0} → W × Result A → W × Result (Option Error)
attempt_result (w, r) = (w, ok (error_of r))

abbrev pub attempt : {A W : Type 0} → Io W A → Io W (Option Error)
attempt m w = attempt_result (m w)

-- The result of a call as a value, for code that looks at the error.
unfoldable pub caught_result : {A W : Type 0} → W × Result A → W × Result (Result A)
caught_result (w, r) = (w, ok r)

abbrev pub caught : {A W : Type 0} → Io W A → Io W (Result A)
caught m w = caught_result (m w)

-- `return err`, where nil is success.
abbrev pub raise : {W : Type 0} → Option Error → Io W (Unit {0})
raise none = return tt
raise (some e) = throw e

-- A pure result.
abbrev pub lift : {A W : Type 0} → Result A → Io W A
lift r w = (w, r)

abbrev pub when : {W : Type 0} → Bool → Io W (Unit {0}) → Io W (Unit {0})
when true m = m
when false m = return tt

-- `_ = f()`
unfoldable pub ignored_result : {A W : Type 0} → W × Result A → W × Result (Unit {0})
ignored_result (w, r) = (w, ok tt)

abbrev pub ignored : {A W : Type 0} → Io W A → Io W (Unit {0})
ignored m w = ignored_result (m w)

-- A chain that succeeds: what its first call returns, and the rest on it.
pub after_ok :
    {A B W : Type 0} (x : W × Result A) (f : A → Io W B) (b : B)
    → (after x f).1 ≡ ok b
    → (a : A) × ((w : W) × ((x ≡ (w, ok a)) × ((f a w).1 ≡ ok b)))
unfolding after
after_ok (w, ok a) f b h = (a, (w, (refl, h)))
after_ok (w, err e) f b h = absurd cc

-- The same with the worlds.
pub after_pair :
    {A B W : Type 0} (x : W × Result A) (f : A → Io W B) (u : W) (b : B)
    → after x f ≡ (u, ok b)
    → (a : A) × ((w : W) × ((x ≡ (w, ok a)) × (f a w ≡ (u, ok b))))
unfolding after
after_pair (w, ok a) f u b h = (a, (w, (refl, h)))
after_pair (w, err e) f u b h = absurd cc

pub within_ok :
    {A W : Type 0} (s : String) (x : W × Result A) (w : W) (a : A)
    → within_result s x ≡ (w, ok a)
    → x ≡ (w, ok a)
unfolding within_result
within_ok s (w, ok a) v b h = h
within_ok s (w, err e) v b h = absurd cc

pub within_value :
    {A W : Type 0} (s : String) (x : W × Result A) (a : A)
    → (within_result s x).1 ≡ ok a
    → x.1 ≡ ok a
unfolding within_result
within_value s (w, ok a) b h = h
within_value s (w, err e) b h = absurd cc

-- A call behind a guard that succeeds.
pub guard_ok :
    {A W : Type 0} (b : Bool) (e : Error) (m : Io W A) (w : W) (a : A)
    → ((if b then throw e else m) w).1 ≡ ok a
    → (b ≡ false) × ((m w).1 ≡ ok a)
guard_ok true e m w a h = absurd cc
guard_ok false e m w a h = (refl, h)
