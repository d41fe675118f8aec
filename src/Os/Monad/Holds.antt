-- ===== src/Os/Monad/Holds.antt =====
-- What every result of a chain of calls has.
use mathlib.Core.Path.{subst}
use gosync.Base.{String, ap, Option, none, some, Error, Result, ok, err, ◌≡◌, refl}
use gosync.Os.Monad.{Io, after, raise, attempt_result, caught_result, within_result}

-- What every result of a chain of calls has.
pub after_holds :
    {A B W : Type 0} (P : B → Type 0) (x : W × Result A) (f : A → Io W B)
    → ((a : A) (w : W) (b : B) → (f a w).1 ≡ ok b → P b)
    → (b : B) → (after x f).1 ≡ ok b
    → P b
unfolding after
after_holds P (w, ok a) f k b h = k a w b h
after_holds P (w, err e) f k b h = cc

-- The same, where what the first call returns matters.
pub after_from :
    {A B W : Type 0} (P : B → Type 0) (x : W × Result A) (f : A → Io W B)
    → ((a : A) (w : W) → x.1 ≡ ok a → (b : B) → (f a w).1 ≡ ok b → P b)
    → (b : B) → (after x f).1 ≡ ok b
    → P b
unfolding after
after_from P (w, ok a) f k b h = k a w refl b h
after_from P (w, err e) f k b h = cc

-- What a value has, the value of an equal result has.
pub ok_holds : {B : Type 0} (P : B → Type 0) {a b : B} → P a → ok a ≡ ok b → P b
ok_holds P p h = subst P (cc) p

pub raise_pair :
    {World : Type 0} (o : Option Error) (w v : World)
    → raise o w ≡ (v, ok tt)
    → (o ≡ none) × (w ≡ v)
raise_pair none w v h = (refl, ap (λ p. p.0) h)
raise_pair (some e) w v h = cc

pub attempt_world :
    {A World : Type 0} (x : World × Result A) (v : World) (o : Option Error)
    → attempt_result x ≡ (v, ok o)
    → x.0 ≡ v
unfolding attempt_result
attempt_world (w, r) v o h = ap (λ p. p.0) h

pub caught_world :
    {A World : Type 0} (x : World × Result A) (v : World) (o : Result A)
    → caught_result x ≡ (v, ok o)
    → (x.0 ≡ v) × (x.1 ≡ o)
unfolding caught_result
caught_world (w, r) v o h = (ap (λ p. p.0) h, cc)

pub caught_value :
    {A World : Type 0} (x : World × Result A) (o : Result A) → (caught_result x).1 ≡ ok o → x.1 ≡ o
unfolding caught_result
caught_value (w, r) o h = cc

-- What a call's world has, the world behind what follows it has.
pub within_keeps :
    {A W : Type 0} (I : W → Type 0) (s : String) (x : W × Result A)
    → I x.0
    → I (within_result s x).0
unfolding within_result
within_keeps I s (w, ok a) i = i
within_keeps I s (w, err e) i = i

pub after_keeps :
    {A B W : Type 0} (I : W → Type 0) (x : W × Result A) (f : A → Io W B)
    → I x.0
    → ((a : A) (w : W) → x.1 ≡ ok a → I w → I (f a w).0)
    → I (after x f).0
unfolding after
after_keeps I (w, ok a) f i k = k a w refl i
after_keeps I (w, err e) f i k = i
