-- ===== src/Base/Results.antt =====
-- A result that is a value or an error: a function of the source that may throw.
use mathlib.Core.Path.{◌≡◌, refl}
use mathlib.Core.Logic.{◌⊎◌, inl, inr}
use mathlib.Core.Bool.{Bool, true, false}
use mathlib.Core.Option.{Option, none, some}
use management_app.Base.Tests.{if◌then◌else◌}

pub data Result (E A : Type 0) : Type 0 where
  ok : A → Result E A
  err : E → Result E A

infixl 5 ◌>>=◌ ◌>>◌
abbrev pub ◌>>=◌ : {E A B : Type 0} → Result E A → (A → Result E B) → Result E B
ok a >>= f = f a
err e >>= f = err e

abbrev pub ◌>>◌ : {E B : Type 0} → Result E (Unit {0}) → Result E B → Result E B
m >> k = m >>= λ _. k

-- `if (!test) throw e;`
abbrev pub guard : {E : Type 0} → Bool → E → Result E (Unit {0})
guard true e = ok tt
guard false e = err e

-- `if (!found) throw e;`
abbrev pub or_throw : {E A : Type 0} → Option A → E → Result E A
or_throw none e = err e
or_throw (some a) e = ok a

-- What a chain that succeeds has found on its way.
pub or_throw_bind :
    {E A B : Type 0} (o : Option A) (e : E) (f : A → Result E B) {b : B}
    → (or_throw o e >>= f) ≡ ok b
    → (a : A) × (o ≡ some a) × (f a ≡ ok b)
or_throw_bind none e f h = absurd (cc)
or_throw_bind (some a) e f h = (a, refl, h)

pub guard_bind :
    {E B : Type 0} (t : Bool) (e : E) (k : Result E B) {b : B}
    → (guard t e >> k) ≡ ok b
    → (t ≡ true) × (k ≡ ok b)
guard_bind true e k h = (refl, h)
guard_bind false e k h = absurd (cc)

pub bind-eq-ok :
    {E A B : Type 0} (m : Result E A) (f : A → Result E B) {b : B}
    → (m >>= f) ≡ ok b
    → (a : A) × (m ≡ ok a) × (f a ≡ ok b)
bind-eq-ok (ok a) f h = (a, refl, h)
bind-eq-ok (err e) f h = absurd (cc)

pub seq-eq-ok :
    {E B : Type 0} (m : Result E (Unit {0})) (k : Result E B) {b : B}
    → (m >> k) ≡ ok b
    → (m ≡ ok tt) × (k ≡ ok b)
seq-eq-ok (ok a) k h = (refl, h)
seq-eq-ok (err e) k h = absurd (cc)

-- A chain that ends in a value fails only where its step does.
pub seq-eq-err :
    {E B : Type 0} (m : Result E (Unit {0})) (b : B) {e : E} → (m >> ok b) ≡ err e → m ≡ err e
seq-eq-err (ok a) b h = absurd (cc)
seq-eq-err (err x) b h = cc

pub guard-if :
    {E B : Type 0} (t : Bool) (e : E) (k : Result E B) → (guard t e >> k) ≡ (if t then k else err e)
guard-if true e k = refl
guard-if false e k = refl

pub Result-cases :
    {E A : Type 0} (m : Result E A) → ((a : A) × (m ≡ ok a)) ⊎ ((e : E) × (m ≡ err e))
Result-cases (ok a) = inl (a, refl)
Result-cases (err e) = inr (e, refl)
