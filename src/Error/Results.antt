-- ===== src/Error/Results.antt =====
-- Taking a successful outcome apart.
use rusty_fusion.Error.{FfError, Outcome, err, guard, ok, panics, unwrap, unwrap_result, ◌>>=◌}
use rusty_fusion.Prelude.{Bool, Option, false, none, refl, some, true, ◌≡◌}

pub >>=-ok {ℓ κ} :
    {A : Type ℓ} {B : Type κ} (m : Outcome A) (f : A → Outcome B) (b : B)
    → (m >>= f) ≡ ok b
    → (a : A) × (m ≡ ok a) × (f a ≡ ok b)
>>=-ok (ok a) f b h = (a, refl, h)
>>=-ok (err e) f b h = cc h
>>=-ok panics f b h = cc h

pub unwrap-ok {ℓ} : {A : Type ℓ} (o : Option A) (a : A) → unwrap o ≡ ok a → o ≡ some a
unwrap-ok none a h = cc h
unwrap-ok (some b) a h = cc h

pub unwrap_result-ok {ℓ} : {A : Type ℓ} (m : Outcome A) (a : A) → unwrap_result m ≡ ok a → m ≡ ok a
unwrap_result-ok (ok b) a h = h
unwrap_result-ok (err e) a h = cc h
unwrap_result-ok panics a h = cc h

pub guard-ok : (test : Bool) (e : FfError) (u : Unit {0}) → guard test e ≡ ok u → test ≡ true
guard-ok true e u h = refl
guard-ok false e u h = cc h

-- The same as a type to match on.
pub data Came {A : Type 0} {B : Type 0} (m : Outcome A) (f : A → Outcome B) (b : B) : Type 0 where
  came : (a : A) → m ≡ ok a → f a ≡ ok b → Came m f b

pub Came-bind :
    {A : Type 0} {B : Type 0} {m : Outcome A} {f : A → Outcome B} {b : B}
    → (m >>= f) ≡ ok b
    → Came m f b
Came-bind {m = ok a} h = came a refl h
Came-bind {m = err e} h = cc h
Came-bind {m = panics} h = cc h
