-- ===== src/Prelude/Options.antt =====
-- Chains of steps that may find nothing.
use mathlib.Core.Path.{◌≡◌, refl}
use mathlib.Core.Option.{Option, none, some}

infixl 5 ◌>>=◌ ◌>>◌
abbrev pub ◌>>=◌ : {A B : Type 0} → Option A → (A → Option B) → Option B
none >>= f = none
some a >>= f = f a

abbrev pub ◌>>◌ : {B : Type 0} → Option (Unit {0}) → Option B → Option B
m >> k = m >>= λ _. k

pub >>=-eq-some :
    {A B : Type 0} (o : Option A) (f : A → Option B) {b : B}
    → (o >>= f) ≡ some b
    → (a : A) × (o ≡ some a) × (f a ≡ some b)
>>=-eq-some none f h = cc
>>=-eq-some (some a) f h = (a, refl, h)

abbrev pub fmap : {A B : Type 0} → (A → B) → Option A → Option B
fmap f none = none
fmap f (some a) = some (f a)

pub some-inj : {A : Type 0} {a b : A} → some a ≡ some b → a ≡ b
some-inj h = cc
