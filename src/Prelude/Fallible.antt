-- ===== src/Prelude/Fallible.antt =====
-- A computation of the program that may run into undefined behaviour of C, or throw an exception.
use mathlib.Core.Path.{◌≡◌, refl}
use mathlib.Core.Option.{Option, none, some}

-- What goes wrong: the program has no defined behaviour after any of these, but for an exception, which
-- ends it.
pub data Fault : Type 0 where
  buffer_overflow null_pointer out_of_bounds use_after_free double_free int_overflow exception :
      Fault

pub data Result {ℓ} (A : Type ℓ) : Type ℓ where
  ok : A → Result A
  fault : Fault → Result A

infixl 5 ◌>>=◌
abbrev pub ◌>>=◌ {ℓ κ} : {A : Type ℓ} {B : Type κ} → Result A → (A → Result B) → Result B
ok a >>= f = f a
fault e >>= f = fault e

abbrev pub or_fault {ℓ} : {A : Type ℓ} → Option A → Fault → Result A
or_fault none e = fault e
or_fault (some a) e = ok a

pub ok-injective {ℓ} : {A : Type ℓ} {a b : A} → ok a ≡ ok b → a ≡ b
ok-injective h = cc

-- If two steps in a row succeed, so does the first, with a value that the second goes on from.
pub >>=-eq-ok {ℓ κ} :
    {A : Type ℓ} {B : Type κ} {b : B} (first : Result A) (next : A → Result B)
    (done : (first >>= next) ≡ ok b)
    → (x : A) × (first ≡ ok x) × (next x ≡ ok b)
>>=-eq-ok (fault e) next done = cc
>>=-eq-ok (ok x) next done = (x, refl, done)

pub >>=-assoc {ℓ κ μ} :
    {A : Type ℓ} {B : Type κ} {C : Type μ} (first : Result A) (f : A → Result B) (g : B → Result C)
    → ((first >>= f) >>= g) ≡ (first >>= (λ a. f a >>= g))
>>=-assoc (ok a) f g = refl
>>=-assoc (fault e) f g = refl
