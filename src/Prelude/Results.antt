-- ===== src/Prelude/Results.antt =====
-- The result of a call: it returns, the program exits with a message or aborts, or the fuel ends.
use mathlib.Core.Path.{◌≡◌, refl}

pub data Outcome (A : Type 0) : Type 0 where
  out_of_fuel aborted exited : Outcome A
  done : A → Outcome A

abbrev pub and_then : {A B : Type 0} → Outcome A → (A → Outcome B) → Outcome B
and_then out_of_fuel f = out_of_fuel
and_then aborted f = aborted
and_then exited f = exited
and_then (done x) f = f x

-- The call returns, or the program exits with a message; what it returns has the property.
abbrev pub Returns : {A : Type 0} → (A → Type 0) → Outcome A → Type 0
Returns P out_of_fuel = ⊥
Returns P aborted = ⊥
Returns P exited = Unit
Returns P (done x) = P x

pub Returns-and_then :
    {A B : Type 0} (P : A → Type 0) (Q : B → Type 0) (x : Outcome A) (f : A → Outcome B)
    → Returns P x
    → ((a : A) → P a → Returns Q (f a))
    → Returns Q (and_then x f)
Returns-and_then P Q out_of_fuel f h k = h
Returns-and_then P Q aborted f h k = h
Returns-and_then P Q exited f h k = tt
Returns-and_then P Q (done a) f h k = k a h

pub Returns-imp :
    {A : Type 0} (P Q : A → Type 0) (x : Outcome A)
    → ((a : A) → P a → Q a)
    → Returns P x
    → Returns Q x
Returns-imp P Q out_of_fuel f h = h
Returns-imp P Q aborted f h = h
Returns-imp P Q exited f h = tt
Returns-imp P Q (done a) f h = f a h

-- Where the call returns, what it returns has the property.
abbrev pub Gives : {A : Type 0} → (A → Type 0) → Outcome A → Type 0
Gives P (done x) = P x
Gives P _ = Unit

-- With `P` what is known of the call already.
pub Gives-and_then :
    {A B : Type 0} (P Q : A → Type 0) (R : B → Type 0) (x : Outcome A) (f : A → Outcome B)
    → Returns P x
    → Gives Q x
    → ((a : A) → P a → Q a → Gives R (f a))
    → Gives R (and_then x f)
Gives-and_then P Q R out_of_fuel f h g k = tt
Gives-and_then P Q R aborted f h g k = tt
Gives-and_then P Q R exited f h g k = tt
Gives-and_then P Q R (done a) f h g k = k a h g

pub Gives-bind :
    {A B : Type 0} (Q : A → Type 0) (R : B → Type 0) (x : Outcome A) (f : A → Outcome B)
    → Gives Q x
    → ((a : A) → Q a → Gives R (f a))
    → Gives R (and_then x f)
Gives-bind Q R out_of_fuel f g k = tt
Gives-bind Q R aborted f g k = tt
Gives-bind Q R exited f g k = tt
Gives-bind Q R (done a) f g k = k a g

pub Gives-imp :
    {A : Type 0} (P Q : A → Type 0) (x : Outcome A) → ((a : A) → P a → Q a) → Gives P x → Gives Q x
Gives-imp P Q out_of_fuel f h = tt
Gives-imp P Q aborted f h = tt
Gives-imp P Q exited f h = tt
Gives-imp P Q (done a) f h = f a h

pub Gives-both :
    {A : Type 0} (P Q : A → Type 0) (x : Outcome A)
    → Returns P x
    → Gives Q x
    → Gives (λ a. P a × Q a) x
Gives-both P Q out_of_fuel h g = tt
Gives-both P Q aborted h g = tt
Gives-both P Q exited h g = tt
Gives-both P Q (done a) h g = (h, g)

pub Returns-both :
    {A : Type 0} (P Q : A → Type 0) (x : Outcome A)
    → Returns P x
    → Gives Q x
    → Returns (λ a. P a × Q a) x
Returns-both P Q out_of_fuel h g = h
Returns-both P Q aborted h g = h
Returns-both P Q exited h g = tt
Returns-both P Q (done a) h g = (h, g)

pub and_then_assoc :
    {A B C : Type 0} (x : Outcome A) (f : A → Outcome B) (g : B → Outcome C)
    → and_then (and_then x f) g ≡ and_then x (λ a. and_then (f a) g)
and_then_assoc out_of_fuel f g = refl
and_then_assoc aborted f g = refl
and_then_assoc exited f g = refl
and_then_assoc (done a) f g = refl

pub and_then_cong :
    {A B : Type 0} (x : Outcome A) (f g : A → Outcome B)
    → ((a : A) → f a ≡ g a)
    → and_then x f ≡ and_then x g
and_then_cong out_of_fuel f g h = refl
and_then_cong aborted f g h = refl
and_then_cong exited f g h = refl
and_then_cong (done a) f g h = h a
