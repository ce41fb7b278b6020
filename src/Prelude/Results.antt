-- ===== src/Prelude/Results.antt =====
-- `Result` of fallible code, with `?` as a monad and `for` loops that stop at the first error.
use mathlib.Core.Path.{◌≡◌, refl}
use mathlib.Core.Logic.{◌⊎◌, inl, inr}
use mathlib.Core.Bool.{Bool, true, false}
use mathlib.Core.List.{List, [], ◌∷◌}
use meshbus_rs.Prelude.Lists.{In}

pub data Result (E A : Type 0) : Type 0 where
  ok : A → Result E A
  err : E → Result E A

infixl 5 ◌>>=◌ ◌>>◌
abbrev pub ◌>>=◌ : {E A B : Type 0} → Result E A → (A → Result E B) → Result E B
ok a >>= f = f a
err e >>= f = err e

abbrev pub ◌>>◌ : {E B : Type 0} → Result E (Unit {0}) → Result E B → Result E B
m >> k = m >>= λ _. k

abbrev pub require : {E : Type 0} → Bool → E → Result E (Unit {0})
require true e = ok tt
require false e = err e

-- `for x in xs { f(x)?; }`
unfoldable pub each : {A E : Type 0} → (A → Result E (Unit {0})) → List A → Result E (Unit {0})
each f [] = ok tt
each f (x ∷ xs) = f x >> each f xs

-- A chain succeeds when both of its parts do.
pub >>-eq-ok :
    {E : Type 0} (m : Result E (Unit {0})) {k : Result E (Unit {0})}
    → (m >> k) ≡ ok tt
    → (m ≡ ok tt) × (k ≡ ok tt)
>>-eq-ok (ok tt) h = (refl, h)
>>-eq-ok (err e) h = (h, absurd (cc))

pub require-eq-ok : {E : Type 0} (b : Bool) (e : E) → require b e ≡ ok tt → b ≡ true
require-eq-ok true e h = refl
require-eq-ok false e h = cc

-- A loop that ends well has passed each element.
pub each-In :
    {A E : Type 0} (f : A → Result E (Unit {0})) {x : A} {xs : List A}
    → In x xs
    → each f xs ≡ ok tt
    → f x ≡ ok tt
unfolding each
each-In f (In.head {b = y} e) h = rw e ((>>-eq-ok (f y) h).0)
each-In f (In.later {b = y} p) h = each-In f p ((>>-eq-ok (f y) h).1)

-- One that stops has stopped at an element.
pub each-all :
    {A E : Type 0} (f : A → Result E (Unit {0})) (xs : List A)
    → ((x : A) → In x xs → f x ≡ ok tt)
    → each f xs ≡ ok tt
unfolding each
each-all f [] h = refl
each-all f (x ∷ xs) h = rw (h x (In.head refl)) (each-all f xs (λ y p. h y (In.later p)))

-- Inversion of a successful bind.
pub >>=-eq-ok :
    {A B E : Type 0} (m : Result E A) {f : A → Result E B} {b : B}
    → (m >>= f) ≡ ok b
    → (a : A) × (m ≡ ok a) × (f a ≡ ok b)
>>=-eq-ok (ok a) h = (a, refl, h)
>>=-eq-ok (err e) h = absurd (cc h)

pub Result-cases :
    {A E : Type 0} (m : Result E A) → ((a : A) × (m ≡ ok a)) ⊎ ((e : E) × (m ≡ err e))
Result-cases (ok a) = inl (a, refl)
Result-cases (err e) = inr (e, refl)

abbrev pub map_err : {E F A : Type 0} → (E → F) → Result E A → Result F A
map_err f (ok a) = ok a
map_err f (err e) = err (f e)

-- A guard that has been passed.
pub >>-require :
    {A E : Type 0} (b : Bool) (e : E) {k : Result E A} {a : A}
    → (require b e >> k) ≡ ok a
    → (b ≡ true) × (k ≡ ok a)
>>-require true e h = (refl, h)
>>-require false e h = absurd (cc h)
