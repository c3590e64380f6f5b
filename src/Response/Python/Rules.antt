-- ===== src/Response/Python/Rules.antt =====
-- A postcondition of calls that return or raise, with the rules by which a `do` block is gone through.
use pyrsedis.Prelude.{◌≡◌, ◌≢◌, refl, subst, Bool, true, false, if◌then◌else◌}
use pyrsedis.Error.{PyrsedisError}
use pyrsedis.Outcome
use pyrsedis.Outcome.{Outcome}
use pyrsedis.Response.Python.{PyResult, PyErr, done, raised, exhausted, ◌>>=◌, ◌>>◌, lift, raise_if}

-- The call ends, and `P` holds of the value that it returns.
pub data Yields {A : Type 0} (P : A → Type 0) : PyResult A → Type 0 where
  yields : {a : A} → P a → Yields P (done a)
  raises : {e : PyErr} → Yields P (raised e)

pub Yields-bind :
    {A B : Type 0} {P : A → Type 0} {Q : B → Type 0} {r : PyResult A} {f : A → PyResult B}
    → Yields P r
    → ((a : A) → P a → Yields Q (f a))
    → Yields Q (r >>= f)
Yields-bind (yields {a} h) k = k a h
Yields-bind raises k = raises

pub Yields-weaken :
    {A : Type 0} {P Q : A → Type 0} {r : PyResult A}
    → Yields P r
    → ((a : A) → P a → Q a)
    → Yields Q r
Yields-weaken (yields {a} h) k = yields (k a h)
Yields-weaken raises k = raises

pub Yields-of : {A : Type 0} (r : PyResult A) → r ≢ exhausted → Yields (λ _. Unit {0}) r
Yields-of (done a) h = yields tt
Yields-of (raised e) h = raises
Yields-of exhausted h = absurd (h refl)

module _ {B : Type 0} {Q : B → Type 0} where
  pub Yields-if :
      (b : Bool) {x y : PyResult B}
      → (b ≡ true → Yields Q x)
      → (b ≡ false → Yields Q y)
      → Yields Q (if b then x else y)
  Yields-if true hx hy = hx refl
  Yields-if false hx hy = hy refl

  pub Yields-raise_if :
      (b : Bool) (e : PyrsedisError) {y : PyResult B}
      → (b ≡ false → Yields Q y)
      → Yields Q (raise_if b e >> y)
  Yields-raise_if true e k = unfold raise_if in raises
  Yields-raise_if false e k = unfold raise_if in k refl

  pub Yields-ok : {r : PyResult B} {b : B} → Yields Q r → r ≡ done b → Q b
  Yields-ok (yields h) e = subst Q (cc) h
  Yields-ok raises e = cc

pub Yields-lift :
    {A : Type 0} {P : A → Type 0} (r : Outcome A)
    → r ≢ Outcome.panic
    → r ≢ Outcome.stuck
    → ((a : A) → r ≡ Outcome.ok a → P a)
    → Yields P (lift r)
Yields-lift (Outcome.ok a) np ns k = unfold lift in yields (k a refl)
Yields-lift (Outcome.fail e) np ns k = unfold lift in raises
Yields-lift Outcome.panic np ns k = absurd (np refl)
Yields-lift Outcome.stuck np ns k = absurd (ns refl)

never : {A : Type 0} {P : A → Type 0} {r : PyResult A} → Yields P r → r ≢ exhausted
never (yields h) e = cc
never raises e = cc

-- A step of a function that is called with `?`.
pub Yields-lift_bind :
    {A B : Type 0} {P : A → Type 0} {Q : B → Type 0} (r : Outcome A) (f : A → Outcome B)
    → Yields P (lift r)
    → ((a : A) → P a → Yields Q (lift (f a)))
    → Yields Q (lift (Outcome.◌>>=◌ r f))
Yields-lift_bind (Outcome.ok a) f h k = k a (unfold lift in Yields-ok h refl)
Yields-lift_bind (Outcome.fail e) f h k = unfold lift in raises
Yields-lift_bind Outcome.panic f h k = unfold lift in absurd (never h refl)
Yields-lift_bind Outcome.stuck f h k = unfold lift in absurd (never h refl)
