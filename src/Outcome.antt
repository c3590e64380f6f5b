-- ===== src/Outcome.antt =====
-- What a call of the sources comes to: `Result<T>` of src/error.rs, or a panic. The case `stuck` is
-- the model's own: a recursion ran out of fuel.
pub mod Rules
use pyrsedis.Prelude.{
  ℕ, ◌≡◌, refl, Bool, true, false, Option, none, some, ◌⊎◌, inl, inr, if◌then◌else◌,
}
use pyrsedis.Error.{PyrsedisError}

pub data Outcome {ℓ} (A : Type ℓ) : Type ℓ where
  ok : A → Outcome A
  fail : PyrsedisError → Outcome A
  panic stuck : Outcome A

infixl 5 ◌>>=◌ ◌>>◌
abbrev pub ◌>>=◌ {ℓ κ} : {A : Type ℓ} {B : Type κ} → Outcome A → (A → Outcome B) → Outcome B
ok a >>= f = f a
fail e >>= f = fail e
panic >>= f = panic
stuck >>= f = stuck

abbrev pub ◌>>◌ {ℓ} : {B : Type ℓ} → Outcome (Unit {0}) → Outcome B → Outcome B
m >> k = m >>= λ _. k

-- `if test { return Err(e) }`.
unfoldable pub refuse : Bool → PyrsedisError → Outcome (Unit {0})
refuse true e = fail e
refuse false e = ok tt

-- `ok_or(e)?`.
unfoldable pub ok_or {ℓ} : {A : Type ℓ} → Option A → PyrsedisError → Outcome A
ok_or none e = fail e
ok_or (some a) e = ok a

pub Outcome-cases {ℓ} :
    {A : Type ℓ} (r : Outcome A)
    → ((a : A) × (r ≡ ok a)) ⊎ ((e : PyrsedisError) × (r ≡ fail e)) ⊎ (r ≡ panic) ⊎ (r ≡ stuck)
Outcome-cases (ok a) = inl (a, refl)
Outcome-cases (fail e) = inr (inl (e, refl))
Outcome-cases panic = inr (inr (inl refl))
Outcome-cases stuck = inr (inr (inr refl))
