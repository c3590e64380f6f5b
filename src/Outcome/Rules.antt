-- ===== src/Outcome/Rules.antt =====
-- Postconditions of outcomes, and two relations between the outcomes of two calls, each with the
-- rules by which a `do` block is gone through step by step.
use pyrsedis.Prelude.{
  ◌≡◌, refl, sym, subst, Bool, true, false, ◌≢◌, Option, none, some, if◌then◌else◌,
}
use pyrsedis.Error.{PyrsedisError, incomplete}
use pyrsedis.Outcome.{Outcome, ok, fail, panic, stuck, ◌>>=◌, ◌>>◌, refuse, ok_or}

-- `P` holds of the value, if there is one; only with `S` may the fuel have run out.
pub data Ensures {ℓ κ} {A : Type ℓ} (S : Type 0) (P : A → Type κ) : Outcome A → Type (ℓ ⊔ κ) where
  holds : {a : A} → P a → Ensures S P (ok a)
  fails : {e : PyrsedisError} → Ensures S P (fail e)
  panics : Ensures S P panic
  starves : S → Ensures S P stuck

module _ {ℓ κ} {A : Type ℓ} {S : Type 0} {P : A → Type κ} where
  pub Ensures-ok : {r : Outcome A} {a : A} → Ensures S P r → r ≡ ok a → P a
  Ensures-ok (holds h) e = subst P (cc) h
  Ensures-ok fails e = cc
  Ensures-ok panics e = cc
  Ensures-ok (starves s) e = cc

  pub Ensures-stuck : {r : Outcome A} → Ensures S P r → r ≡ stuck → S
  Ensures-stuck (holds h) e = cc
  Ensures-stuck fails e = cc
  Ensures-stuck panics e = cc
  Ensures-stuck (starves s) e = s

  pub Ensures-weaken {κ'} :
      {S' : Type 0} {Q : A → Type κ'} {r : Outcome A}
      → Ensures S P r
      → (S → S')
      → ((a : A) → P a → Q a)
      → Ensures S' Q r
  Ensures-weaken (holds {a} h) w k = holds (k a h)
  Ensures-weaken fails w k = fails
  Ensures-weaken panics w k = panics
  Ensures-weaken (starves s) w k = starves (w s)

  pub Ensures-if :
      (b : Bool) {x y : Outcome A}
      → (b ≡ true → Ensures S P x)
      → (b ≡ false → Ensures S P y)
      → Ensures S P (if b then x else y)
  Ensures-if true hx hy = hx refl
  Ensures-if false hx hy = hy refl

  pub Ensures-bind {ℓ' κ'} :
      {B : Type ℓ'} {S' : Type 0} {Q : B → Type κ'} {r : Outcome B} {f : B → Outcome A}
      → Ensures S' Q r
      → (S' → S)
      → ((b : B) → Q b → Ensures S P (f b))
      → Ensures S P (r >>= f)
  Ensures-bind (holds {a} h) w k = k a h
  Ensures-bind fails w k = fails
  Ensures-bind panics w k = panics
  Ensures-bind (starves s) w k = starves (w s)

  pub Ensures-refuse :
      (b : Bool) (e : PyrsedisError) {y : Outcome A}
      → (b ≡ false → Ensures S P y)
      → Ensures S P (refuse b e >> y)
  Ensures-refuse true e k = unfold refuse in fails
  Ensures-refuse false e k = unfold refuse in k refl

pub Ensures-both {ℓ κ κ'} :
    {A : Type ℓ} {S : Type 0} {P : A → Type κ} {Q : A → Type κ'} {r : Outcome A}
    → Ensures S P r
    → Ensures S Q r
    → Ensures S (λ a. P a × Q a) r
Ensures-both (holds h) q = holds (h, Ensures-ok q refl)
Ensures-both fails q = fails
Ensures-both panics q = panics
Ensures-both (starves s) q = starves s

-- From what holds of each value that the call may return.
pub Ensures-of {ℓ κ} :
    {A : Type ℓ} {P : A → Type κ} (r : Outcome A)
    → ((a : A) → r ≡ ok a → P a)
    → Ensures (Unit {0}) P r
Ensures-of (ok a) k = holds (k a refl)
Ensures-of (fail e) k = fails
Ensures-of panic k = panics
Ensures-of stuck k = starves tt

-- A call that returns, fails or panics, whatever its value.
abbrev pub Ends {ℓ} : {A : Type ℓ} → Outcome A → Type ℓ
Ends r = Ensures ⊥ (λ _. Unit {0}) r

pub Ends-of-ne-stuck {ℓ} : {A : Type ℓ} (r : Outcome A) → r ≢ stuck → Ends r
Ends-of-ne-stuck (ok a) h = holds tt
Ends-of-ne-stuck (fail e) h = fails
Ends-of-ne-stuck panic h = panics
Ends-of-ne-stuck stuck h = absurd (h refl)

module _ {ℓ κ} {A : Type ℓ} {S : Type 0} {P : A → Type κ} where
  -- A step whose value does not matter for the postcondition.
  pub Ensures-after {ℓ'} :
      {B : Type ℓ'} {r : Outcome B} {f : B → Outcome A}
      → Ends r
      → ((b : B) → Ensures S P (f b))
      → Ensures S P (r >>= f)
  Ensures-after e k = Ensures-bind e (λ s. absurd s) (λ b _. k b)

pub ok_or-Ends {ℓ} : {A : Type ℓ} (o : Option A) (e : PyrsedisError) → Ends (ok_or o e)
unfolding ok_or
ok_or-Ends none e = fails
ok_or-Ends (some a) e = holds tt

-- The second call has the outcome of the first, unless the first waits for more input or ran out
-- of fuel.
pub data Settles {ℓ} {A : Type ℓ} : Outcome A → Outcome A → Type ℓ where
  same : {r s : Outcome A} → r ≡ s → Settles r s
  waits : {s : Outcome A} → Settles (fail incomplete) s
  starves : {s : Outcome A} → Settles stuck s

module _ {ℓ} {A : Type ℓ} where
  pub Settles-if :
      (b : Bool) {x y x' y' : Outcome A}
      → (b ≡ true → Settles x x')
      → (b ≡ false → Settles y y')
      → Settles (if b then x else y) (if b then x' else y')
  Settles-if true hx hy = hx refl
  Settles-if false hx hy = hy refl

  -- Both calls go on from the value of the first.
  pub Settles-bind {κ} :
      {B : Type κ} {r s : Outcome B} {f g : B → Outcome A}
      → Settles r s
      → ((b : B) → r ≡ ok b → Settles (f b) (g b))
      → Settles (r >>= f) (s >>= g)
  Settles-bind {f = f} {g = g} (same {r = r} e) k =
      subst (λ t. Settles (r >>= f) (t >>= g)) e (go r k)
    where
      go :
          (r : Outcome _) → ((b : _) → r ≡ ok b → Settles (f b) (g b)) → Settles (r >>= f) (r >>= g)
      go (ok b) k = k b refl
      go (fail e) k = same refl
      go panic k = same refl
      go stuck k = same refl
  Settles-bind waits k = waits
  Settles-bind starves k = starves

  -- A step that both calls make.
  pub Settles-after {κ} :
      {B : Type κ} (r : Outcome B) {f g : B → Outcome A}
      → ((b : B) → Settles (f b) (g b))
      → Settles (r >>= f) (r >>= g)
  Settles-after (ok b) k = k b
  Settles-after (fail e) k = same refl
  Settles-after panic k = same refl
  Settles-after stuck k = same refl

  -- A test that more input can only let pass, where it fails by asking for more.
  pub Settles-enough :
      (b b' : Bool) {y y' : Outcome A}
      → (b ≡ false → b' ≡ false)
      → (b ≡ false → Settles y y')
      → Settles (refuse b incomplete >> y) (refuse b' incomplete >> y')
  Settles-enough true b' p k = unfold refuse in waits
  Settles-enough false true p k = cc (p refl)
  Settles-enough false false p k = unfold refuse in k refl

  -- A test that comes out alike.
  pub Settles-refuse :
      (b b' : Bool) (e : PyrsedisError) {y y' : Outcome A}
      → b ≡ b'
      → (b ≡ false → Settles y y')
      → Settles (refuse b e >> y) (refuse b' e >> y')
  Settles-refuse true true e p k = unfold refuse in same refl
  Settles-refuse true false e p k = cc
  Settles-refuse false true e p k = cc
  Settles-refuse false false e p k = unfold refuse in k refl

  pub Settles-eq : {r s : Outcome A} → Settles r s → r ≢ fail incomplete → r ≢ stuck → s ≡ r
  Settles-eq (same e) w t = sym e
  Settles-eq waits w t = absurd (w refl)
  Settles-eq starves w t = absurd (t refl)

-- Where the first call returns, the second returns a related value.
pub data Follows {ℓ κ} {A : Type ℓ} {B : Type κ} (R : A → B → Type 0)
    : Outcome A → Outcome B → Type (ℓ ⊔ κ) where
  both : {a : A} {b : B} → R a b → Follows R (ok a) (ok b)
  fails : {e : PyrsedisError} {s : Outcome B} → Follows R (fail e) s
  panics : {s : Outcome B} → Follows R panic s
  starves : {s : Outcome B} → Follows R stuck s

module _ {ℓ κ} {A : Type ℓ} {B : Type κ} {Q : A → B → Type 0} where
  pub Follows-bind {ℓ' κ'} :
      {C : Type ℓ'} {D : Type κ'} {R : C → D → Type 0} {r : Outcome C} {s : Outcome D}
      {f : C → Outcome A} {g : D → Outcome B}
      → Follows R r s
      → ((c : C) (d : D) → R c d → Follows Q (f c) (g d))
      → Follows Q (r >>= f) (s >>= g)
  Follows-bind (both {a} {b} h) k = k a b h
  Follows-bind fails k = fails
  Follows-bind panics k = panics
  Follows-bind starves k = starves

  -- A step that both calls make.
  pub Follows-after {ℓ'} :
      {C : Type ℓ'} (r : Outcome C) {f : C → Outcome A} {g : C → Outcome B}
      → ((c : C) → r ≡ ok c → Follows Q (f c) (g c))
      → Follows Q (r >>= f) (r >>= g)
  Follows-after (ok c) k = k c refl
  Follows-after (fail e) k = fails
  Follows-after panic k = panics
  Follows-after stuck k = starves

  -- A step that only the first call makes.
  pub Follows-left {ℓ'} :
      {C : Type ℓ'} (r : Outcome C) {f : C → Outcome A} {s : Outcome B}
      → ((c : C) → r ≡ ok c → Follows Q (f c) s)
      → Follows Q (r >>= f) s
  Follows-left (ok c) k = k c refl
  Follows-left (fail e) k = fails
  Follows-left panic k = panics
  Follows-left stuck k = starves

  pub Follows-if :
      (b : Bool) {x y : Outcome A} {x' y' : Outcome B}
      → (b ≡ true → Follows Q x x')
      → (b ≡ false → Follows Q y y')
      → Follows Q (if b then x else y) (if b then x' else y')
  Follows-if true hx hy = hx refl
  Follows-if false hx hy = hy refl

  pub Follows-ok :
      {r : Outcome A} {s : Outcome B} {a : A}
      → Follows Q r s
      → r ≡ ok a
      → (b : B) × (s ≡ ok b) × Q a b
  Follows-ok {a = a} (both {b = b} h) e = (b, refl, subst (λ c. Q c b) (cc) h)
  Follows-ok fails e = cc
  Follows-ok panics e = cc
  Follows-ok starves e = cc

  -- A test that fails the first call where the second only branches.
  pub Follows-refuse_if :
      (b : Bool) (e : PyrsedisError) (x' : Outcome B) {y : Outcome A} {y' : Outcome B}
      → (b ≡ false → Follows Q y y')
      → Follows Q (refuse b e >> y) (if b then x' else y')
  Follows-refuse_if true e x' k = unfold refuse in fails
  Follows-refuse_if false e x' k = unfold refuse in k refl

  pub Follows-refuse_left :
      (b : Bool) (e : PyrsedisError) {y : Outcome A} {s : Outcome B}
      → (b ≡ false → Follows Q y s)
      → Follows Q (refuse b e >> y) s
  Follows-refuse_left true e k = unfold refuse in fails
  Follows-refuse_left false e k = unfold refuse in k refl

  -- The second call's last step against a step of the first.
  pub Follows-trail {ℓ'} :
      {C : Type ℓ'} {R : C → B → Type 0} {r : Outcome C} {s : Outcome B} {f : C → Outcome A}
      → Follows R r s
      → ((c : C) (d : B) → R c d → Follows Q (f c) (ok d))
      → Follows Q (r >>= f) s
  Follows-trail (both {a} {b} h) k = k a b h
  Follows-trail fails k = fails
  Follows-trail panics k = panics
  Follows-trail starves k = starves

pub Follows-refl : {A : Type 0} (r : Outcome A) → Follows (λ a b. a ≡ b) r r
Follows-refl (ok a) = both refl
Follows-refl (fail e) = fails
Follows-refl panic = panics
Follows-refl stuck = starves

-- A test that both calls make, and that is the second call's last step.
pub Follows-gate :
    {A : Type 0} (b : Bool) (e : PyrsedisError) {r : Outcome A}
    → Follows {B = Unit {0}} (λ _ _. Unit {0}) r (ok tt)
    → Follows {B = Unit {0}} (λ _ _. Unit {0}) (refuse b e >> r) (refuse b e)
Follows-gate true e h = unfold refuse in fails
Follows-gate false e h = unfold refuse in h
