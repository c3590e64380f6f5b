-- ===== src/Response/Python.antt =====
-- What src/response.rs uses of Python through the crate pyo3: the objects that it builds, and the
-- operations of dict, set and int that may raise. Objects are what the interface says and no more.
-- That Python runs out of memory is no part of the model.
pub mod Rules
pub mod Sample
use pyrsedis.Prelude.{ℕ, ℤ, ◌≡◌, ◌≢◌, refl, ap, ◌∙◌, Bool, List, Bytes}
use pyrsedis.Error.{PyrsedisError}
use pyrsedis.Outcome.{Outcome}

-- An exception: of this program, or one that Python itself raises.
pub data PyErr : Type 0 where
  from_error : PyrsedisError → PyErr
  python : ℕ → PyErr

-- `PyResult<T>`. The case `exhausted` is the model's own: a recursion ran out of fuel.
pub data PyResult (A : Type 0) : Type 0 where
  done : A → PyResult A
  raised : PyErr → PyResult A
  exhausted : PyResult A

module _ {A B : Type 0} where
  infixl 5 ◌>>=◌ ◌>>◌
  abbrev pub ◌>>=◌ : PyResult A → (A → PyResult B) → PyResult B
  done a >>= f = f a
  raised e >>= f = raised e
  exhausted >>= f = exhausted

  abbrev pub ◌>>◌ : PyResult A → PyResult B → PyResult B
  m >> k = m >>= λ _. k

-- `.map_err(|e| e.into())?`.
unfoldable pub lift : {A : Type 0} → Outcome A → PyResult A
lift (Outcome.ok a) = done a
lift (Outcome.fail e) = raised (from_error e)
lift Outcome.panic = exhausted
lift Outcome.stuck = exhausted

-- `if test { return Err(e.into()) }`.
unfoldable pub raise_if : Bool → PyrsedisError → PyResult (Unit {0})
raise_if Bool.true e = raised (from_error e)
raise_if Bool.false e = done tt

pub >>=-assoc :
    {A B C : Type 0} (r : PyResult A) (f : A → PyResult B) (g : B → PyResult C)
    → ((r >>= f) >>= g) ≡ (r >>= λ a. f a >>= g)
>>=-assoc (done a) f g = refl
>>=-assoc (raised e) f g = refl
>>=-assoc exhausted f g = refl

pub bind_ext :
    {A B : Type 0} (r : PyResult A) {f g : A → PyResult B}
    → ((a : A) → f a ≡ g a)
    → (r >>= f) ≡ (r >>= g)
bind_ext (done a) h = h a
bind_ext (raised e) h = refl
bind_ext exhausted h = refl

-- A call that is a conversion and then a place, and what follows it.
pub bind_placed :
    {A B C : Type 0} {m : PyResult (A × B)} (r : PyResult A) {stop : B} (k : A × B → PyResult C)
    {f : A → PyResult C}
    → m ≡ (r >>= λ a. done (a, stop))
    → ((a : A) → k (a, stop) ≡ f a)
    → (m >>= k) ≡ (r >>= f)
bind_placed r {stop} k {f} e h =
    ap (λ n. n >>= k) e ∙ >>=-assoc r (λ a. done (a, stop)) k ∙ bind_ext r h

pub record Python : Type 1 where
  pub PyAny : Type 0
  pub PyDict : Type 0
  pub PySet : Type 0
  -- py.None, PyString, PyBytes, PyLong_FromLongLong, PyBool, PyFloat and PyList.
  pub nothing : PyAny
  pub str : Bytes → PyAny
  pub bytes : Bytes → PyAny
  pub int : ℤ → PyAny
  pub bool : Bool → PyAny
  pub float : ℕ → PyAny
  pub list : List PyAny → PyAny
  -- int(s), which may raise a ValueError.
  pub int_of_str : Bytes → PyResult PyAny
  -- PyDict and PySet: a key that cannot be hashed raises a TypeError.
  pub empty_dict : PyDict
  pub set_item : PyDict → PyAny → PyAny → PyResult PyDict
  pub dict : PyDict → PyAny
  pub empty_set : PySet
  pub add : PySet → PyAny → PyResult PySet
  pub set : PySet → PyAny
  -- These calls return or raise.
  pub int_of_str-ends : (s : Bytes) → int_of_str s ≢ exhausted
  pub set_item-ends : (d : PyDict) (k v : PyAny) → set_item d k v ≢ exhausted
  pub add-ends : (s : PySet) (v : PyAny) → add s v ≢ exhausted
