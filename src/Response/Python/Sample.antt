-- ===== src/Response/Python/Sample.antt =====
-- Python objects that the tests of this development use: trees, with keys that are texts only.
use pyrsedis.Prelude.{ℕ, ℤ, ◌≢◌, Bool, List, [], ◌∷◌, Bytes}
use pyrsedis.Response.Python.{Python, PyResult, done, raised, exhausted, python}

mutual
  pub data Object : Type 0 where
    none : Object
    str bytes : Bytes → Object
    int : ℤ → Object
    bool : Bool → Object
    float : ℕ → Object
    big : Bytes → Object
    list set : Objects → Object
    dict : Objects → Object

  pub data Objects : Type 0 where
    nil : Objects
    cons : Object → Objects → Objects

abbrev pub objects : List Object → Objects
objects [] = nil
objects (o ∷ os) = cons o (objects os)

-- A dict is its keys and values in turn, the last one first.
abbrev pub store : Objects → Object → Object → PyResult Objects
store d (str s) v = done (cons (str s) (cons v d))
store d _ v = raised (python 1)

pub done-ends : {A : Type 0} (a : A) → done a ≢ exhausted
done-ends a e = cc

pub store-ends : (d : Objects) (k v : Object) → store d k v ≢ exhausted
store-ends d none v e = cc
store-ends d (str s) v e = cc
store-ends d (bytes s) v e = cc
store-ends d (int i) v e = cc
store-ends d (bool b) v e = cc
store-ends d (float f) v e = cc
store-ends d (big s) v e = cc
store-ends d (list os) v e = cc
store-ends d (set os) v e = cc
store-ends d (dict os) v e = cc

abbrev pub sample : Python
sample = record {
  PyAny = Object;
  PyDict = Objects;
  PySet = Objects;
  nothing = none;
  str = str;
  bytes = bytes;
  int = int;
  bool = bool;
  float = float;
  list = λ os. list (objects os);
  int_of_str = λ s. done (big s);
  empty_dict = nil;
  set_item = store;
  dict = dict;
  empty_set = nil;
  add = λ s o. done (cons o s);
  set = set;
  int_of_str-ends = λ s. done-ends (big s);
  set_item-ends = store-ends;
  add-ends = λ s v. done-ends (cons v s);
}
