-- ===== src/Response/Convert.antt =====
-- src/response.rs: from `RespValue` to Python objects and to plain values.
use pyrsedis.Prelude.{
  ◌+◌, Bool, true, false, not, ◌||◌, Option, none, some, List, [], ◌∷◌, Bytes, codes, bytes_eq, ℤ,
  pos_part, neg_part, ◌==◌, if◌then◌else◌,
}
use pyrsedis.Error.{redis_error}
use pyrsedis.Resp.Types.{RespValue, Values, Pairs, nil, cons, end, entry}
use pyrsedis.Response.Python.{Python, PyResult, done, raised, from_error, ◌>>=◌}
use pyrsedis.Text.Number.{parse_i64}
use pyrsedis.Text.Utf8.{is_utf8}

module _ (py : Python) where
  open py use {PyAny, PyDict, PySet}

  unfoldable mutual
    pub resp_to_python : RespValue → PyResult PyAny
    resp_to_python (RespValue.simple_string s) = done (py.str s)
    resp_to_python (RespValue.bulk_string b) = done (py.bytes b)
    resp_to_python (RespValue.integer i) = done (py.int i)
    resp_to_python RespValue.null = done py.nothing
    resp_to_python (RespValue.array items) = do
      py_items ← values_to_python items
      done (py.list py_items)
    resp_to_python (RespValue.error msg) = raised (from_error (redis_error msg))
    resp_to_python (RespValue.bulk_error msg) = raised (from_error (redis_error msg))
    resp_to_python (RespValue.boolean b) = done (py.bool b)
    resp_to_python (RespValue.double f) = done (py.float f)
    resp_to_python (RespValue.big_number s) = py.int_of_str s
    resp_to_python (RespValue.map pairs) = do
      dict ← pairs_to_python py.empty_dict pairs
      done (py.dict dict)
    resp_to_python (RespValue.set items) = do
      set ← items_to_python py.empty_set items
      done (py.set set)
    resp_to_python (RespValue.verbatim_string encoding text) = done (py.str text)
    resp_to_python (RespValue.push kind items) = do
      py_items ← values_to_python items
      done (py.list py_items)
    resp_to_python (RespValue.attribute val attributes) = do
      py_data ← resp_to_python val
      dict ← py.set_item py.empty_dict (py.str (codes "__data__")) py_data
      attrs_dict ← pairs_to_python py.empty_dict attributes
      dict' ← py.set_item dict (py.str (codes "__attrs__")) (py.dict attrs_dict)
      done (py.dict dict')

    pub values_to_python : Values → PyResult (List PyAny)
    values_to_python nil = done []
    values_to_python (cons item items) = do
      py_item ← resp_to_python item
      py_items ← values_to_python items
      done (py_item ∷ py_items)

    pub pairs_to_python : PyDict → Pairs → PyResult PyDict
    pairs_to_python dict end = done dict
    pairs_to_python dict (entry k v pairs) = do
      py_key ← resp_to_python k
      py_val ← resp_to_python v
      dict' ← py.set_item dict py_key py_val
      pairs_to_python dict' pairs

    pub items_to_python : PySet → Values → PyResult PySet
    items_to_python set nil = done set
    items_to_python set (cons item items) = do
      py_item ← resp_to_python item
      set' ← py.add set py_item
      items_to_python set' items

  -- Bytes that are UTF-8 become a str.
  unfoldable pub decoded : Bytes → PyAny
  decoded b = if is_utf8 b then py.str b else py.bytes b

  unfoldable mutual
    pub resp_to_python_decoded : RespValue → PyResult PyAny
    resp_to_python_decoded (RespValue.bulk_string b) = done (decoded b)
    resp_to_python_decoded (RespValue.array items) = do
      py_items ← values_decoded items
      done (py.list py_items)
    resp_to_python_decoded (RespValue.map pairs) = do
      dict ← pairs_decoded py.empty_dict pairs
      done (py.dict dict)
    resp_to_python_decoded (RespValue.set items) = do
      set ← items_decoded py.empty_set items
      done (py.set set)
    resp_to_python_decoded (RespValue.push kind items) = do
      py_items ← values_decoded items
      done (py.list py_items)
    resp_to_python_decoded (RespValue.attribute val attributes) = do
      py_data ← resp_to_python_decoded val
      dict ← py.set_item py.empty_dict (py.str (codes "__data__")) py_data
      attrs_dict ← pairs_decoded py.empty_dict attributes
      dict' ← py.set_item dict (py.str (codes "__attrs__")) (py.dict attrs_dict)
      done (py.dict dict')
    resp_to_python_decoded other = resp_to_python other

    pub values_decoded : Values → PyResult (List PyAny)
    values_decoded nil = done []
    values_decoded (cons item items) = do
      py_item ← resp_to_python_decoded item
      py_items ← values_decoded items
      done (py_item ∷ py_items)

    pub pairs_decoded : PyDict → Pairs → PyResult PyDict
    pairs_decoded dict end = done dict
    pairs_decoded dict (entry k v pairs) = do
      py_key ← resp_to_python_decoded k
      py_val ← resp_to_python_decoded v
      dict' ← py.set_item dict py_key py_val
      pairs_decoded dict' pairs

    pub items_decoded : PySet → Values → PyResult PySet
    items_decoded set nil = done set
    items_decoded set (cons item items) = do
      py_item ← resp_to_python_decoded item
      set' ← py.add set py_item
      items_decoded set' items

unfoldable pub resp_to_bytes : RespValue → Option Bytes
resp_to_bytes (RespValue.bulk_string b) = some b
resp_to_bytes (RespValue.simple_string s) = some s
resp_to_bytes (RespValue.verbatim_string encoding text) = some text
resp_to_bytes _ = none

unfoldable pub resp_to_string : RespValue → Option Bytes
resp_to_string (RespValue.simple_string s) = some s
resp_to_string (RespValue.bulk_string b) = if is_utf8 b then some b else none
resp_to_string (RespValue.verbatim_string encoding text) = some text
resp_to_string _ = none

unfoldable pub resp_to_i64 : RespValue → Option ℤ
resp_to_i64 (RespValue.integer i) = some i
resp_to_i64 (RespValue.simple_string s) = parse_i64 s
resp_to_i64 (RespValue.big_number s) = parse_i64 s
resp_to_i64 (RespValue.bulk_string b) = if is_utf8 b then parse_i64 b else none
resp_to_i64 _ = none

unfoldable pub bool_of_text : Bytes → Option Bool
bool_of_text s =
    if bytes_eq s (codes "OK")
      || bytes_eq s (codes "ok")
      || bytes_eq s (codes "1")
      || bytes_eq s (codes "true")
      || bytes_eq s (codes "TRUE")
    then some true
    else if bytes_eq s (codes "0") || bytes_eq s (codes "false") || bytes_eq s (codes "FALSE")
    then some false
    else none

unfoldable pub resp_to_bool : RespValue → Option Bool
resp_to_bool (RespValue.boolean b) = some b
resp_to_bool (RespValue.integer i) = some (not (pos_part i + neg_part i == 0))
resp_to_bool (RespValue.simple_string s) = bool_of_text s
resp_to_bool _ = none

unfoldable pub is_ok_response : RespValue → Bool
is_ok_response (RespValue.simple_string s) = bytes_eq s (codes "OK")
is_ok_response _ = false
