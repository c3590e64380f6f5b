-- ===== src/Response/Agreement.antt =====
-- src/response.rs: what the single pass is compared with, parse and then the conversion of the value,
-- and the values within its limits.
pub mod Shift
pub mod Scalars
pub mod Elements
pub mod Aggregates
pub mod Whole
use pyrsedis.Prelude.{
  ℕ, ◌+◌, ◌-◌, ◌≤◌, ◌<◌, ◌≡◌, ◌≢◌, refl, Bool, true, false, List, [], Bytes, length,
}
use pyrsedis.Resp.Types.{RespValue, Values, Pairs, nil, cons, end, entry, count, count_pairs}
use pyrsedis.Response.Convert.{
  resp_to_python, resp_to_python_decoded, values_to_python, values_decoded, pairs_to_python,
  pairs_decoded, items_to_python, items_decoded,
}
use pyrsedis.Response.Fused.{max_resp_elements, max_bignumber_len}
use pyrsedis.Response.Python.{Python, PyResult, done, ◌>>=◌}

module _ (py : Python) where
  open py use {PyAny, PyDict, PySet}

  -- The converter that the client's flag `decode_responses` asks for.
  unfoldable pub convert : Bool → RespValue → PyResult PyAny
  convert false v = resp_to_python py v
  convert true v = resp_to_python_decoded py v

  unfoldable pub convert_values : Bool → Values → PyResult (List PyAny)
  convert_values false vs = values_to_python py vs
  convert_values true vs = values_decoded py vs

  unfoldable pub convert_pairs : Bool → PyDict → Pairs → PyResult PyDict
  convert_pairs false dict ps = pairs_to_python py dict ps
  convert_pairs true dict ps = pairs_decoded py dict ps

  unfoldable pub convert_items : Bool → PySet → Values → PyResult PySet
  convert_items false set vs = items_to_python py set vs
  convert_items true set vs = items_decoded py set vs

-- The values that the single pass treats as the two steps do: within its limits, with `k` levels of
-- nesting left, no push message, no attributes and no verbatim string without a text.
unfoldable mutual
  pub FitsValue : ℕ → RespValue → Type 0
  FitsValue k (RespValue.array vs) = (count vs ≤ max_resp_elements) × FitsValues k vs
  FitsValue k (RespValue.set vs) = (count vs ≤ max_resp_elements) × FitsValues k vs
  FitsValue k (RespValue.map ps) = (count_pairs ps ≤ max_resp_elements) × FitsPairs k ps
  FitsValue k (RespValue.big_number s) = length s ≤ max_bignumber_len
  FitsValue k (RespValue.verbatim_string encoding s) = s ≢ []
  FitsValue k (RespValue.push kind vs) = ⊥
  FitsValue k (RespValue.attribute v ps) = ⊥
  FitsValue k _ = Unit

  pub FitsValues : ℕ → Values → Type 0
  FitsValues k nil = Unit
  FitsValues k (cons v vs) = ((0 < k) × FitsValue (k - 1) v) × FitsValues k vs

  pub FitsPairs : ℕ → Pairs → Type 0
  FitsPairs k end = Unit
  FitsPairs k (entry key v ps) =
      ((0 < k) × FitsValue (k - 1) key) × ((0 < k) × FitsValue (k - 1) v) × FitsPairs k ps
