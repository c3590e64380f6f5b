-- ===== src/Response/Tests.antt =====
-- Runs of the code of src/response.rs, and the theorems at concrete inputs.
use pyrsedis.Prelude.{
  ◌≤◌, ◌<◌, ◌≡◌, refl, true, false, none, some, [], ◌∷◌, codes, pos, negsuc, neg_i64, arith,
}
use pyrsedis.External.Sample as Crates
use pyrsedis.Outcome.{ok}
use pyrsedis.Resp.Tests.{seven_ab, seven_ab_value, parse-seven_ab}
use pyrsedis.Resp.Types.{RespValue, count}
use pyrsedis.Response.Agreement.{convert, FitsValue}
use pyrsedis.Response.Agreement.Whole.{parse_to_python-parse}
use pyrsedis.Response.Bounds.{parse_to_python_bounds}
use pyrsedis.Response.Convert.{
  decoded, resp_to_python, resp_to_python_decoded, resp_to_bytes, resp_to_string, resp_to_i64,
  resp_to_bool, bool_of_text, is_ok_response,
}
use pyrsedis.Response.Fused.{parse_to_python}
use pyrsedis.Response.Integer.{fused_parse_int}
use pyrsedis.Response.Integer.Laws.{fused_parse_int_digits}
use pyrsedis.Response.Python.{done}
use pyrsedis.Response.Python.Sample.{Object, sample}
use pyrsedis.Response.Python.Sample as Objects
use pyrsedis.Response.Python.Rules.{Yields}
use pyrsedis.Text.Number.{parse_i64}
use pyrsedis.Text.Utf8.{is_utf8}

-- One more than 2^64.
fused_parse_int_digits_example :
    (fused_parse_int (codes "18446744073709551617") ≡ ok (pos 1))
    × (fused_parse_int (codes "+18446744073709551617") ≡ ok (pos 1))
    × (fused_parse_int (codes "-18446744073709551617") ≡ ok (negsuc 0))
unfolding neg_i64
fused_parse_int_digits_example =
    fused_parse_int_digits (codes "18446744073709551617") (λ e. cc) (omega arith)

abbrev seven_ab_object : Object
seven_ab_object =
    Objects.list
      (Objects.cons (Objects.int (pos 7)) (Objects.cons (Objects.str (codes "ab")) Objects.nil))

parse_to_python-parse_example :
    parse_to_python sample Crates.sample seven_ab true ≡ done (seven_ab_object, 16)
unfolding convert resp_to_python_decoded resp_to_python decoded is_utf8 FitsValue count
parse_to_python-parse_example =
    parse_to_python-parse sample Crates.sample true seven_ab {v = seven_ab_value} {n = 16}
      parse-seven_ab (omega arith)

parse_to_python_bounds_example :
    Yields (λ r. (0 < r.1) × (r.1 ≤ 16)) (parse_to_python sample Crates.sample seven_ab false)
parse_to_python_bounds_example = parse_to_python_bounds sample Crates.sample seven_ab false

reads_i64 : resp_to_i64 (RespValue.bulk_string (codes "-456")) ≡ some (negsuc 455)
unfolding resp_to_i64 parse_i64 is_utf8
reads_i64 = refl

reads_bool : resp_to_bool (RespValue.simple_string (codes "false")) ≡ some false
unfolding resp_to_bool bool_of_text
reads_bool = refl

refuses_bool : resp_to_bool (RespValue.simple_string (codes "maybe")) ≡ none
unfolding resp_to_bool bool_of_text
refuses_bool = refl

no_text : resp_to_string (RespValue.bulk_string (0xff ∷ 0xfe ∷ [])) ≡ none
unfolding resp_to_string is_utf8
no_text = refl

pong_is_not_ok : is_ok_response (RespValue.simple_string (codes "PONG")) ≡ false
unfolding is_ok_response
pong_is_not_ok = refl

no_bytes : resp_to_bytes (RespValue.integer (pos 42)) ≡ none
unfolding resp_to_bytes
no_bytes = refl
