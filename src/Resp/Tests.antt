-- ===== src/Resp/Tests.antt =====
-- Runs of the protocol's code on small buffers, and the theorems at concrete inputs.
use pyrsedis.Prelude.{
  ℕ, List, ◌≤◌, ◌<◌, negsuc, checked_mul, checked_sub, neg_i64, ◌≡◌, refl, [], ◌∷◌, ◌++◌, Bytes,
  codes, length, arith, pos, ◌≢◌,
}
use pyrsedis.External.Sample.{sample}
use pyrsedis.Outcome.{ok, fail, ok_or, refuse}
use pyrsedis.Outcome.Rules.{Ensures}
use pyrsedis.Error.{incomplete}
use pyrsedis.Resp.Parser.{
  parse, parse_within, parse_tag, parse_array, parse_values, parse_integer, parse_bulk_string,
  with_capacity, read_int, read_text, ends_at,
}
use pyrsedis.Resp.Line.{read_line, find_crlf, crlf_at, byte_at, slice, parse_int_from_bytes}
use pyrsedis.Resp.Tag.{tag_of}
use pyrsedis.Resp.Parser.Bounds.{parse_bounds}
use pyrsedis.Resp.Parser.Stream.{parse-append}
use pyrsedis.Resp.Frame.{resp_frame_len}
use pyrsedis.Resp.Frame.Bounds.{resp_frame_len_bounds}
use pyrsedis.Resp.Frame.Agreement.{resp_frame_len-parse}
use pyrsedis.Resp.Grammar.Complete.{parse-Wire}
use pyrsedis.Resp.Grammar.{Wire, WireAll, IsDigits, line, plain}
use pyrsedis.Text.Number.{IsDigit}
use pyrsedis.Resp.Line.Integers.{parse_int_digits}
use pyrsedis.Resp.Types.{RespValue, nil, cons, count}
use pyrsedis.Resp.Writer.{encode_command, encode_pipeline, encode_pipeline-concat}
use pyrsedis.Resp.Writer.RoundTrip.{
  bulks, commands_of, Encodable, parse-encode_command, parse_values-encode_pipeline,
}

-- `*2 :7 $2 ab`.
abbrev pub seven_ab : Bytes
seven_ab = 42 ∷ 50 ∷ 13 ∷ 10 ∷ 58 ∷ 55 ∷ 13 ∷ 10 ∷ 36 ∷ 50 ∷ 13 ∷ 10 ∷ 97 ∷ 98 ∷ 13 ∷ 10 ∷ []

abbrev pub seven_ab_value : RespValue
seven_ab_value =
    RespValue.array
      (cons (RespValue.integer (pos 7)) (cons (RespValue.bulk_string (codes "ab")) nil))

pub parse-seven_ab : parse sample seven_ab ≡ ok (seven_ab_value, 16)
unfolding parse parse_within parse_tag parse_array parse_values parse_integer parse_bulk_string
    with_capacity read_int read_line find_crlf crlf_at byte_at slice parse_int_from_bytes ok_or
    refuse read_text ends_at tag_of checked_mul checked_sub neg_i64
parse-seven_ab = refl

digit_IsDigits : (c : ℕ) → IsDigit c → IsDigits (c ∷ [])
digit_IsDigits c h = record { filled = λ e. cc; digits = (h, tt) }

abbrev seven_Wire : Wire sample (RespValue.integer (pos 7)) (line b':' (codes "7") [])
seven_Wire = Wire.integer (plain (digit_IsDigits b'7' (omega arith, omega arith)) (omega arith))

ab_Wire :
    Wire sample
      (RespValue.bulk_string (codes "ab"))
      (line b'$' (codes "2") (codes "ab" ++ 13 ∷ 10 ∷ []))
ab_Wire = Wire.bulk_string (plain (digit_IsDigits b'2' (omega arith, omega arith)) (omega arith))

seven_ab_Wire : Wire sample seven_ab_value seven_ab
unfolding count
seven_ab_Wire =
    Wire.array (plain (digit_IsDigits b'2' (omega arith, omega arith)) (omega arith)) (omega arith)
      (WireAll.next_value seven_Wire (WireAll.next_value ab_Wire WireAll.no_values))

parse-Wire_example : parse sample (seven_ab ++ codes "+O") ≡ ok (seven_ab_value, 16)
parse-Wire_example = parse-Wire sample seven_ab_Wire (codes "+O")

seven_ab_is_complete : parse sample seven_ab ≢ fail incomplete
seven_ab_is_complete e = let seven = parse-seven_ab in cc

parse-append_example : parse sample (seven_ab ++ codes "+O") ≡ parse sample seven_ab
parse-append_example = parse-append sample seven_ab (codes "+O") seven_ab_is_complete

parse_bounds_example : Ensures ⊥ (λ r. (0 < r.1) × (r.1 ≤ 16)) (parse sample seven_ab)
parse_bounds_example = parse_bounds sample seven_ab

resp_frame_len-parse_example : resp_frame_len sample seven_ab ≡ ok 16
resp_frame_len-parse_example = resp_frame_len-parse sample seven_ab seven_ab_value 16 parse-seven_ab

resp_frame_len_bounds_example : Ensures ⊥ (λ n. (0 < n) × (n ≤ 16)) (resp_frame_len sample seven_ab)
resp_frame_len_bounds_example = resp_frame_len_bounds sample seven_ab

abbrev get_key : List Bytes
get_key = codes "GET" ∷ codes "key" ∷ []

get_key-Encodable : Encodable sample get_key
get_key-Encodable = ((omega arith, (omega arith, tt)), omega arith, omega arith)

parse-encode_command_example :
    parse sample (encode_command sample get_key ++ codes "*1")
    ≡ ok (RespValue.array (bulks get_key), length (encode_command sample get_key))
parse-encode_command_example = parse-encode_command sample get_key (codes "*1") get_key-Encodable

parse_values-encode_pipeline_example :
    parse_values (parse sample) (encode_pipeline sample (get_key ∷ get_key ∷ [])) 2 0
    ≡ ok (
      commands_of (get_key ∷ get_key ∷ []),
      length (encode_pipeline sample (get_key ∷ get_key ∷ [])),
    )
parse_values-encode_pipeline_example =
    parse_values-encode_pipeline sample (get_key ∷ get_key ∷ [])
      (get_key-Encodable, (get_key-Encodable, tt))

encode_pipeline-concat_example :
    encode_pipeline sample (get_key ∷ get_key ∷ [])
    ≡ encode_command sample get_key ++ (encode_command sample get_key ++ [])
encode_pipeline-concat_example = encode_pipeline-concat sample (get_key ∷ get_key ∷ [])

parse_int_digits_example :
    (parse_int_from_bytes (codes "9223372036854775808") ≡ ok (negsuc 9223372036854775807))
    × (parse_int_from_bytes (codes "+9223372036854775808") ≡ ok (negsuc 9223372036854775807))
    × (parse_int_from_bytes (codes "-9223372036854775808") ≡ ok (negsuc 9223372036854775807))
parse_int_digits_example = parse_int_digits (codes "9223372036854775808") (λ e. cc) (ground arith)
