-- ===== src/Resp/Parser.antt =====
-- src/resp/parser.rs: `parse` and the parser of each type. Each function of the sources that calls
-- `parse` takes that call as an argument, and `parse_within` ties the knot on fuel.
pub mod Ends
pub mod Bounds
pub mod Stream
pub mod Inline
use pyrsedis.Prelude.{
  ℕ, zero, suc, ◌+◌, ◌-◌, ◌*◌, ◌^◌, ◌≡◌, Bool, true, false, not, ◌&&◌, ◌||◌, Option, none, some, [],
  ◌∷◌, Bytes, codes, length, get_elem?, drop, take, ltb, leb, ◌==◌, bytes_eq, if◌then◌else◌, ℤ,
  pos_part, is_negative, i64_limit,
}
use pyrsedis.Error.{PyrsedisError, Message, Part, protocol, incomplete}
use pyrsedis.Error.{
  unknown_type_byte, invalid_utf8, not_terminated, negative_length, negative_count, invalid_boolean,
  invalid_double, missing_encoding_prefix, empty_push, invalid_big_number, kind_not_a_string,
}
use pyrsedis.External.{External}
use pyrsedis.Outcome.{Outcome, ok, fail, panic, stuck, ◌>>=◌, ◌>>◌, refuse, ok_or}
use pyrsedis.Resp.Line.{cr, lf, byte_at, slice, read_line, parse_int_from_bytes}
use pyrsedis.Resp.Tag.{Tag, tag_of}
use pyrsedis.Resp.Types.{RespValue, Values, Pairs, nil, cons, end, entry, type_name}
use pyrsedis.Text.Number.{is_digit}
use pyrsedis.Text.Utf8.{is_utf8}

abbrev pub Parsed : Type 0
Parsed = Outcome (RespValue × ℕ)

-- Vec::with_capacity panics where the size in bytes passes isize::MAX.
unfoldable pub with_capacity : ℕ → ℕ → Outcome (Unit {0})
with_capacity count size = if ltb (count * size) i64_limit then ok tt else panic

-- A line, and the integer on it.
unfoldable pub read_int : External → Bytes → Outcome (ℤ × ℕ)
read_int x buf = do (line, next) ← read_line x buf 1; n ← parse_int_from_bytes line; ok (n, next)

-- `from_utf8(…).map_err(…)?`.
unfoldable pub utf8 : Part → Bytes → Outcome Bytes
utf8 part s = if is_utf8 s then ok s else fail (protocol (invalid_utf8 part))

-- CR LF at an index.
unfoldable pub ends_at : Bytes → ℕ → Bool
ends_at buf i = byte_at buf i cr && byte_at buf (i + 1) lf

-- The literals that are taken without a UTF-8 check.
unfoldable pub is_common : Bytes → Bool
is_common s = bytes_eq s (codes "OK") || (bytes_eq s (codes "PONG") || bytes_eq s (codes "QUEUED"))

unfoldable pub simple_text : Bytes → Outcome Bytes
simple_text line = if is_common line then ok line else utf8 Part.simple_string line

unfoldable pub parse_simple_string : External → Bytes → Parsed
parse_simple_string x buf = do
  (line, next) ← read_line x buf 1
  s ← simple_text line
  ok (RespValue.simple_string s, next)

unfoldable pub parse_simple_error : External → Bytes → Parsed
parse_simple_error x buf = do
  (line, next) ← read_line x buf 1
  s ← utf8 Part.simple_error line
  ok (RespValue.error s, next)

unfoldable pub parse_integer : External → Bytes → Parsed
parse_integer x buf = do (i, next) ← read_int x buf; ok (RespValue.integer i, next)

-- The text of a length-prefixed value, its terminator checked.
unfoldable pub read_text : Part → Bytes → ℕ → ℕ → Outcome Bytes
read_text part buf next len = do
  refuse (ltb (length buf) (next + len + 2)) incomplete
  refuse (not (ends_at buf (next + len))) (protocol (not_terminated part))
  ok (slice buf next (next + len))

unfoldable pub parse_bulk_string : External → Bytes → Parsed
parse_bulk_string x buf = do
  (len, next) ← read_int x buf
  if is_negative len then ok (RespValue.null, next) else do
    text ← read_text Part.bulk_string buf next (pos_part len)
    ok (RespValue.bulk_string text, next + pos_part len + 2)

unfoldable pub parse_null : Bytes → Parsed
parse_null buf = do
  refuse (ltb (length buf) 3) incomplete
  refuse (not (ends_at buf 1)) (protocol (not_terminated Part.null))
  ok (RespValue.null, 3)

unfoldable pub boolean_of : Bytes → Outcome Bool
boolean_of buf =
    if byte_at buf 1 b't'
    then ok true
    else if byte_at buf 1 b'f'
    then ok false
    else elim (get_elem? buf 1) [
      | none ↦ panic
      | some other ↦ fail (protocol (invalid_boolean other))
    ]

unfoldable pub parse_boolean : Bytes → Parsed
parse_boolean buf = do
  refuse (ltb (length buf) 4) incomplete
  b ← boolean_of buf
  refuse (not (ends_at buf 2)) (protocol (not_terminated Part.boolean))
  ok (RespValue.boolean b, 4)

-- The 64 bits of the special floats.
abbrev pub f64_infinity : ℕ
f64_infinity = 0x7ff0_0000_0000_0000

abbrev pub f64_neg_infinity : ℕ
f64_neg_infinity = 0xfff0_0000_0000_0000

abbrev pub f64_nan : ℕ
f64_nan = 0x7ff8_0000_0000_0000

unfoldable pub double_of : External → Bytes → Outcome ℕ
double_of x s =
    if bytes_eq s (codes "inf")
    then ok f64_infinity
    else if bytes_eq s (codes "-inf")
    then ok f64_neg_infinity
    else if bytes_eq s (codes "nan")
    then ok f64_nan
    else ok_or (x.parse_f64 s) (protocol invalid_double)

unfoldable pub parse_double : External → Bytes → Parsed
parse_double x buf = do
  (line, next) ← read_line x buf 1
  s ← utf8 Part.double line
  d ← double_of x s
  ok (RespValue.double d, next)

unfoldable pub strip_sign : Bytes → Bytes
strip_sign [] = []
strip_sign (c ∷ s) = if c == b'+' || c == b'-' then s else c ∷ s

unfoldable pub all_digits : Bytes → Bool
all_digits [] = true
all_digits (c ∷ s) = is_digit c && all_digits s

unfoldable pub is_big_number : Bytes → Bool
unfolding strip_sign all_digits
is_big_number s = ltb 0 (length (strip_sign s)) && all_digits (strip_sign s)

unfoldable pub parse_big_number : External → Bytes → Parsed
parse_big_number x buf = do
  (line, next) ← read_line x buf 1
  s ← utf8 Part.big_number line
  refuse (not (is_big_number s)) (protocol (invalid_big_number s))
  ok (RespValue.big_number s, next)

unfoldable pub parse_bulk_error : External → Bytes → Parsed
parse_bulk_error x buf = do
  (len, next) ← read_int x buf
  refuse (is_negative len) (protocol (negative_length Part.bulk_error))
  text ← read_text Part.bulk_error buf next (pos_part len)
  s ← utf8 Part.bulk_error text
  ok (RespValue.bulk_error s, next + pos_part len + 2)

unfoldable pub verbatim_of : ℕ → Bytes → Outcome RespValue
verbatim_of len content = do
  refuse (ltb len 4 || not (byte_at content 3 b':')) (protocol missing_encoding_prefix)
  encoding ← utf8 Part.encoding (take 3 content)
  s ← utf8 Part.verbatim (drop 4 content)
  ok (RespValue.verbatim_string encoding s)

unfoldable pub parse_verbatim_string : External → Bytes → Parsed
parse_verbatim_string x buf = do
  (len, next) ← read_int x buf
  refuse (is_negative len) (protocol (negative_length Part.verbatim))
  content ← read_text Part.verbatim buf next (pos_part len)
  v ← verbatim_of (pos_part len) content
  ok (v, next + pos_part len + 2)

-- The loops over the elements: `count` calls of `parse`, each on what is behind the last.
module _ (rec : Bytes → Parsed) (buf : Bytes) where
  unfoldable pub parse_values : ℕ → ℕ → Outcome (Values × ℕ)
  parse_values zero next = ok (nil, next)
  parse_values (suc count) next = do
    (val, consumed) ← rec (drop next buf)
    (vals, stop) ← parse_values count (next + consumed)
    ok (cons val vals, stop)

  unfoldable pub parse_pairs : ℕ → ℕ → Outcome (Pairs × ℕ)
  parse_pairs zero next = ok (end, next)
  parse_pairs (suc count) next = do
    (key, consumed_k) ← rec (drop next buf)
    (val, consumed_v) ← rec (drop (next + consumed_k) buf)
    (pairs, stop) ← parse_pairs count (next + consumed_k + consumed_v)
    ok (entry key val pairs, stop)

unfoldable pub kind_of : RespValue → Outcome Bytes
kind_of (RespValue.simple_string s) = ok s
kind_of (RespValue.bulk_string b) = utf8 Part.push_kind b
kind_of other = fail (protocol (kind_not_a_string (type_name other)))

module _ (x : External) (rec : Bytes → Parsed) (buf : Bytes) where
  unfoldable pub parse_array : Parsed
  parse_array = do
    (count, next) ← read_int x buf
    if is_negative count then ok (RespValue.null, next) else do
      with_capacity (pos_part count) x.value_size
      (elements, stop) ← parse_values rec buf (pos_part count) next
      ok (RespValue.array elements, stop)

  unfoldable pub parse_map : Parsed
  parse_map = do
    (count, next) ← read_int x buf
    refuse (is_negative count) (protocol (negative_count Part.map))
    with_capacity (pos_part count) (2 * x.value_size)
    (pairs, stop) ← parse_pairs rec buf (pos_part count) next
    ok (RespValue.map pairs, stop)

  unfoldable pub parse_set : Parsed
  parse_set = do
    (count, next) ← read_int x buf
    refuse (is_negative count) (protocol (negative_count Part.set))
    with_capacity (pos_part count) x.value_size
    (elements, stop) ← parse_values rec buf (pos_part count) next
    ok (RespValue.set elements, stop)

  -- The kind and the `more` elements behind it.
  unfoldable pub parse_push_items : ℕ → ℕ → Parsed
  parse_push_items more next = do
    (kind_val, consumed) ← rec (drop next buf)
    kind ← kind_of kind_val
    with_capacity more x.value_size
    (items, stop) ← parse_values rec buf more (next + consumed)
    ok (RespValue.push kind items, stop)

  unfoldable pub parse_push : Parsed
  parse_push = do
    (count, next) ← read_int x buf
    refuse (is_negative count) (protocol (negative_count Part.push))
    refuse (pos_part count == 0) (protocol empty_push)
    parse_push_items (pos_part count - 1) next

  unfoldable pub parse_attribute : Parsed
  parse_attribute = do
    (count, next) ← read_int x buf
    refuse (is_negative count) (protocol (negative_count Part.attribute))
    with_capacity (pos_part count) (2 * x.value_size)
    (attributes, stop) ← parse_pairs rec buf (pos_part count) next
    (val, consumed) ← rec (drop stop buf)
    ok (RespValue.attribute val attributes, stop + consumed)

  -- The match of `parse` on the type byte.
  unfoldable pub parse_tag : Tag → Parsed
  parse_tag Tag.plus = parse_simple_string x buf
  parse_tag Tag.minus = parse_simple_error x buf
  parse_tag Tag.colon = parse_integer x buf
  parse_tag Tag.dollar = parse_bulk_string x buf
  parse_tag Tag.star = parse_array
  parse_tag Tag.underscore = parse_null buf
  parse_tag Tag.hash = parse_boolean buf
  parse_tag Tag.comma = parse_double x buf
  parse_tag Tag.paren = parse_big_number x buf
  parse_tag Tag.bang = parse_bulk_error x buf
  parse_tag Tag.equals = parse_verbatim_string x buf
  parse_tag Tag.percent = parse_map
  parse_tag Tag.tilde = parse_set
  parse_tag Tag.greater = parse_push
  parse_tag Tag.bar = parse_attribute
  parse_tag (Tag.unknown other) = fail (protocol (unknown_type_byte other))

-- `parse` with a bound on the depth of its recursion.
unfoldable pub parse_within : External → ℕ → Bytes → Parsed
parse_within x zero buf = stuck
parse_within x (suc fuel) [] = fail incomplete
parse_within x (suc fuel) (b ∷ s) = parse_tag x (parse_within x fuel) (b ∷ s) (tag_of b)

-- Each value inside another is shorter than it, so that the length is fuel enough.
unfoldable pub parse : External → Bytes → Parsed
parse x buf = parse_within x (suc (length buf)) buf
