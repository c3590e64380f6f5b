-- ===== src/Resp/Line.antt =====
-- The helpers of src/resp/parser.rs: lines that end in CR LF, and the integers on them.
pub mod Ends
pub mod Laws
pub mod Integers
use pyrsedis.Prelude.{
  ℕ, ◌+◌, ◌-◌, ◌^◌, ◌≡◌, refl, Bool, true, false, ◌&&◌, Option, none, some, [], ◌∷◌, Bytes, codes,
  length, get_elem?, take, drop, ltb, leb, ◌==◌, if◌then◌else◌, ℤ, pos, negsuc, checked_mul,
  checked_sub, neg_i64, position,
}
use pyrsedis.Error.{PyrsedisError, protocol, incomplete}
use pyrsedis.Error.{expected_lf, empty_integer, no_digits, integer_overflow, invalid_digit}
use pyrsedis.External.{External}
use pyrsedis.Outcome.{Outcome, ok, fail, ◌>>=◌, ok_or}
use pyrsedis.Text.Number.{is_digit}

abbrev pub cr : ℕ
cr = 13

abbrev pub lf : ℕ
lf = 10

-- `buf[i] == b`, at an index inside `buf`.
unfoldable pub byte_at : Bytes → ℕ → ℕ → Bool
byte_at buf i b = elim (get_elem? buf i) [ none ↦ false | some c ↦ c == b ]

-- `&buf[from..to]`.
unfoldable pub slice : Bytes → ℕ → ℕ → Bytes
slice buf from to = take (to - from) (drop from buf)

-- The checks of find_crlf at a carriage return.
unfoldable pub crlf_at : Bytes → ℕ → Outcome ℕ
crlf_at buf abs =
    if ltb (abs + 1) (length buf) && byte_at buf (abs + 1) lf
    then ok abs
    else if leb (length buf) (abs + 1)
    then fail incomplete
    else fail (protocol expected_lf)

unfoldable pub find_crlf : External → Bytes → ℕ → Outcome ℕ
find_crlf x buf offset = elim (x.memchr cr (drop offset buf)) [
  | none ↦ fail incomplete
  | some p ↦ crlf_at buf (offset + p)
]

unfoldable pub read_line : External → Bytes → ℕ → Outcome (Bytes × ℕ)
read_line x buf offset = do cr_at ← find_crlf x buf offset; ok (slice buf offset cr_at, cr_at + 2)

-- The loop over the digits: `n` is at most 0.
unfoldable pub accumulate : ℤ → Bytes → Outcome ℤ
accumulate n [] = ok n
accumulate n (b ∷ s) = elim (is_digit b) [
  | false ↦ fail (protocol (invalid_digit b))
  | true ↦ do
    scaled ← ok_or (checked_mul n (pos 10)) (protocol integer_overflow)
    next ← ok_or (checked_sub scaled (pos (b - b'0'))) (protocol integer_overflow)
    accumulate next s
]

unfoldable pub signed : Bool → Bytes → Outcome ℤ
unfolding accumulate
signed negative [] = fail (protocol no_digits)
signed negative (b ∷ s) = do n ← accumulate (pos 0) (b ∷ s); ok (if negative then n else neg_i64 n)

-- Where overflow is not checked, as in the release profile: see `neg_i64`.
unfoldable pub parse_int_from_bytes : Bytes → Outcome ℤ
unfolding signed
parse_int_from_bytes [] = fail (protocol empty_integer)
parse_int_from_bytes (b ∷ s) =
    if b == b'-' then signed true s else if b == b'+' then signed false s else signed false (b ∷ s)

reads_negative : parse_int_from_bytes (codes "-42") ≡ ok (negsuc 41)
unfolding parse_int_from_bytes ok_or checked_mul checked_sub neg_i64
reads_negative = refl

reads_i64_min : parse_int_from_bytes (codes "-9223372036854775808") ≡ ok (negsuc (2 ^ 63 - 1))
unfolding parse_int_from_bytes ok_or checked_mul checked_sub neg_i64
reads_i64_min = refl

-- 2^63 is no i64, and is read as -2^63.
reads_wrapped : parse_int_from_bytes (codes "9223372036854775808") ≡ ok (negsuc (2 ^ 63 - 1))
unfolding parse_int_from_bytes ok_or checked_mul checked_sub neg_i64
reads_wrapped = refl

refuses_wide : parse_int_from_bytes (codes "9223372036854775809") ≡ fail (protocol integer_overflow)
unfolding parse_int_from_bytes ok_or checked_mul checked_sub neg_i64
refuses_wide = refl
