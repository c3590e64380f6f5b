-- ===== src/Response/Integer.antt =====
-- fused_parse_int of src/response.rs: all digits are checked first, and are then summed with wrapping
-- 64-bit arithmetic.
pub mod Laws
use Prim.Native.Nat.{bit_or}
use pyrsedis.Prelude.{
  ℕ, ◌+◌, ◌-◌, ◌*◌, ◌^◌, ◌%◌, ◌≡◌, refl, Bool, true, false, ◌||◌, Option, none, some, [], ◌∷◌,
  Bytes, codes, ltb, ◌==◌, if◌then◌else◌, ℤ, pos, negsuc, i64_limit, neg_i64,
}
use pyrsedis.Error.{protocol, empty_integer, no_digits, invalid_digit}
use pyrsedis.Outcome.{Outcome, ok, fail, ◌>>=◌, ◌>>◌}

abbrev pub u64_mod : ℕ
u64_mod = 2 ^ 64

-- `b.wrapping_sub(b'0')` at u8.
unfoldable pub digit_of : ℕ → ℕ
digit_of b = (b + 256 - b'0') % 256

-- The bits of all the differences.
unfoldable pub check_from : ℕ → Bytes → ℕ
unfolding digit_of
check_from check [] = check
check_from check (b ∷ digits) = check_from (bit_or check (digit_of b)) digits

-- The first byte that is no digit is an error.
unfoldable pub find_invalid : Bytes → Outcome (Unit {0})
find_invalid [] = ok tt
find_invalid (b ∷ digits) =
    let rest = find_invalid digits in
    if ltb b b'0' || ltb b'9' b then fail (protocol (invalid_digit b)) else rest

-- wrapping_mul and wrapping_add on the 64 bits of an i64.
unfoldable pub sum_from : ℕ → Bytes → ℕ
unfolding digit_of
sum_from n [] = n
sum_from n (b ∷ digits) = sum_from ((n * 10 % u64_mod + digit_of b) % u64_mod) digits

-- 64 bits, read as an i64.
abbrev pub as_i64 : ℕ → ℤ
as_i64 n = if ltb n i64_limit then pos n else negsuc (u64_mod - n - 1)

unfoldable pub fused_digits : Bool → Bytes → Outcome ℤ
unfolding check_from find_invalid sum_from
fused_digits negative [] = fail (protocol no_digits)
fused_digits negative (d ∷ digits) = do
  if ltb 9 (check_from 0 (d ∷ digits)) then find_invalid (d ∷ digits) else ok tt
  let n = as_i64 (sum_from 0 (d ∷ digits))
  ok (if negative then neg_i64 n else n)

unfoldable pub fused_parse_int : Bytes → Outcome ℤ
unfolding fused_digits
fused_parse_int [] = fail (protocol empty_integer)
fused_parse_int (b ∷ s) =
    if b == b'-'
    then fused_digits true s
    else if b == b'+'
    then fused_digits false s
    else fused_digits false (b ∷ s)

-- 2 and 8 have more bits together than 9.
reads_digits : fused_parse_int (codes "-28") ≡ ok (negsuc 27)
unfolding fused_parse_int neg_i64
reads_digits = refl

refuses_letter : fused_parse_int (codes "2x8") ≡ fail (protocol (invalid_digit b'x'))
unfolding fused_parse_int
refuses_letter = refl

-- What parse_int_from_bytes refuses is read modulo 2^64.
wraps : fused_parse_int (codes "18446744073709551617") ≡ ok (pos 1)
unfolding fused_parse_int
wraps = refl
