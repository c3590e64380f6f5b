-- ===== src/Text/Number.antt =====
-- str::parse at an integer type, and the value of decimal digits.
use pyrsedis.Prelude.{
  ℕ, ◌+◌, ◌-◌, ◌*◌, ◌≤◌, ◌≡◌, refl, Bool, ◌&&◌, Option, none, some, [], ◌∷◌, Bytes, codes, leb,
  ◌==◌, if◌then◌else◌, ◌≢◌, All, arith, ℤ, pos, minus, i64_limit,
}
use mathlib.Core.Option

-- u8::is_ascii_digit.
abbrev pub is_digit : ℕ → Bool
is_digit c = leb b'0' c && leb c b'9'

abbrev pub IsDigit : ℕ → Type 0
IsDigit c = (b'0' ≤ c) × (c ≤ b'9')

-- Each step is checked: what passes `max` is an error.
digits_from : ℕ → ℕ → Bytes → Option ℕ
digits_from max n [] = some n
digits_from max n (c ∷ s) =
    let rest = digits_from max (n * 10 + (c - b'0')) s in
    if is_digit c then if leb (n * 10 + (c - b'0')) max then rest else none else none

-- A leading `+` is taken, and at least one digit is wanted.
unfoldable pub parse_uint : ℕ → Bytes → Option ℕ
unfolding digits_from
parse_uint max [] = none
parse_uint max (c ∷ s) =
    if c == b'+'
    then elim s [ [] ↦ none | d ∷ t ↦ digits_from max 0 (d ∷ t) ]
    else digits_from max 0 (c ∷ s)

abbrev pub u16_max : ℕ
u16_max = 65535

-- str::parse at i64, for a text with a sign or without.
unfoldable pub parse_i64 : Bytes → Option ℤ
unfolding digits_from parse_uint
parse_i64 [] = none
parse_i64 (c ∷ s) =
    if c == b'-'
    then elim s [ [] ↦ none | d ∷ t ↦ Option.map minus (digits_from i64_limit 0 (d ∷ t)) ]
    else Option.map pos (parse_uint (i64_limit - 1) (c ∷ s))

-- Horner's rule for a text of digits, from what was summed before it; nothing wraps around.
abbrev pub value : ℕ → Bytes → ℕ
value before [] = before
value before (digit ∷ text) = value (before * 10 + (digit - b'0')) text

-- More digits never make the sum smaller.
pub le-value : (before : ℕ) (text : Bytes) → before ≤ value before text
le-value before [] = omega arith
le-value before (digit ∷ text) = omega (arith, le-value (before * 10 + (digit - b'0')) text)

digits_from-le : (max n : ℕ) (s : Bytes) {r : ℕ} → n ≤ max → digits_from max n s ≡ some r → r ≤ max
unfolding digits_from
digits_from-le max n [] h e = ground arith
digits_from-le max n (c ∷ s) {r} h e =
    ground (arith, digits_from-le max (n * 10 + (c - b'0')) s {r = r})

pub parse_uint-le : (max : ℕ) (s : Bytes) {r : ℕ} → parse_uint max s ≡ some r → r ≤ max
unfolding parse_uint
parse_uint-le max [] e = ground arith
parse_uint-le max (c ∷ []) {r} e = ground (arith, digits_from-le max 0 (c ∷ []) {r = r})
parse_uint-le max (c ∷ d ∷ t) {r} e =
    ground (arith, digits_from-le max 0 (c ∷ d ∷ t) {r = r}, digits_from-le max 0 (d ∷ t) {r = r})

digits_from_complete :
    (max n : ℕ) (s : Bytes)
    → All IsDigit s
    → value n s ≤ max
    → digits_from max n s ≡ some (value n s)
unfolding digits_from
digits_from_complete max n [] h le = refl
digits_from_complete max n (c ∷ s) (hc, hs) le = ground (
  arith,
  digits_from_complete max (n * 10 + (c - b'0')) s hs le,
  le-value (n * 10 + (c - b'0')) s,
)

-- A digit string whose value fits is read as its value.
pub parse_uint_complete :
    (max : ℕ) (s : Bytes)
    → s ≢ []
    → All IsDigit s
    → value 0 s ≤ max
    → parse_uint max s ≡ some (value 0 s)
unfolding parse_uint
parse_uint_complete max [] ne h le = absurd (ne refl)
parse_uint_complete max (c ∷ s) ne (hc, hs) le =
    ground (arith, digits_from_complete max 0 (c ∷ s) (hc, hs) le)

reads_slot : parse_uint u16_max (codes "3999") ≡ some 3999
unfolding parse_uint
reads_slot = refl

refuses_wide : parse_uint u16_max (codes "65536") ≡ none
unfolding parse_uint
refuses_wide = refl
