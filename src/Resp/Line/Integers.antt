-- ===== src/Resp/Line/Integers.antt =====
-- parse_int_from_bytes of src/resp/parser.rs on decimal digits.
use pyrsedis.Prelude.{
  ℕ, ◌+◌, ◌-◌, ◌*◌, ◌≤◌, ◌≡◌, refl, ◌∙◌, ◌≢◌, true, false, none, some, [], ◌∷◌, Bytes, ltb, leb,
  ◌==◌, if◌then◌else◌, All, arith, ℤ, pos, minus, i64_limit, checked_mul, checked_sub, neg_i64,
  Bool-cases, inl, inr,
}
use pyrsedis.Error.{protocol, integer_overflow}
use pyrsedis.Outcome.{ok_or, Outcome, ok, fail}
use pyrsedis.Resp.Line.{accumulate, parse_int_from_bytes, signed}
use pyrsedis.Text.Number.{IsDigit, value, le-value}

checked_mul-minus :
    (m : ℕ)
    → checked_mul (minus m) (pos 10)
      ≡ (if leb (m * 10) i64_limit then some (minus (m * 10)) else none)
unfolding checked_mul
checked_mul-minus m = ground arith

checked_sub-minus :
    (m d : ℕ)
    → checked_sub (minus m) (pos d) ≡ (if leb (m + d) i64_limit then some (minus (m + d)) else none)
unfolding checked_sub
checked_sub-minus m d = ground arith

pub accumulate_step :
    (m c : ℕ) (s : Bytes)
    → IsDigit c
    → accumulate (minus m) (c ∷ s) ≡ (
        if leb (m * 10 + (c - b'0')) i64_limit
        then accumulate (minus (m * 10 + (c - b'0'))) s
        else fail (protocol integer_overflow))
unfolding accumulate ok_or
accumulate_step m c s h = ground (arith, checked_mul-minus m, checked_sub-minus (m * 10) (c - b'0'))

-- The digits of a number within the range of an i64, negated.
accumulate-value :
    (s : Bytes) (m : ℕ)
    → All IsDigit s
    → m ≤ i64_limit
    → accumulate (minus m) s ≡ (
        if leb (value m s) i64_limit
        then ok (minus (value m s))
        else fail (protocol integer_overflow))
accumulate-value [] m h le = unfold accumulate in ground arith
accumulate-value (c ∷ s) m (hc, hs) le =
    rw (accumulate_step m c s hc) (elim (Bool-cases (leb (m * 10 + (c - b'0')) i64_limit)) [
      | inl fits ↦ rw fits (accumulate-value s (m * 10 + (c - b'0')) hs (ground arith))
      | inr wide ↦ rw wide (ground (arith, le-value (m * 10 + (c - b'0')) s))
    ])

-- What a number that is written with no sign, or with a plus, is read as: 2^63 wraps around.
abbrev pub unsigned_reading : ℕ → Outcome ℤ
unsigned_reading v =
    if ltb v i64_limit
    then ok (pos v)
    else if v == i64_limit
    then ok (minus i64_limit)
    else fail (protocol integer_overflow)

-- What a number that is written behind a minus is read as.
abbrev pub negative_reading : ℕ → Outcome ℤ
negative_reading v = if leb v i64_limit then ok (minus v) else fail (protocol integer_overflow)

pub neg_i64-minus :
    (v : ℕ)
    → v ≤ i64_limit
    → neg_i64 (minus v) ≡ (if ltb v i64_limit then pos v else minus i64_limit)
unfolding neg_i64
neg_i64-minus v h = ground arith

parse_int_plain :
    (c : ℕ) (s : Bytes) → IsDigit c → parse_int_from_bytes (c ∷ s) ≡ signed false (c ∷ s)
unfolding parse_int_from_bytes
parse_int_plain c s h = ground arith

signed_digits :
    (s : Bytes)
    → s ≢ []
    → All IsDigit s
    → (signed false s ≡ unsigned_reading (value 0 s))
      × (signed true s ≡ negative_reading (value 0 s))
unfolding signed
signed_digits [] ne h = absurd (ne refl)
signed_digits (c ∷ s) ne h =
    let v = value 0 (c ∷ s) in
    elim (Bool-cases (leb v i64_limit)) [
      | inl fits ↦
          let e : accumulate (pos 0) (c ∷ s) ≡ ok (minus v) =
            rw fits at (accumulate-value (c ∷ s) 0 h (omega arith)) in
          (rw (e, signed) (ground (arith, neg_i64-minus v)), rw (e, signed) (ground arith))
      | inr wide ↦
          let e : accumulate (pos 0) (c ∷ s) ≡ fail (protocol integer_overflow) =
            rw wide at (accumulate-value (c ∷ s) 0 h (omega arith)) in
          (rw (e, signed) (ground arith), rw (e, signed) (ground arith))
    ]

-- What parse_int_from_bytes reads where the text is decimal digits, behind a sign or not.
pub parse_int_digits :
    (s : Bytes)
    → s ≢ []
    → All IsDigit s
    → (parse_int_from_bytes s ≡ unsigned_reading (value 0 s))
      × (parse_int_from_bytes (b'+' ∷ s) ≡ unsigned_reading (value 0 s))
      × (parse_int_from_bytes (b'-' ∷ s) ≡ negative_reading (value 0 s))
parse_int_digits [] ne h = absurd (ne refl)
parse_int_digits (c ∷ s) ne h =
    let (plain, negative) = signed_digits (c ∷ s) ne h in
    (
      parse_int_plain c s h.0 ∙ plain,
      unfold parse_int_from_bytes in plain,
      unfold parse_int_from_bytes in negative,
    )
