-- ===== src/Resp/Grammar/Inline.antt =====
-- The parser on written values that hold no other values.
use pyrsedis.Prelude.{
  ℕ, ◌+◌, ◌-◌, ◌<◌, ◌≡◌, refl, ap, ◌∙◌, true, false, [], ◌∷◌, ◌++◌, append_assoc, Bytes, codes,
  length, length-append, ltb, le→ltb, ==_iff, All, arith, ℤ, pos, is_negative, take-append_length,
  drop-append_length, bytes_eq_ne, ◌⊎◌, inl, inr,
}
use pyrsedis.Error.{Part}
use pyrsedis.External.{External}
use pyrsedis.Outcome.{ok, refuse, ok_or}
use pyrsedis.Resp.Grammar.{line, IsDigits, Decimal, Float, BigNumber}
use pyrsedis.Resp.Grammar.Numbers.{digits-IsPlain, line-append, length-line, read_int-line}
use pyrsedis.Resp.Line.{cr, lf, byte_at, slice}
use pyrsedis.Resp.Line.Laws.{IsPlain, read_line-written, byte_at-written}
use pyrsedis.Resp.Parser.{
  ends_at, utf8, simple_text, read_text, double_of, is_big_number, all_digits, verbatim_of,
  parse_simple_string, parse_simple_error, parse_integer, parse_bulk_string, parse_double,
  parse_big_number, parse_bulk_error, parse_verbatim_string,
}
use pyrsedis.Resp.Types.{RespValue}
use pyrsedis.Text.Utf8.{is_utf8, is_utf8_ascii}
use pyrsedis.Text.Number.{IsDigit}

pub utf8-ok : (part : Part) (s : Bytes) → is_utf8 s ≡ true → utf8 part s ≡ ok s
unfolding utf8
utf8-ok part s h = rw h

simple_text-ok : (s : Bytes) → is_utf8 s ≡ true → simple_text s ≡ ok s
unfolding simple_text
simple_text-ok s h = ground (arith, utf8-ok Part.simple_string s h)

-- CR LF behind a front part, and the text between two indices.
byte_at-first :
    (front : Bytes) (a : ℕ) (rest : Bytes) → byte_at (front ++ a ∷ rest) (length front) a ≡ true
unfolding byte_at
byte_at-first [] a rest = (==_iff a a).1 refl
byte_at-first (c ∷ front) a rest = byte_at-first front a rest

ends_at-written : (front rest : Bytes) → ends_at (front ++ cr ∷ lf ∷ rest) (length front) ≡ true
unfolding ends_at
ends_at-written front rest =
    rw (byte_at-first front cr (lf ∷ rest), byte_at-written front cr lf rest)

slice-written :
    (front s rest : Bytes) → slice (front ++ s ++ rest) (length front) (length front + length s) ≡ s
unfolding slice
slice-written front s rest =
    let width : length front + length s - length front ≡ length s = omega arith in
    rw (append_assoc front s rest, drop-append_length, width) (take-append_length s rest)

read_text-written :
    (part : Part) (front s rest : Bytes)
    → read_text part (front ++ s ++ cr ∷ lf ∷ rest) (length front) (length s) ≡ ok s
unfolding read_text refuse
read_text-written part front s rest =
    rw (fits, ends) (ap ok (slice-written front s (cr ∷ lf ∷ rest)))
  where
    fits : ltb (length (front ++ s ++ cr ∷ lf ∷ rest)) (length front + length s + 2) ≡ false
    fits =
        le→ltb _ _
          (omega (arith, length-append (front ++ s) (cr ∷ lf ∷ rest), length-append front s))

    ends : ends_at (front ++ s ++ cr ∷ lf ∷ rest) (length front + length s) ≡ true
    ends = rw (← length-append front s) (ends_at-written (front ++ s) rest)

read_text-line :
    (part : Part) (mark : ℕ) (t s rest : Bytes)
    → read_text part (line mark t (s ++ cr ∷ lf ∷ rest)) (length t + 3) (length s) ≡ ok s
read_text-line part mark t s rest =
    rw (← behind, ← width) (read_text-written part (line mark t []) s rest)
  where
    width : length (line mark t []) ≡ length t + 3
    width = omega (arith, length-line mark t [])

    behind : line mark t [] ++ s ++ cr ∷ lf ∷ rest ≡ line mark t (s ++ cr ∷ lf ∷ rest)
    behind = append_assoc (line mark t []) s (cr ∷ lf ∷ rest) ∙ line-append mark t [] _

digits_ascii : (s : Bytes) → All IsDigit s → All (λ c. c < 128) s
digits_ascii [] h = tt
digits_ascii (c ∷ s) (hc, hs) = (omega arith, digits_ascii s hs)

-- Digits with a sign are ASCII, and so UTF-8.
big_number-utf8 : {s : Bytes} → BigNumber s → is_utf8 s ≡ true
big_number-utf8 (BigNumber.unsigned {s} d) = is_utf8_ascii s (digits_ascii s d.digits)
big_number-utf8 (BigNumber.signed {c} {s} e d) =
    is_utf8_ascii (c ∷ s) (omega arith, digits_ascii s d.digits)
big_number-utf8 (BigNumber.below {c} {s} e d) =
    is_utf8_ascii (c ∷ s) (omega arith, digits_ascii s d.digits)

all_digits-IsDigit : (s : Bytes) → All IsDigit s → all_digits s ≡ true
unfolding all_digits
all_digits-IsDigit [] h = refl
all_digits-IsDigit (c ∷ s) (hc, hs) = ground (arith, all_digits-IsDigit s hs)

is_big_number-digits : (s : Bytes) → IsDigits s → is_big_number s ≡ true
unfolding is_big_number
is_big_number-digits [] d = absurd (d.filled refl)
is_big_number-digits (c ∷ s) d =
    let (first, rest) = d.digits in ground (arith, all_digits-IsDigit s rest)

is_big_number-sign :
    (c : ℕ) (s : Bytes) → (c ≡ b'+') ⊎ (c ≡ b'-') → IsDigits s → is_big_number (c ∷ s) ≡ true
unfolding is_big_number
is_big_number-sign c [] h d = absurd (d.filled refl)
is_big_number-sign c (b ∷ s) h d = ground (arith, all_digits-IsDigit (b ∷ s) d.digits)

is_big_number-written : {s : Bytes} → BigNumber s → is_big_number s ≡ true
is_big_number-written (BigNumber.unsigned {s} d) = is_big_number-digits s d
is_big_number-written (BigNumber.signed {c} {s} e d) = is_big_number-sign c s (inl e) d
is_big_number-written (BigNumber.below {c} {s} e d) = is_big_number-sign c s (inr e) d

big_number-IsPlain : {s : Bytes} → BigNumber s → IsPlain s
big_number-IsPlain (BigNumber.unsigned {s} d) = digits-IsPlain s d.digits
big_number-IsPlain (BigNumber.signed {c} {s} e d) = (omega arith, digits-IsPlain s d.digits)
big_number-IsPlain (BigNumber.below {c} {s} e d) = (omega arith, digits-IsPlain s d.digits)

double_of-written : (x : External) {d : ℕ} {s : Bytes} → Float x d s → double_of x s ≡ ok d
unfolding double_of ok_or
double_of-written x Float.infinity = refl
double_of-written x Float.neg_infinity = refl
double_of-written x Float.nan = refl
double_of-written x (Float.other {s = s} a b c e) = rw (
  bytes_eq_ne s (codes "inf") a,
  bytes_eq_ne s (codes "-inf") b,
  bytes_eq_ne s (codes "nan") c,
  e,
)

verbatim_of-written :
    (a b c : ℕ) (s : Bytes)
    → is_utf8 (a ∷ b ∷ c ∷ []) ≡ true
    → is_utf8 s ≡ true
    → verbatim_of (length (a ∷ b ∷ c ∷ b':' ∷ s)) (a ∷ b ∷ c ∷ b':' ∷ s)
      ≡ ok (RespValue.verbatim_string (a ∷ b ∷ c ∷ []) s)
unfolding verbatim_of refuse byte_at
verbatim_of-written a b c s he hs =
    let long : ltb (length (a ∷ b ∷ c ∷ b':' ∷ s)) 4 ≡ false = le→ltb _ _ (omega arith) in
    rw (long, utf8-ok Part.encoding (a ∷ b ∷ c ∷ []) he, utf8-ok Part.verbatim s hs)

module _ (x : External) where
  pub simple_string-written :
      (s rest : Bytes)
      → IsPlain s
      → is_utf8 s ≡ true
      → parse_simple_string x (line b'+' s rest) ≡ ok (RespValue.simple_string s, length s + 3)
  unfolding parse_simple_string
  simple_string-written s rest p u = rw (read_line-written x b'+' s rest p, simple_text-ok s u)

  pub simple_error-written :
      (s rest : Bytes)
      → IsPlain s
      → is_utf8 s ≡ true
      → parse_simple_error x (line b'-' s rest) ≡ ok (RespValue.error s, length s + 3)
  unfolding parse_simple_error
  simple_error-written s rest p u =
      rw (read_line-written x b'-' s rest p, utf8-ok Part.simple_error s u)

  pub integer-written :
      {i : ℤ} {t : Bytes} (rest : Bytes)
      → Decimal i t
      → parse_integer x (line b':' t rest) ≡ ok (RespValue.integer i, length t + 3)
  unfolding parse_integer
  integer-written rest d = rw (read_int-line x b':' rest d)

  pub double-written :
      {d : ℕ} (s rest : Bytes)
      → IsPlain s
      → is_utf8 s ≡ true
      → Float x d s
      → parse_double x (line b',' s rest) ≡ ok (RespValue.double d, length s + 3)
  unfolding parse_double
  double-written s rest p u f =
      rw (read_line-written x b',' s rest p, utf8-ok Part.double s u, double_of-written x f)

  pub big_number-written :
      (s rest : Bytes)
      → BigNumber s
      → parse_big_number x (line b'(' s rest) ≡ ok (RespValue.big_number s, length s + 3)
  unfolding parse_big_number refuse
  big_number-written s rest b = rw (
    read_line-written x b'(' s rest (big_number-IsPlain b),
    utf8-ok Part.big_number s (big_number-utf8 b),
    is_big_number-written b,
  )

  pub bulk_string-written :
      (s : Bytes) {t : Bytes} (rest : Bytes)
      → Decimal (pos (length s)) t
      → parse_bulk_string x (line b'$' t (s ++ cr ∷ lf ∷ rest))
        ≡ ok (RespValue.bulk_string s, length t + 3 + length s + 2)
  unfolding parse_bulk_string
  bulk_string-written s {t} rest d =
      rw (
        read_int-line x b'$' (s ++ cr ∷ lf ∷ rest) d,
        read_text-line Part.bulk_string b'$' t s rest,
      )

  pub null_bulk-written :
      {i : ℤ} {t : Bytes} (rest : Bytes)
      → Decimal i t
      → is_negative i ≡ true
      → parse_bulk_string x (line b'$' t rest) ≡ ok (RespValue.null, length t + 3)
  unfolding parse_bulk_string
  null_bulk-written rest d h = rw (read_int-line x b'$' rest d, h)

  pub bulk_error-written :
      (s : Bytes) {t : Bytes} (rest : Bytes)
      → Decimal (pos (length s)) t
      → is_utf8 s ≡ true
      → parse_bulk_error x (line b'!' t (s ++ cr ∷ lf ∷ rest))
        ≡ ok (RespValue.bulk_error s, length t + 3 + length s + 2)
  unfolding parse_bulk_error refuse
  bulk_error-written s {t} rest d u = rw (
    read_int-line x b'!' (s ++ cr ∷ lf ∷ rest) d,
    read_text-line Part.bulk_error b'!' t s rest,
    utf8-ok Part.bulk_error s u,
  )

  pub verbatim-written :
      (a b c : ℕ) (s : Bytes) {t : Bytes} (rest : Bytes)
      → Decimal (pos (length (a ∷ b ∷ c ∷ b':' ∷ s))) t
      → is_utf8 (a ∷ b ∷ c ∷ []) ≡ true
      → is_utf8 s ≡ true
      → parse_verbatim_string x (line b'=' t ((a ∷ b ∷ c ∷ b':' ∷ s) ++ cr ∷ lf ∷ rest))
        ≡ ok (
          RespValue.verbatim_string (a ∷ b ∷ c ∷ []) s,
          length t + 3 + length (a ∷ b ∷ c ∷ b':' ∷ s) + 2,
        )
  unfolding parse_verbatim_string refuse
  verbatim-written a b c s {t} rest d he hs = rw (
    read_int-line x b'=' ((a ∷ b ∷ c ∷ b':' ∷ s) ++ cr ∷ lf ∷ rest) d,
    read_text-line Part.verbatim b'=' t (a ∷ b ∷ c ∷ b':' ∷ s) rest,
    verbatim_of-written a b c s he hs,
  )
