-- ===== src/Resp/Grammar/Numbers.antt =====
-- The decimal texts of the grammar against parse_int_from_bytes, and lines as the parser reads them.
use pyrsedis.Prelude.{
  ℕ, ◌+◌, ◌≤◌, ◌<◌, ◌≡◌, ap, ◌∙◌, [], ◌∷◌, ◌++◌, append_assoc, Bytes, length, length-append, All,
  arith, ℤ, pos, minus, i64_limit,
}
use pyrsedis.External.{External}
use pyrsedis.Outcome.{ok}
use pyrsedis.Resp.Grammar.{line, Decimal, plain, plus, negative}
use pyrsedis.Resp.Line.{cr, lf, parse_int_from_bytes}
use pyrsedis.Resp.Line.Integers.{parse_int_digits, unsigned_reading, negative_reading}
use pyrsedis.Resp.Line.Laws.{IsPlain, read_line-written}
use pyrsedis.Resp.Parser.{read_int}
use pyrsedis.Text.Number.{IsDigit, value}

pub digits-IsPlain : (s : Bytes) → All IsDigit s → IsPlain s
digits-IsPlain [] h = tt
digits-IsPlain (c ∷ s) (hc, hs) = (omega arith, digits-IsPlain s hs)

pub Decimal-IsPlain : {i : ℤ} {t : Bytes} → Decimal i t → IsPlain t
Decimal-IsPlain (plain {s} d h) = digits-IsPlain s d.digits
Decimal-IsPlain (plus {s} d h) = (omega arith, digits-IsPlain s d.digits)
Decimal-IsPlain (negative {s} d h) = (omega arith, digits-IsPlain s d.digits)

unsigned_reading_lt : (v : ℕ) → v < i64_limit → unsigned_reading v ≡ ok (pos v)
unsigned_reading_lt v h = ground arith

negative_reading_le : (v : ℕ) → v ≤ i64_limit → negative_reading v ≡ ok (minus v)
negative_reading_le v h = ground arith

pub parse_int-Decimal : {i : ℤ} {t : Bytes} → Decimal i t → parse_int_from_bytes t ≡ ok i
parse_int-Decimal (plain {s} d h) =
    (parse_int_digits s d.filled d.digits).0 ∙ unsigned_reading_lt (value 0 s) h
parse_int-Decimal (plus {s} d h) =
    (parse_int_digits s d.filled d.digits).1 ∙ unsigned_reading_lt (value 0 s) h
parse_int-Decimal (negative {s} d h) =
    (parse_int_digits s d.filled d.digits).2 ∙ negative_reading_le (value 0 s) h

pub line-append : (mark : ℕ) (t r rest : Bytes) → line mark t r ++ rest ≡ line mark t (r ++ rest)
line-append mark t r rest = ap (λ s. mark ∷ s) (append_assoc t (cr ∷ lf ∷ r) rest)

pub length-line : (mark : ℕ) (t r : Bytes) → length (line mark t r) ≡ length t + 3 + length r
length-line mark t r = omega (arith, length-append t (cr ∷ lf ∷ r))

-- A length or a count is read from the line of its decimal text.
pub read_int-line :
    (x : External) (mark : ℕ) {i : ℤ} {t : Bytes} (rest : Bytes)
    → Decimal i t
    → read_int x (line mark t rest) ≡ ok (i, length t + 3)
unfolding read_int
read_int-line x mark {i} {t} rest d =
    rw (read_line-written x mark t rest (Decimal-IsPlain d), parse_int-Decimal d)
