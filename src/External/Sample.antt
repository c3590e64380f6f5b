-- ===== src/External/Sample.antt =====
-- Crates that the tests of this development use: a search and a decimal printer that meet the laws.
use pyrsedis.Prelude.{ℕ, refl, Option, none, some, Bytes, codes, position, if◌then◌else◌, bytes_eq}
use pyrsedis.External.{External}
use pyrsedis.Text.Decimal.{to_string, value-to_string, to_string-IsDigit, to_string-ne-nil}

abbrev pub parse_float : Bytes → Option ℕ
parse_float s =
    if bytes_eq s (codes "1.5")
    then some 0x3ff8_0000_0000_0000
    else if bytes_eq s (codes "inf")
    then some 0x7ff0_0000_0000_0000
    else if bytes_eq s (codes "-inf")
    then some 0xfff0_0000_0000_0000
    else if bytes_eq s (codes "nan")
    then some 0x7ff8_0000_0000_0000
    else none

abbrev pub sample : External
sample = record {
  memchr = position;
  memchr-first = λ b s. refl;
  itoa = to_string;
  itoa-digits = to_string-IsDigit;
  itoa-ne-nil = to_string-ne-nil;
  value-itoa = value-to_string;
  parse_f64 = parse_float;
  parse_f64-inf = refl;
  parse_f64-neg_inf = refl;
  parse_f64-nan = refl;
  utf8_lossy = λ s. s;
  utf8_lossy-utf8 = λ s h. refl;
  value_size = 32;
  f64_of_int = λ i. 0x3ff0_0000_0000_0000;
  show_f64 = λ f. codes "1.5";
}
