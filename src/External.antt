-- ===== src/External.antt =====
-- The crates that the sources call, as a record of functions with the laws that their documentation
-- states, and what the standard library does with floats and with text that is no UTF-8.
pub mod Sample
use pyrsedis.Prelude.{ℕ, ℤ, ◌≡◌, ◌≢◌, Option, some, true, [], Bytes, codes, position, All}
use pyrsedis.Text.Number.{IsDigit, value}
use pyrsedis.Text.Utf8.{is_utf8}

pub record External : Type 0 where
  -- memchr::memchr: the first index of a byte.
  pub memchr : ℕ → Bytes → Option ℕ
  pub memchr-first : (b : ℕ) (s : Bytes) → memchr b s ≡ position b s
  -- itoa::Buffer::format at usize: the decimal digits of a number.
  pub itoa : ℕ → Bytes
  pub itoa-digits : (n : ℕ) → All IsDigit (itoa n)
  pub itoa-ne-nil : (n : ℕ) → itoa n ≢ []
  pub value-itoa : (n : ℕ) → value 0 (itoa n) ≡ n
  -- str::parse at f64: the 64 bits of the float, if the text is one.
  pub parse_f64 : Bytes → Option ℕ
  pub parse_f64-inf : parse_f64 (codes "inf") ≡ some 0x7ff0_0000_0000_0000
  pub parse_f64-neg_inf : parse_f64 (codes "-inf") ≡ some 0xfff0_0000_0000_0000
  pub parse_f64-nan : parse_f64 (codes "nan") ≡ some 0x7ff8_0000_0000_0000
  -- `i as f64` of an i64.
  pub f64_of_int : ℤ → ℕ
  -- f64::to_string, of the 64 bits.
  pub show_f64 : ℕ → Bytes
  -- String::from_utf8_lossy: valid text stays as it is.
  pub utf8_lossy : Bytes → Bytes
  pub utf8_lossy-utf8 : (s : Bytes) → is_utf8 s ≡ true → utf8_lossy s ≡ s
  -- The size in bytes of a value of the enum RespValue, which the compiler chooses.
  pub value_size : ℕ
