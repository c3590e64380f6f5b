-- ===== src/Resp/Parser/Stream/Inline.antt =====
-- The parsers of src/resp/parser.rs for types that hold no other values, on a growing buffer.
use pyrsedis.Prelude.{
  ℕ, ◌+◌, ◌≤◌, ◌<◌, ◌≡◌, refl, ltb→le, Bytes, length, arith, pos_part, is_negative,
  get_elem?-append_left, length-append, not, ltb, ◌++◌, sym, ap,
}
use pyrsedis.Error.{Part}
use pyrsedis.External.{External}
use pyrsedis.Outcome.{ok}
use pyrsedis.Outcome.Rules.{
  Settles, same, Settles-if, Settles-bind, Settles-enough, Settles-refuse, Ensures-ok,
}
use pyrsedis.Resp.Line.{cr, lf}
use pyrsedis.Resp.Line.Laws.{read_line-append, byte_at-append, slice-append}
use pyrsedis.Resp.Parser.{
  ends_at, read_int, parse_simple_string, parse_simple_error, parse_integer, read_text,
  parse_bulk_string, parse_null, boolean_of, parse_boolean, parse_double, parse_big_number,
  parse_bulk_error, parse_verbatim_string,
}
use pyrsedis.Resp.Parser.Inline.{read_int_bounds}

module _ (buf more : Bytes) where
  ends_at-append : (i : ℕ) → i + 2 ≤ length buf → ends_at (buf ++ more) i ≡ ends_at buf i
  unfolding ends_at
  ends_at-append i h =
      cc (
        byte_at-append buf more i cr (omega arith),
        byte_at-append buf more (i + 1) lf (omega arith),
      )

  boolean_of-append : 2 ≤ length buf → boolean_of (buf ++ more) ≡ boolean_of buf
  unfolding boolean_of
  boolean_of-append h = rw (
    byte_at-append buf more 1 b't' (omega arith),
    byte_at-append buf more 1 b'f' (omega arith),
    get_elem?-append_left buf more 1 (omega arith),
  )

  pub read_text-Settles :
      (part : Part) (next len : ℕ)
      → next ≤ length buf
      → Settles (read_text part buf next len) (read_text part (buf ++ more) next len)
  unfolding read_text
  read_text-Settles part next len le =
      Settles-enough (ltb (length buf) (next + len + 2))
        (ltb (length (buf ++ more)) (next + len + 2)) (λ h. ground (arith, length-append buf more))
        λ fits.
          let inside : next + len + 2 ≤ length buf = ltb→le _ _ fits in
          Settles-refuse _ _ _ (ap not (sym (ends_at-append (next + len) inside)))
            λ _. same (ap ok (sym (slice-append buf more next (next + len) le (omega arith))))

  pub null-Settles : Settles (parse_null buf) (parse_null (buf ++ more))
  unfolding parse_null
  null-Settles =
      Settles-enough (ltb (length buf) 3) (ltb (length (buf ++ more)) 3)
        (λ h. ground (arith, length-append buf more))
        λ fits.
          let inside : 3 ≤ length buf = ltb→le _ _ fits in
          Settles-refuse _ _ _ (ap not (sym (ends_at-append 1 inside))) λ _. same refl

  pub boolean-Settles : Settles (parse_boolean buf) (parse_boolean (buf ++ more))
  unfolding parse_boolean
  boolean-Settles =
      Settles-enough (ltb (length buf) 4) (ltb (length (buf ++ more)) 4)
        (λ h. ground (arith, length-append buf more))
        λ fits.
          let inside : 4 ≤ length buf = ltb→le _ _ fits in
          Settles-bind (same (sym (boolean_of-append (omega arith))))
            λ b _. Settles-refuse _ _ _ (ap not (sym (ends_at-append 2 inside))) λ _. same refl

module _ (x : External) (buf more : Bytes) (full : 0 < length buf) where
  pub read_int-Settles : Settles (read_int x buf) (read_int x (buf ++ more))
  unfolding read_int
  read_int-Settles = Settles-bind (read_line-append x buf more 1 full) λ r _. same refl

  pub simple_string-Settles :
      Settles (parse_simple_string x buf) (parse_simple_string x (buf ++ more))
  unfolding parse_simple_string
  simple_string-Settles = Settles-bind (read_line-append x buf more 1 full) λ r _. same refl

  pub simple_error-Settles : Settles (parse_simple_error x buf) (parse_simple_error x (buf ++ more))
  unfolding parse_simple_error
  simple_error-Settles = Settles-bind (read_line-append x buf more 1 full) λ r _. same refl

  pub integer-Settles : Settles (parse_integer x buf) (parse_integer x (buf ++ more))
  unfolding parse_integer
  integer-Settles = Settles-bind read_int-Settles λ r _. same refl

  pub double-Settles : Settles (parse_double x buf) (parse_double x (buf ++ more))
  unfolding parse_double
  double-Settles = Settles-bind (read_line-append x buf more 1 full) λ r _. same refl

  pub big_number-Settles : Settles (parse_big_number x buf) (parse_big_number x (buf ++ more))
  unfolding parse_big_number
  big_number-Settles = Settles-bind (read_line-append x buf more 1 full) λ r _. same refl

  pub bulk_string-Settles : Settles (parse_bulk_string x buf) (parse_bulk_string x (buf ++ more))
  unfolding parse_bulk_string
  bulk_string-Settles = Settles-bind read_int-Settles λ (len, next) e.
      Settles-if (is_negative len) (λ _. same refl)
        λ _.
          Settles-bind
            (read_text-Settles buf more _ next (pos_part len)
              (Ensures-ok (read_int_bounds x buf) e).1)
            λ t _. same refl

  pub bulk_error-Settles : Settles (parse_bulk_error x buf) (parse_bulk_error x (buf ++ more))
  unfolding parse_bulk_error
  bulk_error-Settles = Settles-bind read_int-Settles λ (len, next) e. Settles-refuse _ _ _ refl λ _.
      Settles-bind
        (read_text-Settles buf more _ next (pos_part len) (Ensures-ok (read_int_bounds x buf) e).1)
        λ t _. same refl

  pub verbatim-Settles :
      Settles (parse_verbatim_string x buf) (parse_verbatim_string x (buf ++ more))
  unfolding parse_verbatim_string
  verbatim-Settles = Settles-bind read_int-Settles λ (len, next) e. Settles-refuse _ _ _ refl λ _.
      Settles-bind
        (read_text-Settles buf more _ next (pos_part len) (Ensures-ok (read_int_bounds x buf) e).1)
        λ t _. same refl
