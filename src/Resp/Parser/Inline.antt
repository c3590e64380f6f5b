-- ===== src/Resp/Parser/Inline.antt =====
-- How much of the buffer the values consume that hold no other values.
use pyrsedis.Prelude.{ℕ, ◌+◌, ◌≤◌, ◌<◌, Bytes, length, arith, pos_part, is_negative}
use pyrsedis.Error.{Part}
use pyrsedis.External.{External}
use pyrsedis.Outcome.Rules.{Ensures, holds, Ensures-if, Ensures-bind, Ensures-refuse, Ensures-after}
use pyrsedis.Resp.Line.Ends.{parse_int-Ends}
use pyrsedis.Resp.Line.Laws.{read_line_bounds}
use pyrsedis.Resp.Parser.{
  read_int, parse_simple_string, parse_simple_error, parse_integer, read_text, parse_bulk_string,
  parse_null, parse_boolean, parse_double, parse_big_number, parse_bulk_error,
  parse_verbatim_string,
}
use pyrsedis.Resp.Parser.Ends.{
  utf8-Ends, simple_text-Ends, double_of-Ends, boolean_of-Ends, verbatim_of-Ends,
}

-- The bound on what a value at the front of a buffer consumes.
abbrev pub Fits {ℓ} : {A : Type ℓ} → Bytes → A × ℕ → Type 0
Fits buf r = (0 < r.1) × (r.1 ≤ length buf)

module _ (x : External) (buf : Bytes) where
  pub read_int_bounds : Ensures ⊥ (λ r. (3 ≤ r.1) × (r.1 ≤ length buf)) (read_int x buf)
  unfolding read_int
  read_int_bounds =
      Ensures-bind (read_line_bounds x buf 1) (λ s. s)
        λ (line, next) (lo, hi). Ensures-after (parse_int-Ends line) λ n. holds (omega arith, hi)

  pub simple_string_bounds : Ensures ⊥ (Fits buf) (parse_simple_string x buf)
  unfolding parse_simple_string
  simple_string_bounds =
      Ensures-bind (read_line_bounds x buf 1) (λ s. s)
        λ (line, next) (lo, hi). Ensures-after (simple_text-Ends line) λ s. holds (omega arith, hi)

  pub simple_error_bounds : Ensures ⊥ (Fits buf) (parse_simple_error x buf)
  unfolding parse_simple_error
  simple_error_bounds =
      Ensures-bind (read_line_bounds x buf 1) (λ s. s)
        λ (line, next) (lo, hi). Ensures-after (utf8-Ends _ line) λ s. holds (omega arith, hi)

  pub integer_bounds : Ensures ⊥ (Fits buf) (parse_integer x buf)
  unfolding parse_integer
  integer_bounds =
      Ensures-bind read_int_bounds (λ s. s) λ (n, next) (lo, hi). holds (omega arith, hi)

  pub read_text_bounds :
      (part : Part) (next len : ℕ)
      → Ensures ⊥ (λ _. next + len + 2 ≤ length buf) (read_text part buf next len)
  unfolding read_text
  read_text_bounds part next len =
      Ensures-refuse _ _ λ fits. Ensures-refuse _ _ λ _. holds (ground arith)

  pub bulk_string_bounds : Ensures ⊥ (Fits buf) (parse_bulk_string x buf)
  unfolding parse_bulk_string
  bulk_string_bounds =
      Ensures-bind read_int_bounds (λ s. s)
        λ (len, next) (lo, hi).
          Ensures-if (is_negative len) (λ _. holds (omega arith, hi))
            (λ _.
              Ensures-bind (read_text_bounds _ next (pos_part len)) (λ s. s)
                λ text fits. holds (omega arith, fits))

  pub null_bounds : Ensures ⊥ (Fits buf) (parse_null buf)
  unfolding parse_null
  null_bounds = Ensures-refuse _ _ λ fits. Ensures-refuse _ _ λ _. holds (ground arith)

  pub boolean_bounds : Ensures ⊥ (Fits buf) (parse_boolean buf)
  unfolding parse_boolean
  boolean_bounds =
      Ensures-refuse _ _ λ fits.
        Ensures-after (boolean_of-Ends buf) λ b. Ensures-refuse _ _ λ _. holds (ground arith)

  pub double_bounds : Ensures ⊥ (Fits buf) (parse_double x buf)
  unfolding parse_double
  double_bounds =
      Ensures-bind (read_line_bounds x buf 1) (λ s. s)
        λ (line, next) (lo, hi).
          Ensures-after (utf8-Ends _ line)
            λ s. Ensures-after (double_of-Ends x s) λ d. holds (omega arith, hi)

  pub big_number_bounds : Ensures ⊥ (Fits buf) (parse_big_number x buf)
  unfolding parse_big_number
  big_number_bounds =
      Ensures-bind (read_line_bounds x buf 1) (λ s. s)
        λ (line, next) (lo, hi).
          Ensures-after (utf8-Ends _ line) λ s. Ensures-refuse _ _ λ _. holds (omega arith, hi)

  pub bulk_error_bounds : Ensures ⊥ (Fits buf) (parse_bulk_error x buf)
  unfolding parse_bulk_error
  bulk_error_bounds =
      Ensures-bind read_int_bounds (λ s. s)
        λ (len, next) (lo, hi). Ensures-refuse _ _ λ _.
          Ensures-bind (read_text_bounds _ next (pos_part len)) (λ s. s)
            λ text fits. Ensures-after (utf8-Ends _ text) λ s. holds (omega arith, fits)

  pub verbatim_bounds : Ensures ⊥ (Fits buf) (parse_verbatim_string x buf)
  unfolding parse_verbatim_string
  verbatim_bounds =
      Ensures-bind read_int_bounds (λ s. s)
        λ (len, next) (lo, hi). Ensures-refuse _ _ λ _.
          Ensures-bind (read_text_bounds _ next (pos_part len)) (λ s. s)
            λ text fits.
              Ensures-after (verbatim_of-Ends (pos_part len) text) λ s. holds (omega arith, fits)
