-- ===== src/Resp/Parser/Stream.antt =====
-- `parse` on a growing buffer.
pub mod Inline
use pyrsedis.Prelude.{
  ℕ, zero, suc, ◌+◌, ◌-◌, ◌≤◌, ◌<◌, ◌≡◌, refl, ◌≢◌, Bool, true, false, [], ◌∷◌, Bytes, length,
  length-drop, drop, arith, ℤ, pos_part, is_negative, ◌==◌, drop-append_left, length-append, ◌++◌,
  sym, ap, ◌*◌, Bool-cases, inl, inr, bytes_eq, codes, pos, checked_mul, checked_sub, Option, none,
  some,
}
use pyrsedis.Error.{Part, PyrsedisError, incomplete}
use pyrsedis.External.{External}
use pyrsedis.Outcome.{Outcome, ok, fail, panic, stuck, ◌>>=◌, ok_or}
use pyrsedis.Outcome.Rules.{
  Ensures, Ends, Ends-of-ne-stuck, holds, fails, panics, starves, Ensures-weaken, Ensures-if,
  Ensures-bind, Ensures-refuse, Ensures-after, Ensures-stuck, Settles, same, waits, starves,
  Settles-if, Settles-bind, Settles-after, Settles-refuse, Settles-eq, ok_or-Ends, Ensures-ok,
}
use pyrsedis.Resp.Line.{read_line}
use pyrsedis.Resp.Line.Ends.{parse_int-Ends}
use pyrsedis.Resp.Line.Laws.{read_line_bounds}
use pyrsedis.Resp.Parser.{
  Parsed, with_capacity, read_int, utf8, simple_text, parse_simple_string, parse_simple_error,
  parse_integer, read_text, parse_bulk_string, parse_null, boolean_of, parse_boolean, double_of,
  parse_double, parse_big_number, parse_bulk_error, verbatim_of, parse_verbatim_string,
  parse_values, parse_pairs, kind_of, parse_array, parse_map, parse_set, parse_push,
  parse_push_items, parse_attribute, parse_tag, parse_within, parse,
}
use pyrsedis.Resp.Parser.Ends.{
  with_capacity-Ends, utf8-Ends, simple_text-Ends, double_of-Ends, boolean_of-Ends,
  verbatim_of-Ends, kind_of-Ends,
}
use pyrsedis.Resp.Parser.Inline.{
  Fits, read_int_bounds, simple_string_bounds, simple_error_bounds, integer_bounds,
  bulk_string_bounds, null_bounds, boolean_bounds, double_bounds, big_number_bounds,
  bulk_error_bounds, verbatim_bounds,
}
use pyrsedis.Resp.Tag.{Tag, tag_of}
use pyrsedis.Resp.Types.{RespValue}
use pyrsedis.Text.Number.{is_digit}
use pyrsedis.Resp.Parser.Bounds.{
  rec_bounds, values_bounds, pairs_bounds, parse_within_bounds, parse_bounds,
}
use Inline.{
  read_int-Settles, simple_string-Settles, simple_error-Settles, integer-Settles, double-Settles,
  big_number-Settles, bulk_string-Settles, bulk_error-Settles, verbatim-Settles, null-Settles,
  boolean-Settles,
}

-- The types that hold other values. The two calls of `parse` are made with unlike fuel.
module _ (x : External) (rec rec' : Bytes → Parsed) (buf more : Bytes) {S : Type 0}
    (full : 0 < length buf)
    (shorter : (s : Bytes)
      → length s < length buf
      → Ensures S (λ r. (0 < r.1) × (r.1 ≤ length s)) (rec s))
    (settle : (s : Bytes) → length s < length buf → Settles (rec s) (rec' (s ++ more))) where
  rec-Settles :
      (next : ℕ)
      → 0 < next
      → next ≤ length buf
      → Settles (rec (drop next buf)) (rec' (drop next (buf ++ more)))
  rec-Settles next p le =
      rw (drop-append_left next buf more le)
        (settle (drop next buf) (omega (arith, length-drop next buf)))

  values-Settles :
      (count next : ℕ)
      → 0 < next
      → next ≤ length buf
      → Settles (parse_values rec buf count next) (parse_values rec' (buf ++ more) count next)
  unfolding parse_values
  values-Settles zero next p le = same refl
  values-Settles (suc count) next p le = Settles-bind (rec-Settles next p le) λ (val, consumed) e.
      let (lo, hi) = Ensures-ok (rec_bounds x rec buf shorter next p le) e in
      Settles-bind (values-Settles count (next + consumed) (omega arith) hi) λ r _. same refl

  pairs-Settles :
      (count next : ℕ)
      → 0 < next
      → next ≤ length buf
      → Settles (parse_pairs rec buf count next) (parse_pairs rec' (buf ++ more) count next)
  unfolding parse_pairs
  pairs-Settles zero next p le = same refl
  pairs-Settles (suc count) next p le = Settles-bind (rec-Settles next p le) λ (key, consumed_k) e.
      let (lo, hi) = Ensures-ok (rec_bounds x rec buf shorter next p le) e in
      Settles-bind (rec-Settles (next + consumed_k) (omega arith) hi) λ (val, consumed_v) e'.
        let (lo', hi') =
          Ensures-ok (rec_bounds x rec buf shorter (next + consumed_k) (omega arith) hi) e' in
        Settles-bind (pairs-Settles count (next + consumed_k + consumed_v) (omega arith) hi')
          λ r _. same refl

  array-Settles : Settles (parse_array x rec buf) (parse_array x rec' (buf ++ more))
  unfolding parse_array
  array-Settles = Settles-bind (read_int-Settles x buf more full) λ (count, next) e.
      let (lo, hi) = Ensures-ok (read_int_bounds x buf) e in
      Settles-if (is_negative count) (λ _. same refl)
        λ _.
          Settles-after (with_capacity (pos_part count) x.value_size) λ _.
            Settles-bind (values-Settles (pos_part count) next (omega arith) hi) λ r _. same refl

  map-Settles : Settles (parse_map x rec buf) (parse_map x rec' (buf ++ more))
  unfolding parse_map
  map-Settles = Settles-bind (read_int-Settles x buf more full) λ (count, next) e.
      let (lo, hi) = Ensures-ok (read_int_bounds x buf) e in
      Settles-refuse _ _ _ refl λ _.
        Settles-after (with_capacity (pos_part count) (2 * x.value_size))
          λ _. Settles-bind (pairs-Settles (pos_part count) next (omega arith) hi) λ r _. same refl

  set-Settles : Settles (parse_set x rec buf) (parse_set x rec' (buf ++ more))
  unfolding parse_set
  set-Settles = Settles-bind (read_int-Settles x buf more full) λ (count, next) e.
      let (lo, hi) = Ensures-ok (read_int_bounds x buf) e in
      Settles-refuse _ _ _ refl λ _.
        Settles-after (with_capacity (pos_part count) x.value_size)
          λ _. Settles-bind (values-Settles (pos_part count) next (omega arith) hi) λ r _. same refl

  push-Settles : Settles (parse_push x rec buf) (parse_push x rec' (buf ++ more))
  unfolding parse_push parse_push_items
  push-Settles = Settles-bind (read_int-Settles x buf more full) λ (count, next) e.
      let (lo, hi) = Ensures-ok (read_int_bounds x buf) e in
      Settles-refuse _ _ _ refl λ _. Settles-refuse _ _ _ refl λ _.
        Settles-bind (rec-Settles next (omega arith) hi) λ (kind_val, consumed) e'.
          let (lo', hi') = Ensures-ok (rec_bounds x rec buf shorter next (omega arith) hi) e' in
          Settles-after (kind_of kind_val) λ kind.
            Settles-after (with_capacity (pos_part count - 1) x.value_size) λ _.
              Settles-bind (values-Settles (pos_part count - 1) (next + consumed) (omega arith) hi')
                λ r _. same refl

  attribute-Settles : Settles (parse_attribute x rec buf) (parse_attribute x rec' (buf ++ more))
  unfolding parse_attribute
  attribute-Settles = Settles-bind (read_int-Settles x buf more full) λ (count, next) e.
      let (lo, hi) = Ensures-ok (read_int_bounds x buf) e in
      Settles-refuse _ _ _ refl λ _.
        Settles-after (with_capacity (pos_part count) (2 * x.value_size)) λ _.
          Settles-bind (pairs-Settles (pos_part count) next (omega arith) hi)
            λ (attributes, stop) e'.
              let (lo', hi') =
                Ensures-ok (pairs_bounds x rec buf shorter (pos_part count) next (omega arith) hi)
                  e' in
              Settles-bind (rec-Settles stop (omega arith) hi') λ r _. same refl

  tag-Settles : (t : Tag) → Settles (parse_tag x rec buf t) (parse_tag x rec' (buf ++ more) t)
  unfolding parse_tag
  tag-Settles Tag.plus = simple_string-Settles x buf more full
  tag-Settles Tag.minus = simple_error-Settles x buf more full
  tag-Settles Tag.colon = integer-Settles x buf more full
  tag-Settles Tag.dollar = bulk_string-Settles x buf more full
  tag-Settles Tag.star = array-Settles
  tag-Settles Tag.underscore = null-Settles buf more
  tag-Settles Tag.hash = boolean-Settles buf more
  tag-Settles Tag.comma = double-Settles x buf more full
  tag-Settles Tag.paren = big_number-Settles x buf more full
  tag-Settles Tag.bang = bulk_error-Settles x buf more full
  tag-Settles Tag.equals = verbatim-Settles x buf more full
  tag-Settles Tag.percent = map-Settles
  tag-Settles Tag.tilde = set-Settles
  tag-Settles Tag.greater = push-Settles
  tag-Settles Tag.bar = attribute-Settles
  tag-Settles (Tag.unknown other) = same refl

pub parse_within-Settles :
    (x : External) (fuel fuel' : ℕ) (buf more : Bytes)
    → fuel ≤ fuel'
    → Settles (parse_within x fuel buf) (parse_within x fuel' (buf ++ more))
unfolding parse_within
parse_within-Settles x zero fuel' buf more le = starves
parse_within-Settles x (suc fuel) zero buf more le = absurd (omega arith)
parse_within-Settles x (suc fuel) (suc fuel') [] more le = waits
parse_within-Settles x (suc fuel) (suc fuel') (b ∷ s) more le =
    tag-Settles x (parse_within x fuel) (parse_within x fuel') (b ∷ s) more {S = Unit {0}}
      (omega arith) (λ t lt. Ensures-weaken (parse_within_bounds x fuel t) (λ h. tt) (λ r h. h))
      (λ t lt. parse_within-Settles x fuel fuel' t more (omega arith)) (tag_of b)

-- Every answer of `parse` but `Incomplete`, a value as well as an error, stands however the buffer
-- goes on: reading more bytes never changes it.
pub parse-append :
    (x : External) (buf more : Bytes)
    → parse x buf ≢ fail incomplete
    → parse x (buf ++ more) ≡ parse x buf
parse-append x buf more h = Settles-eq grown h (λ e. Ensures-stuck (parse_bounds x buf) e)
  where
    grown : Settles (parse x buf) (parse x (buf ++ more))
    grown =
        unfold parse in
        parse_within-Settles x (suc (length buf)) (suc (length (buf ++ more))) buf more
          (omega (arith, length-append buf more))
