-- ===== src/Resp/Parser/Bounds.antt =====
-- `parse` of src/resp/parser.rs: how much of the buffer it consumes, and its fuel.
use pyrsedis.Prelude.{
  ℕ, zero, suc, ◌+◌, ◌-◌, ◌≤◌, ◌<◌, [], ◌∷◌, Bytes, length, length-drop, drop, arith, pos_part,
  is_negative,
}
use pyrsedis.External.{External}
use pyrsedis.Outcome.Rules.{
  Ensures, holds, fails, starves, Ensures-weaken, Ensures-if, Ensures-bind, Ensures-refuse,
  Ensures-after,
}
use pyrsedis.Resp.Parser.{
  Parsed, parse_values, parse_pairs, parse_array, parse_map, parse_set, parse_push,
  parse_push_items, parse_attribute, parse_tag, parse_within, parse,
}
use pyrsedis.Resp.Parser.Ends.{with_capacity-Ends, kind_of-Ends}
use pyrsedis.Resp.Parser.Inline.{
  Fits, read_int_bounds, simple_string_bounds, simple_error_bounds, integer_bounds,
  bulk_string_bounds, null_bounds, boolean_bounds, double_bounds, big_number_bounds,
  bulk_error_bounds, verbatim_bounds,
}
use pyrsedis.Resp.Tag.{Tag, tag_of}
use pyrsedis.Resp.Types.{RespValue}

module _ {P : RespValue × ℕ → Type 0} {S : Type 0} {r : Parsed} where
  Ensures-inline : Ensures ⊥ P r → Ensures S P r
  Ensures-inline e = Ensures-weaken e absurd (λ a h. h)

-- The types that hold other values, from what the call of `parse` promises on shorter input.
module _ (x : External) (rec : Bytes → Parsed) (buf : Bytes) {S : Type 0}
    (shorter : (s : Bytes)
      → length s < length buf
      → Ensures S (λ r. (0 < r.1) × (r.1 ≤ length s)) (rec s)) where
  pub rec_bounds :
      (next : ℕ)
      → 0 < next
      → next ≤ length buf
      → Ensures S (λ r. (0 < r.1) × (next + r.1 ≤ length buf)) (rec (drop next buf))
  rec_bounds next p le =
      Ensures-weaken (shorter (drop next buf) (omega (arith, length-drop next buf))) (λ s. s)
        λ r (lo, hi). (lo, omega (arith, length-drop next buf))

  pub values_bounds :
      (count next : ℕ)
      → 0 < next
      → next ≤ length buf
      → Ensures S (λ r. (next ≤ r.1) × (r.1 ≤ length buf)) (parse_values rec buf count next)
  unfolding parse_values
  values_bounds zero next p le = holds (omega arith, le)
  values_bounds (suc count) next p le =
      Ensures-bind (rec_bounds next p le) (λ s. s)
        λ (val, consumed) (lo, hi).
          Ensures-bind (values_bounds count (next + consumed) (omega arith) hi) (λ s. s)
            λ (vals, stop) (lo', hi'). holds (omega arith, hi')

  pub pairs_bounds :
      (count next : ℕ)
      → 0 < next
      → next ≤ length buf
      → Ensures S (λ r. (next ≤ r.1) × (r.1 ≤ length buf)) (parse_pairs rec buf count next)
  unfolding parse_pairs
  pairs_bounds zero next p le = holds (omega arith, le)
  pairs_bounds (suc count) next p le =
      Ensures-bind (rec_bounds next p le) (λ s. s)
        λ (key, consumed_k) (lo, hi).
          Ensures-bind (rec_bounds (next + consumed_k) (omega arith) hi) (λ s. s)
            λ (val, consumed_v) (lo', hi').
              Ensures-bind (pairs_bounds count (next + consumed_k + consumed_v) (omega arith) hi')
                (λ s. s) λ (ps, stop) (lo'', hi''). holds (omega arith, hi'')

  array_bounds : Ensures S (Fits buf) (parse_array x rec buf)
  unfolding parse_array
  array_bounds = Ensures-bind (read_int_bounds x buf) absurd λ (count, next) (lo, hi).
      Ensures-if (is_negative count) (λ _. holds (omega arith, hi))
        (λ _. Ensures-after (with_capacity-Ends (pos_part count) x.value_size) λ _.
          Ensures-bind (values_bounds (pos_part count) next (omega arith) hi) (λ s. s)
            λ (elements, stop) (lo', hi'). holds (omega arith, hi'))

  map_bounds : Ensures S (Fits buf) (parse_map x rec buf)
  unfolding parse_map
  map_bounds = Ensures-bind (read_int_bounds x buf) absurd λ (count, next) (lo, hi).
      Ensures-refuse _ _ λ _. Ensures-after (with_capacity-Ends (pos_part count) _) λ _.
        Ensures-bind (pairs_bounds (pos_part count) next (omega arith) hi) (λ s. s)
          λ (pairs, stop) (lo', hi'). holds (omega arith, hi')

  set_bounds : Ensures S (Fits buf) (parse_set x rec buf)
  unfolding parse_set
  set_bounds = Ensures-bind (read_int_bounds x buf) absurd λ (count, next) (lo, hi).
      Ensures-refuse _ _ λ _. Ensures-after (with_capacity-Ends (pos_part count) _) λ _.
        Ensures-bind (values_bounds (pos_part count) next (omega arith) hi) (λ s. s)
          λ (elements, stop) (lo', hi'). holds (omega arith, hi')

  push_bounds : Ensures S (Fits buf) (parse_push x rec buf)
  unfolding parse_push parse_push_items
  push_bounds = Ensures-bind (read_int_bounds x buf) absurd λ (count, next) (lo, hi).
      Ensures-refuse _ _ λ _. Ensures-refuse _ _ λ _.
        Ensures-bind (rec_bounds next (omega arith) hi) (λ s. s)
          λ (kind_val, consumed) (lo', hi'). Ensures-after (kind_of-Ends kind_val) λ kind.
            Ensures-after (with_capacity-Ends (pos_part count - 1) _) λ _.
              Ensures-bind (values_bounds (pos_part count - 1) (next + consumed) (omega arith) hi')
                (λ s. s) λ (items, stop) (lo'', hi''). holds (omega arith, hi'')

  attribute_bounds : Ensures S (Fits buf) (parse_attribute x rec buf)
  unfolding parse_attribute
  attribute_bounds = Ensures-bind (read_int_bounds x buf) absurd λ (count, next) (lo, hi).
      Ensures-refuse _ _ λ _. Ensures-after (with_capacity-Ends (pos_part count) _) λ _.
        Ensures-bind (pairs_bounds (pos_part count) next (omega arith) hi) (λ s. s)
          λ (attributes, stop) (lo', hi').
            Ensures-bind (rec_bounds stop (omega arith) hi') (λ s. s)
              λ (val, consumed) (lo'', hi''). holds (omega arith, hi'')

  tag_bounds : (t : Tag) → Ensures S (Fits buf) (parse_tag x rec buf t)
  unfolding parse_tag
  tag_bounds Tag.plus = Ensures-inline (simple_string_bounds x buf)
  tag_bounds Tag.minus = Ensures-inline (simple_error_bounds x buf)
  tag_bounds Tag.colon = Ensures-inline (integer_bounds x buf)
  tag_bounds Tag.dollar = Ensures-inline (bulk_string_bounds x buf)
  tag_bounds Tag.star = array_bounds
  tag_bounds Tag.underscore = Ensures-inline (null_bounds x buf)
  tag_bounds Tag.hash = Ensures-inline (boolean_bounds x buf)
  tag_bounds Tag.comma = Ensures-inline (double_bounds x buf)
  tag_bounds Tag.paren = Ensures-inline (big_number_bounds x buf)
  tag_bounds Tag.bang = Ensures-inline (bulk_error_bounds x buf)
  tag_bounds Tag.equals = Ensures-inline (verbatim_bounds x buf)
  tag_bounds Tag.percent = map_bounds
  tag_bounds Tag.tilde = set_bounds
  tag_bounds Tag.greater = push_bounds
  tag_bounds Tag.bar = attribute_bounds
  tag_bounds (Tag.unknown other) = fails

-- Any run of `parse_within`: what a value consumes is not nothing and lies inside the buffer, and
-- only with less fuel than bytes can the fuel run out.
pub parse_within_bounds :
    (x : External) (fuel : ℕ) (buf : Bytes)
    → Ensures (fuel ≤ length buf) (λ r. (0 < r.1) × (r.1 ≤ length buf)) (parse_within x fuel buf)
unfolding parse_within
parse_within_bounds x zero buf = starves (omega arith)
parse_within_bounds x (suc fuel) [] = fails
parse_within_bounds x (suc fuel) (b ∷ s) =
    tag_bounds x (parse_within x fuel) (b ∷ s)
      (λ t lt. Ensures-weaken (parse_within_bounds x fuel t) (λ h. omega arith) (λ r h. h))
      (tag_of b)

-- `parse` ends on every input, with no need of more fuel than its input is long, and a value that it
-- returns was read from at least one byte and from no byte past the buffer.
pub parse_bounds :
    (x : External) (buf : Bytes) → Ensures ⊥ (λ r. (0 < r.1) × (r.1 ≤ length buf)) (parse x buf)
unfolding parse
parse_bounds x buf =
    Ensures-weaken (parse_within_bounds x (suc (length buf)) buf) (λ h. omega arith) (λ r h. h)
