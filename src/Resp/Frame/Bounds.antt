-- ===== src/Resp/Frame/Bounds.antt =====
-- `resp_frame_len` of src/resp/parser.rs: its lengths and its fuel.
use pyrsedis.Prelude.{
  ℕ, zero, suc, ◌+◌, ◌≤◌, ◌<◌, [], ◌∷◌, Bytes, length, length-drop, drop, arith, pos_part,
  is_negative, ltb→le,
}
use pyrsedis.External.{External}
use pyrsedis.Outcome.{Outcome}
use pyrsedis.Outcome.Rules.{
  Ensures, holds, fails, starves, Ensures-weaken, Ensures-if, Ensures-bind, Ensures-refuse,
}
use pyrsedis.Resp.Frame.{
  frame_line, frame_bulk, frame_fixed, frame_values, frame_pairs, frame_array, frame_map,
  frame_attribute, frame_tag, frame_within, resp_frame_len,
}
use pyrsedis.Resp.Line.Laws.{read_line_bounds}
use pyrsedis.Resp.Parser.Inline.{read_int_bounds}
use pyrsedis.Resp.Tag.{Tag, tag_of}

-- A length that is not nothing and inside the buffer.
abbrev pub Inside : Bytes → ℕ → Type 0
Inside buf n = (0 < n) × (n ≤ length buf)

module _ (x : External) (rec : Bytes → Outcome ℕ) (buf : Bytes) {S : Type 0}
    (shorter : (s : Bytes) → length s < length buf → Ensures S (Inside s) (rec s)) where
  pub rec_bounds :
      (next : ℕ)
      → 0 < next
      → next ≤ length buf
      → Ensures S (λ n. (0 < n) × (next + n ≤ length buf)) (rec (drop next buf))
  rec_bounds next p le =
      Ensures-weaken (shorter (drop next buf) (omega (arith, length-drop next buf))) (λ s. s)
        λ n (lo, hi). (lo, omega (arith, length-drop next buf))

  values_bounds :
      (count next : ℕ)
      → 0 < next
      → next ≤ length buf
      → Ensures S (Inside buf) (frame_values rec buf count next)
  unfolding frame_values
  values_bounds zero next p le = holds (p, le)
  values_bounds (suc count) next p le =
      Ensures-bind (rec_bounds next p le) (λ s. s)
        λ n (lo, hi). values_bounds count (next + n) (omega arith) hi

  pub pairs_bounds :
      (count next : ℕ)
      → 0 < next
      → next ≤ length buf
      → Ensures S (Inside buf) (frame_pairs rec buf count next)
  unfolding frame_pairs
  pairs_bounds zero next p le = holds (p, le)
  pairs_bounds (suc count) next p le =
      Ensures-bind (rec_bounds next p le) (λ s. s)
        λ n (lo, hi).
          Ensures-bind (rec_bounds (next + n) (omega arith) hi) (λ s. s)
            λ m (lo', hi'). pairs_bounds count (next + n + m) (omega arith) hi'

  line_bounds : Ensures S (Inside buf) (frame_line x buf)
  unfolding frame_line
  line_bounds =
      Ensures-bind (read_line_bounds x buf 1) absurd
        λ (line, next) (lo, hi). holds (omega arith, hi)

  fixed_bounds : (n : ℕ) → 0 < n → Ensures S (Inside buf) (frame_fixed n buf)
  unfolding frame_fixed
  fixed_bounds n p = Ensures-refuse _ _ λ fits. holds (p, ltb→le (length buf) n fits)

  bulk_bounds : Ensures S (Inside buf) (frame_bulk x buf)
  unfolding frame_bulk
  bulk_bounds = Ensures-bind (read_int_bounds x buf) absurd λ (len, next) (lo, hi).
      Ensures-if (is_negative len) (λ _. holds (omega arith, hi))
        (λ _. Ensures-refuse _ _ λ fits. holds (omega arith, ltb→le (length buf) _ fits))

  array_bounds : Ensures S (Inside buf) (frame_array x rec buf)
  unfolding frame_array
  array_bounds = Ensures-bind (read_int_bounds x buf) absurd λ (count, next) (lo, hi).
      Ensures-if (is_negative count) (λ _. holds (omega arith, hi))
        (λ _. values_bounds (pos_part count) next (omega arith) hi)

  map_bounds : Ensures S (Inside buf) (frame_map x rec buf)
  unfolding frame_map
  map_bounds = Ensures-bind (read_int_bounds x buf) absurd λ (count, next) (lo, hi).
      Ensures-refuse _ _ λ _. pairs_bounds (pos_part count) next (omega arith) hi

  attribute_bounds : Ensures S (Inside buf) (frame_attribute x rec buf)
  unfolding frame_attribute
  attribute_bounds = Ensures-bind (read_int_bounds x buf) absurd λ (count, next) (lo, hi).
      Ensures-refuse _ _ λ _.
        Ensures-bind (pairs_bounds (pos_part count) next (omega arith) hi) (λ s. s)
          λ stop (lo', hi').
            Ensures-bind (rec_bounds stop lo' hi') (λ s. s)
              λ n (lo'', hi''). holds (omega arith, hi'')

  tag_bounds : (t : Tag) → Ensures S (Inside buf) (frame_tag x rec buf t)
  unfolding frame_tag
  tag_bounds Tag.plus = line_bounds
  tag_bounds Tag.minus = line_bounds
  tag_bounds Tag.colon = line_bounds
  tag_bounds Tag.comma = line_bounds
  tag_bounds Tag.paren = line_bounds
  tag_bounds Tag.underscore = fixed_bounds 3 (omega arith)
  tag_bounds Tag.hash = fixed_bounds 4 (omega arith)
  tag_bounds Tag.dollar = bulk_bounds
  tag_bounds Tag.bang = bulk_bounds
  tag_bounds Tag.equals = bulk_bounds
  tag_bounds Tag.star = array_bounds
  tag_bounds Tag.tilde = array_bounds
  tag_bounds Tag.greater = array_bounds
  tag_bounds Tag.percent = map_bounds
  tag_bounds Tag.bar = attribute_bounds
  tag_bounds (Tag.unknown other) = fails

pub frame_within_bounds :
    (x : External) (fuel : ℕ) (buf : Bytes)
    → Ensures (fuel ≤ length buf) (Inside buf) (frame_within x fuel buf)
unfolding frame_within
frame_within_bounds x zero buf = starves (omega arith)
frame_within_bounds x (suc fuel) [] = fails
frame_within_bounds x (suc fuel) (b ∷ s) =
    tag_bounds x (frame_within x fuel) (b ∷ s)
      (λ t lt. Ensures-weaken (frame_within_bounds x fuel t) (λ h. omega arith) (λ r h. h))
      (tag_of b)

-- `resp_frame_len` ends on every input, with no need of more fuel than its input is long, and a
-- length that it returns is at least 1 and at most that of the buffer.
pub resp_frame_len_bounds :
    (x : External) (buf : Bytes) → Ensures ⊥ (Inside buf) (resp_frame_len x buf)
unfolding resp_frame_len
resp_frame_len_bounds x buf =
    Ensures-weaken (frame_within_bounds x (suc (length buf)) buf) (λ h. omega arith) (λ r h. h)
