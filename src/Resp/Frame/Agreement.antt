-- ===== src/Resp/Frame/Agreement.antt =====
-- `resp_frame_len` against `parse`.
use pyrsedis.Prelude.{
  ℕ, ℤ, zero, suc, ◌+◌, ◌-◌, ◌≡◌, refl, sym, subst, ap, [], ◌∷◌, Bytes, length, drop, ltb, pos_part,
  is_negative, ◌==◌, arith,
}
use pyrsedis.Error.{Part, incomplete}
use pyrsedis.External.{External}
use pyrsedis.Outcome.{Outcome, ok, refuse}
use pyrsedis.Outcome.Rules.{
  Follows, both, fails, starves, Follows-bind, Follows-after, Follows-left, Follows-if, Follows-ok,
  Follows-refuse_if, Follows-refuse_left, Follows-trail, Follows-refl, Follows-gate,
}
use pyrsedis.Resp.Line.{read_line, parse_int_from_bytes}
use pyrsedis.Resp.Parser.{
  Parsed, with_capacity, read_int, utf8, simple_text, parse_simple_string, parse_simple_error,
  parse_integer, read_text, parse_bulk_string, parse_null, boolean_of, parse_boolean, double_of,
  parse_double, parse_big_number, parse_bulk_error, verbatim_of, parse_verbatim_string,
  parse_values, parse_pairs, kind_of, parse_array, parse_map, parse_set, parse_push,
  parse_push_items, parse_attribute, parse_tag, parse_within, parse,
}
use pyrsedis.Resp.Frame.{
  frame_line, frame_bulk, frame_fixed, frame_values, frame_pairs, frame_array, frame_map,
  frame_attribute, frame_tag, frame_within, resp_frame_len,
}
use pyrsedis.Resp.Tag.{Tag, tag_of}
use pyrsedis.Resp.Types.{RespValue}

-- The first call returns a value and where it stops; the second returns where it stops.
abbrev Stops {ℓ} : {A : Type ℓ} → A × ℕ → ℕ → Type 0
Stops r n = r.1 ≡ n

abbrev Both : {A : Type 0} → Outcome (A × ℕ) → Outcome ℕ → Type 0
Both = Follows Stops

module _ (x : External) (buf : Bytes) where
  simple_string_frame : Both (parse_simple_string x buf) (frame_line x buf)
  unfolding parse_simple_string frame_line
  simple_string_frame =
      Follows-after (read_line x buf 1)
        λ (line, next) _. Follows-left (simple_text line) λ s _. both refl

  simple_error_frame : Both (parse_simple_error x buf) (frame_line x buf)
  unfolding parse_simple_error frame_line
  simple_error_frame =
      Follows-after (read_line x buf 1)
        λ (line, next) _. Follows-left (utf8 Part.simple_error line) λ s _. both refl

  int_line : Follows (λ (r : ℤ × ℕ) (s : Bytes × ℕ). r.1 ≡ s.1) (read_int x buf) (read_line x buf 1)
  unfolding read_int
  int_line =
      Follows-trail (Follows-refl (read_line x buf 1))
        λ r s e. Follows-left (parse_int_from_bytes r.0) λ n _. both (ap (λ (t : Bytes × ℕ). t.1) e)

  integer_frame : Both (parse_integer x buf) (frame_line x buf)
  unfolding parse_integer frame_line
  integer_frame = Follows-bind int_line λ r s e. both e

  double_frame : Both (parse_double x buf) (frame_line x buf)
  unfolding parse_double frame_line
  double_frame = Follows-after (read_line x buf 1) λ (line, next) _.
      Follows-left (utf8 Part.double line) λ s _. Follows-left (double_of x s) λ d _. both refl

  big_number_frame : Both (parse_big_number x buf) (frame_line x buf)
  unfolding parse_big_number frame_line
  big_number_frame = Follows-after (read_line x buf 1) λ (line, next) _.
      Follows-left (utf8 Part.big_number line) λ s _. Follows-left (refuse _ _) λ _ _. both refl

  null_frame : Both (parse_null buf) (frame_fixed 3 buf)
  unfolding parse_null frame_fixed
  null_frame =
      Follows-after (refuse (ltb (length buf) 3) incomplete)
        λ _ _. Follows-left (refuse _ _) λ _ _. both refl

  boolean_frame : Both (parse_boolean buf) (frame_fixed 4 buf)
  unfolding parse_boolean frame_fixed
  boolean_frame =
      Follows-after (refuse (ltb (length buf) 4) incomplete)
        λ _ _. Follows-left (boolean_of buf) λ b _. Follows-left (refuse _ _) λ _ _. both refl

  text_frame :
      (part : Part) (next len : ℕ)
      → Follows
          (λ _ _. Unit {0})
          (read_text part buf next len)
          (refuse (ltb (length buf) (next + len + 2)) incomplete)
  unfolding read_text
  text_frame part next len =
      Follows-gate (ltb (length buf) (next + len + 2)) incomplete
        (Follows-left (refuse _ _) λ _ _. both tt)

  bulk_string_frame : Both (parse_bulk_string x buf) (frame_bulk x buf)
  unfolding parse_bulk_string frame_bulk
  bulk_string_frame = Follows-after (read_int x buf) λ (len, next) _.
      Follows-if (is_negative len) (λ _. both refl)
        λ _. Follows-bind (text_frame Part.bulk_string next (pos_part len)) λ text _ _. both refl

  bulk_error_frame : Both (parse_bulk_error x buf) (frame_bulk x buf)
  unfolding parse_bulk_error frame_bulk
  bulk_error_frame = Follows-after (read_int x buf) λ (len, next) _.
      Follows-refuse_if (is_negative len) _ _ λ _.
        Follows-bind (text_frame Part.bulk_error next (pos_part len))
          λ text _ _. Follows-left (utf8 Part.bulk_error text) λ s _. both refl

  verbatim_frame : Both (parse_verbatim_string x buf) (frame_bulk x buf)
  unfolding parse_verbatim_string frame_bulk
  verbatim_frame = Follows-after (read_int x buf) λ (len, next) _.
      Follows-refuse_if (is_negative len) _ _ λ _.
        Follows-bind (text_frame Part.verbatim next (pos_part len))
          λ text _ _. Follows-left (verbatim_of (pos_part len) text) λ v _. both refl

module _ (x : External) (rec : Bytes → Parsed) (rec' : Bytes → Outcome ℕ) (buf : Bytes)
    (agree : (s : Bytes) → Both (rec s) (rec' s)) where
  values_frame :
      (count next next' : ℕ)
      → next ≡ next'
      → Both (parse_values rec buf count next) (frame_values rec' buf count next')
  unfolding parse_values frame_values
  values_frame zero next next' e = both e
  values_frame (suc count) next next' e = rw (← e) (
      Follows-bind (agree (drop next buf)) λ (val, consumed) n h.
        Follows-trail (values_frame count (next + consumed) (next + n) (ap (λ k. next + k) h))
          λ (vals, stop) n' h'. both h')

  pairs_frame :
      (count next next' : ℕ)
      → next ≡ next'
      → Both (parse_pairs rec buf count next) (frame_pairs rec' buf count next')
  unfolding parse_pairs frame_pairs
  pairs_frame zero next next' e = both e
  pairs_frame (suc count) next next' e = rw (← e) (
      Follows-bind (agree (drop next buf)) λ (key, consumed_k) k_len h. rw (← h) (
        Follows-bind (agree (drop (next + consumed_k) buf)) λ (val, consumed_v) v_len h'.
          Follows-trail
            (pairs_frame count (next + consumed_k + consumed_v) (next + consumed_k + v_len)
              (ap (λ k. next + consumed_k + k) h'))
            λ (ps, stop) n h''. both h''))

  array_frame : Both (parse_array x rec buf) (frame_array x rec' buf)
  unfolding parse_array frame_array
  array_frame = Follows-after (read_int x buf) λ (count, next) _.
      Follows-if (is_negative count) (λ _. both refl)
        λ _.
          Follows-left (with_capacity _ _)
            λ _ _. Follows-trail (values_frame (pos_part count) next next refl) λ r n h. both h

  set_frame : Both (parse_set x rec buf) (frame_array x rec' buf)
  unfolding parse_set frame_array
  set_frame = Follows-after (read_int x buf) λ (count, next) _.
      Follows-refuse_if (is_negative count) _ _ λ _.
        Follows-left (with_capacity _ _)
          λ _ _. Follows-trail (values_frame (pos_part count) next next refl) λ r n h. both h

  push_items_frame :
      (more next : ℕ)
      → Both (parse_push_items x rec buf more next) (frame_values rec' buf (suc more) next)
  unfolding parse_push_items frame_values
  push_items_frame more next = Follows-bind (agree (drop next buf)) λ (kind_val, consumed) n h.
      Follows-left (kind_of kind_val) λ kind _. Follows-left (with_capacity _ _) λ _ _.
        Follows-trail (values_frame more (next + consumed) (next + n) (ap (λ k. next + k) h))
          λ r m h'. both h'

  -- The kind of a push message is the first of its elements.
  push_frame : Both (parse_push x rec buf) (frame_array x rec' buf)
  unfolding parse_push frame_array
  push_frame = Follows-after (read_int x buf) λ (count, next) _.
      Follows-refuse_if (is_negative count) _ _ λ _.
        Follows-refuse_left (pos_part count == 0) _ λ some.
          let e : pos_part count ≡ suc (pos_part count - 1) = ground arith in
          subst
            (λ k.
              Both (parse_push_items x rec buf (pos_part count - 1) next)
                (frame_values rec' buf k next))
            (sym e) (push_items_frame (pos_part count - 1) next)

  map_frame : Both (parse_map x rec buf) (frame_map x rec' buf)
  unfolding parse_map frame_map
  map_frame = Follows-after (read_int x buf) λ (count, next) _.
      Follows-after (refuse (is_negative count) _) λ _ _.
        Follows-left (with_capacity _ _)
          λ _ _. Follows-trail (pairs_frame (pos_part count) next next refl) λ r n h. both h

  attribute_frame : Both (parse_attribute x rec buf) (frame_attribute x rec' buf)
  unfolding parse_attribute frame_attribute
  attribute_frame = Follows-after (read_int x buf) λ (count, next) _.
      Follows-after (refuse (is_negative count) _) λ _ _. Follows-left (with_capacity _ _) λ _ _.
        Follows-bind (pairs_frame (pos_part count) next next refl) λ (attributes, stop) stop' h.
          rw (← h) (
            Follows-bind (agree (drop stop buf))
              λ (val, consumed) n h'. both (ap (λ k. stop + k) h'))

  tag_frame : (t : Tag) → Both (parse_tag x rec buf t) (frame_tag x rec' buf t)
  unfolding parse_tag frame_tag
  tag_frame Tag.plus = simple_string_frame x buf
  tag_frame Tag.minus = simple_error_frame x buf
  tag_frame Tag.colon = integer_frame x buf
  tag_frame Tag.dollar = bulk_string_frame x buf
  tag_frame Tag.star = array_frame
  tag_frame Tag.underscore = null_frame x buf
  tag_frame Tag.hash = boolean_frame x buf
  tag_frame Tag.comma = double_frame x buf
  tag_frame Tag.paren = big_number_frame x buf
  tag_frame Tag.bang = bulk_error_frame x buf
  tag_frame Tag.equals = verbatim_frame x buf
  tag_frame Tag.percent = map_frame
  tag_frame Tag.tilde = set_frame
  tag_frame Tag.greater = push_frame
  tag_frame Tag.bar = attribute_frame
  tag_frame (Tag.unknown other) = fails

within_frame :
    (x : External) (fuel : ℕ) (buf : Bytes)
    → Both (parse_within x fuel buf) (frame_within x fuel buf)
unfolding parse_within frame_within
within_frame x zero buf = starves
within_frame x (suc fuel) [] = fails
within_frame x (suc fuel) (b ∷ s) =
    tag_frame x (parse_within x fuel) (frame_within x fuel) (b ∷ s) (within_frame x fuel) (tag_of b)

-- Wherever `parse` reads a value, of any type and however deep, `resp_frame_len` measures exactly
-- the bytes that `parse` consumes.
pub resp_frame_len-parse :
    (x : External) (buf : Bytes) (v : RespValue) (n : ℕ)
    → parse x buf ≡ ok (v, n)
    → resp_frame_len x buf ≡ ok n
unfolding parse resp_frame_len
resp_frame_len-parse x buf v n e =
    let (m, measured, same_length) = Follows-ok (within_frame x (suc (length buf)) buf) e in cc
