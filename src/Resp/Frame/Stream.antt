-- ===== src/Resp/Frame/Stream.antt =====
-- `resp_frame_len` of src/resp/parser.rs on a growing buffer.
use pyrsedis.Prelude.{
  ℕ, zero, suc, ◌+◌, ◌≤◌, ◌<◌, ◌≡◌, ◌≢◌, refl, [], ◌∷◌, ◌++◌, Bytes, length, length-drop,
  length-append, drop, drop-append_left, ltb, arith, pos_part, is_negative,
}
use pyrsedis.Error.{incomplete}
use pyrsedis.External.{External}
use pyrsedis.Outcome.{Outcome, fail}
use pyrsedis.Outcome.Rules.{
  Ensures, Ensures-weaken, Ensures-ok, Ensures-stuck, Settles, same, waits, starves, Settles-if,
  Settles-bind, Settles-enough, Settles-refuse, Settles-eq,
}
use pyrsedis.Resp.Frame.{
  frame_line, frame_bulk, frame_fixed, frame_values, frame_pairs, frame_array, frame_map,
  frame_attribute, frame_tag, frame_within, resp_frame_len,
}
use pyrsedis.Resp.Frame.Bounds.{
  Inside, rec_bounds, pairs_bounds, frame_within_bounds, resp_frame_len_bounds,
}
use pyrsedis.Resp.Line.Laws.{read_line-append}
use pyrsedis.Resp.Parser.Inline.{read_int_bounds}
use pyrsedis.Resp.Parser.Stream.Inline.{read_int-Settles}
use pyrsedis.Resp.Tag.{Tag, tag_of}

module _ (x : External) (rec rec' : Bytes → Outcome ℕ) (buf more : Bytes) {S : Type 0}
    (full : 0 < length buf)
    (shorter : (s : Bytes) → length s < length buf → Ensures S (Inside s) (rec s))
    (settle : (s : Bytes) → length s < length buf → Settles (rec s) (rec' (s ++ more))) where
  rec-Settles :
      (next : ℕ)
      → 0 < next
      → next ≤ length buf
      → Settles (rec (drop next buf)) (rec' (drop next (buf ++ more)))
  rec-Settles next p le =
      rw (drop-append_left next buf more le)
        (settle (drop next buf) (omega (arith, length-drop next buf)))

  values-Settles :
      (count next : ℕ)
      → 0 < next
      → next ≤ length buf
      → Settles (frame_values rec buf count next) (frame_values rec' (buf ++ more) count next)
  unfolding frame_values
  values-Settles zero next p le = same refl
  values-Settles (suc count) next p le = Settles-bind (rec-Settles next p le) λ n e.
      let (lo, hi) = Ensures-ok (rec_bounds x rec buf shorter next p le) e in
      values-Settles count (next + n) (omega arith) hi

  pairs-Settles :
      (count next : ℕ)
      → 0 < next
      → next ≤ length buf
      → Settles (frame_pairs rec buf count next) (frame_pairs rec' (buf ++ more) count next)
  unfolding frame_pairs
  pairs-Settles zero next p le = same refl
  pairs-Settles (suc count) next p le = Settles-bind (rec-Settles next p le) λ n e.
      let (lo, hi) = Ensures-ok (rec_bounds x rec buf shorter next p le) e in
      Settles-bind (rec-Settles (next + n) (omega arith) hi) λ k e'.
        let (lo', hi') = Ensures-ok (rec_bounds x rec buf shorter (next + n) (omega arith) hi) e' in
        pairs-Settles count (next + n + k) (omega arith) hi'

  line-Settles : Settles (frame_line x buf) (frame_line x (buf ++ more))
  unfolding frame_line
  line-Settles = Settles-bind (read_line-append x buf more 1 full) λ r _. same refl

  fixed-Settles : (n : ℕ) → Settles (frame_fixed n buf) (frame_fixed n (buf ++ more))
  unfolding frame_fixed
  fixed-Settles n =
      Settles-enough (ltb (length buf) n) (ltb (length (buf ++ more)) n)
        (λ h. ground (arith, length-append buf more)) λ _. same refl

  bulk-Settles : Settles (frame_bulk x buf) (frame_bulk x (buf ++ more))
  unfolding frame_bulk
  bulk-Settles = Settles-bind (read_int-Settles x buf more full) λ (len, next) e.
      Settles-if (is_negative len) (λ _. same refl)
        λ _.
          Settles-enough (ltb (length buf) (next + pos_part len + 2))
            (ltb (length (buf ++ more)) (next + pos_part len + 2))
            (λ h. ground (arith, length-append buf more)) λ _. same refl

  array-Settles : Settles (frame_array x rec buf) (frame_array x rec' (buf ++ more))
  unfolding frame_array
  array-Settles = Settles-bind (read_int-Settles x buf more full) λ (count, next) e.
      let (lo, hi) = Ensures-ok (read_int_bounds x buf) e in
      Settles-if (is_negative count) (λ _. same refl)
        λ _. values-Settles (pos_part count) next (omega arith) hi

  map-Settles : Settles (frame_map x rec buf) (frame_map x rec' (buf ++ more))
  unfolding frame_map
  map-Settles = Settles-bind (read_int-Settles x buf more full) λ (count, next) e.
      let (lo, hi) = Ensures-ok (read_int_bounds x buf) e in
      Settles-refuse _ _ _ refl λ _. pairs-Settles (pos_part count) next (omega arith) hi

  attribute-Settles : Settles (frame_attribute x rec buf) (frame_attribute x rec' (buf ++ more))
  unfolding frame_attribute
  attribute-Settles = Settles-bind (read_int-Settles x buf more full) λ (count, next) e.
      let (lo, hi) = Ensures-ok (read_int_bounds x buf) e in
      Settles-refuse _ _ _ refl λ _.
        Settles-bind (pairs-Settles (pos_part count) next (omega arith) hi) λ stop e'.
          let (lo', hi') =
            Ensures-ok (pairs_bounds x rec buf shorter (pos_part count) next (omega arith) hi) e' in
          Settles-bind (rec-Settles stop lo' hi') λ r _. same refl

  tag-Settles : (t : Tag) → Settles (frame_tag x rec buf t) (frame_tag x rec' (buf ++ more) t)
  unfolding frame_tag
  tag-Settles Tag.plus = line-Settles
  tag-Settles Tag.minus = line-Settles
  tag-Settles Tag.colon = line-Settles
  tag-Settles Tag.comma = line-Settles
  tag-Settles Tag.paren = line-Settles
  tag-Settles Tag.underscore = fixed-Settles 3
  tag-Settles Tag.hash = fixed-Settles 4
  tag-Settles Tag.dollar = bulk-Settles
  tag-Settles Tag.bang = bulk-Settles
  tag-Settles Tag.equals = bulk-Settles
  tag-Settles Tag.star = array-Settles
  tag-Settles Tag.tilde = array-Settles
  tag-Settles Tag.greater = array-Settles
  tag-Settles Tag.percent = map-Settles
  tag-Settles Tag.bar = attribute-Settles
  tag-Settles (Tag.unknown other) = same refl

frame_within-Settles :
    (x : External) (fuel fuel' : ℕ) (buf more : Bytes)
    → fuel ≤ fuel'
    → Settles (frame_within x fuel buf) (frame_within x fuel' (buf ++ more))
unfolding frame_within
frame_within-Settles x zero fuel' buf more le = starves
frame_within-Settles x (suc fuel) zero buf more le = absurd (omega arith)
frame_within-Settles x (suc fuel) (suc fuel') [] more le = waits
frame_within-Settles x (suc fuel) (suc fuel') (b ∷ s) more le =
    tag-Settles x (frame_within x fuel) (frame_within x fuel') (b ∷ s) more {S = Unit {0}}
      (omega arith) (λ t lt. Ensures-weaken (frame_within_bounds x fuel t) (λ h. tt) (λ r h. h))
      (λ t lt. frame_within-Settles x fuel fuel' t more (omega arith)) (tag_of b)

-- Every answer of `resp_frame_len` but `Incomplete`, a length as well as an error, stands however the
-- buffer goes on.
pub resp_frame_len-append :
    (x : External) (buf more : Bytes)
    → resp_frame_len x buf ≢ fail incomplete
    → resp_frame_len x (buf ++ more) ≡ resp_frame_len x buf
resp_frame_len-append x buf more h =
    Settles-eq grown h (λ e. Ensures-stuck (resp_frame_len_bounds x buf) e)
  where
    grown : Settles (resp_frame_len x buf) (resp_frame_len x (buf ++ more))
    grown =
        unfold resp_frame_len in
        frame_within-Settles x (suc (length buf)) (suc (length (buf ++ more))) buf more
          (omega (arith, length-append buf more))
