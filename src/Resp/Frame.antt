-- ===== src/Resp/Frame.antt =====
-- `resp_frame_len` of src/resp/parser.rs: the length of the value at the front of a buffer, with no
-- value built. As for `parse`, the recursive call is an argument, and fuel ties the knot.
pub mod Bounds
pub mod Agreement
pub mod Stream
use pyrsedis.Prelude.{
  ℕ, zero, suc, ◌+◌, [], ◌∷◌, Bytes, length, drop, ltb, if◌then◌else◌, pos_part, is_negative,
}
use pyrsedis.Error.{Part, protocol, incomplete, unknown_type_byte, negative_count}
use pyrsedis.External.{External}
use pyrsedis.Outcome.{Outcome, ok, fail, stuck, ◌>>=◌, ◌>>◌, refuse}
use pyrsedis.Resp.Line.{read_line}
use pyrsedis.Resp.Parser.{read_int}
use pyrsedis.Resp.Tag.{Tag, tag_of}

-- Simple line types.
unfoldable pub frame_line : External → Bytes → Outcome ℕ
frame_line x buf = do (line, next) ← read_line x buf 1; ok next

-- Bulk string, bulk error and verbatim string.
unfoldable pub frame_bulk : External → Bytes → Outcome ℕ
frame_bulk x buf = do
  (len, next) ← read_int x buf
  if is_negative len then ok next else do
    refuse (ltb (length buf) (next + pos_part len + 2)) incomplete
    ok (next + pos_part len + 2)

unfoldable pub frame_fixed : ℕ → Bytes → Outcome ℕ
frame_fixed n buf = do refuse (ltb (length buf) n) incomplete; ok n

module _ (rec : Bytes → Outcome ℕ) (buf : Bytes) where
  unfoldable pub frame_values : ℕ → ℕ → Outcome ℕ
  frame_values zero next = ok next
  frame_values (suc count) next = do
    child_len ← rec (drop next buf)
    frame_values count (next + child_len)

  unfoldable pub frame_pairs : ℕ → ℕ → Outcome ℕ
  frame_pairs zero next = ok next
  frame_pairs (suc count) next = do
    k_len ← rec (drop next buf)
    v_len ← rec (drop (next + k_len) buf)
    frame_pairs count (next + k_len + v_len)

module _ (x : External) (rec : Bytes → Outcome ℕ) (buf : Bytes) where
  unfoldable pub frame_array : Outcome ℕ
  frame_array = do
    (count, next) ← read_int x buf
    if is_negative count then ok next else frame_values rec buf (pos_part count) next

  unfoldable pub frame_map : Outcome ℕ
  frame_map = do
    (count, next) ← read_int x buf
    refuse (is_negative count) (protocol (negative_count Part.map))
    frame_pairs rec buf (pos_part count) next

  unfoldable pub frame_attribute : Outcome ℕ
  frame_attribute = do
    (count, next) ← read_int x buf
    refuse (is_negative count) (protocol (negative_count Part.attribute))
    stop ← frame_pairs rec buf (pos_part count) next
    data_len ← rec (drop stop buf)
    ok (stop + data_len)

  unfoldable pub frame_tag : Tag → Outcome ℕ
  frame_tag Tag.plus = frame_line x buf
  frame_tag Tag.minus = frame_line x buf
  frame_tag Tag.colon = frame_line x buf
  frame_tag Tag.comma = frame_line x buf
  frame_tag Tag.paren = frame_line x buf
  frame_tag Tag.underscore = frame_fixed 3 buf
  frame_tag Tag.hash = frame_fixed 4 buf
  frame_tag Tag.dollar = frame_bulk x buf
  frame_tag Tag.bang = frame_bulk x buf
  frame_tag Tag.equals = frame_bulk x buf
  frame_tag Tag.star = frame_array
  frame_tag Tag.tilde = frame_array
  frame_tag Tag.greater = frame_array
  frame_tag Tag.percent = frame_map
  frame_tag Tag.bar = frame_attribute
  frame_tag (Tag.unknown other) = fail (protocol (unknown_type_byte other))

unfoldable pub frame_within : External → ℕ → Bytes → Outcome ℕ
frame_within x zero buf = stuck
frame_within x (suc fuel) [] = fail incomplete
frame_within x (suc fuel) (b ∷ s) = frame_tag x (frame_within x fuel) (b ∷ s) (tag_of b)

unfoldable pub resp_frame_len : External → Bytes → Outcome ℕ
resp_frame_len x buf = frame_within x (suc (length buf)) buf
