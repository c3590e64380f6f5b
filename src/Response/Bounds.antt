-- ===== src/Response/Bounds.antt =====
-- parse_to_python of src/response.rs: it ends, and what it consumes.
pub mod Line
use pyrsedis.Prelude.{
  ℕ, zero, suc, ◌+◌, ◌≤◌, ◌<◌, ◌≡◌, ◌⊎◌, inl, inr, refl, sym, subst, Bool, Option, Option-cases,
  none, some, [], ◌∷◌, Bytes, length, get_elem?, ltb, ltb→le, arith, ℤ, pos_part, is_negative,
  if◌then◌else◌,
}
use pyrsedis.Error.{PyrsedisError}
use pyrsedis.External.{External}
use pyrsedis.Resp.Tag.{Tag, tag_of}
use pyrsedis.Response.Bounds.Line.{
  Ahead, read_line-Yields, read_int-Yields, utf8-Yields, ok_or-Yields, validated-Yields,
  text_end-Yields,
}
use pyrsedis.Response.Fused.{
  max_parse_depth, Converted, build_pylist, build_dict, build_set, inner_simple_string, inner_error,
  inner_integer, inner_bulk_string, inner_null, inner_boolean, inner_double, inner_big_number,
  inner_bulk_error, inner_verbatim, inner_list, inner_array, inner_map, inner_set, inner_push,
  inner_attribute, inner_tag, inner_at, parse_inner, parse_fuel, parse_to_python,
}
use pyrsedis.Response.Fused.Line.{fused_read_int}
use pyrsedis.Response.Python.{Python, PyResult, done, ◌>>=◌, ◌>>◌, lift, raise_if}
use pyrsedis.Response.Python.Rules.{
  Yields, yields, raises, Yields-weaken, Yields-bind, Yields-of, Yields-if, Yields-raise_if,
}

module _ (py : Python) (x : External) (buf : Bytes) (d : Bool) where
  simple_string-Yields : (at : ℕ) → Yields (Ahead buf at) (inner_simple_string py x buf d at)
  unfolding inner_simple_string
  simple_string-Yields at =
      Yields-bind (read_line-Yields x buf (at + 1))
        λ (line, next) (lo, hi). Yields-bind (utf8-Yields _ line) λ s _. yields (omega arith, hi)

  error-Yields : (at : ℕ) → Yields (Ahead buf at) (inner_error py x buf d at)
  unfolding inner_error
  error-Yields at = Yields-bind (read_line-Yields x buf (at + 1)) λ r _. raises

  integer-Yields : (at : ℕ) → Yields (Ahead buf at) (inner_integer py x buf d at)
  unfolding inner_integer
  integer-Yields at =
      Yields-bind (read_int-Yields x buf (at + 1)) λ (n, next) (lo, hi). yields (omega arith, hi)

  bulk_string-Yields : (at : ℕ) → Yields (Ahead buf at) (inner_bulk_string py x buf d at)
  unfolding inner_bulk_string
  bulk_string-Yields at = Yields-bind (read_int-Yields x buf (at + 1)) λ (n, next) (lo, hi).
      Yields-if (is_negative n) (λ _. yields (omega arith, hi))
        λ _.
          Yields-bind (text_end-Yields buf next (pos_part n))
            λ total (lo', hi'). yields (omega arith, hi')

  fixed-Yields :
      (at n : ℕ) (o : py.PyAny) (e : PyrsedisError)
      → 0 < n
      → Yields (Ahead buf at) (raise_if (ltb (length buf) (at + n)) e >> done (o, at + n))
  fixed-Yields at n o e p =
      Yields-raise_if (ltb (length buf) (at + n)) e
        λ enough. yields (omega arith, ltb→le (length buf) (at + n) enough)

  double-Yields : (at : ℕ) → Yields (Ahead buf at) (inner_double py x buf d at)
  unfolding inner_double
  double-Yields at = Yields-bind (read_line-Yields x buf (at + 1)) λ (line, next) (lo, hi).
      Yields-bind (utf8-Yields _ line)
        λ s _. Yields-bind (ok_or-Yields (x.parse_f64 s) _) λ f _. yields (omega arith, hi)

  big_number-Yields : (at : ℕ) → Yields (Ahead buf at) (inner_big_number py x buf d at)
  unfolding inner_big_number
  big_number-Yields at = Yields-bind (read_line-Yields x buf (at + 1)) λ (line, next) (lo, hi).
      Yields-raise_if _ _ λ _. Yields-bind (utf8-Yields _ line) λ s _.
        Yields-bind (Yields-of (py.int_of_str s) (py.int_of_str-ends s))
          λ o _. yields (omega arith, hi)

  bulk_error-Yields : (at : ℕ) → Yields (Ahead buf at) (inner_bulk_error py x buf d at)
  unfolding inner_bulk_error
  bulk_error-Yields at = Yields-bind (read_int-Yields x buf (at + 1)) λ (n, next) (lo, hi).
      Yields-raise_if _ _ λ _. Yields-bind (text_end-Yields buf next (pos_part n)) λ total _. raises

  verbatim-Yields : (at : ℕ) → Yields (Ahead buf at) (inner_verbatim py x buf d at)
  unfolding inner_verbatim
  verbatim-Yields at = Yields-bind (read_int-Yields x buf (at + 1)) λ (n, next) (lo, hi).
      Yields-raise_if _ _ λ _.
        Yields-bind (text_end-Yields buf next (pos_part n))
          λ total (lo', hi'). Yields-bind (utf8-Yields _ _) λ s _. yields (omega arith, hi')

  -- The types with elements, from what the call on each element promises.
  module _ (inner : ℕ → Converted py) (each : (q : ℕ) → Yields (Ahead buf q) (inner q)) where
    -- Where the loops stop.
    abbrev Along : {A : Type 0} → ℕ → A × ℕ → Type 0
    Along next r = (next ≤ r.1) × (r.1 ≤ length buf)

    pylist-Yields :
        (many next : ℕ) → next ≤ length buf → Yields (Along next) (build_pylist py inner many next)
    unfolding build_pylist
    pylist-Yields zero next le = yields (omega arith, le)
    pylist-Yields (suc many) next le = Yields-bind (each next) λ (o, stop) (lo, hi).
        Yields-bind (pylist-Yields many stop hi) λ (os, stop') (lo', hi'). yields (omega arith, hi')

    dict-Yields :
        (many next : ℕ) (dict : py.PyDict)
        → next ≤ length buf
        → Yields (Along next) (build_dict py inner dict many next)
    unfolding build_dict
    dict-Yields zero next dict le = yields (omega arith, le)
    dict-Yields (suc many) next dict le = Yields-bind (each next) λ (key, end_k) (lo, hi).
        Yields-bind (each end_k) λ (val, end_v) (lo', hi').
          Yields-bind (Yields-of _ (py.set_item-ends dict key val)) λ dict' _.
            Yields-weaken (dict-Yields many end_v dict' hi') λ r (lo'', hi''). (omega arith, hi'')

    set-Yields :
        (many next : ℕ) (set : py.PySet)
        → next ≤ length buf
        → Yields (Along next) (build_set py inner set many next)
    unfolding build_set
    set-Yields zero next set le = yields (omega arith, le)
    set-Yields (suc many) next set le = Yields-bind (each next) λ (o, stop) (lo, hi).
        Yields-bind (Yields-of _ (py.add-ends set o))
          λ set' _. Yields-weaken (set-Yields many stop set' hi) λ r (lo', hi'). (omega arith, hi')

    list-Yields :
        (at many next : ℕ)
        → at < next
        → next ≤ length buf
        → Yields (Ahead buf at) (inner_list py x buf d inner many next)
    unfolding inner_list
    list-Yields at many next lo hi =
        Yields-bind (pylist-Yields many next hi) λ (os, stop) (lo', hi'). yields (omega arith, hi')

    -- The header of an aggregate.
    header-Yields :
        (at : ℕ) {Q : py.PyAny × ℕ → Type 0} {f : ℤ × ℕ → Converted py}
        → ((r : ℤ × ℕ) → at + 1 < r.1 → r.1 ≤ length buf → Yields Q (f r))
        → Yields Q (lift (fused_read_int x buf (at + 1)) >>= f)
    header-Yields at k = Yields-bind (read_int-Yields x buf (at + 1)) λ r (lo, hi). k r lo hi

    tag-Yields : (at : ℕ) (t : Tag) → Yields (Ahead buf at) (inner_tag py x buf d inner at t)
    unfolding inner_tag inner_null inner_boolean inner_array inner_map inner_set inner_push
        inner_attribute
    tag-Yields at Tag.plus = simple_string-Yields at
    tag-Yields at Tag.minus = error-Yields at
    tag-Yields at Tag.colon = integer-Yields at
    tag-Yields at Tag.dollar = bulk_string-Yields at
    tag-Yields at Tag.star = header-Yields at λ (n, next) lo hi.
        Yields-if (is_negative n) (λ _. yields (omega arith, hi))
          λ _. Yields-bind (validated-Yields n) λ many _. list-Yields at many next (omega arith) hi
    tag-Yields at Tag.underscore = fixed-Yields at 3 _ _ (omega arith)
    tag-Yields at Tag.hash = fixed-Yields at 4 _ _ (omega arith)
    tag-Yields at Tag.comma = double-Yields at
    tag-Yields at Tag.paren = big_number-Yields at
    tag-Yields at Tag.bang = bulk_error-Yields at
    tag-Yields at Tag.equals = verbatim-Yields at
    tag-Yields at Tag.percent = header-Yields at λ (n, next) lo hi.
        Yields-bind (validated-Yields n) λ many _.
          Yields-bind (dict-Yields many next py.empty_dict hi)
            λ (dict, stop) (lo', hi'). yields (omega arith, hi')
    tag-Yields at Tag.tilde = header-Yields at λ (n, next) lo hi.
        Yields-bind (validated-Yields n) λ many _.
          Yields-bind (set-Yields many next py.empty_set hi)
            λ (set, stop) (lo', hi'). yields (omega arith, hi')
    tag-Yields at Tag.greater = header-Yields at λ (n, next) lo hi.
        Yields-bind (validated-Yields n) λ many _. list-Yields at many next (omega arith) hi
    tag-Yields at Tag.bar = header-Yields at λ (n, next) lo hi.
        Yields-bind (validated-Yields n) λ many _.
          Yields-bind (dict-Yields many next py.empty_dict hi) λ (attrs, stop) (lo', hi').
            Yields-bind (each stop) λ (val, stop') (lo'', hi'').
              Yields-bind (Yields-of _ (py.set_item-ends _ _ _)) λ dict _.
                Yields-bind (Yields-of _ (py.set_item-ends _ _ _))
                  λ dict' _. yields (omega arith, hi'')
    tag-Yields at (Tag.unknown other) = raises

  inner-Yields :
      (fuel depth at : ℕ)
      → max_parse_depth + 1 < depth + fuel
      → 0 < fuel
      → Yields (Ahead buf at) (parse_inner py x buf d fuel depth at)
  unfolding parse_inner inner_at
  inner-Yields zero depth at h p = absurd (omega arith)
  inner-Yields (suc fuel) depth at h p = Yields-raise_if (ltb max_parse_depth depth) _ λ within.
      let shallow : depth ≤ max_parse_depth = ltb→le max_parse_depth depth within in
      elim (Option-cases (get_elem? buf at)) [
        | inl none_left ↦ rw none_left raises
        | inr (b, here) ↦ rw here (
            tag-Yields (parse_inner py x buf d fuel (suc depth))
              (λ q. inner-Yields fuel (suc depth) q (omega arith) (omega arith)) at (tag_of b))
      ]

-- parse_to_python returns or raises on every input, whatever the nesting that the input asks for: its
-- calls of itself are never more than 514 deep. Where it returns an object, that was read from at
-- least one byte and from no byte past the buffer.
pub parse_to_python_bounds :
    (py : Python) (x : External) (buf : Bytes) (decode : Bool)
    → Yields (λ r. (0 < r.1) × (r.1 ≤ length buf)) (parse_to_python py x buf decode)
unfolding parse_to_python parse_fuel
parse_to_python_bounds py x [] decode = raises
parse_to_python_bounds py x (b ∷ s) decode =
    inner-Yields py x (b ∷ s) decode 514 0 0 (omega arith) (omega arith)
