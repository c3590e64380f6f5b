-- ===== src/Response/Fused.antt =====
-- parse_to_python of src/response.rs: one pass from the bytes of a reply to Python objects. All
-- positions are offsets into the whole buffer. As for `parse`, the recursive call is an argument of
-- the functions that make it, and fuel ties the knot.
pub mod Line
use pyrsedis.Prelude.{
  ℕ, zero, suc, ◌+◌, ◌≡◌, Bool, true, false, ◌&&◌, Option, none, some, List, [], ◌∷◌, Bytes, codes,
  length, get_elem?, drop, take, ltb, leb, if◌then◌else◌, ℤ, pos_part, is_negative,
}
use pyrsedis.Error.{Part, protocol, incomplete, redis_error, unknown_type_byte}
use pyrsedis.Error.{
  negative_length, negative_count, count_too_large, too_deep, big_number_too_long, invalid_double,
}
use pyrsedis.External.{External}
use pyrsedis.Outcome.{ok_or}
use pyrsedis.Resp.Line.{byte_at, slice}
use pyrsedis.Resp.Parser.{utf8}
use pyrsedis.Resp.Tag.{Tag, tag_of}
use pyrsedis.Response.Convert.{decoded}
use pyrsedis.Response.Fused.Line.{fused_read_line, fused_read_int}
use pyrsedis.Response.Python.{
  Python, PyResult, done, raised, exhausted, from_error, ◌>>=◌, ◌>>◌, lift, raise_if,
}

-- MAX_RESP_ELEMENTS, MAX_PARSE_DEPTH and MAX_BIGNUMBER_LEN.
abbrev pub max_resp_elements : ℕ
max_resp_elements = 16777216

abbrev pub max_parse_depth : ℕ
max_parse_depth = 512

abbrev pub max_bignumber_len : ℕ
max_bignumber_len = 10000

unfoldable pub validated_count : ℤ → PyResult ℕ
validated_count count = do
  raise_if (is_negative count) (protocol (negative_count Part.array))
  raise_if (ltb max_resp_elements (pos_part count)) (protocol (count_too_large (pos_part count)))
  done (pos_part count)

-- The text of a verbatim string behind its prefix of 4 bytes, if it has one and more.
unfoldable pub verbatim_text : Bytes → Bytes
verbatim_text data_ = if ltb 4 (length data_) && byte_at data_ 3 b':' then drop 4 data_ else data_

-- Where a text of this length and its CR LF stop, if they are all there.
unfoldable pub text_end : Bytes → ℕ → ℕ → PyResult ℕ
text_end buf next len = do
  raise_if (ltb (length buf) (next + len + 2)) incomplete
  done (next + len + 2)

module _ (py : Python) where
  open py use {PyAny, PyDict, PySet}

  abbrev pub Converted : Type 0
  Converted = PyResult (PyAny × ℕ)

  -- The loops over the elements: `count` calls of parse_inner, each where the last one stopped.
  module _ (rec : ℕ → Converted) where
    unfoldable pub build_pylist : ℕ → ℕ → PyResult (List PyAny × ℕ)
    build_pylist zero pos = done ([], pos)
    build_pylist (suc count) pos = do
      (item, stop) ← rec pos
      (items, stop') ← build_pylist count stop
      done (item ∷ items, stop')

    unfoldable pub build_dict : PyDict → ℕ → ℕ → PyResult (PyDict × ℕ)
    build_dict dict zero next = done (dict, next)
    build_dict dict (suc count) next = do
      (key, end_k) ← rec next
      (val, end_v) ← rec end_k
      dict' ← py.set_item dict key val
      build_dict dict' count end_v

    unfoldable pub build_set : PySet → ℕ → ℕ → PyResult (PySet × ℕ)
    build_set set zero next = done (set, next)
    build_set set (suc count) next = do
      (item, stop) ← rec next
      set' ← py.add set item
      build_set set' count stop

  module _ (x : External) (buf : Bytes) (decode : Bool) where
    unfoldable pub inner_simple_string : ℕ → Converted
    inner_simple_string pos = do
      (line, next) ← lift (fused_read_line x buf (pos + 1))
      s ← lift (utf8 Part.simple_string line)
      done (py.str s, next)

    unfoldable pub inner_error : ℕ → Converted
    inner_error pos = do
      (line, next) ← lift (fused_read_line x buf (pos + 1))
      raised (from_error (redis_error (x.utf8_lossy line)))

    unfoldable pub inner_integer : ℕ → Converted
    inner_integer pos = do (n, next) ← lift (fused_read_int x buf (pos + 1)); done (py.int n, next)

    unfoldable pub inner_bulk_string : ℕ → Converted
    inner_bulk_string pos = do
      (len, next) ← lift (fused_read_int x buf (pos + 1))
      if is_negative len then done (py.nothing, next) else do
        total ← text_end buf next (pos_part len)
        let text = slice buf next (next + pos_part len)
        done (if decode then decoded py text else py.bytes text, total)

    unfoldable pub inner_null : ℕ → Converted
    inner_null pos = do raise_if (ltb (length buf) (pos + 3)) incomplete; done (py.nothing, pos + 3)

    unfoldable pub inner_boolean : ℕ → Converted
    inner_boolean pos = do
      raise_if (ltb (length buf) (pos + 4)) incomplete
      done (py.bool (byte_at buf (pos + 1) b't'), pos + 4)

    unfoldable pub inner_double : ℕ → Converted
    inner_double pos = do
      (line, next) ← lift (fused_read_line x buf (pos + 1))
      s ← lift (utf8 Part.double line)
      f ← lift (ok_or (x.parse_f64 s) (protocol invalid_double))
      done (py.float f, next)

    unfoldable pub inner_big_number : ℕ → Converted
    inner_big_number pos = do
      (line, next) ← lift (fused_read_line x buf (pos + 1))
      raise_if (ltb max_bignumber_len (length line)) (protocol (big_number_too_long (length line)))
      s ← lift (utf8 Part.big_number line)
      py_int ← py.int_of_str s
      done (py_int, next)

    unfoldable pub inner_bulk_error : ℕ → Converted
    inner_bulk_error pos = do
      (len, next) ← lift (fused_read_int x buf (pos + 1))
      raise_if (is_negative len) (protocol (negative_length Part.bulk_error))
      total ← text_end buf next (pos_part len)
      raised (from_error (redis_error (x.utf8_lossy (slice buf next (next + pos_part len)))))

    unfoldable pub inner_verbatim : ℕ → Converted
    inner_verbatim pos = do
      (len, next) ← lift (fused_read_int x buf (pos + 1))
      raise_if (is_negative len) (protocol (negative_length Part.verbatim))
      total ← text_end buf next (pos_part len)
      s ← lift (utf8 Part.verbatim (verbatim_text (slice buf next (next + pos_part len))))
      done (py.str s, total)

    -- The types with elements; `rec` is parse_inner one level deeper.
    module _ (rec : ℕ → Converted) where
      unfoldable pub inner_list : ℕ → ℕ → Converted
      inner_list count next = do
        (items, stop) ← build_pylist rec count next
        done (py.list items, stop)

      unfoldable pub inner_array : ℕ → Converted
      inner_array pos = do
        (count, next) ← lift (fused_read_int x buf (pos + 1))
        if is_negative count
            then done (py.nothing, next)
            else do n ← validated_count count; inner_list n next

      unfoldable pub inner_map : ℕ → Converted
      inner_map pos = do
        (count, next) ← lift (fused_read_int x buf (pos + 1))
        n ← validated_count count
        (dict, stop) ← build_dict rec py.empty_dict n next
        done (py.dict dict, stop)

      unfoldable pub inner_set : ℕ → Converted
      inner_set pos = do
        (count, next) ← lift (fused_read_int x buf (pos + 1))
        n ← validated_count count
        (set, stop) ← build_set rec py.empty_set n next
        done (py.set set, stop)

      unfoldable pub inner_push : ℕ → Converted
      inner_push pos = do
        (count, next) ← lift (fused_read_int x buf (pos + 1))
        n ← validated_count count
        inner_list n next

      unfoldable pub inner_attribute : ℕ → Converted
      inner_attribute pos = do
        (count, next) ← lift (fused_read_int x buf (pos + 1))
        n ← validated_count count
        (attrs_dict, stop) ← build_dict rec py.empty_dict n next
        (val, stop') ← rec stop
        dict ← py.set_item py.empty_dict (py.str (codes "__attrs__")) (py.dict attrs_dict)
        dict' ← py.set_item dict (py.str (codes "__data__")) val
        done (py.dict dict', stop')

      -- The match of parse_inner on the type byte.
      unfoldable pub inner_tag : ℕ → Tag → Converted
      inner_tag pos Tag.plus = inner_simple_string pos
      inner_tag pos Tag.minus = inner_error pos
      inner_tag pos Tag.colon = inner_integer pos
      inner_tag pos Tag.dollar = inner_bulk_string pos
      inner_tag pos Tag.star = inner_array pos
      inner_tag pos Tag.underscore = inner_null pos
      inner_tag pos Tag.hash = inner_boolean pos
      inner_tag pos Tag.comma = inner_double pos
      inner_tag pos Tag.paren = inner_big_number pos
      inner_tag pos Tag.bang = inner_bulk_error pos
      inner_tag pos Tag.equals = inner_verbatim pos
      inner_tag pos Tag.percent = inner_map pos
      inner_tag pos Tag.tilde = inner_set pos
      inner_tag pos Tag.greater = inner_push pos
      inner_tag pos Tag.bar = inner_attribute pos
      inner_tag pos (Tag.unknown other) = raised (from_error (protocol (unknown_type_byte other)))

      unfoldable pub inner_at : ℕ → Option ℕ → Converted
      inner_at pos none = raised (from_error incomplete)
      inner_at pos (some b) = inner_tag pos (tag_of b)

    -- parse_inner, with a bound on the depth of its recursion; `depth` comes before `pos`.
    unfoldable pub parse_inner : ℕ → ℕ → ℕ → Converted
    parse_inner zero depth pos = exhausted
    parse_inner (suc fuel) depth pos = do
      raise_if (ltb max_parse_depth depth) (protocol too_deep)
      inner_at (parse_inner fuel (suc depth)) pos (get_elem? buf pos)

  -- Each call inside another is one level deeper, and none looks at its bytes past the limit.
  unfoldable pub parse_fuel : ℕ
  parse_fuel = max_parse_depth + 2

  unfoldable pub parse_to_python : External → Bytes → Bool → Converted
  parse_to_python x [] decode = raised (from_error incomplete)
  parse_to_python x (b ∷ s) decode = parse_inner x (b ∷ s) decode parse_fuel 0 0
