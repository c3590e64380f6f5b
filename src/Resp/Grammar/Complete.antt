-- ===== src/Resp/Grammar/Complete.antt =====
-- src/resp/parser.rs: `parse` on the texts of the grammar, with more bytes behind them.
use pyrsedis.Prelude.{
  ℕ, zero, suc, ◌+◌, ◌<◌, ◌≡◌, refl, subst, [], ◌∷◌, ◌++◌, append_assoc, Bytes, codes, length,
  length-append, arith, ℤ, is_negative, true, false, ap, sym,
}
use pyrsedis.External.{External}
use pyrsedis.Outcome.{ok, refuse}
use pyrsedis.Resp.Grammar.{line, Wire, WireAll, WirePairs, Decimal}
use pyrsedis.Resp.Grammar.Aggregate.{
  values_step, pairs_step, ReadsValues, ReadsPairs, array-written, set-written, map-written,
  attribute-written, push-written,
}
use pyrsedis.Resp.Grammar.Inline.{
  simple_string-written, simple_error-written, integer-written, double-written, big_number-written,
  bulk_string-written, null_bulk-written, bulk_error-written, verbatim-written,
}
use pyrsedis.Resp.Grammar.Numbers.{length-line, read_int-line}
use pyrsedis.Resp.Line.{cr, lf, byte_at}
use pyrsedis.Resp.Parser.{
  ends_at, boolean_of, parse_null, parse_boolean, parse_array, parse_values, parse_pairs, parse_tag,
  parse_within, parse, Parsed,
}
use pyrsedis.Resp.Tag.{tag_of}
use pyrsedis.Resp.Types.{RespValue, Values, Pairs, count, count_pairs, nil, end}

null-written : (rest : Bytes) → parse_null (line b'_' [] rest) ≡ ok (RespValue.null, 3)
unfolding parse_null refuse ends_at byte_at
null-written rest = ground arith

yes-written :
    (rest : Bytes) → parse_boolean (line b'#' (codes "t") rest) ≡ ok (RespValue.boolean true, 4)
unfolding parse_boolean refuse ends_at byte_at boolean_of
yes-written rest = ground arith

no-written :
    (rest : Bytes) → parse_boolean (line b'#' (codes "f") rest) ≡ ok (RespValue.boolean false, 4)
unfolding parse_boolean refuse ends_at byte_at boolean_of
no-written rest = ground arith

null_array-written :
    (x : External) (rec : Bytes → Parsed) {i : ℤ} {t : Bytes} (rest : Bytes)
    → Decimal i t
    → is_negative i ≡ true
    → parse_array x rec (line b'*' t rest) ≡ ok (RespValue.null, length t + 3)
unfolding parse_array
null_array-written x rec rest d h = rw (read_int-line x b'*' rest d, h)

module _ (x : External) where
  -- A value behind its type byte, from what the function of that byte returns on it.
  shape :
      (f mark : ℕ) (t r rest : Bytes) (v : RespValue) (n : ℕ)
      → parse_tag x (parse_within x f) (line mark t (r ++ rest)) (tag_of mark) ≡ ok (v, n)
      → n ≡ length t + 3 + length r
      → parse_within x (suc f) (line mark t r ++ rest) ≡ ok (v, length (line mark t r))
  unfolding parse_within
  shape f mark t r rest v n h size =
      let whole : n ≡ length (line mark t r) = omega (arith, length-line mark t r) in
      rw (append_assoc t (cr ∷ lf ∷ r) rest, h) (ap (λ m. ok (v, m)) whole)

  -- The same of a text and its terminator.
  shape_text :
      (f mark : ℕ) (t s rest : Bytes) (v : RespValue) (n : ℕ)
      → parse_tag x (parse_within x f) (line mark t (s ++ cr ∷ lf ∷ rest)) (tag_of mark) ≡ ok (v, n)
      → n ≡ length t + 3 + length s + 2
      → parse_within x (suc f) (line mark t (s ++ cr ∷ lf ∷ []) ++ rest)
        ≡ ok (v, length (line mark t (s ++ cr ∷ lf ∷ [])))
  shape_text f mark t s rest v n h size =
      shape f mark t (s ++ cr ∷ lf ∷ []) rest v n
        (subst (λ z. parse_tag x (parse_within x f) (line mark t z) (tag_of mark) ≡ ok (v, n))
          (sym (append_assoc s (cr ∷ lf ∷ []) rest)) h)
        (omega (arith, length-append s (cr ∷ lf ∷ [])))

  -- A part of a value is shorter than the value, whose length is within the fuel.
  inside : (f mark : ℕ) (t r : Bytes) → length (line mark t r) < suc f → length r < f
  inside f mark t r h = omega (arith, length-line mark t r)

  left : (f : ℕ) (s r : Bytes) → length (s ++ r) < f → length s < f
  left f s r h = omega (arith, length-append s r)

  right : (f : ℕ) (s r : Bytes) → length (s ++ r) < f → length r < f
  right f s r h = omega (arith, length-append s r)

  mutual
    unfolding parse_tag tag_of parse_values parse_pairs count count_pairs

    reads :
        {v : RespValue} {s : Bytes}
        → Wire x v s
        → (fuel : ℕ) → length s < fuel
        → (rest : Bytes) → parse_within x fuel (s ++ rest) ≡ ok (v, length s)
    reads w zero h rest = absurd (omega arith)
    reads (Wire.simple_string {s} p u) (suc f) h rest =
        shape f b'+' s [] rest _ _ (simple_string-written x s rest p u) (omega arith)
    reads (Wire.error {s} p u) (suc f) h rest =
        shape f b'-' s [] rest _ _ (simple_error-written x s rest p u) (omega arith)
    reads (Wire.integer {i} {t} d) (suc f) h rest =
        shape f b':' t [] rest _ _ (integer-written x rest d) (omega arith)
    reads (Wire.bulk_string {s} {t} d) (suc f) h rest =
        shape_text f b'$' t s rest _ _ (bulk_string-written x s rest d) (omega arith)
    reads (Wire.null_bulk {i} {t} d neg) (suc f) h rest =
        shape f b'$' t [] rest _ _ (null_bulk-written x rest d neg) (omega arith)
    reads (Wire.null_array {i} {t} d neg) (suc f) h rest =
        shape f b'*' t [] rest _ _ (null_array-written x (parse_within x f) rest d neg)
          (omega arith)
    reads Wire.null (suc f) h rest = shape f b'_' [] [] rest _ 3 (null-written rest) (omega arith)
    reads Wire.yes_boolean (suc f) h rest =
        shape f b'#' (codes "t") [] rest _ 4 (yes-written rest) (omega arith)
    reads Wire.no_boolean (suc f) h rest =
        shape f b'#' (codes "f") [] rest _ 4 (no-written rest) (omega arith)
    reads (Wire.double {d} {s} p u fl) (suc f) h rest =
        shape f b',' s [] rest _ _ (double-written x s rest p u fl) (omega arith)
    reads (Wire.big_number {s} b) (suc f) h rest =
        shape f b'(' s [] rest _ _ (big_number-written x s rest b) (omega arith)
    reads (Wire.bulk_error {s} {t} d u) (suc f) h rest =
        shape_text f b'!' t s rest _ _ (bulk_error-written x s rest d u) (omega arith)
    reads (Wire.verbatim_string {a} {b} {c} {s} {t} d ue us) (suc f) h rest =
        shape_text f b'=' t (a ∷ b ∷ c ∷ b':' ∷ s) rest _ _
          (verbatim-written x a b c s rest d ue us) (omega arith)
    reads (Wire.array {vs} {s} {t} d room ws) (suc f) h rest =
        shape f b'*' t s rest _ _
          (array-written x (parse_within x f) s rest d room
            (reads_all ws f (inside f b'*' t s h) rest))
          refl
    reads (Wire.set {vs} {s} {t} d room ws) (suc f) h rest =
        shape f b'~' t s rest _ _
          (set-written x (parse_within x f) s rest d room
            (reads_all ws f (inside f b'~' t s h) rest))
          refl
    reads (Wire.map {ps} {s} {t} d room ws) (suc f) h rest =
        shape f b'%' t s rest _ _
          (map-written x (parse_within x f) s rest d room
            (reads_pairs ws f (inside f b'%' t s h) rest))
          refl
    reads (Wire.push {v} {vs} {kind} {s} {r} {t} d room w k ws) (suc f) h rest =
        let within = inside f b'>' t (s ++ r) h in
        shape f b'>' t (s ++ r) rest _ _
          (push-written x (parse_within x f) s r rest d room k
            (reads w f (left f s r within) (r ++ rest)) (reads_all ws f (right f s r within) rest))
          refl
    reads (Wire.attribute {ps} {v} {s} {r} {t} d room ws w) (suc f) h rest =
        let within = inside f b'|' t (s ++ r) h in
        shape f b'|' t (s ++ r) rest _ _
          (attribute-written x (parse_within x f) s r rest d room
            (reads_pairs ws f (left f s r within) (r ++ rest))
            (reads w f (right f s r within) rest))
          refl

    reads_all :
        {vs : Values} {s : Bytes}
        → WireAll x vs s
        → (fuel : ℕ) → length s < fuel
        → (rest : Bytes) → ReadsValues x (parse_within x fuel) vs s rest
    reads_all WireAll.no_values fuel h rest front = ap (λ n. ok (nil, n)) (omega arith)
    reads_all (WireAll.next_value {v} {vs} {s} {r} w ws) fuel h rest front =
        values_step (parse_within x fuel) front s r rest v vs
          (reads w fuel (left fuel s r h) (r ++ rest))
          (reads_all ws fuel (right fuel s r h) rest (front ++ s))

    reads_pairs :
        {ps : Pairs} {s : Bytes}
        → WirePairs x ps s
        → (fuel : ℕ) → length s < fuel
        → (rest : Bytes) → ReadsPairs x (parse_within x fuel) ps s rest
    reads_pairs WirePairs.no_pairs fuel h rest front = ap (λ n. ok (end, n)) (omega arith)
    reads_pairs (WirePairs.next_pair {k} {v} {ps} {s} {r} {q} wk wv ws) fuel h rest front =
        let both = left fuel (s ++ r) q h in
        pairs_step (parse_within x fuel) front s r q rest k v ps
          (reads wk fuel (left fuel s r both) (r ++ (q ++ rest)))
          (reads wv fuel (right fuel s r both) (q ++ rest))
          (reads_pairs ws fuel (right fuel (s ++ r) q h) rest ((front ++ s) ++ r))

-- The parser is complete for the grammar: on the text of a value, with anything behind it, it
-- returns that value and the length of its text.
pub parse-Wire :
    (x : External) {v : RespValue} {s : Bytes}
    → Wire x v s
    → (rest : Bytes) → parse x (s ++ rest) ≡ ok (v, length s)
unfolding parse
parse-Wire x {v} {s} w rest =
    reads x w (suc (length (s ++ rest))) (omega (arith, length-append s rest)) rest
